-- ===== src/Research/Records.antt =====
-- The records of app/research/control.py: what each constructor accepts.
use marketview.Research.Deadline.{Fault, value_error}
use marketview.Research.Python.{Python, is_digest, is_generation_id}
use native.Mathlib.Decide.{ℕ_discrete}
use marketview.Research.Domain.{
  GenerationManifest, GenerationManifest-discrete, GenerationVerification,
  GenerationVerification-discrete, from_point_ids, proves,
}
use marketview.Base.Texts.{Text}
use marketview.Base.Result.{Result, raise_if, ◌>>◌, ◌>>=◌, ok}
use marketview.Base.{
  ◌≡◌, refl, [], ◌∷◌, zero, suc, true, false, none, some, inl, inr, Eq, Bool, ℕ, Option, List,
  if◌then◌else◌, ltb, not, is_none, ◌||◌, ◌&&◌, is_some, ◌==◌, eqb, ℕ-Eq, List-Eq,
}
pub mod Codec
pub mod Decode
pub mod RoundTrip

pub data GenerationState : Type 0 where
  staged verified published aborted cleaned : GenerationState

pub data CleanupState : Type 0 where
  pending cleaned : CleanupState

pub data RetryState : Type 0 where
  succeeded failed : RetryState

pub data ReservationState : Type 0 where
  authorized committed released : ReservationState

pub data FailureStage : Type 0 where
  sec_fetch parsing_chunking embedding vector_staging vector_verification : FailureStage
  redis_publication cleanup checkpointing : FailureStage

pub record AccessionLease : Type 0 where
  pub accession_digest : Text
  pub owner_digest : Text

pub record GenerationStageRecord : Type 0 where
  pub manifest : GenerationManifest
  pub state : GenerationState
  pub verification : Option GenerationVerification

pub record SupersededCleanupRecord : Type 0 where
  pub superseded_manifest : GenerationManifest
  pub active_generation_id : Text
  pub state : CleanupState

pub record IngestionCheckpoint : Type 0 where
  pub job_digest : Text
  pub cursor_digest : Option Text
  pub processed_count : ℕ
  pub failed_count : ℕ
  pub complete : Bool

pub record IngestionRetryClaim : Type 0 where
  pub job_digest : Text
  pub attempt_digest : Text
  pub checkpoint_digest : Text
  pub cursor_digest : Text

pub record IngestionRetryResult : Type 0 where
  pub job_digest : Text
  pub attempt_digest : Text
  pub state : RetryState
  pub failure_stage : Option FailureStage
  pub inserted_count : ℕ
  pub removed_count : ℕ

pub record Reservation : Type 0 where
  pub reservation_digest : Text
  pub budget_digest : Text
  pub principal_digest : Text
  pub units : ℕ
  pub state : ReservationState

unfoldable pub GenerationStageRecord-discrete : Discrete GenerationStageRecord
GenerationStageRecord-discrete =
    hlevel (ℕ_discrete, GenerationManifest-discrete, GenerationVerification-discrete)

unfoldable pub SupersededCleanupRecord-discrete : Discrete SupersededCleanupRecord
SupersededCleanupRecord-discrete = hlevel (ℕ_discrete, GenerationManifest-discrete)

unfoldable pub AccessionLease-discrete : Discrete AccessionLease
AccessionLease-discrete = hlevel ℕ_discrete

instance abbrev pub GenerationStageRecord-Eq : Eq GenerationStageRecord
GenerationStageRecord-Eq = record { decides = GenerationStageRecord-discrete }

instance abbrev pub SupersededCleanupRecord-Eq : Eq SupersededCleanupRecord
SupersededCleanupRecord-Eq = record { decides = SupersededCleanupRecord-discrete }

instance abbrev pub AccessionLease-Eq : Eq AccessionLease
AccessionLease-Eq = record { decides = AccessionLease-discrete }

-- `require_public_digest`
unfoldable pub require_public_digest : Text → Result Fault (Unit {0})
require_public_digest value = raise_if (not (is_digest value)) value_error

unfoldable pub make_lease : Text → Text → Result Fault AccessionLease
unfolding require_public_digest
make_lease accession owner = do
  require_public_digest accession
  require_public_digest owner
  ok (record { accession_digest = accession; owner_digest = owner })

-- `state in {VERIFIED, PUBLISHED}`
abbrev pub needs_proof : GenerationState → Bool
needs_proof verified = true
needs_proof published = true
needs_proof _ = false

abbrev pub is_staged : GenerationState → Bool
is_staged staged = true
is_staged _ = false

module _ (py : Python) where
  -- `verification is not None and verification.proves(manifest)`
  unfoldable pub has_proof : Option GenerationVerification → GenerationManifest → Result Fault Bool
  has_proof none m = ok false
  has_proof (some v) m = proves py v m

  -- `GenerationStageRecord.__post_init__`
  unfoldable pub make_stage : GenerationStageRecord → Result Fault GenerationStageRecord
  make_stage r = do
    proven ← if needs_proof r.state then has_proof r.verification r.manifest else ok true
    raise_if (not proven) value_error
    raise_if (is_staged r.state && is_some r.verification) value_error
    ok r

  unfoldable pub with_state :
      GenerationStageRecord → GenerationState → Result Fault GenerationStageRecord
  with_state r s = make_stage (record r { state = s })

  -- In the source's order: staged, verified, both of them aborted, and both of those cleaned.
  unfoldable pub recoverable_generation_records :
      GenerationManifest → Result Fault (List GenerationStageRecord)
  recoverable_generation_records m = do
    staged_record ← make_stage (record { manifest = m; state = staged; verification = none })
    proof ← from_point_ids py m.generation_id m.chunk_ids
    verified_record ←
        make_stage (record staged_record { state = verified; verification = some proof })
    aborted_staged ← with_state staged_record aborted
    aborted_verified ← with_state verified_record aborted
    cleaned_staged ← with_state aborted_staged GenerationState.cleaned
    cleaned_verified ← with_state aborted_verified GenerationState.cleaned
    ok (
        staged_record ∷ verified_record ∷ aborted_staged ∷ aborted_verified ∷ cleaned_staged
        ∷ cleaned_verified ∷ [])

-- `SupersededCleanupRecord.__post_init__`
unfoldable pub make_cleanup : SupersededCleanupRecord → Result Fault SupersededCleanupRecord
make_cleanup r = do
  raise_if
      (not (is_generation_id r.active_generation_id)
        || r.active_generation_id == r.superseded_manifest.generation_id)
      value_error
  ok r

unfoldable pub make_checkpoint : IngestionCheckpoint → Result Fault IngestionCheckpoint
unfolding require_public_digest
make_checkpoint r = do
  require_public_digest r.job_digest
  elim r.cursor_digest [ none ↦ ok tt | some c ↦ require_public_digest c ]
  ok r

unfoldable pub make_claim : IngestionRetryClaim → Result Fault IngestionRetryClaim
unfolding require_public_digest
make_claim r = do
  require_public_digest r.job_digest
  require_public_digest r.attempt_digest
  require_public_digest r.checkpoint_digest
  require_public_digest r.cursor_digest
  ok r

abbrev pub is_failed : RetryState → Bool
is_failed failed = true
is_failed succeeded = false

unfoldable pub make_result : IngestionRetryResult → Result Fault IngestionRetryResult
unfolding require_public_digest
make_result r = do
  require_public_digest r.job_digest
  require_public_digest r.attempt_digest
  raise_if (if is_failed r.state then is_none r.failure_stage else is_some r.failure_stage)
      value_error
  raise_if (is_failed r.state && (not (eqb r.inserted_count 0) || not (eqb r.removed_count 0)))
      value_error
  ok r

unfoldable pub make_reservation : Reservation → Result Fault Reservation
unfolding require_public_digest
make_reservation r = do
  require_public_digest r.reservation_digest
  require_public_digest r.budget_digest
  require_public_digest r.principal_digest
  raise_if (ltb r.units 1) value_error
  ok r
