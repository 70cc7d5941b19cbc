-- ===== src/Research/Retry.antt =====
-- The retry ledger of app/research/control.py: the snapshot of a first retry, the claim of a second
-- attempt, and the snapshot that chains it to the records of the first. A record's digest is the
-- SHA-256 of its JSON text.
use marketview.Research.Records.Codec.{checkpoint_value, claim_value, result_value}
use marketview.Base.Texts.{Text}
use marketview.Base.Result.{Result, ok, raise_if, ◌>>=◌, ◌>>◌}
use marketview.Research.Python.{Python}
use marketview.Research.Json.{JsonLibrary}
use marketview.Research.Deadline.{Fault, value_error}
use marketview.Research.Records.{
  FailureStage, IngestionCheckpoint, IngestionRetryClaim, IngestionRetryResult, is_failed,
  require_public_digest, vector_verification,
}
use marketview.Base.{
  ◌≡◌, refl, [], ◌∷◌, zero, suc, true, false, none, some, inl, inr, ◌!=◌, ◌&&◌, ◌++◌, ◌==◌, Bool,
  List, Option, all, eqb, is_none, is_some, not, ◌||◌, ℕ-Eq, List-Eq, Option-Eq,
}
pub mod Binding
pub mod Ledger
use Prim.Native.String.{String}
use marketview.Research.Records.Decode.{text_at}
use marketview.Research.Json.{Json, Fields, obj, field, str, end, load_record}

pub record IngestionRetrySnapshot : Type 0 where
  pub checkpoint : Option IngestionCheckpoint
  pub claim : Option IngestionRetryClaim
  pub result : Option IngestionRetryResult

pub record AttemptTwoClaim : Type 0 where
  pub job_digest : Text
  pub attempt_digest : Text
  pub checkpoint_digest : Text
  pub cursor_digest : Text
  pub first_claim_digest : Text
  pub first_result_digest : Text

pub record AttemptTwoSnapshot : Type 0 where
  pub checkpoint : IngestionCheckpoint
  pub first_claim : IngestionRetryClaim
  pub first_result : IngestionRetryResult
  pub claim : Option AttemptTwoClaim
  pub result : Option IngestionRetryResult

unfoldable pub make_attempt_two_claim : AttemptTwoClaim → Result Fault AttemptTwoClaim
make_attempt_two_claim r = do
  require_public_digest r.job_digest
  require_public_digest r.attempt_digest
  require_public_digest r.checkpoint_digest
  require_public_digest r.cursor_digest
  require_public_digest r.first_claim_digest
  require_public_digest r.first_result_digest
  ok r

-- The job digests of the records that are not `None`.
abbrev pub job_of {ℓ} : {A : Type ℓ} → (A → Text) → Option A → List Text
job_of job none = []
job_of job (some r) = job r ∷ []

-- `len({...}) == 1`, or no digest at all
abbrev pub all_same : List Text → Bool
all_same [] = true
all_same (x ∷ xs) = all (λ y. y == x) xs

-- The attempts of a claim and a result that are both there differ.
abbrev pub attempts_differ : Option IngestionRetryClaim → Option IngestionRetryResult → Bool
attempts_differ (some c) (some r) = c.attempt_digest != r.attempt_digest
attempts_differ _ _ = false

abbrev pub is_vector_verification : Option FailureStage → Bool
is_vector_verification (some vector_verification) = true
is_vector_verification _ = false

-- `self.result is not None and (...)`, the last test of the second snapshot
abbrev pub strays : Option IngestionRetryResult → AttemptTwoClaim → Bool
strays none c = false
strays (some r) c = r.job_digest != c.job_digest || r.attempt_digest != c.attempt_digest

abbrev pub attempt_two_keys : List String
attempt_two_keys =
    "attempt_digest" ∷ "checkpoint_digest" ∷ "cursor_digest" ∷ "first_claim_digest"
    ∷ "first_result_digest" ∷ "job_digest" ∷ []

-- The object that `IngestionRetryAttemptTwoClaim.to_json` dumps
unfoldable pub attempt_two_value : AttemptTwoClaim → Json
attempt_two_value r = obj (
    field "attempt_digest" (str r.attempt_digest) (
      field "checkpoint_digest" (str r.checkpoint_digest) (
        field "cursor_digest" (str r.cursor_digest) (
          field "first_claim_digest" (str r.first_claim_digest) (
            field "first_result_digest" (str r.first_result_digest)
              (field "job_digest" (str r.job_digest) end))))))

unfoldable pub decode_attempt_two_fields : Fields → Result Fault AttemptTwoClaim
decode_attempt_two_fields fs = do
  job ← text_at "job_digest" fs
  attempt ← text_at "attempt_digest" fs
  checkpoint ← text_at "checkpoint_digest" fs
  cursor ← text_at "cursor_digest" fs
  first_claim ← text_at "first_claim_digest" fs
  first_result ← text_at "first_result_digest" fs
  make_attempt_two_claim (record {
    job_digest = job;
    attempt_digest = attempt;
    checkpoint_digest = checkpoint;
    cursor_digest = cursor;
    first_claim_digest = first_claim;
    first_result_digest = first_result;
  })

-- `IngestionRetryAttemptTwoClaim.from_json`
unfoldable pub attempt_two_from_json : JsonLibrary → Text → Result Fault AttemptTwoClaim
attempt_two_from_json lib raw = do
  fs ← load_record lib raw attempt_two_keys
  decode_attempt_two_fields fs

module _ (lib : JsonLibrary) (py : Python) where
  -- `hashlib.sha256(record.to_json().encode("utf-8")).hexdigest()`
  unfoldable pub checkpoint_digest_of : IngestionCheckpoint → Text
  checkpoint_digest_of r = py.sha256 (lib.dumps (checkpoint_value r))

  unfoldable pub claim_digest_of : IngestionRetryClaim → Text
  claim_digest_of r = py.sha256 (lib.dumps (claim_value r))

  unfoldable pub result_digest_of : IngestionRetryResult → Text
  result_digest_of r = py.sha256 (lib.dumps (result_value r))

  -- The claim does not name the checkpoint's digest and cursor.
  abbrev pub claim_strays : Option IngestionRetryClaim → Option IngestionCheckpoint → Bool
  claim_strays (some c) (some k) =
      c.checkpoint_digest != checkpoint_digest_of k || some c.cursor_digest != k.cursor_digest
  claim_strays _ _ = false

  -- `IngestionRetrySnapshot.__post_init__`
  unfoldable pub make_snapshot : IngestionRetrySnapshot → Result Fault IngestionRetrySnapshot
  make_snapshot s = do
    raise_if (is_some s.result && is_none s.claim) value_error
    raise_if (is_some s.claim && is_none s.checkpoint) value_error
    raise_if
        (not (
          all_same (
            job_of (λ r. r.job_digest) s.checkpoint
            ++ (job_of (λ r. r.job_digest) s.claim ++ job_of (λ r. r.job_digest) s.result))))
        value_error
    raise_if (attempts_differ s.claim s.result) value_error
    raise_if (claim_strays s.claim s.checkpoint) value_error
    ok s

  -- The tests of the second claim, which `__post_init__` makes when there is one.
  unfoldable pub check_claim : AttemptTwoSnapshot → AttemptTwoClaim → Result Fault (Unit {0})
  check_claim s c = do
    raise_if (c.job_digest != s.checkpoint.job_digest) value_error
    raise_if (c.attempt_digest == s.first_claim.attempt_digest) value_error
    raise_if
        (c.checkpoint_digest != checkpoint_digest_of s.checkpoint
          || (some c.cursor_digest != s.checkpoint.cursor_digest
              || (c.first_claim_digest != claim_digest_of s.first_claim
                  || c.first_result_digest != result_digest_of s.first_result)))
        value_error
    raise_if (strays s.result c) value_error

  -- `IngestionRetryAttemptTwoSnapshot.__post_init__`
  unfoldable pub make_attempt_two_snapshot : AttemptTwoSnapshot → Result Fault AttemptTwoSnapshot
  make_attempt_two_snapshot s = do
    _ ← make_snapshot (record {
      checkpoint = some s.checkpoint;
      claim = some s.first_claim;
      result = some s.first_result;
    })
    raise_if
        (not s.checkpoint.complete
          || (not (eqb s.checkpoint.processed_count 0)
              || (not (eqb s.checkpoint.failed_count 1)
                  || (is_none s.checkpoint.cursor_digest
                      || (not (is_failed s.first_result.state)
                          || not (is_vector_verification s.first_result.failure_stage))))))
        value_error
    elim s.claim [ none ↦ raise_if (is_some s.result) value_error | some c ↦ check_claim s c ]
    ok s
