-- ===== src/Research/Service/Steps.antt =====
-- The steps of `_ingest_impl` of app/research/service.py between the lease of a filing and its
-- release, and `IngestionStageError` (app/research/control.py).
use marketview.Research.Domain.Outcome.{outcome_proves}
use marketview.Base.Result.{ok, ok}
use marketview.Research.Json.{item}
use marketview.Research.Plane.Cleanup.{
  abort_generation, clean_generation, list_pending_cleanups, mark_superseded_cleaned,
}
use marketview.Base.Texts.{Text}
use marketview.Research.Deadline.{RequestDeadline, remaining_seconds, value_error}
use marketview.Research.Plane.State.{Plane, generation_of}
use marketview.Research.Service.Prepare.{Given, Prepared, embedded}
use marketview.Research.Evidence.{FilingDocument}
use marketview.Research.Vectors.{
  Entry, InspectionState, absent, delete_generation, inspect_generation, verify_generation,
}
use marketview.Research.Domain.{
  GenerationManifest-Eq, CorpusDescriptor, GenerationManifest, GenerationVerification,
  VerificationOutcome, VerificationReason, verified,
}
use marketview.Research.Records.{
  AccessionLease, FailureStage, GenerationStageRecord, GenerationState, SupersededCleanupRecord,
  embedding, redis_publication, vector_staging, vector_verification,
}
use marketview.Base.{
  [], ◌∷◌, suc, true, false, none, some, ◌!=◌, ◌==◌, Bool, List, Option, any, is_none, is_some,
  keep, not, ◌||◌, ℕ, ℕ-Eq, if◌then◌else◌, List-Eq, Option-Eq,
}
use marketview.Research.Vectors as Vectors
use marketview.Research.Plane.{
  stage_generation, get_active_generation, get_generation_stage, mark_generation_verified,
  publish_generation,
}
use marketview.Research.Service.Run.{
  calling, lift, ◌>>=◌, ◌>>◌, pure, modify, Failure, Run, Step, failing_at, from_fault, handle,
  on_plane, on_plane_twice, on_store, raised, runtime_error, stage_error, throw, write_store,
}

-- The state before the `try` of `_ingest_impl`, on a plane and a store.
abbrev pub start : Plane → List Entry → Run
start p es = record {
  plane = p;
  entries = es;
  readings = 0;
  current = none;
  generation_stage = none;
  published = false;
  failure_stage = redis_publication;
}

-- `error.verification if isinstance(error, IngestionStageError) else None`
abbrev pub diagnostic : Failure → Option VerificationOutcome
diagnostic (stage_error s v) = v
diagnostic _ = none

abbrev pub is_verified_reason : VerificationReason → Bool
is_verified_reason verified = true
is_verified_reason _ = false

-- Whether `IngestionStageError.__init__` refuses the outcome that it is given.
abbrev pub is_proof : VerificationOutcome → Bool
is_proof o = is_some o.verification || is_verified_reason o.reason

-- `IngestionStageError.__init__`
abbrev pub stage_failure : FailureStage → Option VerificationOutcome → Failure
stage_failure s none = stage_error s none
stage_failure vector_verification (some o) =
    if is_proof o then raised value_error else stage_error vector_verification (some o)
stage_failure _ (some o) = raised value_error

-- A failure is reported under one stage, without a diagnostic.
abbrev pub at_stage : {A : Type 0} → FailureStage → Step A → Step A
at_stage s m = handle m (λ e. throw (stage_error s none))

-- `try: m / except Exception`, with nothing for a failure.
unfoldable pub attempt : {A : Type 0} → Step A → Step (Option A)
attempt m = handle (m >>= λ a. pure (some a)) (λ e. pure none)

abbrev pub is_absent : InspectionState → Bool
is_absent absent = true
is_absent _ = false

abbrev pub is_cleaned_state : GenerationState → Bool
is_cleaned_state GenerationState.cleaned = true
is_cleaned_state _ = false

abbrev pub is_cleaned_stage : Option GenerationStageRecord → Bool
is_cleaned_stage none = false
is_cleaned_stage (some r) = is_cleaned_state r.state

abbrev pub is_accession_of : Text → SupersededCleanupRecord → Bool
is_accession_of accession item = item.superseded_manifest.accession_number == accession

abbrev pub proof_of :
    GenerationStageRecord
    → Option GenerationVerification
    → Step (GenerationStageRecord × GenerationVerification)
proof_of r none = throw (stage_error vector_verification none)
proof_of r (some v) = pure (r, v)

module _ (g : Given) (corpus : CorpusDescriptor) (deadline : RequestDeadline) where
  -- `operation_deadline.remaining_seconds()`
  unfoldable pub remaining : Step ℕ
  remaining = calling (λ i. ok (remaining_seconds deadline (g.time i)))

  -- One turn of the loop of `_cleanup_superseded_generations`: whether its cleanup stays pending.
  unfoldable pub cleanup_one : AccessionLease → SupersededCleanupRecord → Step Bool
  cleanup_one lease item =
      handle
        (do
          write_store g.time (delete_generation item.superseded_manifest deadline)
          cleaned_record ←
              on_plane_twice g.time (mark_superseded_cleaned g.py lease item 86400 deadline)
          pure (is_none cleaned_record))
        (λ e. pure true)

  unfoldable pub cleanup_all : AccessionLease → List SupersededCleanupRecord → Step ℕ
  cleanup_all lease [] = pure 0
  cleanup_all lease (x ∷ xs) = do
    stays ← cleanup_one lease x
    n ← cleanup_all lease xs
    pure (if stays then suc n else n)

  unfoldable pub cleanup_superseded : AccessionLease → GenerationManifest → Step ℕ
  cleanup_superseded lease m = do
    records ← attempt (on_plane g.time (list_pending_cleanups g.py corpus m.symbol deadline))
    elim records [
      | none ↦ pure 1
      | some items ↦ cleanup_all lease (keep (is_accession_of m.accession_number) items)
    ]

  -- The rest of the tests of a retry, on the stage that it finds.
  unfoldable pub check_recovered :
      GenerationManifest → Option GenerationStageRecord → Step (Unit {0})
  check_recovered m recovered = if not (is_cleaned_stage recovered) then throw runtime_error else do
    failing_at vector_verification
    inspection ← on_store g.time (inspect_generation m deadline)
    if not (is_absent inspection.state) then throw runtime_error else failing_at redis_publication

  -- The tests that a retry of a failed filing makes before it stages anything.
  unfoldable pub check_recovery :
      FilingDocument → GenerationManifest → Option GenerationManifest → Step (Unit {0})
  check_recovery d m current = if is_some current then throw runtime_error else do
    items ← on_plane g.time (list_pending_cleanups g.py corpus d.symbol deadline)
    if any (is_accession_of d.accession_number) items
        then throw runtime_error
        else on_plane g.time (get_generation_stage g.py m deadline) >>= λ found.
            check_recovered m found

  -- From the staging of the generation to its verified outcome.
  unfoldable pub stage_and_verify :
      AccessionLease → Prepared → Step (GenerationStageRecord × GenerationVerification)
  stage_and_verify lease x = do
    stage ← on_plane g.time (stage_generation g.py lease x.manifest deadline)
    elim stage [
      | none ↦ throw runtime_error
      | some staged_record ↦ do
        modify (λ r. record r { generation_stage = some staged_record })
        failing_at embedding
        embeddings ← calling (g.embed_documents x.texts deadline)
        chunks ← lift (from_fault (embedded x.evidence embeddings))
        failing_at vector_staging
        write_store g.time (Vectors.stage_generation x.manifest chunks deadline)
        failing_at vector_verification
        outcome ← on_store g.time (verify_generation g.py x.manifest deadline)
        proven ← lift (from_fault (outcome_proves g.py outcome x.manifest))
        if not proven
            then throw (stage_failure vector_verification (some outcome))
            else proof_of staged_record outcome.verification
    ]

  -- A publication that answers false is one that another has made already.
  unfoldable pub check_latest : FilingDocument → GenerationManifest → Step (Unit {0})
  check_latest d m = do
    latest ←
        on_plane g.time (get_active_generation g.py corpus d.symbol d.accession_number deadline)
    if latest != some m then throw runtime_error else pure tt

  -- The record of the verification, and the publication.
  unfoldable pub publish_verified :
      AccessionLease
      → FilingDocument
      → GenerationManifest
      → Option GenerationManifest
      → GenerationStageRecord
      → GenerationVerification
      → Step (Unit {0})
  publish_verified lease d m current staged_record v = do
    failing_at redis_publication
    marked ← on_plane g.time (mark_generation_verified g.py lease staged_record v deadline)
    elim marked [
      | none ↦ throw runtime_error
      | some verified_stage ↦ do
        modify (λ r. record r { generation_stage = some verified_stage })
        done ← on_plane_twice g.time (
            publish_generation g.py lease verified_stage (generation_of current) m
              (if current == some m then none else current) deadline)
        modify (λ r. record r { published = done })
        if done then pure tt else check_latest d m
    ]

  -- The cleanup of a generation that was staged and not published.
  unfoldable pub abandon :
      AccessionLease
      → GenerationManifest
      → GenerationStageRecord
      → Option GenerationManifest
      → Step (Unit {0})
  abandon lease m stage current = do
    gone ← on_plane g.time (abort_generation g.py lease stage deadline)
    elim gone [
      | none ↦ pure tt
      | some aborted_record ↦ do
        if generation_of current != some m.generation_id
            then write_store g.time (delete_generation m deadline)
            else pure tt
        cleaned_record ← on_plane g.time (clean_generation g.py lease aborted_record 86400 deadline)
        pure tt
    ]
