-- ===== src/Research/Service/Ingest.antt =====
-- `ingest` of app/research/service.py, over the control plane and the vector store in memory.
use marketview.Research.Plane.Cleanup.{release_generation_lease}
use marketview.Research.Plane.{acquire_generation_lease, get_active_generation}
use marketview.Research.Service.Steps.{
  abandon, at_stage, attempt, check_recovery, cleanup_superseded, diagnostic, publish_verified,
  remaining, stage_and_verify, stage_failure, start,
}
use marketview.Base.Result.{Result, err, ok}
use marketview.Research.Deadline.{RequestDeadline, raise_if_expired}
use marketview.Research.Plane.State.{Plane}
use marketview.Research.Service.Prepare.{
  Given, IngestionResult, Prepared, created, prepare, replaced, unchanged,
}
use marketview.Research.Evidence.{FilingDocument}
use marketview.Research.Vectors.{Entry}
use marketview.Research.Domain.{
  GenerationManifest-Eq, CorpusDescriptor, GenerationManifest, VerificationOutcome,
}
use marketview.Research.Records.{
  AccessionLease, FailureStage, GenerationStageRecord, cleanup, parsing_chunking, redis_publication,
  vector_verification,
}
use marketview.Base.{
  true, false, none, some, ◌&&◌, ◌==◌, Bool, List, Option, eqb, is_none, is_some, length, max, min,
  ℕ, if◌then◌else◌, Option-Eq, List-Eq, ℕ-Eq,
}
use marketview.Research.Service.Run.{
  finally, lift, ◌>>=◌, ◌>>◌, pure, gets, modify, Failure, Run, Step, from_fault, handle, on_plane,
  on_store, stage_error, throw,
}

-- `len(current.chunk_ids)`, or nothing to remove
abbrev pub replaced_count : Option GenerationManifest → ℕ
replaced_count none = 0
replaced_count (some old) = length old.chunk_ids

-- The failure that is reported: its diagnostic is kept at the verification of the vectors only.
abbrev pub reported : FailureStage → Option VerificationOutcome → Failure
reported vector_verification v = stage_failure vector_verification v
reported s v = stage_error s none

-- `_ingestion_outcome` and `ingest`: whatever is raised is an `IngestionStageError`.
abbrev pub as_stage_error : Failure → Failure
as_stage_error (stage_error s v) = stage_error s v
as_stage_error _ = stage_error cleanup none

abbrev pub is_success : Result Failure IngestionResult → Bool
is_success (ok _) = true
is_success (err _) = false

module _ (g : Given) (corpus : CorpusDescriptor) (deadline : RequestDeadline) where
  -- The manifest is active already.
  unfoldable pub leave_active : AccessionLease → GenerationManifest → Step IngestionResult
  leave_active lease m = do
    n ← cleanup_superseded g corpus deadline lease m
    pure (record {
      outcome = unchanged;
      inserted_count = 0;
      removed_count = 0;
      cleanup_pending_count = n;
    })

  -- The manifest replaces the one that is active, or is the filing's first.
  unfoldable pub replace_active :
      AccessionLease → FilingDocument → Prepared → Option GenerationManifest → Step IngestionResult
  replace_active lease d x current = do
    proven ← stage_and_verify g corpus deadline lease x
    publish_verified g corpus deadline lease d x.manifest current proven.0 proven.1
    n ← cleanup_superseded g corpus deadline lease x.manifest
    pure (record {
      outcome = if is_some current then replaced else created;
      inserted_count = length x.evidence;
      removed_count = replaced_count current;
      cleanup_pending_count = n;
    })

  -- The `try` of `_ingest_impl`. Past the test of `current == manifest`, its two other tests of it
  -- do not hold.
  unfoldable pub ingest_leased :
      AccessionLease → FilingDocument → Prepared → Bool → Step IngestionResult
  ingest_leased lease d x retry_failed = do
    current ←
        on_plane g.time (get_active_generation g.py corpus d.symbol d.accession_number deadline)
    modify (λ r. record r { current = current })
    if retry_failed then check_recovery g corpus deadline d x.manifest current else pure tt
    if current == some x.manifest
        then leave_active lease x.manifest
        else replace_active lease d x current

  -- The cleanup of the `except` of `_ingest_impl`, while there is time.
  unfoldable pub clean_up :
      AccessionLease → GenerationManifest → GenerationStageRecord → Failure → Step IngestionResult
  clean_up lease m s e = do
    left ← remaining g corpus deadline
    current ← gets (λ r. r.current)
    if eqb left 0
        then throw e
        else attempt (abandon g corpus deadline lease m s current) >>= λ done.
            if is_some done then throw e else throw (stage_error cleanup none)

  -- The `except` of `_ingest_impl`.
  unfoldable pub recover : AccessionLease → GenerationManifest → Failure → Step IngestionResult
  recover lease m e = do
    original ← gets (λ r. r.failure_stage)
    stage ← gets (λ r. r.generation_stage)
    done ← gets (λ r. r.published)
    elim stage [
      | none ↦ throw (reported original (diagnostic e))
      | some s ↦
          if done
          then throw (reported original (diagnostic e))
          else clean_up lease m s (reported original (diagnostic e))
    ]

  -- The `finally` of `_ingest_impl`, after a result or a failure.
  unfoldable pub release : AccessionLease → Result Failure IngestionResult → Step IngestionResult
  release lease result = do
    left ← remaining g corpus deadline
    if eqb left 0
        then lift result
        else attempt (on_plane g.time (release_generation_lease g.py lease deadline)) >>= λ done.
            if is_none done && is_success result
            then throw (stage_error cleanup none)
            else lift result

  -- `_ingest_impl` from the lease of the filing on.
  unfoldable pub ingest_prepared : FilingDocument → Bool → Prepared → Step IngestionResult
  ingest_prepared d retry_failed x = do
    left ← remaining g corpus deadline
    lease ← at_stage redis_publication (
        on_plane g.time
          (acquire_generation_lease g.py x.manifest g.owner (max 1 (min 3600 left)) deadline))
    elim lease [
      | none ↦ throw (stage_error redis_publication none)
      | some l ↦
          finally (handle (ingest_leased l d x retry_failed) (recover l x.manifest)) (release l)
    ]

  unfoldable pub ingest_impl : FilingDocument → Bool → Step IngestionResult
  ingest_impl d retry_failed = do
    on_store g.time (λ now es. raise_if_expired deadline now)
    x ← at_stage parsing_chunking (lift (from_fault (prepare g corpus d)))
    ingest_prepared d retry_failed x

  unfoldable pub ingest :
      FilingDocument → Bool → Plane → List Entry → Result Failure IngestionResult × Run
  ingest d retry_failed p es =
      handle (ingest_impl d retry_failed) (λ e. throw (as_stage_error e)) (start p es)
