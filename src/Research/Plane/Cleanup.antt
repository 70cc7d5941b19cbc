-- ===== src/Research/Plane/Cleanup.antt =====
-- The methods of the control plane that end a generation: the pending cleanups of superseded ones,
-- the abort and the cleaning of a staged one, and the release of a lease.
use marketview.Base.Result.{raise_if}
use marketview.Research.Plane.{
  get_active_generation, is_aborted, is_in, is_pending, owns, replace_stage,
}
use marketview.Base.Texts.{Text}
use marketview.Research.Deadline.{RequestDeadline, raise_if_expired, value_error}
use marketview.Research.Python.{Python}
use marketview.Research.Domain.{CorpusDescriptor, CorpusDescriptor-Eq}
use marketview.Research.Plane.State.{Action, generation_of, gets, lift, modify, pure, ◌>>◌, ◌>>=◌}
use marketview.Research.Records.{
  AccessionLease, CleanupState, GenerationStageRecord, GenerationState, SupersededCleanupRecord,
  aborted, make_cleanup, with_state, AccessionLease-Eq, SupersededCleanupRecord-Eq,
  GenerationStageRecord-Eq,
}
use marketview.Base.{
  true, false, none, some, ◌!=◌, ◌&&◌, ◌==◌, Bool, List, Option, is_none, keep, ltb, not, ◌||◌, ℕ,
  if◌then◌else◌, List-Eq, ℕ-Eq, Option-Eq,
}

module _ (py : Python) where
  unfoldable pub list_pending_cleanups :
      CorpusDescriptor → Text → RequestDeadline → ℕ → Action (List SupersededCleanupRecord)
  list_pending_cleanups corpus symbol d now = do
    lift (raise_if_expired d now)
    gets (λ p.
        keep
          (λ item.
            is_pending item.state
            && (item.superseded_manifest.corpus == corpus
                && item.superseded_manifest.symbol == symbol))
          p.pending_cleanups)

  unfoldable pub mark_superseded_cleaned :
      AccessionLease
      → SupersededCleanupRecord
      → ℕ
      → RequestDeadline
      → ℕ
      → ℕ
      → Action (Option SupersededCleanupRecord)
  unfolding get_active_generation
  mark_superseded_cleaned lease entry marker_ttl_seconds d now now' = do
    lift (raise_if_expired d now)
    lift (raise_if (ltb marker_ttl_seconds 1) value_error)
    let old = entry.superseded_manifest
    active ← get_active_generation py old.corpus old.symbol old.accession_number d now'
    owned ← gets (owns py lease old)
    stored ← gets (λ p. is_in entry p.pending_cleanups)
    if not owned
          || not stored
          || not (is_pending entry.state)
          || is_none active
          || generation_of active == some old.generation_id
        then pure none
        else do
          cleaned_entry ← lift (make_cleanup (record entry { state = CleanupState.cleaned }))
          modify
              (λ p. record p { pending_cleanups = keep (λ item. item != entry) p.pending_cleanups })
          pure (some cleaned_entry)

  unfoldable pub abort_generation :
      AccessionLease
      → GenerationStageRecord
      → RequestDeadline
      → ℕ
      → Action (Option GenerationStageRecord)
  abort_generation lease stage d now = do
    lift (raise_if_expired d now)
    owned ← gets (owns py lease stage.manifest)
    stored ← gets (λ p. is_in stage p.stages)
    if not owned || not stored then pure none else do
      new ← lift (with_state py stage aborted)
      modify (replace_stage new)
      pure (some new)

  unfoldable pub clean_generation :
      AccessionLease
      → GenerationStageRecord
      → ℕ
      → RequestDeadline
      → ℕ
      → Action (Option GenerationStageRecord)
  clean_generation lease stage marker_ttl_seconds d now = do
    lift (raise_if_expired d now)
    lift (raise_if (ltb marker_ttl_seconds 1) value_error)
    owned ← gets (owns py lease stage.manifest)
    stored ← gets (λ p. is_in stage p.stages)
    if not owned || not (is_aborted stage.state) || not stored then pure none else do
      new ← lift (with_state py stage GenerationState.cleaned)
      modify (replace_stage new)
      pure (some new)

  unfoldable pub release_generation_lease : AccessionLease → RequestDeadline → ℕ → Action Bool
  release_generation_lease lease d now = do
    lift (raise_if_expired d now)
    held ← gets (λ p. is_in lease p.leases)
    if not held
        then pure false
        else do modify (λ p. record p { leases = keep (λ item. item != lease) p.leases }); pure true
