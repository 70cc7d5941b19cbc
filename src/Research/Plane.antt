-- ===== src/Research/Plane.antt =====
-- `InMemoryResearchControlPlane` (app/research/memory.py): leases, the lifecycle records of staged
-- generations, the active manifests and the pending cleanups. A method reads and writes the plane
-- and may raise, and what was written before a raise stays written. `now` and `now'` are the clock's
-- readings, in the order in which the method takes them.
use marketview.Base.Result.{err, raise_if}
use marketview.Research.Plane.State.{
  Plane, generation_of, Action, ◌>>◌, lift, pure, ◌>>=◌, gets, modify,
}
use marketview.Research.Deadline.{RequestDeadline, raise_if_expired, value_error}
use marketview.Base.Texts.{Text}
use marketview.Research.Records.{
  CleanupState, GenerationState, GenerationStageRecord, AccessionLease, aborted, pending,
  SupersededCleanupRecord, AccessionLease-Eq, make_cleanup, is_staged, GenerationStageRecord-Eq,
  SupersededCleanupRecord-Eq, make_lease, recoverable_generation_records, with_state, make_stage,
  published,
}
use marketview.Research.Python.{Python, join}
use marketview.Research.Domain.{
  CorpusDescriptor, GenerationManifest, GenerationVerification, corpus_key, CorpusDescriptor-Eq,
  GenerationManifest-Eq, proves,
}
pub mod State
pub mod Cleanup
pub mod Publishing
pub mod Calls
pub mod Soundness
pub mod Refinement
use marketview.Base.{
  ◌≡◌, refl, [], ◌∷◌, zero, suc, true, false, none, some, inl, inr, Eq, Bool, List, Option, ℕ, ◌==◌,
  ◌&&◌, any, keep, List-Eq, ◌!=◌, not, ℕ-Eq, ◌||◌, ◌++◌, is_some, is_none, if◌then◌else◌, leb,
  first, ltb, Option-Eq,
}

-- `record in records`
abbrev pub is_in {ℓ} : {A : Type ℓ} ⦃e : Eq A⦄ → A → List A → Bool
is_in x xs = any (λ y. y == x) xs

-- The filing that a generation replaces: its corpus, symbol and accession.
abbrev pub is_of : CorpusDescriptor → Text → Text → GenerationManifest → Bool
is_of corpus symbol accession m =
    m.corpus == corpus && (m.symbol == symbol && m.accession_number == accession)

abbrev pub has_generation : Text → GenerationStageRecord → Bool
has_generation id r = r.manifest.generation_id == id

abbrev pub is_verified : GenerationState → Bool
is_verified GenerationState.verified = true
is_verified _ = false

abbrev pub is_aborted : GenerationState → Bool
is_aborted aborted = true
is_aborted _ = false

abbrev pub is_pending : CleanupState → Bool
is_pending pending = true
is_pending _ = false

-- `_replace_stage`
unfoldable pub replace_stage : GenerationStageRecord → Plane → Plane
replace_stage r p = record p {
  stages = keep (λ item. not (has_generation r.manifest.generation_id item)) p.stages ++ r ∷ [];
}

module _ (py : Python) where
  -- The digest under which a filing is leased.
  unfoldable pub accession_digest : GenerationManifest → Text
  accession_digest m =
      py.sha256 (join (31 ∷ []) (corpus_key m.corpus ∷ m.symbol ∷ m.accession_number ∷ []))

  -- `_owns`
  unfoldable pub owns : AccessionLease → GenerationManifest → Plane → Bool
  owns lease m p = is_in lease p.leases && lease.accession_digest == accession_digest m

  unfoldable pub acquire_generation_lease :
      GenerationManifest → Text → ℕ → RequestDeadline → ℕ → Action (Option AccessionLease)
  acquire_generation_lease m owner_digest ttl_seconds d now = do
    lift (raise_if_expired d now)
    lift (raise_if (not (leb 1 ttl_seconds && leb ttl_seconds 3600)) value_error)
    leases ← gets (λ p. p.leases)
    if any (λ item. item.accession_digest == accession_digest m) leases then pure none else do
      lease ← lift (make_lease (accession_digest m) owner_digest)
      modify (λ p. record p { leases = p.leases ++ lease ∷ [] })
      pure (some lease)

  -- The first of the recoverable records is the one that is stored.
  unfoldable pub store_stage :
      GenerationManifest
      → List GenerationStageRecord
      → Option GenerationStageRecord
      → Action (Option GenerationStageRecord)
  unfolding replace_stage
  store_stage m [] existing = lift (err value_error)
  store_stage m (r ∷ rs) existing =
      if elim existing [ none ↦ false | some x ↦ not (is_in x (r ∷ rs)) ] then pure none else do
        modify (λ p. record p {
          stages = keep (λ item. not (has_generation m.generation_id item)) p.stages ++ r ∷ [];
        })
        pure (some r)

  unfoldable pub stage_generation :
      AccessionLease
      → GenerationManifest
      → RequestDeadline
      → ℕ
      → Action (Option GenerationStageRecord)
  unfolding store_stage
  stage_generation lease m d now = do
    lift (raise_if_expired d now)
    owned ← gets (owns lease m)
    if not owned then pure none else do
      recoverable ← lift (recoverable_generation_records py m)
      existing ← gets (λ p. first (has_generation m.generation_id) p.stages)
      store_stage m recoverable existing

  unfoldable pub mark_generation_verified :
      AccessionLease
      → GenerationStageRecord
      → GenerationVerification
      → RequestDeadline
      → ℕ
      → Action (Option GenerationStageRecord)
  mark_generation_verified lease r v d now = do
    lift (raise_if_expired d now)
    owned ← gets (owns lease r.manifest)
    if not owned || not (is_staged r.state) then pure none else do
      proven ← lift (proves py v r.manifest)
      stored ← gets (λ p. is_in r p.stages)
      if not proven || not stored then pure none else do
        new ←
            lift
              (make_stage py (record r { state = GenerationState.verified; verification = some v }))
        modify (replace_stage new)
        pure (some new)

  unfoldable pub get_generation_stage :
      GenerationManifest → RequestDeadline → ℕ → Action (Option GenerationStageRecord)
  get_generation_stage m d now = do
    lift (raise_if_expired d now)
    gets (λ p. first (λ item. has_generation m.generation_id item && item.manifest == m) p.stages)

  unfoldable pub get_active_generation :
      CorpusDescriptor → Text → Text → RequestDeadline → ℕ → Action (Option GenerationManifest)
  get_active_generation corpus symbol accession d now = do
    lift (raise_if_expired d now)
    gets (λ p. first (is_of corpus symbol accession) p.active)

  unfoldable pub list_active_generations :
      CorpusDescriptor → Text → RequestDeadline → ℕ → Action (List GenerationManifest)
  list_active_generations corpus symbol d now = do
    lift (raise_if_expired d now)
    gets (λ p. keep (λ m. m.corpus == corpus && m.symbol == symbol) p.active)

  -- The tests of `publish_generation` against the manifest that is active now.
  abbrev pub conflicts :
      Option GenerationManifest
      → Option Text
      → GenerationManifest
      → Option GenerationManifest
      → Bool
  conflicts current expected m superseded =
      generation_of current != expected
      || (is_some superseded && superseded != current)
      || (is_some current && current != some m && is_none superseded)

  -- The record of the superseded generation, which its constructor may refuse.
  unfoldable pub record_cleanup : GenerationManifest → Option GenerationManifest → Action (Unit {0})
  record_cleanup m none = pure tt
  record_cleanup m (some old) = do
    entry ← lift (
        make_cleanup (record {
          superseded_manifest = old;
          active_generation_id = m.generation_id;
          state = pending;
        }))
    modify (λ p. record p {
      pending_cleanups =
          keep (λ item. not (item.superseded_manifest.generation_id == old.generation_id))
            p.pending_cleanups
          ++ entry ∷ [];
    })

  -- The writes of a publication that has passed its tests.
  unfoldable pub commit_publication :
      GenerationStageRecord → GenerationManifest → Option GenerationManifest → Action Bool
  commit_publication stage m superseded = do
    modify (λ p. record p {
      active =
          keep (λ item. not (is_of m.corpus m.symbol m.accession_number item)) p.active ++ m ∷ [];
    })
    new ← lift (with_state py stage published)
    modify (replace_stage new)
    record_cleanup m superseded
    pure true

  unfoldable pub publish_generation :
      AccessionLease
      → GenerationStageRecord
      → Option Text
      → GenerationManifest
      → Option GenerationManifest
      → RequestDeadline
      → ℕ
      → ℕ
      → Action Bool
  unfolding get_active_generation
  publish_generation lease stage expected m superseded d now now' = do
    lift (raise_if_expired d now)
    owned ← gets (owns lease m)
    stored ← gets (λ p. is_in stage p.stages)
    if not owned || stage.manifest != m || not (is_verified stage.state) || not stored
        then pure false
        else do
          current ← get_active_generation m.corpus m.symbol m.accession_number d now'
          if conflicts current expected m superseded
              then pure false
              else commit_publication stage m superseded
