-- ===== src/Research/Plane/Calls.antt =====
-- What each method of the control plane leaves behind, written or not.
use marketview.Base.Texts.{Text}
use marketview.Base.Result.{Result-cases, err, ok}
use marketview.Research.Python.{Python}
use marketview.Research.Plane.State.{Plane}
use marketview.Research.Domain.{GenerationManifest, GenerationVerification}
use marketview.Research.Deadline.{Fault, RequestDeadline}
use marketview.Research.Records.{
  AccessionLease, GenerationStageRecord, GenerationState, SupersededCleanupRecord, aborted,
  make_lease, make_stage, published, recoverable_generation_records, staged, with_state,
  AccessionLease-Eq,
}
use marketview.Base.{
  ◌≡◌, [], ◌∷◌, false, none, some, inl, inr, ◌!=◌, ◌++◌, ◌==◌, List, Option, any, arith, keep, not,
  ℕ, ◌⊎◌, ℕ-Eq, List-Eq, first,
}
use marketview.Research.Plane.{
  accession_digest, acquire_generation_lease, commit_publication, has_generation, is_of,
  mark_generation_verified, publish_generation, record_cleanup, replace_stage, stage_generation,
  store_stage,
}
use marketview.Research.Plane.Cleanup.{
  abort_generation, clean_generation, mark_superseded_cleaned, release_generation_lease,
}

-- The stages after `_replace_stage`.
abbrev pub with_stage :
    GenerationStageRecord → List GenerationStageRecord → List GenerationStageRecord
with_stage r xs = keep (λ item. not (has_generation r.manifest.generation_id item)) xs ++ r ∷ []

-- The active manifests after a publication.
abbrev pub with_active : GenerationManifest → List GenerationManifest → List GenerationManifest
with_active m xs = keep (λ item. not (is_of m.corpus m.symbol m.accession_number item)) xs ++ m ∷ []

module _ (py : Python) where
  -- The stages are as before, or hold one accepted record in place of its generation's.
  abbrev pub Restaged :
      GenerationStageRecord → List GenerationStageRecord → List GenerationStageRecord → Type 0
  Restaged r xs xs' = (xs' ≡ xs) ⊎ ((make_stage py r ≡ ok r) × (xs' ≡ with_stage r xs))

  -- The constructor returns the record that it is given, or raises.
  pub make_stage-cases :
      (r : GenerationStageRecord)
      → (make_stage py r ≡ ok r) ⊎ ((e : Fault) × (make_stage py r ≡ err e))
  unfolding make_stage
  make_stage-cases r = elim (Result-cases (make_stage py r)) [
    | inl (r', h) ↦ inl (ground arith)
    | inr raised ↦ inr raised
  ]

  pub acquire_generation_lease-after :
      (m : GenerationManifest) (owner : Text) (ttl : ℕ) (d : RequestDeadline) (now : ℕ) (p : Plane)
      → let p' = (acquire_generation_lease py m owner ttl d now p).1 in
        (p'.stages ≡ p.stages)
        × (p'.active ≡ p.active)
        × ((p'.leases ≡ p.leases)
            ⊎ ((any (λ l. l.accession_digest == accession_digest py m) p.leases ≡ false)
                × (p'.leases
                    ≡ p.leases
                      ++ record { accession_digest = accession_digest py m; owner_digest = owner }
                        ∷ [])))
  unfolding acquire_generation_lease make_lease
  acquire_generation_lease-after m owner ttl d now p = ground arith

  pub release_generation_lease-after :
      (lease : AccessionLease) (d : RequestDeadline) (now : ℕ) (p : Plane)
      → let p' = (release_generation_lease py lease d now p).1 in
        (p'.stages ≡ p.stages)
        × (p'.active ≡ p.active)
        × ((p'.leases ≡ p.leases) ⊎ (p'.leases ≡ keep (λ item. item != lease) p.leases))
  unfolding release_generation_lease
  release_generation_lease-after lease d now p = ground arith

  first_recoverable :
      (m : GenerationManifest) (r : GenerationStageRecord) (rs : List GenerationStageRecord)
      → recoverable_generation_records py m ≡ ok (r ∷ rs)
      → (r ≡ record { manifest = m; state = staged; verification = none })
        × (make_stage py r ≡ ok r)
  unfolding recoverable_generation_records
  first_recoverable m r rs h =
      ground
        (arith, make_stage-cases (record { manifest = m; state = staged; verification = none }))

  store_stage-after :
      (m : GenerationManifest) (r : GenerationStageRecord) (rs : List GenerationStageRecord)
      (existing : Option GenerationStageRecord) (p : Plane)
      → recoverable_generation_records py m ≡ ok (r ∷ rs)
      → let p' = (store_stage py m (r ∷ rs) existing p).1 in
        (p'.leases ≡ p.leases)
        × (p'.active ≡ p.active)
        × Restaged (record { manifest = m; state = staged; verification = none }) p.stages p'.stages
  unfolding store_stage
  store_stage-after m r rs existing p h = ground (arith, first_recoverable m r rs h)

  pub stage_generation-after :
      (lease : AccessionLease) (m : GenerationManifest) (d : RequestDeadline) (now : ℕ) (p : Plane)
      → let p' = (stage_generation py lease m d now p).1 in
        (p'.leases ≡ p.leases)
        × (p'.active ≡ p.active)
        × Restaged (record { manifest = m; state = staged; verification = none }) p.stages p'.stages
  unfolding stage_generation store_stage
  stage_generation-after lease m d now p =
      elim (Result-cases (recoverable_generation_records py m)) [
        | inl (rs, h) ↦ stored rs h
        | inr (e, h) ↦ ground arith
      ]
    where
      stored :
          (rs : List GenerationStageRecord)
          → recoverable_generation_records py m ≡ ok rs
          → let p' = (stage_generation py lease m d now p).1 in
            (p'.leases ≡ p.leases)
            × (p'.active ≡ p.active)
            × Restaged
                (record { manifest = m; state = staged; verification = none })
                p.stages
                p'.stages
      stored [] h = ground arith
      stored (r ∷ rs) h =
          ground
            (arith, store_stage-after m r rs (first (has_generation m.generation_id) p.stages) p h)

  pub mark_generation_verified-after :
      (lease : AccessionLease) (r : GenerationStageRecord) (v : GenerationVerification)
      (d : RequestDeadline) (now : ℕ) (p : Plane)
      → let p' = (mark_generation_verified py lease r v d now p).1 in
        (p'.leases ≡ p.leases)
        × (p'.active ≡ p.active)
        × Restaged
            (record r { state = GenerationState.verified; verification = some v })
            p.stages
            p'.stages
  unfolding mark_generation_verified replace_stage
  mark_generation_verified-after lease r v d now p = ground (
    arith,
    make_stage-cases (record r { state = GenerationState.verified; verification = some v }),
  )

  pub abort_generation-after :
      (lease : AccessionLease) (r : GenerationStageRecord) (d : RequestDeadline) (now : ℕ)
      (p : Plane)
      → let p' = (abort_generation py lease r d now p).1 in
        (p'.leases ≡ p.leases)
        × (p'.active ≡ p.active)
        × Restaged (record r { state = aborted }) p.stages p'.stages
  unfolding abort_generation replace_stage with_state
  abort_generation-after lease r d now p =
      ground (arith, make_stage-cases (record r { state = aborted }))

  pub clean_generation-after :
      (lease : AccessionLease) (r : GenerationStageRecord) (ttl : ℕ) (d : RequestDeadline) (now : ℕ)
      (p : Plane)
      → let p' = (clean_generation py lease r ttl d now p).1 in
        (p'.leases ≡ p.leases)
        × (p'.active ≡ p.active)
        × Restaged (record r { state = GenerationState.cleaned }) p.stages p'.stages
  unfolding clean_generation replace_stage with_state
  clean_generation-after lease r ttl d now p =
      ground (arith, make_stage-cases (record r { state = GenerationState.cleaned }))

  pub mark_superseded_cleaned-after :
      (lease : AccessionLease) (entry : SupersededCleanupRecord) (ttl : ℕ) (d : RequestDeadline)
      (now now' : ℕ) (p : Plane)
      → let p' = (mark_superseded_cleaned py lease entry ttl d now now' p).1 in
        (p'.leases ≡ p.leases) × (p'.active ≡ p.active) × (p'.stages ≡ p.stages)
  unfolding mark_superseded_cleaned
  mark_superseded_cleaned-after lease entry ttl d now now' p = ground arith

  commit_publication-after :
      (r : GenerationStageRecord) (m : GenerationManifest) (superseded : Option GenerationManifest)
      (p : Plane)
      → let p' = (commit_publication py r m superseded p).1 in
        (p'.leases ≡ p.leases)
        × (p'.active ≡ with_active m p.active)
        × Restaged (record r { state = published }) p.stages p'.stages
  unfolding commit_publication replace_stage with_state record_cleanup
  commit_publication-after r m none p =
      ground (arith, make_stage-cases (record r { state = published }))
  commit_publication-after r m (some old) p =
      ground (arith, make_stage-cases (record r { state = published }))

  pub publish_generation-after :
      (lease : AccessionLease) (r : GenerationStageRecord) (expected : Option Text)
      (m : GenerationManifest) (superseded : Option GenerationManifest) (d : RequestDeadline)
      (now now' : ℕ) (p : Plane)
      → let p' = (publish_generation py lease r expected m superseded d now now' p).1 in
        (p'.leases ≡ p.leases)
        × ((p'.active ≡ p.active) ⊎ (p'.active ≡ with_active m p.active))
        × Restaged (record r { state = published }) p.stages p'.stages
  unfolding publish_generation
  publish_generation-after lease r expected m superseded d now now' p =
      ground (arith, commit_publication-after r m superseded p)
