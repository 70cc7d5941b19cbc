-- ===== src/Research/Plane/Publishing.antt =====
-- `publish_generation`: a compare-and-swap of one filing's active manifest.
use marketview.Base.Result.{ok, err}
use marketview.Research.Plane.State.{Plane, generation_of}
use marketview.Research.Deadline.{RequestDeadline, timeout_error, raise_if_expired, value_error}
use marketview.Research.Domain.{
  GenerationManifest, proves, from_point_ids, make_verification, require_text,
  GenerationVerification, CorpusDescriptor,
}
use marketview.Base.Texts.{Text}
use marketview.Research.Records.{
  AccessionLease, GenerationStageRecord, GenerationStageRecord-Eq, make_stage, has_proof,
  with_state, make_cleanup, published, GenerationState,
}
use marketview.Research.Plane.{
  publish_generation, commit_publication, record_cleanup, is_of, replace_stage, owns, is_in,
}
use marketview.Research.Python.{Python}
use marketview.Base.{
  ◌≡◌, true, false, none, some, Option, ℕ, ◌⊎◌, ◌≢◌, arith, ==_refl, keep, not, ◌++◌, ◌∷◌, first,
  [], first-keep-not, first-keep_other, if◌then◌else◌, List, Bool-cases, inl, inr,
}

module _ (py : Python) where
  -- Making a lifecycle record raises `ValueError` or nothing.
  has_proof-ne-timeout :
      (v : Option GenerationVerification) (m : GenerationManifest)
      → has_proof py v m ≢ err timeout_error
  unfolding has_proof proves from_point_ids make_verification require_text
  has_proof-ne-timeout none m = ground arith
  has_proof-ne-timeout (some v) m = ground arith

  pub make_stage-ne-timeout : (r : GenerationStageRecord) → make_stage py r ≢ err timeout_error
  unfolding make_stage
  make_stage-ne-timeout r = ground (arith, has_proof-ne-timeout r.verification r.manifest)

  commit_publication-raises :
      (stage : GenerationStageRecord) (m : GenerationManifest)
      (superseded : Option GenerationManifest) (p : Plane)
      → ((commit_publication py stage m superseded p).0 ≡ ok true)
        ⊎ ((commit_publication py stage m superseded p).0 ≡ err value_error)
  unfolding commit_publication with_state record_cleanup make_cleanup
  commit_publication-raises stage m none p =
      ground (arith, make_stage-ne-timeout (record stage { state = published }))
  commit_publication-raises stage m (some old) p =
      ground (arith, make_stage-ne-timeout (record stage { state = published }))

  -- A publication that answers false, or that times out, has changed nothing.
  pub publish_generation-unchanged :
      (lease : AccessionLease) (stage : GenerationStageRecord) (expected : Option Text)
      (m : GenerationManifest) (superseded : Option GenerationManifest) (d : RequestDeadline)
      (now now' : ℕ) (p : Plane)
      → ((publish_generation py lease stage expected m superseded d now now' p).0 ≡ ok false)
        ⊎ ((publish_generation py lease stage expected m superseded d now now' p).0
            ≡ err timeout_error)
      → (publish_generation py lease stage expected m superseded d now now' p).1 ≡ p
  unfolding publish_generation raise_if_expired
  publish_generation-unchanged lease stage expected m superseded d now now' p h =
      ground (arith, commit_publication-raises stage m superseded p)

  commit_publication-active :
      (stage : GenerationStageRecord) (m : GenerationManifest)
      (superseded : Option GenerationManifest) (p : Plane)
      → (commit_publication py stage m superseded p).0 ≡ ok true
      → (commit_publication py stage m superseded p).1.active
        ≡ keep (λ item. not (is_of m.corpus m.symbol m.accession_number item)) p.active ++ m ∷ []
  unfolding commit_publication record_cleanup replace_stage
  commit_publication-active stage m none p h = ground arith
  commit_publication-active stage m (some old) p h = ground arith

  -- What the tests of a publication that commits have found.
  publish_generation-commits :
      (lease : AccessionLease) (stage : GenerationStageRecord) (expected : Option Text)
      (m : GenerationManifest) (superseded : Option GenerationManifest) (d : RequestDeadline)
      (now now' : ℕ) (p : Plane)
      → (publish_generation py lease stage expected m superseded d now now' p).0 ≡ ok true
      → (owns py lease m p ≡ true)
        × (stage.manifest ≡ m)
        × (stage.state ≡ GenerationState.verified)
        × (is_in stage p.stages ≡ true)
        × (generation_of (first (is_of m.corpus m.symbol m.accession_number) p.active) ≡ expected)
        × (publish_generation py lease stage expected m superseded d now now' p
            ≡ commit_publication py stage m superseded p)
  unfolding publish_generation raise_if_expired
  publish_generation-commits lease stage expected m superseded d now now' p h = ground arith

  pub is_of_self : (m : GenerationManifest) → is_of m.corpus m.symbol m.accession_number m ≡ true
  is_of_self m = simp ==_refl

  -- Two filings that share a manifest are one.
  is_of_other :
      (corpus : CorpusDescriptor) (symbol accession : Text) (m y : GenerationManifest)
      → is_of corpus symbol accession m ≡ false
      → is_of m.corpus m.symbol m.accession_number y ≡ true
      → is_of corpus symbol accession y ≡ false
  is_of_other corpus symbol accession m y h e = ground arith

  pub first_replaced :
      (m : GenerationManifest) (xs : List GenerationManifest) (corpus : CorpusDescriptor)
      (symbol accession : Text)
      → first
          (is_of corpus symbol accession)
          (keep (λ item. not (is_of m.corpus m.symbol m.accession_number item)) xs ++ m ∷ [])
        ≡ (if is_of corpus symbol accession m
            then some m
            else first (is_of corpus symbol accession) xs)
  first_replaced m xs corpus symbol accession =
      elim (Bool-cases (is_of corpus symbol accession m)) [
        | inl same ↦
            let c : m.corpus ≡ corpus = ground arith in
            let s : m.symbol ≡ symbol = ground arith in
            let a : m.accession_number ≡ accession = ground arith in
            rw (same, ← c, ← s, ← a)
              (first-keep-not (is_of m.corpus m.symbol m.accession_number) m xs (is_of_self m))
        | inr other ↦ rw (other) (
            first-keep_other (is_of corpus symbol accession)
              (is_of m.corpus m.symbol m.accession_number) m xs
              (λ y e. is_of_other corpus symbol accession m y other e) other)
      ]

  -- A publication that answers true had the lease of the filing, a stored and verified stage of
  -- this very manifest, and the expected manifest still active; from then on the manifest is the
  -- filing's active one, and no other filing's active manifest has changed.
  pub publish_generation-swaps :
      (lease : AccessionLease) (stage : GenerationStageRecord) (expected : Option Text)
      (m : GenerationManifest) (superseded : Option GenerationManifest) (d : RequestDeadline)
      (now now' : ℕ) (p : Plane) (corpus : CorpusDescriptor) (symbol accession : Text)
      → (publish_generation py lease stage expected m superseded d now now' p).0 ≡ ok true
      → let active' =
          (publish_generation py lease stage expected m superseded d now now' p).1.active in
        (owns py lease m p ≡ true)
        × (stage.manifest ≡ m)
        × (stage.state ≡ GenerationState.verified)
        × (is_in stage p.stages ≡ true)
        × (generation_of (first (is_of m.corpus m.symbol m.accession_number) p.active) ≡ expected)
        × (first (is_of corpus symbol accession) active' ≡ (
            if is_of corpus symbol accession m
            then some m
            else first (is_of corpus symbol accession) p.active))
  publish_generation-swaps lease stage expected m superseded d now now' p corpus symbol accession
        h =
      let found = publish_generation-commits lease stage expected m superseded d now now' p h in
      let active' : (publish_generation py lease stage expected m superseded d now now' p).1.active
          ≡ keep (λ item. not (is_of m.corpus m.symbol m.accession_number item)) p.active
            ++ m ∷ [] =
        rw found.5 (commit_publication-active stage m superseded p (rw found.5 at h)) in
      (
        found.0,
        found.1,
        found.2,
        found.3,
        found.4,
        rw active' (first_replaced m p.active corpus symbol accession),
      )
