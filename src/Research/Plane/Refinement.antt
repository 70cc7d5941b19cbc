-- ===== src/Research/Plane/Refinement.antt =====
-- The control plane of app/research/memory.py as a map from filings to active manifests, which only
-- publications change.
use marketview.Research.Plane.Publishing.{first_replaced}
use marketview.Research.Plane.{
  stage_generation, acquire_generation_lease, is_of, mark_generation_verified, publish_generation,
}
use marketview.Research.Plane.Calls.{
  abort_generation-after, acquire_generation_lease-after, clean_generation-after,
  mark_generation_verified-after, mark_superseded_cleaned-after, publish_generation-after,
  release_generation_lease-after, stage_generation-after,
}
use marketview.Research.Plane.Cleanup.{
  abort_generation, clean_generation, mark_superseded_cleaned, release_generation_lease,
}
use marketview.Base.Texts.{Text}
use marketview.Research.Python.{Python}
use marketview.Research.Plane.State.{Plane}
use marketview.Research.Domain.{CorpusDescriptor, GenerationManifest}
use marketview.Base.{
  ◌≡◌, refl, [], ◌∷◌, some, inl, inr, List, Option, ap, first, ◌∙◌, ◌⊎◌, if◌then◌else◌,
}
use marketview.Research.Plane.Soundness.{
  after, Call, abort_call, acquire_call, after_all, clean_call, release_call, stage_call,
  publish_call, verify_call, clean_superseded_call,
}

-- A filing is a corpus, a symbol and an accession.
abbrev pub View : Type 0
View = CorpusDescriptor → Text → Text → Option GenerationManifest

-- The manifest is its filing's from now on.
abbrev pub publish_in : GenerationManifest → View → View
publish_in m v corpus symbol accession =
    if is_of corpus symbol accession m then some m else v corpus symbol accession

abbrev pub publish_all : List GenerationManifest → View → View
publish_all [] v = v
publish_all (m ∷ ms) v = publish_all ms (publish_in m v)

-- The active manifest of each filing.
abbrev pub view : Plane → View
view p corpus symbol accession = first (is_of corpus symbol accession) p.active

-- The manifests that the calls ask to publish, in their order.
unfoldable pub asked_by : List Call → List GenerationManifest
asked_by [] = []
asked_by (publish_call lease r expected m superseded d now now' ∷ xs) = m ∷ asked_by xs
asked_by (acquire_call m owner ttl d now ∷ xs) = asked_by xs
asked_by (stage_call lease m d now ∷ xs) = asked_by xs
asked_by (verify_call lease r v d now ∷ xs) = asked_by xs
asked_by (clean_superseded_call lease entry ttl d now now' ∷ xs) = asked_by xs
asked_by (abort_call lease r d now ∷ xs) = asked_by xs
asked_by (clean_call lease r ttl d now ∷ xs) = asked_by xs
asked_by (release_call lease d now ∷ xs) = asked_by xs

-- `ys` are some of `xs`, in their order.
abbrev pub ChosenFrom {ℓ} : {A : Type ℓ} → List A → List A → Type ℓ
ChosenFrom ys [] = ys ≡ []
ChosenFrom {A = A} ys (x ∷ xs) =
    ChosenFrom ys xs ⊎ ((ys' : List A) × (ys ≡ x ∷ ys') × ChosenFrom ys' xs)

module _ (py : Python) where
  -- The views agree on every filing.
  abbrev Refines : List Call → Plane → List GenerationManifest → Type 0
  Refines xs p ms =
      (corpus : CorpusDescriptor) (symbol accession : Text)
      → view (after_all py xs p) corpus symbol accession
        ≡ publish_all ms (view p) corpus symbol accession

  publish_all-agree :
      (ms : List GenerationManifest) (v w : View)
      → ((corpus : CorpusDescriptor) (symbol accession : Text)
          → v corpus symbol accession ≡ w corpus symbol accession)
      → (corpus : CorpusDescriptor) (symbol accession : Text)
      → publish_all ms v corpus symbol accession ≡ publish_all ms w corpus symbol accession
  publish_all-agree [] v w h corpus symbol accession = h corpus symbol accession
  publish_all-agree (m ∷ ms) v w h corpus symbol accession =
      publish_all-agree ms (publish_in m v) (publish_in m w) (λ c s a. rw (h c s a) refl) corpus
        symbol accession

  -- A call that leaves the active manifests alone.
  step_quiet :
      (xs : List Call) (p p' : Plane)
      → p'.active ≡ p.active
      → ((ms : List GenerationManifest) × ChosenFrom ms (asked_by xs) × Refines xs p' ms)
      → (ms : List GenerationManifest) × ChosenFrom ms (asked_by xs)
        × ((corpus : CorpusDescriptor) (symbol accession : Text)
            → view (after_all py xs p') corpus symbol accession
              ≡ publish_all ms (view p) corpus symbol accession)
  step_quiet xs p p' h (ms, chosen, refines) = (
    ms,
    chosen,
    λ corpus symbol accession.
        refines corpus symbol accession
        ∙ publish_all-agree ms (view p') (view p) (λ c s a. rw h refl) corpus symbol accession,
  )

  -- Whatever the calls, the active manifests after them are those of the map that some of the
  -- publications asked for, in their order, make of the active manifests before.
  pub after_all-refines :
      (xs : List Call) (p : Plane)
      → (ms : List GenerationManifest) × ChosenFrom ms (asked_by xs)
        × ((corpus : CorpusDescriptor) (symbol accession : Text)
            → view (after_all py xs p) corpus symbol accession
              ≡ publish_all ms (view p) corpus symbol accession)
  unfolding after_all after asked_by
  after_all-refines [] p = ([], refl, λ corpus symbol accession. refl)
  after_all-refines (acquire_call m owner ttl d now ∷ xs) p =
      step_quiet xs p _ (acquire_generation_lease-after py m owner ttl d now p).1
        (after_all-refines xs (acquire_generation_lease py m owner ttl d now p).1)
  after_all-refines (stage_call lease m d now ∷ xs) p =
      step_quiet xs p _ (stage_generation-after py lease m d now p).1
        (after_all-refines xs (stage_generation py lease m d now p).1)
  after_all-refines (verify_call lease r v d now ∷ xs) p =
      step_quiet xs p _ (mark_generation_verified-after py lease r v d now p).1
        (after_all-refines xs (mark_generation_verified py lease r v d now p).1)
  after_all-refines (clean_superseded_call lease entry ttl d now now' ∷ xs) p =
      step_quiet xs p _ (mark_superseded_cleaned-after py lease entry ttl d now now' p).1
        (after_all-refines xs (mark_superseded_cleaned py lease entry ttl d now now' p).1)
  after_all-refines (abort_call lease r d now ∷ xs) p =
      step_quiet xs p _ (abort_generation-after py lease r d now p).1
        (after_all-refines xs (abort_generation py lease r d now p).1)
  after_all-refines (clean_call lease r ttl d now ∷ xs) p =
      step_quiet xs p _ (clean_generation-after py lease r ttl d now p).1
        (after_all-refines xs (clean_generation py lease r ttl d now p).1)
  after_all-refines (release_call lease d now ∷ xs) p =
      step_quiet xs p _ (release_generation_lease-after py lease d now p).1
        (after_all-refines xs (release_generation_lease py lease d now p).1)
  after_all-refines (publish_call lease r expected m superseded d now now' ∷ xs) p =
      let p' = (publish_generation py lease r expected m superseded d now now' p).1 in
      let (ms, chosen, refines) = after_all-refines xs p' in
      elim (publish_generation-after py lease r expected m superseded d now now' p).1 [
        | inl same ↦ (
          ms,
          inl chosen,
          λ corpus symbol accession.
              refines corpus symbol accession
              ∙ publish_all-agree ms (view p') (view p) (λ c s a. rw same refl) corpus symbol
                  accession,
        )
        | inr new ↦ (
          m ∷ ms,
          inr (ms, refl, chosen),
          λ corpus symbol accession.
              refines corpus symbol accession
              ∙ publish_all-agree ms (view p') (publish_in m (view p))
                  (λ c s a. ap (first (is_of c s a)) new ∙ first_replaced py m p.active c s a)
                  corpus symbol accession,
        )
      ]
