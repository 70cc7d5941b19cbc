-- ===== src/Research/Vectors/Staging.antt =====
-- What the vector store holds after it stages or deletes a generation.
use marketview.Research.Domain.Proofs.{
  IsCanonical, exact_proof, from_point_ids-exact_proof, proves-exact_proof,
}
use marketview.Research.Python.Stripping.{IsPython}
use native.Mathlib.Decide.{ℕ_discrete}
use marketview.Research.Python.{Python}
use marketview.Base.Result.{ok, Result-cases}
use marketview.Base.Texts.{Text}
use marketview.Research.Deadline.{RequestDeadline, raise_if_expired-eq}
use marketview.Research.Domain.{
  GenerationManifest, VerificationOutcome, GenerationManifest-Eq, VerificationReason,
  GenerationVerification-Eq,
}
use marketview.Research.Domain.Outcome.{verified_outcome, outcome_proves, make_outcome}
use marketview.Research.Vectors.{
  EmbeddedChunk-Eq, stage_generation, verify_generation, EmbeddedChunk, Entry, delete_generation,
  entry_of, find_generation, verify_entry, validate_generation, point_ids,
}
use marketview.Base.{
  ◌≡◌, refl, [], ◌∷◌, true, false, none, some, inl, inr, ◌==◌, List, arith, first, keep, not, ℕ,
  ◌≢◌, List-Eq, ℕ-Eq, ◌⊎◌, ◌++◌, first-keep-not, List-decides, ==_refl, Option-cases,
  first-keep_other, ◌∙◌, ◌<◌, length, sym, ap, ==→eq, if◌then◌else◌, Option,
}

eqb_text_other : (a b c : Text) → a ≢ b → (c == a) ≡ true → (c == b) ≡ false
eqb_text_other a b c n e = ground arith

first-keep-not_other :
    (a b : Text) (es : List Entry)
    → a ≢ b
    → first (entry_of a) (keep (λ e. not (entry_of b e)) es) ≡ first (entry_of a) es
first-keep-not_other a b [] n = refl
first-keep-not_other a b (e ∷ es) n = ground (arith, first-keep-not_other a b es n)

first-keep-not_same :
    (a : Text) (es : List Entry) → first (entry_of a) (keep (λ e. not (entry_of a e)) es) ≡ none
first-keep-not_same a [] = refl
first-keep-not_same a (e ∷ es) = ground (arith, first-keep-not_same a es)

-- What is left of a new generation's stage.
abbrev pub appended : GenerationManifest → List EmbeddedChunk → List Entry → List Entry
appended m cs es =
    keep (λ e. not (entry_of m.generation_id e)) es ++ (record { manifest = m; chunks = cs }) ∷ []

find-appended :
    (m : GenerationManifest) (cs : List EmbeddedChunk) (es : List Entry)
    → first (entry_of m.generation_id) (appended m cs es)
      ≡ some (record { manifest = m; chunks = cs })
find-appended m cs es =
    first-keep-not (entry_of m.generation_id) (record { manifest = m; chunks = cs }) es
      (==_refl m.generation_id)

Entry-eq :
    (e : Entry) (m : GenerationManifest) (cs : List EmbeddedChunk)
    → (e.manifest == m) ≡ true
    → (e.chunks == cs) ≡ true
    → e ≡ record { manifest = m; chunks = cs }
Entry-eq e m cs p q =
    let p' = ==→eq e.manifest m p in
    let q' = ==→eq e.chunks cs q in λ i. record { manifest = p' i; chunks = q' i }

find-appended_any :
    (m : GenerationManifest) (cs : List EmbeddedChunk) (es : List Entry) (id : Text)
    → first (entry_of id) (appended m cs es) ≡ (
        if m.generation_id == id
        then some (record { manifest = m; chunks = cs })
        else first (entry_of id) es)
find-appended_any m cs es id = elim (List-decides ℕ_discrete m.generation_id id) [
  | yes same ↦ rw (← same, ==_refl m.generation_id) (find-appended m cs es)
  | no other ↦ ground (
    arith,
    first-keep_other (entry_of id) (entry_of m.generation_id) (record { manifest = m; chunks = cs })
        es (λ y k. eqb_text_other m.generation_id id y.manifest.generation_id other k)
        (eqb_text_other m.generation_id id m.generation_id other (==_refl m.generation_id)),
  )
]

find-same :
    (m : GenerationManifest) (cs : List EmbeddedChunk) (es : List Entry) (id : Text)
    → first (entry_of m.generation_id) es ≡ some (record { manifest = m; chunks = cs })
    → first (entry_of id) es ≡ (
        if m.generation_id == id
        then some (record { manifest = m; chunks = cs })
        else first (entry_of id) es)
find-same m cs es id n = elim (List-decides ℕ_discrete m.generation_id id) [
  | yes same ↦ rw (← same, ==_refl m.generation_id) n
  | no other ↦ ground arith
]

pub stage_generation-cases :
    (m : GenerationManifest) (cs : List EmbeddedChunk) (d : RequestDeadline) (now : ℕ)
    (es es' : List Entry)
    → stage_generation m cs d now es ≡ ok es'
    → ((find_generation m.generation_id es ≡ none) × (es' ≡ appended m cs es))
      ⊎ ((find_generation m.generation_id es ≡ some (record { manifest = m; chunks = cs }))
          × (es' ≡ es))
unfolding stage_generation
stage_generation-cases m cs d now es es' h =
    elim (Option-cases (find_generation m.generation_id es)) [
      | inl n ↦ inl (n, ground arith)
      | inr (e, n) ↦ inr (n ∙ ap some (Entry-eq e m cs (ground arith) (ground arith)), ground arith)
    ]

-- A call that stages a generation succeeds only where the generation was not staged or was staged
-- with the same manifest and chunks; it leaves exactly these under the generation, and every other
-- generation as it was.
pub stage_generation-immutable :
    (m : GenerationManifest) (cs : List EmbeddedChunk) (d : RequestDeadline) (now : ℕ)
    (es es' : List Entry) (id : Text)
    → stage_generation m cs d now es ≡ ok es'
    → let staged_entry : Option Entry = some (record { manifest = m; chunks = cs }) in
      ((find_generation m.generation_id es ≡ none)
        ⊎ (find_generation m.generation_id es ≡ staged_entry))
      × (find_generation id es'
          ≡ (if m.generation_id == id then staged_entry else find_generation id es))
unfolding find_generation
stage_generation-immutable m cs d now es es' id h =
    elim (stage_generation-cases m cs d now es es' h) [
      | inl (n, k) ↦ (inl n, rw (k) (find-appended_any m cs es id))
      | inr (n, k) ↦ (inr n, rw (k) (find-same m cs es id n))
    ]

-- A deletion that succeeds removes the generation and no other.
pub delete_generation-other :
    (m : GenerationManifest) (d : RequestDeadline) (now : ℕ) (es es' : List Entry) (id : Text)
    → delete_generation m d now es ≡ ok es'
    → find_generation id es' ≡ (if m.generation_id == id then none else find_generation id es)
unfolding delete_generation find_generation
delete_generation-other m d now es es' id h = elim (List-decides ℕ_discrete m.generation_id id) [
  | yes same ↦ ground (arith, first-keep-not_same m.generation_id es, ==_refl id)
  | no other ↦ ground (arith, first-keep-not_other id m.generation_id es (λ e. other (sym e)))
]

stage_generation-found :
    (m : GenerationManifest) (cs : List EmbeddedChunk) (d : RequestDeadline) (now : ℕ)
    (es es' : List Entry)
    → stage_generation m cs d now es ≡ ok es'
    → find_generation m.generation_id es' ≡ some (record { manifest = m; chunks = cs })
stage_generation-found m cs d now es es' h =
    let (_, f) = stage_generation-immutable m cs d now es es' m.generation_id h in
    f
    ∙ ap
        (λ b.
          if b
          then some (record { manifest = m; chunks = cs })
          else find_generation m.generation_id es)
        (==_refl m.generation_id)

pub point_ids-eq :
    (m : GenerationManifest) (cs : List EmbeddedChunk)
    → validate_generation m cs ≡ ok tt
    → point_ids cs ≡ m.chunk_ids
unfolding validate_generation
point_ids-eq m cs v = ground arith

pub stage_generation-validates :
    (m : GenerationManifest) (cs : List EmbeddedChunk) (d : RequestDeadline) (now : ℕ)
    (es es' : List Entry)
    → stage_generation m cs d now es ≡ ok es'
    → validate_generation m cs ≡ ok tt
unfolding stage_generation
stage_generation-validates m cs d now es es' h = elim (Result-cases (validate_generation m cs)) [
  | inl (_, e) ↦ e
  | inr (_, e) ↦ ground arith
]

verify_generation-found :
    (py : Python) (m : GenerationManifest) (cs : List EmbeddedChunk) (d : RequestDeadline) (now : ℕ)
    (es : List Entry)
    → now < d.expires_at
    → find_generation m.generation_id es ≡ some (record { manifest = m; chunks = cs })
    → verify_generation py m d now es ≡ verify_entry py m (record { manifest = m; chunks = cs })
unfolding verify_generation
verify_generation-found py m cs d now es t f = rw (f, raise_if_expired-eq d now) (ground arith)

module _ (py : Python) (laws : IsPython py) where
  verify_entry-valid :
      (m : GenerationManifest) (cs : List EmbeddedChunk)
      → IsCanonical py m
      → validate_generation m cs ≡ ok tt
      → verify_entry py m (record { manifest = m; chunks = cs })
        ≡ verified_outcome (exact_proof py m) (length m.chunk_ids) 1
  unfolding verify_entry
  verify_entry-valid m cs c v =
      rw (verify_entry, v, point_ids-eq m cs v, from_point_ids-exact_proof py laws m c) refl

  verified_outcome-exact :
      (m : GenerationManifest)
      → IsCanonical py m
      → (o : VerificationOutcome) × ((verified_outcome (exact_proof py m) (length m.chunk_ids) 1
            ≡ ok o)
          × (outcome_proves py o m ≡ ok true))
  unfolding verified_outcome make_outcome outcome_proves exact_proof
  verified_outcome-exact m c = (
    record {
      reason = VerificationReason.verified;
      expected_point_count = length m.chunk_ids;
      observed_point_count = length m.chunk_ids;
      null_point_count = 0;
      attempt_count = 1;
      verification = some (exact_proof py m);
    },
    (
      let pos : 0 < length m.chunk_ids = c.nonempty in ground arith,
      proves-exact_proof py laws (exact_proof py m) m c ∙ ap ok (==_refl (exact_proof py m)),
    ),
  )

  -- After a successful stage of a canonical manifest, a verification at any time before its own
  -- deadline returns, and its outcome proves the manifest.
  pub stage_generation-verifies :
      (m : GenerationManifest) (cs : List EmbeddedChunk) (d d' : RequestDeadline) (now now' : ℕ)
      (es es' : List Entry)
      → IsCanonical py m
      → stage_generation m cs d now es ≡ ok es'
      → now' < d'.expires_at
      → (o : VerificationOutcome) × ((verify_generation py m d' now' es' ≡ ok o)
          × (outcome_proves py o m ≡ ok true))
  stage_generation-verifies m cs d d' now now' es es' c h t =
      let f = stage_generation-found m cs d now es es' h in
      let v = stage_generation-validates m cs d now es es' h in
      let (o, (e, p)) = verified_outcome-exact m c in
      (o, (verify_generation-found py m cs d' now' es' t f ∙ (verify_entry-valid m cs c v ∙ e), p))
