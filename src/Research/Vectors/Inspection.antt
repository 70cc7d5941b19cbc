-- ===== src/Research/Vectors/Inspection.antt =====
-- What `inspect_generation` reports of a staged generation.
use marketview.Research.Domain.Proofs.{IsCanonical}
use marketview.Research.Deadline.{RequestDeadline, raise_if_expired-eq}
use marketview.Research.Python.{Python}
use marketview.Research.Vectors.Staging.{
  point_ids-eq, appended, stage_generation-cases, stage_generation-validates,
}
use marketview.Base.Result.{ok}
use marketview.Base.Texts.{Text}
use marketview.Research.Domain.{GenerationManifest, distinct, EmbeddingDescriptor-Eq}
use marketview.Research.Vectors.{
  EmbeddedChunk, belongs, entry_state, exact, validate_generation, inspect_generation, Entry,
  find_generation, point_ids, entry_of, entries_state, points, make_inspection,
}
use mathlib.Core.List.{append_assoc}
use marketview.Research.Vectors.{stage_generation}
use marketview.Base.{
  differs_refl, ◌≡◌, refl, [], ◌∷◌, true, false, some, inl, inr, ◌&&◌, ◌++◌, ◌==◌, Bool, List, all,
  any, arith, count, first, keep, not, ◌≤◌, List-Eq, ℕ-Eq, ==_refl, eqb, length, ℕ, ◌∙◌, ◌<◌, sym,
  ap,
}

keep-append {ℓ} :
    {A : Type ℓ} (p : A → Bool) (xs ys : List A) → keep p (xs ++ ys) ≡ keep p xs ++ keep p ys
keep-append p [] ys = refl
keep-append p (x ∷ xs) ys = ground (arith, keep-append p xs ys)

keep-keep-not {ℓ} :
    {A : Type ℓ} (p : A → Bool) (xs : List A) → keep p (keep (λ x. not (p x)) xs) ≡ []
keep-keep-not p [] = refl
keep-keep-not p (x ∷ xs) = ground (arith, keep-keep-not p xs)

keep-of_none {ℓ} : {A : Type ℓ} (p : A → Bool) (xs : List A) → count p xs ≡ 0 → keep p xs ≡ []
keep-of_none p [] h = refl
keep-of_none p (x ∷ xs) h = ground (arith, keep-of_none p xs)

-- The one entry that a search finds is all that a filter keeps.
keep-of_one {ℓ} :
    {A : Type ℓ} (p : A → Bool) (xs : List A) (a : A)
    → first p xs ≡ some a
    → count p xs ≤ 1
    → keep p xs ≡ a ∷ []
keep-of_one p [] a h l = ground arith
keep-of_one p (x ∷ xs) a h l = ground (arith, keep-of_one p xs a, keep-of_none p xs)

keep-of_all {ℓ} : {A : Type ℓ} (p : A → Bool) (xs : List A) → all p xs ≡ true → keep p xs ≡ xs
keep-of_all p [] h = refl
keep-of_all p (x ∷ xs) h = ground (arith, keep-of_all p xs)

any_found : (xs ys : List Text) (y : Text) → any (λ p. p == y) (xs ++ y ∷ ys) ≡ true
any_found [] ys y = ground (arith, ==_refl y)
any_found (x ∷ xs) ys y = ground (arith, any_found xs ys y)

-- Every identity of a part of a list is in the list.
all-any_append : (xs ys : List Text) → all (λ id. any (λ p. p == id) (xs ++ ys)) ys ≡ true
all-any_append xs [] = refl
all-any_append xs (y ∷ ys) =
    let rest : all (λ id. any (λ p. p == id) (xs ++ y ∷ ys)) ys ≡ true =
      rw (← append_assoc xs (y ∷ []) ys) (all-any_append (xs ++ y ∷ []) ys) in
    ground (arith, any_found xs ys y)

keep-known : (xs : List Text) → keep (λ id. any (λ p. p == id) xs) xs ≡ xs
keep-known xs = keep-of_all (λ id. any (λ p. p == id) xs) xs (all-any_append [] xs)

-- Every vector is of the embedding of the corpus.
abbrev pub is_embedded : GenerationManifest → List EmbeddedChunk → Bool
is_embedded m cs = all (λ c. c.embedding.descriptor == m.corpus.embedding) cs

all-belongs :
    (m : GenerationManifest) (cs : List EmbeddedChunk)
    → any (λ c. not (belongs m c)) cs ≡ false
    → is_embedded m cs ≡ true
    → all (λ c. belongs m c && c.embedding.descriptor == m.corpus.embedding) cs ≡ true
all-belongs m [] h e = refl
all-belongs m (c ∷ cs) h e = ground (arith, all-belongs m cs)

validate_generation-checks :
    (m : GenerationManifest) (cs : List EmbeddedChunk)
    → validate_generation m cs ≡ ok tt
    → (eqb (length cs) 0 ≡ false) × (any (λ c. not (belongs m c)) cs ≡ false)
unfolding validate_generation
validate_generation-checks m cs v = (ground arith, ground arith)

entry_state-exact :
    (m : GenerationManifest) (cs : List EmbeddedChunk)
    → validate_generation m cs ≡ ok tt
    → distinct m.chunk_ids ≡ true
    → is_embedded m cs ≡ true
    → entry_state m cs ≡ exact
unfolding entry_state
entry_state-exact m cs v d e =
    let (n, b) = validate_generation-checks m cs v in
    rw
      (
        n,
        point_ids-eq m cs v,
        d,
        keep-known m.chunk_ids,
        differs_refl m.chunk_ids,
        all-belongs m cs b e,
        ==_refl m.chunk_ids,
      )
      refl

length-point_ids : (cs : List EmbeddedChunk) → length (point_ids cs) ≡ length cs
unfolding point_ids
length-point_ids [] = refl
length-point_ids (c ∷ cs) = omega (arith, length-point_ids cs)

-- What the inspection of a manifest's one entry reads.
abbrev found : GenerationManifest → List EmbeddedChunk → List Entry
found m cs = (record { manifest = m; chunks = cs }) ∷ []

keep-appended :
    (m : GenerationManifest) (cs : List EmbeddedChunk) (es : List Entry)
    → keep (entry_of m.generation_id) (appended m cs es) ≡ found m cs
keep-appended m cs es =
    keep-append (entry_of m.generation_id) (keep (λ e. not (entry_of m.generation_id e)) es)
      (found m cs)
    ∙ rw (keep-keep-not (entry_of m.generation_id) es, ==_refl m.generation_id) refl

keep-staged :
    (m : GenerationManifest) (cs : List EmbeddedChunk) (d : RequestDeadline) (now : ℕ)
    (es es' : List Entry)
    → stage_generation m cs d now es ≡ ok es'
    → count (entry_of m.generation_id) es ≤ 1
    → keep (entry_of m.generation_id) es' ≡ found m cs
unfolding find_generation
keep-staged m cs d now es es' h l = elim (stage_generation-cases m cs d now es es' h) [
  | inl (n, k) ↦ rw (k) (keep-appended m cs es)
  | inr (n, k) ↦
      rw (k) (keep-of_one (entry_of m.generation_id) es (record { manifest = m; chunks = cs }) n l)
]

inspect_found :
    (m : GenerationManifest) (cs : List EmbeddedChunk) (d : RequestDeadline) (now : ℕ)
    (es : List Entry)
    → now < d.expires_at
    → keep (entry_of m.generation_id) es ≡ found m cs
    → entry_state m cs ≡ exact
    → length cs ≡ length m.chunk_ids
    → 0 < length cs
    → inspect_generation m d now es
      ≡ ok (record {
        state = exact;
        expected_point_count = length m.chunk_ids;
        observed_point_count = length m.chunk_ids;
      })
unfolding inspect_generation entries_state points make_inspection
inspect_found m cs d now es t k x n z =
    rw (k, raise_if_expired-eq d now, differs_refl m, x, n) (ground arith)

-- In a store that held one entry of the generation at most, a canonical manifest whose chunks carry
-- vectors of its corpus's embedding is inspected as exact after its successful stage, with every
-- point observed, at any time before the inspection's own deadline.
pub stage_generation-inspects :
    (py : Python) (m : GenerationManifest) (cs : List EmbeddedChunk) (d d' : RequestDeadline)
    (now now' : ℕ) (es es' : List Entry)
    → IsCanonical py m
    → is_embedded m cs ≡ true
    → count (entry_of m.generation_id) es ≤ 1
    → stage_generation m cs d now es ≡ ok es'
    → now' < d'.expires_at
    → inspect_generation m d' now' es'
      ≡ ok (record {
        state = exact;
        expected_point_count = length m.chunk_ids;
        observed_point_count = length m.chunk_ids;
      })
stage_generation-inspects py m cs d d' now now' es es' c e l h t =
    let v = stage_generation-validates m cs d now es es' h in
    let n : length cs ≡ length m.chunk_ids =
      sym (length-point_ids cs) ∙ ap length (point_ids-eq m cs v) in
    inspect_found m cs d' now' es' t (keep-staged m cs d now es es' h l)
      (entry_state-exact m cs v c.unique e) n (rw (n) c.nonempty)
