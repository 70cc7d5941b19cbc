-- ===== src/Research/Service/Query/Grounded.antt =====
-- What the claims of an answered `query_research` (app/research/service.py) rest on.
use marketview.Research.Retrieval.Loop.{is_safe}
use marketview.Base.Texts.{Text}
use marketview.Research.Answer.{EvidenceQuote, GeneratedClaim}
use marketview.Research.Retrieval.{EvidenceChunk, Query, SearchHit}
use marketview.Research.Service.Query.{
  Asked, contains, evidence_of, is_grounded, is_prefix, is_quoted, quotes_of, selected,
}
use marketview.Base.{
  ◌≡◌, refl, [], ◌∷◌, true, false, some, inl, inr, &&-eq-true, ◌++◌, Bool, Bool-cases, List,
  Option-cases, all, ap, arith, eqb, ◌∙◌,
}
use marketview.Research.Grounding.{claim_has_lexical_support, is_empty}

abbrev pub Every {ℓ} : {A : Type ℓ} → (A → Type 0) → List A → Type 0
Every P [] = Unit
Every P (x ∷ xs) = P x × Every P xs

abbrev pub OccursIn {ℓ} : {A : Type ℓ} → A → List A → Type ℓ
OccursIn {A = A} x xs = (before : List A) × (after : List A) × (xs ≡ before ++ x ∷ after)

-- The quote is a run of the text.
abbrev pub QuotedFrom : Text → Text → Type 0
QuotedFrom quote text = (before : Text) × (after : Text) × (text ≡ before ++ (quote ++ after))

is_prefix-eq : (p s : Text) → is_prefix p s ≡ true → (after : Text) × (s ≡ p ++ after)
unfolding is_prefix
is_prefix-eq [] s h = (s, refl)
is_prefix-eq (c ∷ p) [] h = absurd (ground arith)
is_prefix-eq (c ∷ p) (c' ∷ s) h =
    let both = &&-eq-true (eqb c c') (is_prefix p s) h in
    let (after, e) = is_prefix-eq p s both.1 in
    let same : c ≡ c' = ground arith in (after, rw (same, e) refl)

contains-QuotedFrom : (quote text : Text) → contains quote text ≡ true → QuotedFrom quote text
unfolding contains
contains-QuotedFrom quote [] h = let (after, e) = is_prefix-eq quote [] h in ([], after, e)
contains-QuotedFrom quote (c ∷ s) h = elim (Bool-cases (is_prefix quote (c ∷ s))) [
  | inl e ↦ let (after, k) = is_prefix-eq quote (c ∷ s) e in ([], after, k)
  | inr e ↦
      let (before, after, k) = contains-QuotedFrom quote s (rw e at h) in
      (c ∷ before, after, rw k refl)
]

selected-OccursIn :
    (hits : List SearchHit) (id : Text) (e : EvidenceChunk)
    → selected (evidence_of hits) id ≡ some e
    → (h : SearchHit) × OccursIn h hits × (h.evidence ≡ e) × (e.chunk_id ≡ id)
unfolding selected
selected-OccursIn [] id e k = absurd (ground arith)
selected-OccursIn (h ∷ hs) id e k = elim (Option-cases (selected (evidence_of hs) id)) [
  | inl n ↦ (h, ([], hs, refl), ground (arith, k, n), ground (arith, k, n))
  | inr (later, n) ↦
      let same : later ≡ e = ground (arith, k, n) in
      let (h', (before, after, o), f, f') = selected-OccursIn hs id e (n ∙ ap some same) in
      (h', (h ∷ before, after, rw o refl), f, f')
]

all-OccursIn :
    {A : Type 0} (p : A → Bool) (xs : List A) (x : A) → all p xs ≡ true → OccursIn x xs → p x ≡ true
all-OccursIn p xs x h (before, after, e) = go before (rw e at h)
  where
    go : (ys : List _) → all p (ys ++ x ∷ after) ≡ true → p x ≡ true
    go [] k = (&&-eq-true (p x) (all p after) k).0
    go (y ∷ ys) k = go ys (&&-eq-true (p y) (all p (ys ++ x ∷ after)) k).1

module _ (a : Asked) where
  -- The quote is found in the text of an accepted hit, which is safe.
  abbrev pub QuotedInHit : Query → List SearchHit → EvidenceQuote → Type 0
  QuotedInHit q hits quote =
      (h : SearchHit) × OccursIn h hits
      × (is_safe a.contains_prompt_injection q h ≡ true)
      × (h.evidence.chunk_id ≡ quote.chunk_id)
      × QuotedFrom quote.quote h.evidence.text

  -- The claim has quotes, each found in an accepted hit, and their words support it.
  abbrev pub ClaimRests : Query → List SearchHit → GeneratedClaim → Type 0
  ClaimRests q hits c =
      (is_empty c.evidence_quotes ≡ false)
      × Every (QuotedInHit q hits) c.evidence_quotes
      × (claim_has_lexical_support a.casefold c.text (quotes_of c.evidence_quotes) ≡ true)

  is_quoted-QuotedInHit :
      (q : Query) (hits : List SearchHit) (quote : EvidenceQuote)
      → all (is_safe a.contains_prompt_injection q) hits ≡ true
      → is_quoted (evidence_of hits) quote ≡ true
      → QuotedInHit q hits quote
  unfolding is_quoted
  is_quoted-QuotedInHit q hits quote safe h =
      elim (Option-cases (selected (evidence_of hits) quote.chunk_id)) [
        | inl n ↦ absurd (ground (arith, h, n))
        | inr (e, n) ↦
            let (hit, occurs, same, id) = selected-OccursIn hits quote.chunk_id e n in
            let inside : contains quote.quote e.text ≡ true = ground (arith, h, n) in
            (
              hit,
              occurs,
              all-OccursIn _ hits hit safe occurs,
              rw same id,
              rw same (contains-QuotedFrom quote.quote e.text inside),
            )
      ]

  quotes-Every :
      (q : Query) (hits : List SearchHit) (quotes : List EvidenceQuote)
      → all (is_safe a.contains_prompt_injection q) hits ≡ true
      → all (is_quoted (evidence_of hits)) quotes ≡ true
      → Every (QuotedInHit q hits) quotes
  quotes-Every q hits [] safe h = tt
  quotes-Every q hits (x ∷ xs) safe h =
      let both =
        &&-eq-true (is_quoted (evidence_of hits) x) (all (is_quoted (evidence_of hits)) xs) h in
      (is_quoted-QuotedInHit q hits x safe both.0, quotes-Every q hits xs safe both.1)

  pub claims-Every :
      (q : Query) (hits : List SearchHit) (claims : List GeneratedClaim)
      → all (is_safe a.contains_prompt_injection q) hits ≡ true
      → all (is_grounded a (evidence_of hits)) claims ≡ true
      → Every (ClaimRests q hits) claims
  unfolding is_grounded
  claims-Every q hits [] safe h = tt
  claims-Every q hits (c ∷ cs) safe h =
      let both =
        &&-eq-true (is_grounded a (evidence_of hits) c) (all (is_grounded a (evidence_of hits)) cs)
          h in
      let quoted : is_empty c.evidence_quotes ≡ false = ground (arith, both.0) in
      let inside : all (is_quoted (evidence_of hits)) c.evidence_quotes ≡ true =
        ground (arith, both.0) in
      let supported : claim_has_lexical_support a.casefold c.text (quotes_of c.evidence_quotes)
          ≡ true =
        ground (arith, both.0) in
      (
        (quoted, quotes-Every q hits c.evidence_quotes safe inside, supported),
        claims-Every q hits cs safe both.1,
      )
