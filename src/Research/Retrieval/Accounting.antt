-- ===== src/Research/Retrieval/Accounting.antt =====
-- The totals that `classify_safe_hits` reports.
use marketview.Base.Result.{ok}
use marketview.Research.Retrieval.{
  Query, tally_hits, SearchHit, record_verdict, score_range, total, one, validate_range, Tally,
  verdict, Verdict, supported_filing_types, inactive, duplicate, integrity, below, injection,
  over_limit, accept, make_classification, empty_tally, SafeHitClassification, classify_safe_hits,
  no_rejections,
}
use marketview.Base.Texts.{Text}
use marketview.Base.{
  ◌≡◌, refl, [], ◌∷◌, suc, true, none, some, inl, inr, ◌&&◌, ◌+◌, ◌==◌, Bool, List, Option, all,
  all-append, any, arith, eqb, leb, length, length-append, ltb, not, ℕ, List-Eq, ℕ-Eq, Option-cases,
}

-- A hit whose score is one at most, as `SearchHit` checks when it is made.
abbrev pub within_one : SearchHit → Bool
within_one h = leb h.score one

module _ (is_injection : Text → Bool) where
  record_verdict-accounts :
      (h : SearchHit) (t : Tally) (v : Verdict)
      → length ((record_verdict is_injection h t v).accepted)
          + total ((record_verdict is_injection h t v).counts)
        ≡ suc (length t.accepted + total t.counts)
  unfolding record_verdict total
  record_verdict-accounts h t inactive = omega arith
  record_verdict-accounts h t duplicate = omega arith
  record_verdict-accounts h t integrity = omega arith
  record_verdict-accounts h t below = omega arith
  record_verdict-accounts h t injection = omega arith
  record_verdict-accounts h t over_limit = omega arith
  record_verdict-accounts h t accept = omega (arith, length-append t.accepted (h ∷ []))

  pub tally_hits-accounts :
      (q : Query) (hs : List SearchHit) (t : Tally)
      → length ((tally_hits is_injection q hs t).accepted)
          + total ((tally_hits is_injection q hs t).counts)
        ≡ length hs + (length t.accepted + total t.counts)
  unfolding tally_hits
  tally_hits-accounts q [] t = omega arith
  tally_hits-accounts q (h ∷ hs) t = omega (
    arith,
    tally_hits-accounts q hs (record_verdict is_injection h t (verdict is_injection q t h)),
    record_verdict-accounts h t (verdict is_injection q t h),
  )

  record_verdict-within :
      (h : SearchHit) (t : Tally) (v : Verdict)
      → within_one h ≡ true
      → all within_one t.accepted ≡ true
      → all within_one ((record_verdict is_injection h t v).accepted) ≡ true
  unfolding record_verdict
  record_verdict-within h t inactive w e = e
  record_verdict-within h t duplicate w e = e
  record_verdict-within h t integrity w e = e
  record_verdict-within h t below w e = e
  record_verdict-within h t injection w e = e
  record_verdict-within h t over_limit w e = e
  record_verdict-within h t accept w e = all-append within_one t.accepted (h ∷ []) e (rw w)

  tally_hits-within :
      (q : Query) (hs : List SearchHit) (t : Tally)
      → all within_one hs ≡ true
      → all within_one t.accepted ≡ true
      → all within_one ((tally_hits is_injection q hs t).accepted) ≡ true
  unfolding tally_hits
  tally_hits-within q [] t w e = e
  tally_hits-within q (h ∷ hs) t w e =
      tally_hits-within q hs (record_verdict is_injection h t (verdict is_injection q t h))
        (ground arith) (record_verdict-within h t (verdict is_injection q t h) (ground arith) e)

-- A range of scores that are one at most, of a list this long.
abbrev range_fits : Option (ℕ × ℕ) → ℕ → Bool
range_fits none n = eqb n 0
range_fits (some (lo, hi)) n = ltb 0 n && leb lo hi && leb hi one

score_range-fits :
    (hs : List SearchHit)
    → all within_one hs ≡ true
    → range_fits (score_range hs) (length hs) ≡ true
unfolding score_range
score_range-fits [] w = refl
score_range-fits (h ∷ hs) w = elim (Option-cases (score_range hs)) [
  | inl e ↦ ground (arith, score_range-fits hs)
  | inr (r, e) ↦ ground (arith, score_range-fits hs)
]

validate_range-fits :
    (r : Option (ℕ × ℕ)) (n : ℕ) → range_fits r n ≡ true → validate_range r (ltb 0 n) ≡ ok tt
unfolding validate_range
validate_range-fits none n f = ground arith
validate_range-fits (some (lo, hi)) n f = ground arith

validate_range-score_range :
    (hs : List SearchHit)
    → all within_one hs ≡ true
    → validate_range (score_range hs) (ltb 0 (length hs)) ≡ ok tt
validate_range-score_range hs w =
    validate_range-fits (score_range hs) (length hs) (score_range-fits hs w)

make_classification-eq :
    (c : SafeHitClassification)
    → c.accepted_count ≡ length c.accepted_hits
    → c.accepted_count + total c.rejection_counts ≡ c.candidate_count
    → validate_range c.raw_score_range (ltb 0 c.candidate_count) ≡ ok tt
    → validate_range c.accepted_score_range (ltb 0 c.accepted_count) ≡ ok tt
    → make_classification c ≡ ok c
unfolding make_classification
make_classification-eq c a b r s = ground arith

total-none : total no_rejections ≡ 0
unfolding total
total-none = refl

-- The tests that `classify_safe_hits` makes of its arguments.
abbrev pub accepts_query : Query → Bool
accepts_query q =
    not (eqb (length q.symbol) 0)
    && leb q.minimum_score one
    && leb 1 q.max_results
    && leb q.max_results 20
    && elim q.filing_type [ none ↦ true | some t ↦ any (λ s. s == t) supported_filing_types ]

-- What a successful call reports of the candidates.
pub record IsAccount (hits : List SearchHit) (c : SafeHitClassification) : Type 0 where
  pub candidates : c.candidate_count ≡ length hits
  pub accepted : c.accepted_count ≡ length c.accepted_hits
  pub balanced : c.accepted_count + total c.rejection_counts ≡ length hits
  pub raw : c.raw_score_range ≡ score_range hits
  pub of_accepted : c.accepted_score_range ≡ score_range c.accepted_hits

module _ (is_injection : Text → Bool) where
  tallied : (q : Query) (hits : List SearchHit) → Tally
  tallied q hits = tally_hits is_injection q hits empty_tally

  classified : Query → List SearchHit → SafeHitClassification
  unfolding tallied
  classified q hits = record {
    accepted_hits = (tallied q hits).accepted;
    rejection_counts = (tallied q hits).counts;
    candidate_count = length hits;
    accepted_count = length (tallied q hits).accepted;
    raw_score_range = score_range hits;
    accepted_score_range = score_range (tallied q hits).accepted;
  }

  make_classification-classified :
      (q : Query) (hits : List SearchHit)
      → all within_one hits ≡ true
      → make_classification (classified q hits) ≡ ok (classified q hits)
  unfolding classified tallied
  make_classification-classified q hits w =
      make_classification-eq (classified q hits) refl
        (omega (arith, tally_hits-accounts is_injection q hits empty_tally, total-none))
        (validate_range-score_range hits w)
        (validate_range-score_range (tallied q hits).accepted
          (tally_hits-within is_injection q hits empty_tally w refl))

  -- A query that passes the tests on hits that score one at most raises nothing: the constructor's
  -- own checks pass, the accepted and the rejected hits add up to the candidates, and the two score
  -- ranges are those of the candidates and of the accepted hits.
  pub classify_safe_hits-accounts :
      (q : Query) (hits : List SearchHit)
      → accepts_query q ≡ true
      → all within_one hits ≡ true
      → (c : SafeHitClassification) × ((classify_safe_hits is_injection q hits ≡ ok c)
          × IsAccount hits c)
  unfolding classify_safe_hits classified tallied
  classify_safe_hits-accounts q hits v w = (
    classified q hits,
    (
      ground (arith, make_classification-classified q hits w),
      record {
        candidates = refl;
        accepted = refl;
        balanced = omega (arith, tally_hits-accounts is_injection q hits empty_tally, total-none);
        raw = refl;
        of_accepted = refl;
      },
    ),
  )
