-- ===== src/Research/Retrieval/Loop.antt =====
-- The accepted hits that the loop of `classify_safe_hits` keeps.
use marketview.Research.Retrieval.Chunks.{
  any-append-last, has_distinct_chunks, has_distinct_chunks-append, has_distinct_chunks-not_before,
  has_distinct_chunks-skip, has_id,
}
use marketview.Base.Texts.{Text}
use marketview.Research.Retrieval.{
  Query, SearchHit, Tally, Verdict, accept, active_by_generation, below, duplicate, empty_tally,
  inactive, injection, integrity, mismatched, over_limit, record_verdict, tally_hits, verdict,
  verdict_on,
}
use marketview.Base.{
  ◌≡◌, refl, [], ◌∷◌, true, false, none, some, inl, inr, ◌&&◌, ◌+◌, ◌++◌, ◌<◌, ◌==◌, Bool,
  Bool-cases, List, Option-cases, all, all-append, any, ap, arith, keep, length, length-append, ltb,
  not, sym, ◌∙◌, ◌≢◌, ◌≤◌, List-Eq, ℕ-Eq,
}
use mathlib.Core.List.{append-nil, append_assoc}

-- A hit that no other hit can turn away.
abbrev pub is_safe : (Text → Bool) → Query → SearchHit → Bool
is_safe is_injection q h = elim (active_by_generation h.active_generation_id q.active) [
  | none ↦ false
  | some m ↦
      not (mismatched q m h)
      && not (ltb h.score q.minimum_score)
      && not (is_injection h.evidence.text)
]

abbrev pub seen : Text → List Text → Bool
seen id ids = any (λ c. c == id) ids

module _ (is_injection : Text → Bool) where
  -- A verdict by its branch.
  verdict-accept :
      (q : Query) (t : Tally) (h : SearchHit)
      → verdict is_injection q t h ≡ accept
      → ((is_safe is_injection q h ≡ true)
          × ((seen h.evidence.chunk_id t.seen_chunks ≡ false)
              × (length t.accepted < q.max_results)))
  unfolding verdict verdict_on
  verdict-accept q t h e =
      elim (Option-cases (active_by_generation h.active_generation_id q.active)) [
        | inl n ↦ ground arith
        | inr (m, n) ↦ (ground arith, (ground arith, ground arith))
      ]

  verdict-of_is_safe :
      (q : Query) (t : Tally) (h : SearchHit)
      → is_safe is_injection q h ≡ true
      → seen h.evidence.chunk_id t.seen_chunks ≡ false
      → length t.accepted < q.max_results
      → verdict is_injection q t h ≡ accept
  unfolding verdict verdict_on
  verdict-of_is_safe q t h e s l =
      elim (Option-cases (active_by_generation h.active_generation_id q.active)) [
        | inl n ↦ ground arith
        | inr (m, n) ↦ ground arith
      ]

  verdict-of_not_safe :
      (q : Query) (t : Tally) (h : SearchHit)
      → is_safe is_injection q h ≡ false
      → verdict is_injection q t h ≢ accept
  verdict-of_not_safe q t h e v = ground (arith, verdict-accept q t h v)

-- What the loop keeps: safe hits of distinct chunks, whose chunks are those seen, within the limit.
pub record IsFair (is_injection : Text → Bool) (q : Query) (t : Tally) : Type 0 where
  pub safe : all (is_safe is_injection q) t.accepted ≡ true
  pub distinct : has_distinct_chunks t.accepted ≡ true
  pub of_seen : (id : Text) → seen id t.seen_chunks ≡ any (has_id id) t.accepted
  pub bounded : length t.accepted ≤ q.max_results

module _ (is_injection : Text → Bool) where
  record_verdict-of_other :
      (h : SearchHit) (t : Tally) (v : Verdict)
      → v ≢ accept
      → ((record_verdict is_injection h t v).accepted ≡ t.accepted)
        × ((record_verdict is_injection h t v).seen_chunks ≡ t.seen_chunks)
  unfolding record_verdict
  record_verdict-of_other h t inactive n = (refl, refl)
  record_verdict-of_other h t duplicate n = (refl, refl)
  record_verdict-of_other h t integrity n = (refl, refl)
  record_verdict-of_other h t below n = (refl, refl)
  record_verdict-of_other h t injection n = (refl, refl)
  record_verdict-of_other h t over_limit n = (refl, refl)
  record_verdict-of_other h t accept n = elim (n refl) [ ]

  record_verdict-IsFair :
      (q : Query) (h : SearchHit) (t : Tally) (v : Verdict)
      → verdict is_injection q t h ≡ v
      → IsFair is_injection q t
      → IsFair is_injection q (record_verdict is_injection h t v)
  unfolding record_verdict
  record_verdict-IsFair q h t inactive e f = record {
    safe = f.safe;
    distinct = f.distinct;
    of_seen = f.of_seen;
    bounded = f.bounded;
  }
  record_verdict-IsFair q h t duplicate e f = record {
    safe = f.safe;
    distinct = f.distinct;
    of_seen = f.of_seen;
    bounded = f.bounded;
  }
  record_verdict-IsFair q h t integrity e f = record {
    safe = f.safe;
    distinct = f.distinct;
    of_seen = f.of_seen;
    bounded = f.bounded;
  }
  record_verdict-IsFair q h t below e f = record {
    safe = f.safe;
    distinct = f.distinct;
    of_seen = f.of_seen;
    bounded = f.bounded;
  }
  record_verdict-IsFair q h t injection e f = record {
    safe = f.safe;
    distinct = f.distinct;
    of_seen = f.of_seen;
    bounded = f.bounded;
  }
  record_verdict-IsFair q h t over_limit e f = record {
    safe = f.safe;
    distinct = f.distinct;
    of_seen = f.of_seen;
    bounded = f.bounded;
  }
  record_verdict-IsFair q h t accept e f =
      let (s, (n, l)) = verdict-accept is_injection q t h e in
      record {
        safe = all-append (is_safe is_injection q) t.accepted (h ∷ []) f.safe (rw s);
        distinct =
            has_distinct_chunks-append t.accepted h f.distinct
              (ground (arith, f.of_seen h.evidence.chunk_id));
        of_seen = λ id. ground (arith, f.of_seen id, any-append-last (has_id id) t.accepted h);
        bounded = omega (arith, length-append t.accepted (h ∷ []));
      }

  pub tally_hits-IsFair :
      (q : Query) (hs : List SearchHit) (t : Tally)
      → IsFair is_injection q t
      → IsFair is_injection q (tally_hits is_injection q hs t)
  unfolding tally_hits
  tally_hits-IsFair q [] t f = f
  tally_hits-IsFair q (h ∷ hs) t f =
      tally_hits-IsFair q hs (record_verdict is_injection h t (verdict is_injection q t h))
        (record_verdict-IsFair q h t (verdict is_injection q t h) refl f)

  -- The loop's next tally.
  next : Query → SearchHit → Tally → Tally
  next q h t = record_verdict is_injection h t (verdict is_injection q t h)

  -- A candidate whose chunk is new and for which there is room is accepted if it is safe.
  next-accepted :
      (q : Query) (h : SearchHit) (t : Tally)
      → seen h.evidence.chunk_id t.seen_chunks ≡ false
      → length t.accepted < q.max_results
      → (next q h t).accepted ≡ t.accepted ++ keep (is_safe is_injection q) (h ∷ [])
  unfolding next record_verdict
  next-accepted q h t n l = elim (Bool-cases (is_safe is_injection q h)) [
    | inl s ↦ rw (verdict-of_is_safe is_injection q t h s n l, s)
    | inr s ↦
        let (a, _) =
          record_verdict-of_other h t (verdict is_injection q t h)
            (verdict-of_not_safe is_injection q t h s) in
        rw (s, append-nil t.accepted) a
  ]

  pub empty_tally-IsFair : (q : Query) → IsFair is_injection q empty_tally
  empty_tally-IsFair q = record {
    safe = refl;
    distinct = refl;
    of_seen = λ id. refl;
    bounded = omega arith;
  }

  next-has_distinct_chunks :
      (q : Query) (h : SearchHit) (hs : List SearchHit) (t : Tally)
      → (next q h t).accepted ≡ t.accepted ++ keep (is_safe is_injection q) (h ∷ [])
      → has_distinct_chunks (t.accepted ++ h ∷ hs) ≡ true
      → has_distinct_chunks ((next q h t).accepted ++ hs) ≡ true
  next-has_distinct_chunks q h hs t e d = elim (Bool-cases (is_safe is_injection q h)) [
    | inl s ↦ ground (arith, append_assoc t.accepted (h ∷ []) hs)
    | inr s ↦ ground (arith, has_distinct_chunks-skip t.accepted hs h, append-nil t.accepted)
  ]

  keep-cons :
      (q : Query) (h : SearchHit) (hs : List SearchHit)
      → keep (is_safe is_injection q) (h ∷ []) ++ keep (is_safe is_injection q) hs
        ≡ keep (is_safe is_injection q) (h ∷ hs)
  keep-cons q h hs = ground arith

  length-keep_one :
      (q : Query) (h : SearchHit) → length (keep (is_safe is_injection q) (h ∷ [])) ≤ 1
  length-keep_one q h = ground arith

  -- With room for every candidate and no chunk twice, the loop accepts the safe candidates in order.
  pub tally_hits-keep :
      (q : Query) (hs : List SearchHit) (t : Tally)
      → IsFair is_injection q t
      → has_distinct_chunks (t.accepted ++ hs) ≡ true
      → length t.accepted + length hs ≤ q.max_results
      → (tally_hits is_injection q hs t).accepted ≡ t.accepted ++ keep (is_safe is_injection q) hs
  unfolding tally_hits next
  tally_hits-keep q [] t f d l = sym (append-nil t.accepted)
  tally_hits-keep q (h ∷ hs) t f d l =
      let new =
        next-accepted q h t
          (f.of_seen h.evidence.chunk_id ∙ has_distinct_chunks-not_before t.accepted hs h d)
          (omega arith) in
      let rest =
        tally_hits-keep q hs (next q h t)
          (record_verdict-IsFair q h t (verdict is_injection q t h) refl f)
          (next-has_distinct_chunks q h hs t new d)
          (omega (
            arith,
            length-append t.accepted (keep (is_safe is_injection q) (h ∷ [])),
            length-keep_one q h,
            ap length new,
          )) in
      rest
      ∙ (ap (λ l. l ++ keep (is_safe is_injection q) hs) new
          ∙ (append_assoc t.accepted (keep (is_safe is_injection q) (h ∷ []))
                (keep (is_safe is_injection q) hs)
              ∙ ap (λ l. t.accepted ++ l) (keep-cons q h hs)))
