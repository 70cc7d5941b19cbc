-- ===== src/Research/Retrieval/Accepted.antt =====
-- Which candidates `classify_safe_hits` accepts.
use marketview.Base.Result.{ok}
use marketview.Research.Retrieval.Chunks.{has_distinct_chunks}
use marketview.Research.Retrieval.Loop.{
  empty_tally-IsFair, is_safe, tally_hits-IsFair, tally_hits-keep,
}
use marketview.Base.Texts.{Text}
use marketview.Research.Retrieval.{
  Query, SafeHitClassification, SearchHit, classify_safe_hits, empty_tally, make_classification,
  tally_hits,
}
use marketview.Base.{◌≡◌, true, Bool, List, all, arith, keep, length, ◌∙◌, ◌≤◌}

module _ (is_injection : Text → Bool) where
  accepted_hits-eq :
      (q : Query) (hits : List SearchHit) (c : SafeHitClassification)
      → classify_safe_hits is_injection q hits ≡ ok c
      → c.accepted_hits ≡ (tally_hits is_injection q hits empty_tally).accepted
  unfolding classify_safe_hits make_classification
  accepted_hits-eq q hits c e = ground arith

  -- Whatever a call returns has accepted safe hits only, of distinct chunks, and no more than it was
  -- asked for.
  pub classify_safe_hits-accepts_safe :
      (q : Query) (hits : List SearchHit) (c : SafeHitClassification)
      → classify_safe_hits is_injection q hits ≡ ok c
      → ((all (is_safe is_injection q) c.accepted_hits ≡ true)
          × ((has_distinct_chunks c.accepted_hits ≡ true)
              × (length c.accepted_hits ≤ q.max_results)))
  classify_safe_hits-accepts_safe q hits c e =
      let f =
        tally_hits-IsFair is_injection q hits empty_tally (empty_tally-IsFair is_injection q) in
      rw (accepted_hits-eq q hits c e) (f.safe, (f.distinct, f.bounded))

  -- When no chunk occurs twice and there is room for every candidate, a call that returns has
  -- accepted exactly the safe candidates, in the order it was given them.
  pub classify_safe_hits-keep :
      (q : Query) (hits : List SearchHit) (c : SafeHitClassification)
      → classify_safe_hits is_injection q hits ≡ ok c
      → has_distinct_chunks hits ≡ true
      → length hits ≤ q.max_results
      → c.accepted_hits ≡ keep (is_safe is_injection q) hits
  classify_safe_hits-keep q hits c e d l =
      accepted_hits-eq q hits c e
      ∙ tally_hits-keep is_injection q hits empty_tally (empty_tally-IsFair is_injection q) d
          (omega arith)
