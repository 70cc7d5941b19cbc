-- ===== src/Research/Tests/Documents.antt =====
-- The chunker and the classification of hits on small texts.
use marketview.Research.Deadline.{value_error}
use marketview.Research.Retrieval.Loop.{is_safe}
use marketview.Research.Chunker.Windows.{holds, is_chain, windows-covers}
use marketview.Research.Retrieval.Chunks.{has_distinct_chunks}
use marketview.Base.Result.{err, ok}
use marketview.Research.Chunker.Sections.{concat, group-sections, is_section}
use marketview.Research.Retrieval.Accepted.{
  classify_safe_hits-accepts_safe, classify_safe_hits-keep,
}
use marketview.Research.Chunker.Limits.{chunk-cases}
use marketview.Research.Tests.{
  ascii, sample_chunk_id, sample_corpus, sample_embedding, sample_evidence, sample_manifest,
}
use marketview.Base.Texts.{Text, codes}
use marketview.Research.Retrieval.{
  Query, SafeHitClassification, SearchHit, accept, active_by_generation, classify_safe_hits,
  empty_tally, make_classification, mismatched, no_rejections, record_verdict, score_range,
  tally_hits, total, validate_range, verdict, verdict_on,
}
use marketview.Research.Retrieval.Accounting.{IsAccount, classify_safe_hits-accounts}
use marketview.Research.Chunker.{Chunker, Patterns, chunk, group, make_chunker, raises, windows}
use marketview.Base.{
  differs_refl, ◌≡◌, refl, [], ◌∷◌, true, false, none, some, ◌<◌, ==_refl, Bool, List, all, any,
  arith, eqb, keep, length, not, ℕ, ◌≤◌, ◌⊎◌,
}

abbrev small_chunker : Chunker
small_chunker = record { max_tokens = 3; overlap_tokens = 1; max_chunks = 10 }

windows-covers_example :
    (ws : List (ℕ × ℕ)) × (windows small_chunker 6 5 0 ≡ ok ws)
    × (is_chain small_chunker 5 0 ws ≡ true)
    × (any (holds 4) ws ≡ true)
windows-covers_example = windows-covers small_chunker 5 4 (omega arith) (omega arith)

-- A text is one paragraph, which is no heading and one token.
abbrev plain : Patterns
plain = record {
  split_blank_lines = λ s. s ∷ [];
  is_heading = λ s. eqb (length s) 4;
  find_tokens = λ s. record { start = 0; finish = length s } ∷ [];
}

small_valid : make_chunker small_chunker ≡ ok small_chunker
unfolding make_chunker
small_valid = refl

chunk-cases_example :
    ((ts : List Text) × ((chunk ascii plain small_chunker (codes "Revenue") ≡ ok ts)
        × ((0 < length ts) × ((length ts ≤ 10) × (all (λ s. not (eqb (length s) 0)) ts ≡ true)))))
    ⊎ (chunk ascii plain small_chunker (codes "Revenue") ≡ err (raises value_error))
chunk-cases_example = chunk-cases ascii plain small_chunker (codes "Revenue") small_valid

abbrev sample_paragraphs : List Text
sample_paragraphs = codes "Preface" ∷ codes "ITEM" ∷ codes "Revenue" ∷ []

group-sections_example :
    (concat (group ascii plain [] sample_paragraphs) ≡ sample_paragraphs)
    × (all (is_section ascii plain) (group ascii plain [] sample_paragraphs) ≡ true)
group-sections_example = group-sections ascii plain sample_paragraphs

abbrev safe_text : Text → Bool
safe_text s = false

abbrev sample_hit : SearchHit
sample_hit = record {
  evidence = sample_evidence;
  score = 900000;
  embedding_descriptor = sample_embedding;
  active_generation_id = sample_manifest.generation_id;
}

abbrev sample_query : Query
sample_query = record {
  symbol = codes "AAPL";
  corpus = sample_corpus;
  active = sample_manifest ∷ [];
  filing_type = none;
  minimum_score = 500000;
  max_results = 5;
}

classify_safe_hits-accounts_example :
    (c : SafeHitClassification) × ((classify_safe_hits safe_text sample_query (sample_hit ∷ [])
        ≡ ok c)
      × IsAccount (sample_hit ∷ []) c)
classify_safe_hits-accounts_example =
    classify_safe_hits-accounts safe_text sample_query (sample_hit ∷ []) refl refl

abbrev sample_counted : SafeHitClassification
sample_counted = record {
  accepted_hits = sample_hit ∷ [];
  rejection_counts = no_rejections;
  candidate_count = 1;
  accepted_count = 1;
  raw_score_range = some (900000, 900000);
  accepted_score_range = some (900000, 900000);
}

sample_matches : mismatched sample_query sample_manifest sample_hit ≡ false
unfolding mismatched
sample_matches =
    rw
      (
        differs_refl sample_corpus,
        differs_refl sample_embedding,
        differs_refl sample_manifest.symbol,
        differs_refl sample_manifest.generation_id,
        differs_refl sample_manifest.accession_number,
        differs_refl sample_manifest.content_hash,
        ==_refl sample_chunk_id,
      )
      refl

sample_active :
    active_by_generation sample_manifest.generation_id sample_query.active ≡ some sample_manifest
unfolding active_by_generation
sample_active = rw (==_refl sample_manifest.generation_id) refl

sample_accepted : verdict safe_text sample_query empty_tally sample_hit ≡ accept
unfolding verdict_on verdict
sample_accepted = rw (verdict, sample_active, verdict_on, sample_matches) refl

classify_sample : classify_safe_hits safe_text sample_query (sample_hit ∷ []) ≡ ok sample_counted
unfolding classify_safe_hits tally_hits record_verdict make_classification validate_range total
    score_range
classify_sample = rw (sample_accepted) refl

classify_safe_hits-accepts_safe_example :
    (all (is_safe safe_text sample_query) (sample_hit ∷ []) ≡ true)
    × ((has_distinct_chunks (sample_hit ∷ []) ≡ true) × (1 ≤ 5))
classify_safe_hits-accepts_safe_example =
    classify_safe_hits-accepts_safe safe_text sample_query (sample_hit ∷ []) sample_counted
      classify_sample

classify_safe_hits-keep_example :
    sample_hit ∷ [] ≡ keep (is_safe safe_text sample_query) (sample_hit ∷ [])
classify_safe_hits-keep_example =
    classify_safe_hits-keep safe_text sample_query (sample_hit ∷ []) sample_counted classify_sample
      refl (omega arith)
