-- ===== src/Research/Retrieval.antt =====
-- `classify_safe_hits` (app/research/retrieval.py), over the evidence records of
-- app/research/domain.py. A similarity score is a whole number of millionths. The prompt-injection
-- test, eight regular expressions over normalised text, is a parameter.
use marketview.Research.Records.{embedding}
use marketview.Base.Texts.{Text, codes}
use marketview.Base.Result.{Result, ok, raise_if, ◌>>◌}
use marketview.Research.Deadline.{Fault, value_error}
use marketview.Research.Domain.{
  CorpusDescriptor, EmbeddingDescriptor, GenerationManifest, CorpusDescriptor-Eq,
  EmbeddingDescriptor-Eq,
}
use marketview.Base.{
  ◌≡◌, refl, [], ◌∷◌, zero, suc, true, false, none, some, inl, inr, ◌!=◌, ◌&&◌, ◌+◌, ◌++◌, ◌==◌,
  Bool, List, Option, any, eqb, leb, length, ltb, max, min, not, ◌||◌, ℕ, if◌then◌else◌, List-Eq,
  ℕ-Eq,
}
pub mod Accepted
pub mod Accounting
pub mod Chunks
pub mod Loop

-- A score of one.
abbrev pub one : ℕ
one = 1000000

pub record FilingReference : Type 0 where
  pub symbol : Text
  pub cik : Text
  pub accession_number : Text
  pub filing_type : Text
  pub title : Text
  pub filed_date : ℕ
  pub source_url : Text

pub record EvidenceChunk : Type 0 where
  pub reference : FilingReference
  pub corpus : CorpusDescriptor
  pub generation_id : Text
  pub chunk_id : Text
  pub content_hash : Text
  pub ordinal : ℕ
  pub text : Text

pub record SearchHit : Type 0 where
  pub evidence : EvidenceChunk
  pub score : ℕ
  pub embedding_descriptor : EmbeddingDescriptor
  pub active_generation_id : Text

pub record SafeHitRejectionCounts : Type 0 where
  pub inactive_manifest : ℕ
  pub duplicate_chunk : ℕ
  pub metadata_integrity : ℕ
  pub below_threshold : ℕ
  pub prompt_injection : ℕ
  pub result_limit : ℕ

abbrev pub no_rejections : SafeHitRejectionCounts
no_rejections = record {
  inactive_manifest = 0;
  duplicate_chunk = 0;
  metadata_integrity = 0;
  below_threshold = 0;
  prompt_injection = 0;
  result_limit = 0;
}

unfoldable pub total : SafeHitRejectionCounts → ℕ
total c =
    c.inactive_manifest + c.duplicate_chunk + c.metadata_integrity + c.below_threshold
    + c.prompt_injection + c.result_limit

pub record SafeHitClassification : Type 0 where
  pub accepted_hits : List SearchHit
  pub rejection_counts : SafeHitRejectionCounts
  pub candidate_count : ℕ
  pub accepted_count : ℕ
  pub raw_score_range : Option (ℕ × ℕ)
  pub accepted_score_range : Option (ℕ × ℕ)

-- `_validate_range`
unfoldable pub validate_range : Option (ℕ × ℕ) → Bool → Result Fault (Unit {0})
validate_range none present = raise_if present value_error
validate_range (some (lo, hi)) present = do
  raise_if (not present) value_error
  raise_if (ltb one lo || ltb one hi || ltb hi lo) value_error

-- `SafeHitClassification.__post_init__`
unfoldable pub make_classification : SafeHitClassification → Result Fault SafeHitClassification
unfolding validate_range total
make_classification c = do
  raise_if (not (eqb c.accepted_count (length c.accepted_hits))) value_error
  raise_if (not (eqb (c.accepted_count + total c.rejection_counts) c.candidate_count)) value_error
  validate_range c.raw_score_range (ltb 0 c.candidate_count)
  validate_range c.accepted_score_range (ltb 0 c.accepted_count)
  ok c

-- The dictionary by generation keeps the last manifest of each.
unfoldable pub active_by_generation : Text → List GenerationManifest → Option GenerationManifest
active_by_generation id [] = none
active_by_generation id (m ∷ ms) = elim (active_by_generation id ms) [
  | none ↦ if m.generation_id == id then some m else none
  | some later ↦ some later
]

-- `(min(scores), max(scores)) if scores else None`
unfoldable pub score_range : List SearchHit → Option (ℕ × ℕ)
score_range [] = none
score_range (h ∷ hs) = elim (score_range hs) [
  | none ↦ some (h.score, h.score)
  | some (lo, hi) ↦ some (min h.score lo, max h.score hi)
]

abbrev pub supported_filing_types : List Text
supported_filing_types =
    codes "10-K" ∷ codes "10-K/A" ∷ codes "10-Q" ∷ codes "10-Q/A" ∷ codes "8-K" ∷ codes "8-K/A" ∷ []

-- What becomes of one candidate.
pub data Verdict : Type 0 where
  inactive duplicate integrity below injection over_limit accept : Verdict

-- The loop's variables: the accepted hits, the chunks seen, the counts.
pub record Tally : Type 0 where
  pub accepted : List SearchHit
  pub seen_chunks : List Text
  pub counts : SafeHitRejectionCounts

abbrev pub empty_tally : Tally
empty_tally = record { accepted = []; seen_chunks = []; counts = no_rejections }

-- The query that the candidates answer.
pub record Query : Type 0 where
  pub symbol : Text
  pub corpus : CorpusDescriptor
  pub active : List GenerationManifest
  pub filing_type : Option Text
  pub minimum_score : ℕ
  pub max_results : ℕ

-- `filing_type is not None and evidence.filing_type != filing_type`
abbrev pub other_type : Option Text → Text → Bool
other_type none t = false
other_type (some wanted) t = t != wanted

-- The evidence, the manifest and the query do not agree.
unfoldable pub mismatched : Query → GenerationManifest → SearchHit → Bool
mismatched q m h =
    h.evidence.reference.symbol != q.symbol
    || (other_type q.filing_type h.evidence.reference.filing_type
        || (h.evidence.corpus != q.corpus
            || (h.embedding_descriptor != q.corpus.embedding
                || (h.active_generation_id != h.evidence.generation_id
                    || (m.accession_number != h.evidence.reference.accession_number
                        || (m.content_hash != h.evidence.content_hash
                            || not (any (λ c. c == h.evidence.chunk_id) m.chunk_ids)))))))

module _ (contains_prompt_injection : Text → Bool) where
  unfoldable pub verdict_on : Query → Tally → GenerationManifest → SearchHit → Verdict
  verdict_on q t m h =
      if any (λ c. c == h.evidence.chunk_id) t.seen_chunks
      then duplicate
      else if mismatched q m h
      then integrity
      else if ltb h.score q.minimum_score
      then below
      else if contains_prompt_injection h.evidence.text
      then injection
      else if leb q.max_results (length t.accepted)
      then over_limit
      else accept

  unfoldable pub verdict : Query → Tally → SearchHit → Verdict
  unfolding verdict_on
  verdict q t h = elim (active_by_generation h.active_generation_id q.active) [
    | none ↦ inactive
    | some m ↦ verdict_on q t m h
  ]

  unfoldable pub record_verdict : SearchHit → Tally → Verdict → Tally
  record_verdict h t inactive = record t {
    counts = record (t.counts) { inactive_manifest = t.counts.inactive_manifest + 1 };
  }
  record_verdict h t duplicate = record t {
    counts = record (t.counts) { duplicate_chunk = t.counts.duplicate_chunk + 1 };
  }
  record_verdict h t integrity = record t {
    counts = record (t.counts) { metadata_integrity = t.counts.metadata_integrity + 1 };
  }
  record_verdict h t below = record t {
    counts = record (t.counts) { below_threshold = t.counts.below_threshold + 1 };
  }
  record_verdict h t injection = record t {
    counts = record (t.counts) { prompt_injection = t.counts.prompt_injection + 1 };
  }
  record_verdict h t over_limit = record t {
    counts = record (t.counts) { result_limit = t.counts.result_limit + 1 };
  }
  record_verdict h t accept = record t {
    accepted = t.accepted ++ h ∷ [];
    seen_chunks = h.evidence.chunk_id ∷ t.seen_chunks;
  }

  -- The loop over the candidates.
  unfoldable pub tally_hits : Query → List SearchHit → Tally → Tally
  tally_hits q [] t = t
  tally_hits q (h ∷ hs) t = tally_hits q hs (record_verdict h t (verdict q t h))

  unfoldable pub classify_safe_hits : Query → List SearchHit → Result Fault SafeHitClassification
  classify_safe_hits q hits = do
    raise_if (eqb (length q.symbol) 0) value_error
    raise_if (ltb one q.minimum_score) value_error
    raise_if (not (leb 1 q.max_results && leb q.max_results 20)) value_error
    raise_if
        (elim q.filing_type [
          | none ↦ false
          | some t ↦ not (any (λ s. s == t) supported_filing_types)
        ])
        value_error
    let t = tally_hits q hits empty_tally
    make_classification (record {
      accepted_hits = t.accepted;
      rejection_counts = t.counts;
      candidate_count = length hits;
      accepted_count = length t.accepted;
      raw_score_range = score_range hits;
      accepted_score_range = score_range t.accepted;
    })
