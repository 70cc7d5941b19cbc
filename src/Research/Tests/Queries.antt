-- ===== src/Research/Tests/Queries.antt =====
-- Runs of a query on concrete inputs.
use native.Mathlib.Decide.{ℕ_discrete}
use marketview.Research.Service.Query.Answered.{Searched, query_research-rests}
use marketview.Research.Service.Query.Calls.{query_research-calls}
use marketview.Research.Tests.{
  ascii, sample_chunk_id, sample_corpus, sample_embedding, sample_evidence, sample_manifest,
}
use marketview.Base.Texts.{Text, codes}
use marketview.Research.Service.Query.Grounded.{ClaimRests, Every}
use marketview.Base.{
  ◌≡◌, refl, [], ◌∷◌, true, false, some, List, List-decides, Option-decides, take, ℕ,
}
use marketview.Base.Result.{ok}
use marketview.Base.Dict.{lookup}
use marketview.Validation.{
  validate_symbol, validate_symbol_query, validate_research_question, validate_cursor,
  validate_limit, validate_date_range,
}
use marketview.Research.Grounding.{
  split_runs, find_tokens, unique, without_s, normal_token, subject_count, contradicts,
  has_conflict, support_tokens, quote_tokens_of, is_supported, claim_has_lexical_support,
  evidence_has_direct_conflict, is_empty,
}
use marketview.Research.Answer.{
  approved_disclaimer, ResearchOutcome, ResearchAnswer, claim_texts, referenced, cited,
  make_generated, is_inconsistent, require_all, make_claim, make_answer, answered_with,
  insufficient_answer, refusal, make_quote, plain_display_excerpt, make_citation, from_chunk,
  GeneratedAnswerStatus, GeneratedClaim,
}
use marketview.Research.Retrieval.{
  total, validate_range, make_classification, active_by_generation, score_range, mismatched,
  verdict_on, verdict, record_verdict, tally_hits, classify_safe_hits, SearchHit,
}
use marketview.Research.Service.Query.{
  Asked, Ports, is_prefix, contains, selected, safe_manifests_from, safe_manifests, is_quoted,
  is_grounded, claims_are_grounded, cite, citations_for, answer_from, safe_hits, answer_on,
  search_with, before_paid, query_active, query_research, asked_query, embed_call, generate_call,
  list_call, paid_call, search_call,
}
use marketview.Research.Python.{
  fullmatch, is_digest, is_generation_id, is_chunk_id, is_symbol, is_version, decimal_onto, decimal,
  is_accession, strip, canonical_digest,
}
use marketview.Research.Domain.{
  EmbeddingDescriptor-discrete, CorpusDescriptor-discrete, GenerationManifest-discrete,
  GenerationVerification-discrete, distinct, embedding_key, corpus_key, require_text,
  make_embedding, make_corpus, make_manifest, make_verification, from_point_ids, proves,
  GenerationManifest,
}

-- A query over one hit, answered with the hit's words.
abbrev pub sample_asked : Asked
sample_asked = record {
  py = ascii;
  casefold = λ s. s;
  split = λ s. s ∷ [];
  is_control_like = λ c. false;
  is_trusted_url = λ url accession. true;
  contains_prompt_injection = λ s. false;
  is_personalized_trade_request = λ s. false;
  corpus = sample_corpus;
  minimum_score = 700000;
  max_results = 5;
  overfetch_factor = 3;
}

abbrev sample_claim : GeneratedClaim
sample_claim = record {
  text = codes "evenue rose";
  supporting_chunk_ids = sample_chunk_id ∷ [];
  evidence_quotes = (record { chunk_id = sample_chunk_id; quote = codes "evenue rose" }) ∷ [];
}

abbrev sample_hit : SearchHit
sample_hit = record {
  evidence = sample_evidence;
  score = 900000;
  embedding_descriptor = sample_embedding;
  active_generation_id = sample_manifest.generation_id;
}

abbrev pub sample_ports : Ports
sample_ports = record {
  list_active = λ s. ok (sample_manifest ∷ []);
  before_paid_call = some (ok tt);
  embed_query = λ q. ok (record { descriptor = sample_embedding; values = 1 ∷ 0 ∷ [] });
  search = λ s vector active limit. ok (sample_hit ∷ []);
  generate = λ q evidence.
      ok (record { status = GeneratedAnswerStatus.answered; claims = sample_claim ∷ [] });
}

abbrev sample_answer : ResearchAnswer
sample_answer = record {
  symbol = codes "AAPL";
  answer = codes "evenue rose";
  outcome = ResearchOutcome.answered;
  is_insufficient = false;
  is_refused = false;
  claims = sample_claim ∷ [];
  citations =
      (record {
        chunk_id = sample_chunk_id;
        title = codes "Annual report";
        url = codes "https://www.sec.gov/a";
        filed_date = 20240102;
        filing_type = codes "10-K";
        accession_number = codes "0000320193-24-000123";
        snippet = codes "Revenue rose.";
      })
      ∷ [];
  disclaimer = approved_disclaimer;
}

queried :
    (query_research sample_asked sample_ports (codes "AAPL") (codes "why") []).0 ≡ ok sample_answer
unfolding validate_symbol ℕ_discrete validate_symbol_query validate_research_question
    validate_cursor validate_limit validate_date_range split_runs find_tokens unique without_s
    normal_token subject_count contradicts has_conflict support_tokens quote_tokens_of is_supported
    claim_has_lexical_support evidence_has_direct_conflict claim_texts referenced cited
    make_generated is_inconsistent require_all make_claim make_answer answered_with
    insufficient_answer refusal make_quote plain_display_excerpt make_citation from_chunk total
    validate_range make_classification active_by_generation score_range mismatched verdict_on
    verdict record_verdict tally_hits classify_safe_hits is_prefix contains selected
    safe_manifests_from safe_manifests is_quoted is_grounded claims_are_grounded cite citations_for
    answer_from safe_hits answer_on search_with before_paid query_active query_research fullmatch
    is_digest is_generation_id is_chunk_id is_symbol is_version decimal_onto decimal is_accession
    strip canonical_digest EmbeddingDescriptor-discrete CorpusDescriptor-discrete
    GenerationManifest-discrete GenerationVerification-discrete distinct embedding_key corpus_key
    require_text make_embedding make_corpus make_manifest make_verification from_point_ids proves
    lookup List-decides Option-decides
queried = refl

query_research-rests_example :
    (s q : Text) × (listed : List GenerationManifest) × (x : Searched sample_asked sample_ports s q
      (safe_manifests sample_corpus s listed)
      sample_answer.claims)
    × (validate_symbol ascii (codes "AAPL") ≡ ok s)
    × (validate_research_question ascii (codes "why") ≡ ok q)
    × (sample_ports.list_active s ≡ ok listed)
    × (is_empty sample_answer.claims ≡ false)
    × Every
        (ClaimRests sample_asked
          (asked_query sample_asked s (safe_manifests sample_corpus s listed))
          x.safe.accepted_hits)
        sample_answer.claims
query_research-rests_example =
    query_research-rests sample_asked sample_ports (codes "AAPL") (codes "why") sample_answer
      queried refl

query_research-calls_example :
    ((n : ℕ) × ((query_research sample_asked sample_ports (codes "AAPL") (codes "why") []).1
        ≡ take n (list_call ∷ paid_call ∷ embed_call ∷ search_call ∷ generate_call ∷ [])))
    × ((checked : Text)
        → validate_research_question ascii (codes "why") ≡ ok checked
        → false ≡ true
        → (query_research sample_asked sample_ports (codes "AAPL") (codes "why") []).1 ≡ [])
query_research-calls_example =
    query_research-calls sample_asked sample_ports (codes "AAPL") (codes "why")
