-- ===== src/Research/Service/Query.antt =====
-- `query_research` of app/research/service.py. The control plane, the embedder, the vector store and
-- the generator are ports: what each answers is given, and a query leaves the sequence of its calls.
-- The two searches of a question for a personal request, regular expressions, are a parameter.
use marketview.Research.Records.{embedding}
use marketview.Research.Grounding.{
  claim_has_lexical_support, evidence_has_direct_conflict, is_empty, unique,
}
use marketview.Base.Texts.{Text}
use marketview.Research.Python.{Python}
use marketview.Research.Deadline.{Fault}
use marketview.Research.Retrieval.{
  Query, EvidenceChunk, SafeHitClassification, SearchHit, classify_safe_hits,
}
use marketview.Research.Vectors.{EmbeddingVector}
use marketview.Research.Domain.{
  CorpusDescriptor, GenerationManifest, EmbeddingDescriptor-Eq, CorpusDescriptor-Eq,
}
use marketview.Base.{
  ◌≡◌, refl, [], ◌∷◌, zero, suc, true, false, none, some, inl, inr, ◌!=◌, ◌&&◌, ◌*◌, ◌++◌, ◌==◌,
  Bool, List, Option, all, eqb, is_some, not, ◌||◌, ℕ, if◌then◌else◌, ℕ-Eq, List-Eq,
}
use marketview.Base.Result.{Result, ok, err}
use marketview.Validation.{InputError, validate_symbol, validate_research_question}
use marketview.Research.Grounding.{holds}
use marketview.Research.Answer.{
  refused, insufficient, answered, EvidenceQuote, GeneratedAnswer, GeneratedAnswerStatus,
  GeneratedClaim, ResearchAnswer, ResearchCitation, answered_with, from_chunk, insufficient_answer,
  referenced, refusal,
}
pub mod Calls
pub mod Grounded
pub mod Generated
pub mod Answered

pub data QueryError : Type 0 where
  bad_input corpus_unavailable port_failure missing_key interrupted : QueryError
  invalid : Fault → QueryError

pub data PortCall : Type 0 where
  list_call paid_call embed_call search_call generate_call : PortCall

-- What the ports answer: the active manifests of a symbol, the callback before the paid calls, the
-- vector of a question, the hits of a search, and the generated answer.
pub record Ports : Type 0 where
  pub list_active : Text → Result QueryError (List GenerationManifest)
  pub before_paid_call : Option (Result QueryError (Unit {0}))
  pub embed_query : Text → Result QueryError EmbeddingVector
  pub search :
      Text → EmbeddingVector → List GenerationManifest → ℕ → Result QueryError (List SearchHit)
  pub generate : Text → List EvidenceChunk → Result QueryError GeneratedAnswer

-- The service's parameters: the corpus, the policy, and what it takes from elsewhere.
pub record Asked : Type 0 where
  pub py : Python
  pub casefold : Text → Text
  pub split : Text → List Text
  pub is_control_like : ℕ → Bool
  pub is_trusted_url : Text → Text → Bool
  pub contains_prompt_injection : Text → Bool
  pub is_personalized_trade_request : Text → Bool
  pub corpus : CorpusDescriptor
  pub minimum_score : ℕ
  pub max_results : ℕ
  pub overfetch_factor : ℕ

abbrev pub Traced : Type 0 → Type 0
Traced A = List PortCall → Result QueryError A × List PortCall

module _ {A : Type 0} where
  abbrev pub from_input : Result InputError A → Result QueryError A
  from_input (ok a) = ok a
  from_input (err e) = err bad_input

  abbrev pub from_check : Result Fault A → Result QueryError A
  from_check (ok a) = ok a
  from_check (err e) = err (invalid e)

  abbrev pub lift : Result QueryError A → Traced A
  lift x calls = (x, calls)

  abbrev pub call : PortCall → Result QueryError A → Traced A
  call c x calls = (x, calls ++ c ∷ [])

infixl 5 ◌>>=◌ ◌>>◌
abbrev pub ◌>>=◌ : {A B : Type 0} → Traced A → (A → Traced B) → Traced B
◌>>=◌ m f calls =
    let (x, calls') = m calls in elim x [ ok a ↦ f a calls' | err e ↦ (err e, calls') ]

abbrev pub ◌>>◌ : {A B : Type 0} → Traced A → Traced B → Traced B
m >> k = m >>= λ _. k

-- `prefix` starts the text.
unfoldable pub is_prefix : Text → Text → Bool
is_prefix [] s = true
is_prefix (c ∷ p) [] = false
is_prefix (c ∷ p) (c' ∷ s) = eqb c c' && is_prefix p s

-- `quote in text`
unfoldable pub contains : Text → Text → Bool
unfolding is_prefix
contains quote [] = is_prefix quote []
contains quote (c ∷ s) = is_prefix quote (c ∷ s) || contains quote s

-- `{item.chunk_id: item for item in evidence}.get(id)`; the last item of an id is its own.
unfoldable pub selected : List EvidenceChunk → Text → Option EvidenceChunk
selected [] id = none
selected (e ∷ es) id = elim (selected es id) [
  | none ↦ if e.chunk_id == id then some e else none
  | some later ↦ some later
]

abbrev pub evidence_of : List SearchHit → List EvidenceChunk
evidence_of [] = []
evidence_of (h ∷ hs) = h.evidence ∷ evidence_of hs

abbrev pub texts_of : List EvidenceChunk → List Text
texts_of [] = []
texts_of (e ∷ es) = e.text ∷ texts_of es

abbrev pub quotes_of : List EvidenceQuote → List Text
quotes_of [] = []
quotes_of (q ∷ qs) = q.quote ∷ quotes_of qs

-- The loop of `_safe_manifests`, with the accessions and the generations that it has seen.
unfoldable pub safe_manifests_from :
    CorpusDescriptor
    → Text
    → List Text
    → List Text
    → List GenerationManifest
    → List GenerationManifest
safe_manifests_from corpus symbol accessions generations [] = []
safe_manifests_from corpus symbol accessions generations (m ∷ ms) =
    let skipped = safe_manifests_from corpus symbol accessions generations ms in
    let taken =
      m
      ∷ safe_manifests_from corpus symbol (m.accession_number ∷ accessions)
          (m.generation_id ∷ generations) ms in
    if m.corpus != corpus
      || (m.symbol != symbol
          || (holds accessions m.accession_number || holds generations m.generation_id))
    then skipped
    else taken

unfoldable pub safe_manifests :
    CorpusDescriptor → Text → List GenerationManifest → List GenerationManifest
safe_manifests corpus symbol ms = safe_manifests_from corpus symbol [] [] ms

-- A quote is in the text of its chunk.
unfoldable pub is_quoted : List EvidenceChunk → EvidenceQuote → Bool
is_quoted evidence q = elim (selected evidence q.chunk_id) [
  | none ↦ false
  | some e ↦ contains q.quote e.text
]

module _ (a : Asked) where
  -- One turn of the loop of `_claims_are_grounded`.
  unfoldable pub is_grounded : List EvidenceChunk → GeneratedClaim → Bool
  is_grounded evidence c =
      not (is_empty c.evidence_quotes)
      && (not (a.is_personalized_trade_request c.text)
          && (all (is_quoted evidence) c.evidence_quotes
              && (all (λ id. is_some (selected evidence id)) c.supporting_chunk_ids
                  && claim_has_lexical_support a.casefold c.text (quotes_of c.evidence_quotes))))

  unfoldable pub claims_are_grounded : List GeneratedClaim → List EvidenceChunk → Bool
  claims_are_grounded claims evidence = not (is_empty claims) && all (is_grounded evidence) claims

  -- `ResearchCitation.from_chunk(selected[id])` for each id.
  unfoldable pub cite : List EvidenceChunk → List Text → Result QueryError (List ResearchCitation)
  cite evidence [] = ok []
  cite evidence (id ∷ ids) = elim (selected evidence id) [
    | none ↦ err missing_key
    | some e ↦ elim (from_chunk a.py a.is_control_like a.split a.is_trusted_url e) [
      | err x ↦ err (invalid x)
      | ok c ↦ elim (cite evidence ids) [ err x ↦ err x | ok cs ↦ ok (c ∷ cs) ]
    ]
  ]

  -- `_citations`
  unfoldable pub citations_for :
      List EvidenceChunk → List Text → Result QueryError (List ResearchCitation)
  citations_for evidence ids = cite evidence (unique ids)

  -- From the generated answer to the query's.
  unfoldable pub answer_from :
      Text → List EvidenceChunk → GeneratedAnswer → Result QueryError ResearchAnswer
  answer_from symbol evidence generated = elim generated.status [
    | GeneratedAnswerStatus.refused ↦ from_check (refusal a.py symbol)
    | GeneratedAnswerStatus.insufficient ↦ from_check (insufficient_answer a.py symbol)
    | GeneratedAnswerStatus.answered ↦
        if not (claims_are_grounded generated.claims evidence)
        then from_check (insufficient_answer a.py symbol)
        else elim (citations_for evidence (referenced generated.claims)) [
          | err x ↦ err x
          | ok citations ↦ from_check (answered_with a.py symbol generated.claims citations)
        ]
  ]

  -- What the search is held to.
  abbrev pub asked_query : Text → List GenerationManifest → Query
  asked_query symbol active = record {
    symbol = symbol;
    corpus = a.corpus;
    active = active;
    filing_type = none;
    minimum_score = a.minimum_score;
    max_results = a.max_results;
  }

  -- `_safe_hits`
  unfoldable pub safe_hits :
      Text → List GenerationManifest → List SearchHit → Result Fault SafeHitClassification
  safe_hits symbol active hits =
      classify_safe_hits a.contains_prompt_injection (asked_query symbol active) hits

  -- From the safe hits on.
  unfoldable pub answer_on : Ports → Text → Text → List EvidenceChunk → Traced ResearchAnswer
  answer_on ports symbol question evidence =
      if is_empty evidence || evidence_has_direct_conflict a.casefold (texts_of evidence)
      then lift (from_check (insufficient_answer a.py symbol))
      else call generate_call (ports.generate question evidence) >>= λ generated.
          lift (answer_from symbol evidence generated)

  -- From the vector of the question on.
  unfoldable pub search_with :
      Ports → Text → Text → List GenerationManifest → EmbeddingVector → Traced ResearchAnswer
  search_with ports symbol question active vector =
      if vector.descriptor != a.corpus.embedding
      then lift (from_check (insufficient_answer a.py symbol))
      else call search_call (ports.search symbol vector active (a.max_results * a.overfetch_factor))
        >>= λ raw_hits. lift (from_check (safe_hits symbol active raw_hits)) >>= λ safe.
            answer_on ports symbol question (evidence_of safe.accepted_hits)

  unfoldable pub before_paid : Option (Result QueryError (Unit {0})) → Traced (Unit {0})
  before_paid before = elim before [ none ↦ lift (ok tt) | some answer ↦ call paid_call answer ]

  unfoldable pub query_active :
      Ports → Text → Text → List GenerationManifest → Traced ResearchAnswer
  query_active ports symbol question active =
      if is_empty active
      then lift (err corpus_unavailable)
      else before_paid ports.before_paid_call >>= λ _.
          call embed_call (ports.embed_query question) >>= λ vector.
          search_with ports symbol question active vector

  unfoldable pub query_research : Ports → Text → Text → Traced ResearchAnswer
  query_research ports symbol question =
      lift (from_input (validate_symbol a.py symbol)) >>= λ checked_symbol.
      lift (from_input (validate_research_question a.py question)) >>= λ checked_question.
      if a.is_personalized_trade_request checked_question
      then lift (from_check (refusal a.py checked_symbol))
      else call list_call (ports.list_active checked_symbol) >>= λ active.
          query_active ports checked_symbol checked_question
            (safe_manifests a.corpus checked_symbol active)
