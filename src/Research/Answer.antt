-- ===== src/Research/Answer.antt =====
-- The answers of app/research/domain.py: claims with their quotes, citations, and the answer that a
-- query returns. The Unicode categories, `str.split` and the test of a source's address are
-- parameters.
use marketview.Research.Domain.{distinct, require_text}
use marketview.Research.Evidence.{is_supported_form}
use marketview.Base.Texts.{Text, codes}
use marketview.Research.Python.{Python, is_accession, is_chunk_id, is_symbol, join, rstrip}
use marketview.Research.Deadline.{Fault, value_error}
use marketview.Research.Retrieval.{EvidenceChunk}
use marketview.Base.{
  [], ◌∷◌, true, false, ◌!=◌, ◌++◌, ◌==◌, Bool, List, all, any, eqb, map, not, take, ◌||◌, ℕ,
  List-Eq, if◌then◌else◌, ℕ-Eq, ◌&&◌,
}
use marketview.Base.Result.{Result, ok, raise_if, ◌>>=◌, ◌>>◌}
use marketview.Research.Grounding.{is_empty, holds}

pub record EvidenceQuote : Type 0 where
  pub chunk_id : Text
  pub quote : Text

pub record GeneratedClaim : Type 0 where
  pub text : Text
  pub supporting_chunk_ids : List Text
  pub evidence_quotes : List EvidenceQuote

pub data GeneratedAnswerStatus : Type 0 where
  answered insufficient refused : GeneratedAnswerStatus

pub record GeneratedAnswer : Type 0 where
  pub status : GeneratedAnswerStatus
  pub claims : List GeneratedClaim

pub record ResearchCitation : Type 0 where
  pub chunk_id : Text
  pub title : Text
  pub url : Text
  pub filed_date : ℕ
  pub filing_type : Text
  pub accession_number : Text
  pub snippet : Text

pub data ResearchOutcome : Type 0 where
  answered insufficient_evidence refused : ResearchOutcome

-- The flags `insufficient_evidence` and `refused` are fields.
pub record ResearchAnswer : Type 0 where
  pub symbol : Text
  pub answer : Text
  pub outcome : ResearchOutcome
  pub is_insufficient : Bool
  pub is_refused : Bool
  pub claims : List GeneratedClaim
  pub citations : List ResearchCitation
  pub disclaimer : Text

abbrev pub approved_disclaimer : Text
approved_disclaimer = codes "Informational only, not investment advice."

abbrev pub insufficient_text : Text
insufficient_text = codes "Insufficient evidence."

abbrev pub refusal_text : Text
refusal_text = codes "I cannot provide personalized buy or sell recommendations."

unfoldable pub claim_texts : List GeneratedClaim → List Text
claim_texts [] = []
claim_texts (c ∷ cs) = c.text ∷ claim_texts cs

-- `chunk_id for claim in claims for chunk_id in claim.supporting_chunk_ids`
unfoldable pub referenced : List GeneratedClaim → List Text
referenced [] = []
referenced (c ∷ cs) = c.supporting_chunk_ids ++ referenced cs

unfoldable pub cited : List ResearchCitation → List Text
cited [] = []
cited (c ∷ cs) = c.chunk_id ∷ cited cs

-- `GeneratedAnswer.__post_init__`
unfoldable pub make_generated : GeneratedAnswer → Result Fault GeneratedAnswer
make_generated a = elim a.status [
  | GeneratedAnswerStatus.answered ↦ raise_if (is_empty a.claims) value_error >> ok a
  | GeneratedAnswerStatus.insufficient ↦ raise_if (not (is_empty a.claims)) value_error >> ok a
  | GeneratedAnswerStatus.refused ↦ raise_if (not (is_empty a.claims)) value_error >> ok a
]

-- What the outcome asks of the other fields, for the normalised text of the answer.
unfoldable pub is_inconsistent : ResearchAnswer → Text → Bool
is_inconsistent a text = elim a.outcome [
  | ResearchOutcome.answered ↦
      a.is_insufficient
      || (a.is_refused
          || (is_empty a.claims
              || (is_empty a.citations
                  || (not (all (λ id. any (λ c. c == id) (cited a.citations)) (referenced a.claims))
                      || text != join (codes " ") (claim_texts a.claims)))))
  | ResearchOutcome.insufficient_evidence ↦
      not a.is_insufficient
      || (a.is_refused
          || (not (is_empty a.claims) || (not (is_empty a.citations) || text != insufficient_text)))
  | ResearchOutcome.refused ↦
      a.is_insufficient
      || (not a.is_refused
          || (not (is_empty a.claims) || (not (is_empty a.citations) || text != refusal_text)))
]

abbrev pub quoted_ids : List EvidenceQuote → List Text
quoted_ids [] = []
quoted_ids (q ∷ qs) = q.chunk_id ∷ quoted_ids qs

-- `set(xs) == set(ys)`
abbrev pub same_members : List Text → List Text → Bool
same_members xs ys = all (holds ys) xs && all (holds xs) ys

module _ (py : Python) where
  unfoldable pub require_all : List Text → Result Fault (List Text)
  require_all [] = ok []
  require_all (t ∷ ts) = do t' ← require_text py t 80; ts' ← require_all ts; ok (t' ∷ ts')

  -- `GeneratedClaim.__post_init__`
  unfoldable pub make_claim : GeneratedClaim → Result Fault GeneratedClaim
  make_claim c = do
    text' ← require_text py c.text 1000
    ids ← require_all c.supporting_chunk_ids
    raise_if (is_empty ids) value_error
    raise_if (not (distinct ids)) value_error
    raise_if
        (not (is_empty c.evidence_quotes) && not (same_members (quoted_ids c.evidence_quotes) ids))
        value_error
    ok (record { text = text'; supporting_chunk_ids = ids; evidence_quotes = c.evidence_quotes })

  -- `ResearchAnswer.__post_init__`
  unfoldable pub make_answer : ResearchAnswer → Result Fault ResearchAnswer
  make_answer a = do
    symbol' ← require_text py a.symbol 32
    raise_if (not (is_symbol (py.upper symbol'))) value_error
    text ← require_text py a.answer 2000
    raise_if (a.disclaimer != approved_disclaimer) value_error
    raise_if (is_inconsistent a text) value_error
    ok (record a { symbol = py.upper symbol'; answer = text })

  unfoldable pub answered_with :
      Text → List GeneratedClaim → List ResearchCitation → Result Fault ResearchAnswer
  answered_with symbol claims citations = make_answer (record {
    symbol = symbol;
    answer = join (codes " ") (claim_texts claims);
    outcome = ResearchOutcome.answered;
    is_insufficient = false;
    is_refused = false;
    claims = claims;
    citations = citations;
    disclaimer = approved_disclaimer;
  })

  unfoldable pub insufficient_answer : Text → Result Fault ResearchAnswer
  insufficient_answer symbol = make_answer (record {
    symbol = symbol;
    answer = insufficient_text;
    outcome = ResearchOutcome.insufficient_evidence;
    is_insufficient = true;
    is_refused = false;
    claims = [];
    citations = [];
    disclaimer = approved_disclaimer;
  })

  unfoldable pub refusal : Text → Result Fault ResearchAnswer
  refusal symbol = make_answer (record {
    symbol = symbol;
    answer = refusal_text;
    outcome = ResearchOutcome.refused;
    is_insufficient = false;
    is_refused = true;
    claims = [];
    citations = [];
    disclaimer = approved_disclaimer;
  })

  module _ (is_control_like : ℕ → Bool) where
    -- `EvidenceQuote.__post_init__`
    unfoldable pub make_quote : EvidenceQuote → Result Fault EvidenceQuote
    make_quote q = do
      chunk_id' ← require_text py q.chunk_id 80
      quote' ← require_text py q.quote 500
      raise_if (not (is_chunk_id chunk_id')) value_error
      raise_if (any is_control_like quote') value_error
      ok (record { chunk_id = chunk_id'; quote = quote' })

    module _ (split : Text → List Text) (is_trusted_url : Text → Text → Bool) where
      -- A character of `_plain_display_excerpt`.
      abbrev pub plain_character : ℕ → ℕ
      plain_character c =
          if is_control_like c then 32 else if eqb c 60 then 8249 else if eqb c 62 then 8250 else c

      unfoldable pub plain_display_excerpt : Text → ℕ → Text
      plain_display_excerpt value maximum =
          rstrip py.is_space (take maximum (join (codes " ") (split (map plain_character value))))

      -- `ResearchCitation.__post_init__`
      unfoldable pub make_citation : ResearchCitation → Result Fault ResearchCitation
      make_citation c = do
        chunk_id' ← require_text py c.chunk_id 100
        title' ← require_text py c.title 200
        filing_type' ← require_text py c.filing_type 6
        accession ← require_text py c.accession_number 20
        snippet' ← require_text py c.snippet 300
        raise_if (not (is_trusted_url c.url accession)) value_error
        raise_if
            (not (is_supported_form (py.upper filing_type')) || not (is_accession py accession))
            value_error
        raise_if
            (any (λ x. eqb x 60 || eqb x 62) (title' ++ snippet')
              || any is_control_like (title' ++ snippet'))
            value_error
        ok (record {
          chunk_id = chunk_id';
          title = title';
          url = c.url;
          filed_date = c.filed_date;
          filing_type = py.upper filing_type';
          accession_number = accession;
          snippet = snippet';
        })

      unfoldable pub from_chunk : EvidenceChunk → Result Fault ResearchCitation
      from_chunk e = make_citation (record {
        chunk_id = e.chunk_id;
        title = e.reference.title;
        url = e.reference.source_url;
        filed_date = e.reference.filed_date;
        filing_type = e.reference.filing_type;
        accession_number = e.reference.accession_number;
        snippet = plain_display_excerpt e.text 300;
      })
