-- ===== src/Research/Evidence.antt =====
-- `FilingReference`, and the identities of `EvidenceChunk` (app/research/domain.py): its constructor
-- and `from_document`. Its evidence digest is a function of the other fields and has no field here.
-- The ISO form of a date and the test of a source's address are parameters.
use marketview.Research.Chunker.{chunk}
use marketview.Base.Texts.{Text, codes}
use marketview.Base.Result.{Result, ok, raise_if, ◌>>=◌, ◌>>◌}
use marketview.Research.Python.{
  Python, canonical_digest, decimal, fullmatch, is_accession, is_chunk_id, is_digest,
  is_generation_id, is_symbol, replicate,
}
use marketview.Research.Deadline.{Fault, value_error}
use marketview.Research.Retrieval.{EvidenceChunk, FilingReference, supported_filing_types}
use marketview.Research.Domain.{CorpusDescriptor, corpus_key, require_text}
use marketview.Base.{
  [], ◌∷◌, ◌!=◌, ◌++◌, ◌==◌, Bool, any, eqb, ltb, not, take, ◌||◌, ℕ, List-Eq, ℕ-Eq,
}
pub mod Sources

pub record FilingDocument : Type 0 where
  pub symbol : Text
  pub cik : Text
  pub accession_number : Text
  pub filing_type : Text
  pub title : Text
  pub filed_date : ℕ
  pub source_url : Text
  pub text : Text
  pub content_hash : Text

-- `\d{10}`
unfoldable pub is_cik : Python → Text → Bool
unfolding fullmatch
is_cik py = fullmatch (replicate 10 py.is_decimal)

-- A character that a title may not hold.
abbrev pub is_unplain : ℕ → Bool
is_unplain c = eqb c 60 || eqb c 62 || ltb c 32 || eqb c 127

abbrev pub is_supported_form : Text → Bool
is_supported_form t = any (λ s. s == t) supported_filing_types

module _ (py : Python) (isoformat : ℕ → Text) (is_trusted_url : Text → Text → Text → Bool) where
  -- `FilingReference.__post_init__`
  unfoldable pub make_reference : FilingReference → Result Fault FilingReference
  make_reference r = do
    symbol' ← require_text py r.symbol 32
    cik' ← require_text py r.cik 10
    accession ← require_text py r.accession_number 20
    filing_type' ← require_text py r.filing_type 6
    title' ← require_text py r.title 200
    raise_if (not (is_symbol (py.upper symbol'))) value_error
    raise_if (not (is_cik py cik') || not (is_accession py accession) || take 10 accession != cik')
        value_error
    raise_if (not (is_supported_form (py.upper filing_type'))) value_error
    raise_if (any is_unplain title') value_error
    raise_if (not (is_trusted_url r.source_url cik' accession)) value_error
    ok (record {
      symbol = py.upper symbol';
      cik = cik';
      accession_number = accession;
      filing_type = py.upper filing_type';
      title = title';
      filed_date = r.filed_date;
      source_url = r.source_url;
    })

  unfoldable pub canonical_citation_digest : FilingReference → Text
  canonical_citation_digest r = canonical_digest py (
      r.cik
      ∷ r.accession_number
      ∷ r.filing_type
      ∷ isoformat r.filed_date
      ∷ r.title
      ∷ r.source_url
      ∷ [])

  unfoldable pub canonical_generation_id : FilingReference → CorpusDescriptor → Text → Text
  canonical_generation_id r corpus content_hash =
      codes "gen-"
      ++ canonical_digest py (
          corpus_key corpus
          ∷ r.symbol
          ∷ canonical_citation_digest r
          ∷ r.accession_number
          ∷ content_hash
          ∷ [])

  unfoldable pub canonical_evidence_digest : FilingReference → Text → Result Fault Text
  canonical_evidence_digest r text = do
    checked ← require_text py text 20000
    ok (canonical_digest py (canonical_citation_digest r ∷ checked ∷ []))

  -- The identity for an evidence digest, which is `legacy` where no text is given.
  unfoldable pub chunk_id_for : FilingReference → CorpusDescriptor → Text → ℕ → Text → Text
  chunk_id_for r corpus content_hash ordinal evidence_digest =
      codes "chunk-"
      ++ canonical_digest py (
          corpus_key corpus
          ∷ r.symbol
          ∷ canonical_citation_digest r
          ∷ content_hash
          ∷ decimal ordinal
          ∷ evidence_digest
          ∷ [])

  unfoldable pub canonical_chunk_id :
      FilingReference → CorpusDescriptor → Text → ℕ → Text → Result Fault Text
  canonical_chunk_id r corpus content_hash ordinal text = do
    digest ← canonical_evidence_digest r text
    ok (chunk_id_for r corpus content_hash ordinal digest)

  -- `EvidenceChunk.__post_init__`
  unfoldable pub make_evidence : EvidenceChunk → Result Fault EvidenceChunk
  make_evidence e = do
    generation ← require_text py e.generation_id 80
    chunk ← require_text py e.chunk_id 80
    content ← require_text py e.content_hash 64
    text' ← require_text py e.text 20000
    raise_if (not (is_generation_id generation)) value_error
    raise_if (not (is_chunk_id chunk)) value_error
    raise_if (not (is_digest content)) value_error
    expected ← canonical_chunk_id e.reference e.corpus content e.ordinal text'
    let legacy = chunk_id_for e.reference e.corpus content e.ordinal (codes "legacy")
    raise_if
        (generation != canonical_generation_id e.reference e.corpus content
          || not (chunk == expected || chunk == legacy))
        value_error
    ok (record {
      reference = e.reference;
      corpus = e.corpus;
      generation_id = generation;
      chunk_id = chunk;
      content_hash = content;
      ordinal = e.ordinal;
      text = text';
    })

  unfoldable pub reference_of : FilingDocument → FilingReference
  reference_of d = record {
    symbol = d.symbol;
    cik = d.cik;
    accession_number = d.accession_number;
    filing_type = d.filing_type;
    title = d.title;
    filed_date = d.filed_date;
    source_url = d.source_url;
  }

  unfoldable pub from_document :
      FilingDocument → CorpusDescriptor → ℕ → Text → Result Fault EvidenceChunk
  from_document d corpus ordinal text = do
    r ← make_reference (reference_of d)
    chunk ← canonical_chunk_id r corpus d.content_hash ordinal text
    make_evidence (record {
      reference = r;
      corpus = corpus;
      generation_id = canonical_generation_id r corpus d.content_hash;
      chunk_id = chunk;
      content_hash = d.content_hash;
      ordinal = ordinal;
      text = text;
    })
