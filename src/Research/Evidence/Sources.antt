-- ===== src/Research/Evidence/Sources.antt =====
-- The records of filing discovery and the constructor of `FilingDocument`, and the constructors of
-- `EmbeddingVector`, `EmbeddedChunk` and `SearchHit` (app/research/domain.py). The test of a source's
-- address, Unicode's control characters and the digest of bytes are parameters. A date that is not
-- one and a value that is not finite have no counterpart.
use marketview.Base.{
  [], ◌∷◌, true, ◌!=◌, ◌==◌, Bool, List, Option, all, any, eqb, length, ltb, not, take, ◌||◌, ℕ,
  ◌&&◌, List-Eq, ℕ-Eq,
}
use marketview.Base.Result.{Result, ok, raise_if, ◌>>=◌, ◌>>◌}
use marketview.Base.Texts.{Text, codes}
use marketview.Research.Python.{Python, is_symbol, is_accession, is_generation_id}
use marketview.Research.Deadline.{Fault, value_error}
use marketview.Research.Domain.{require_text, distinct, EmbeddingDescriptor-Eq}
use marketview.Research.Retrieval.{FilingReference, SearchHit}
use marketview.Research.Vectors.{EmbeddedChunk, EmbeddingVector}
use marketview.Research.Evidence.{FilingDocument, is_cik, is_unplain, is_supported_form}

pub record FilingDiscoveryRequest : Type 0 where
  symbol : Text
  cik : Text
  filing_types : List Text
  date_from : ℕ
  date_to : ℕ
  limit : ℕ
  cursor : Option Text

pub record FilingDiscoveryPage : Type 0 where
  references : List FilingReference
  next_cursor : Option Text

pub record RawFiling : Type 0 where
  reference : FilingReference
  media_type : Text
  body : List ℕ
  content_hash : Text

-- `media_type in _MEDIA_TYPES`
abbrev is_media_type : Text → Bool
is_media_type t = t == codes "text/html" || t == codes "application/xhtml+xml"

-- `len(set(identities)) == len(identities)`, of the CIK and the accession number of each reference.
unfoldable are_distinct : List FilingReference → Bool
are_distinct [] = true
are_distinct (r ∷ rs) =
    not (any (λ q. q.cik == r.cik && q.accession_number == r.accession_number) rs)
    && are_distinct rs

module _ (py : Python) where
  -- `FilingDiscoveryCursor.__post_init__`
  unfoldable make_cursor : (ℕ → Bool) → Text → Result Fault Text
  make_cursor is_control_like value = do
    value' ← require_text py value 512
    raise_if (any is_control_like value') value_error
    ok value'

  -- `_require_text(item, "filing type", maximum=6).upper()` for each item.
  unfoldable require_filing_types : List Text → Result Fault (List Text)
  require_filing_types [] = ok []
  require_filing_types (t ∷ ts) = do
    t' ← require_text py t 6
    ts' ← require_filing_types ts
    ok (py.upper t' ∷ ts')

  -- `FilingDiscoveryRequest.__post_init__`
  unfoldable make_request : FilingDiscoveryRequest → Result Fault FilingDiscoveryRequest
  make_request r = do
    symbol' ← require_text py r.symbol 32
    cik' ← require_text py r.cik 10
    filing_types' ← require_filing_types r.filing_types
    raise_if (not (is_symbol (py.upper symbol')) || not (is_cik py cik')) value_error
    raise_if (eqb (length filing_types') 0 || ltb 6 (length filing_types')) value_error
    raise_if (not (distinct filing_types') || not (all is_supported_form filing_types')) value_error
    raise_if (ltb r.date_to r.date_from) value_error
    raise_if (ltb r.limit 1 || ltb 100 r.limit) value_error
    ok (record r { symbol = py.upper symbol'; cik = cik'; filing_types = filing_types' })

  -- `RawFiling.__post_init__`
  unfoldable make_raw : (List ℕ → Text) → FilingReference → Text → List ℕ → Result Fault RawFiling
  make_raw sha256 reference media_type body = do
    media_type' ← require_text py media_type 64
    raise_if (not (is_media_type (py.lower media_type'))) value_error
    raise_if (eqb (length body) 0) value_error
    ok (record {
      reference = reference;
      media_type = py.lower media_type';
      body = body;
      content_hash = sha256 body;
    })

  -- `FilingDocument.__post_init__`
  unfoldable make_document :
      (Text → Text → Text → Bool) → FilingDocument → Result Fault FilingDocument
  make_document is_trusted_url d = do
    symbol' ← require_text py d.symbol 32
    cik' ← require_text py d.cik 20
    accession ← require_text py d.accession_number 32
    filing_type' ← require_text py d.filing_type 12
    title' ← require_text py d.title 200
    text' ← require_text py d.text 5000000
    raise_if (not (is_symbol (py.upper symbol'))) value_error
    raise_if (not (is_cik py cik')) value_error
    raise_if (not (is_accession py accession)) value_error
    raise_if (not (is_supported_form filing_type')) value_error
    raise_if (any is_unplain title') value_error
    raise_if (take 10 accession != cik' || not (is_trusted_url d.source_url cik' accession))
        value_error
    ok (record {
      symbol = py.upper symbol';
      cik = cik';
      accession_number = accession;
      filing_type = filing_type';
      title = title';
      filed_date = d.filed_date;
      source_url = d.source_url;
      text = text';
      content_hash = py.sha256 text';
    })

  -- `SearchHit.__post_init__`, of a score in millionths.
  unfoldable make_hit : SearchHit → Result Fault SearchHit
  make_hit h = do
    raise_if (ltb 1000000 h.score) value_error
    generation_id ← require_text py h.active_generation_id 80
    raise_if (not (is_generation_id generation_id)) value_error
    ok (record h { active_generation_id = generation_id })

-- `FilingDiscoveryPage.__post_init__`
unfoldable make_page : FilingDiscoveryPage → Result Fault FilingDiscoveryPage
make_page p = do
  raise_if (ltb 100 (length p.references)) value_error
  raise_if (not (are_distinct p.references)) value_error
  ok p

-- `EmbeddingVector.__post_init__`
unfoldable make_vector : EmbeddingVector → Result Fault EmbeddingVector
make_vector v = do raise_if (not (eqb (length v.values) v.descriptor.dimensions)) value_error; ok v

-- `EmbeddedChunk.__post_init__`
unfoldable make_embedded : EmbeddedChunk → Result Fault EmbeddedChunk
make_embedded e = do
  raise_if (e.embedding.descriptor != e.evidence.corpus.embedding) value_error
  ok e
