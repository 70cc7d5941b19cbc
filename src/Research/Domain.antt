-- ===== src/Research/Domain.antt =====
-- The generation records of app/research/domain.py: descriptors, manifests, and the outcome of a
-- verification. `__post_init__` of a frozen dataclass is a function `make` from the raw fields to the
-- record that it normalises, or `ValueError`.
use marketview.Research.Deadline.{Fault, value_error}
use native.Mathlib.Decide.{ℕ_discrete}
use marketview.Base.Result.{Result, err, ◌>>=◌, ◌>>◌, ok, raise_if}
use marketview.Research.Python.{
  join, Python, strip, decimal, is_version, canonical_digest, is_symbol, is_generation_id,
  is_accession, is_digest, is_chunk_id,
}
pub mod Normal
pub mod Outcome
pub mod Proofs
use marketview.Base.{
  ℕ, Option, List, ℕ-Eq, List-Eq, Option-Eq, Bool, Eq, true, ◌∷◌, false, some, if◌then◌else◌, [],
  not, eqb, any, ◌==◌, length, none, ◌||◌, ◌&&◌, ltb, ◌+◌, leb,
}
use marketview.Base.Texts.{Text, codes}

pub record EmbeddingDescriptor : Type 0 where
  pub provider : Text
  pub model : Text
  pub version : Text
  pub dimensions : ℕ

pub record CorpusDescriptor : Type 0 where
  pub corpus_version : Text
  pub chunker_version : Text
  pub embedding : EmbeddingDescriptor

pub record GenerationManifest : Type 0 where
  pub corpus : CorpusDescriptor
  pub symbol : Text
  pub accession_number : Text
  pub generation_id : Text
  pub content_hash : Text
  pub chunk_ids : List Text

pub record GenerationVerification : Type 0 where
  pub generation_id : Text
  pub point_count : ℕ
  pub point_ids_hash : Text

pub data VerificationReason : Type 0 where
  verified missing_points partial_visibility response_shape ordering_mismatch : VerificationReason
  metadata_mismatch data_mismatch integrity_mismatch : VerificationReason

pub record VerificationOutcome : Type 0 where
  pub reason : VerificationReason
  pub expected_point_count : ℕ
  pub observed_point_count : ℕ
  pub null_point_count : ℕ
  pub attempt_count : ℕ
  pub verification : Option GenerationVerification

unfoldable pub EmbeddingDescriptor-discrete : Discrete EmbeddingDescriptor
EmbeddingDescriptor-discrete = hlevel ℕ_discrete

unfoldable pub CorpusDescriptor-discrete : Discrete CorpusDescriptor
CorpusDescriptor-discrete = hlevel ℕ_discrete

unfoldable pub GenerationManifest-discrete : Discrete GenerationManifest
GenerationManifest-discrete = hlevel ℕ_discrete

unfoldable pub GenerationVerification-discrete : Discrete GenerationVerification
GenerationVerification-discrete = hlevel ℕ_discrete

-- Dataclass `==` compares the fields.
instance abbrev pub EmbeddingDescriptor-Eq : Eq EmbeddingDescriptor
EmbeddingDescriptor-Eq = record { decides = EmbeddingDescriptor-discrete }

instance abbrev pub CorpusDescriptor-Eq : Eq CorpusDescriptor
CorpusDescriptor-Eq = record { decides = CorpusDescriptor-discrete }

instance abbrev pub GenerationManifest-Eq : Eq GenerationManifest
GenerationManifest-Eq = record { decides = GenerationManifest-discrete }

instance abbrev pub GenerationVerification-Eq : Eq GenerationVerification
GenerationVerification-Eq = record { decides = GenerationVerification-discrete }

-- `len(set(xs)) == len(xs)`
unfoldable pub distinct : List Text → Bool
distinct [] = true
distinct (x ∷ xs) = not (any (λ y. x == y) xs) && distinct xs

-- `EmbeddingDescriptor.canonical_key`
unfoldable pub embedding_key : EmbeddingDescriptor → Text
embedding_key e = join (codes ":") (e.provider ∷ e.model ∷ e.version ∷ decimal e.dimensions ∷ [])

-- `CorpusDescriptor.canonical_key`
unfoldable pub corpus_key : CorpusDescriptor → Text
corpus_key c =
    join (codes ":") (c.corpus_version ∷ c.chunker_version ∷ embedding_key c.embedding ∷ [])

module _ (py : Python) where
  -- `_require_text`
  unfoldable pub require_text : Text → ℕ → Result Fault Text
  require_text value maximum =
      let normalized = strip py value in
      if eqb (length normalized) 0 || ltb maximum (length normalized)
      then err value_error
      else ok normalized

  unfoldable pub make_embedding : Text → Text → Text → ℕ → Result Fault EmbeddingDescriptor
  make_embedding provider model version dimensions = do
    provider' ← require_text provider 64
    model' ← require_text model 128
    version' ← require_text version 128
    raise_if (not (is_version (py.lower provider') && is_version model' && is_version version'))
        value_error
    raise_if (not (leb 1 dimensions && leb dimensions 65536)) value_error
    ok (record {
      provider = py.lower provider';
      model = model';
      version = version';
      dimensions = dimensions;
    })

  unfoldable pub make_corpus : Text → Text → EmbeddingDescriptor → Result Fault CorpusDescriptor
  make_corpus corpus_version chunker_version embedding = do
    corpus' ← require_text corpus_version 128
    chunker' ← require_text chunker_version 128
    raise_if (not (is_version (py.lower corpus')) || not (is_version (py.lower chunker')))
        value_error
    ok (record {
      corpus_version = py.lower corpus';
      chunker_version = py.lower chunker';
      embedding = embedding;
    })

  unfoldable pub make_manifest :
      CorpusDescriptor → Text → Text → Text → Text → List Text → Result Fault GenerationManifest
  make_manifest corpus symbol accession_number generation_id content_hash chunk_ids = do
    symbol' ← require_text symbol 32
    accession ← require_text accession_number 20
    generation ← require_text generation_id 80
    content ← require_text content_hash 64
    raise_if (not (is_symbol (py.upper symbol')) || not (is_accession py accession)) value_error
    raise_if (not (is_generation_id generation)) value_error
    raise_if (not (is_digest content)) value_error
    raise_if
        (eqb (length chunk_ids) 0
          || not (distinct chunk_ids)
          || any (λ item. not (is_chunk_id item)) chunk_ids)
        value_error
    ok (record {
      corpus = corpus;
      symbol = py.upper symbol';
      accession_number = accession;
      generation_id = generation;
      content_hash = content;
      chunk_ids = chunk_ids;
    })

  -- `GenerationVerification.__post_init__`
  unfoldable pub make_verification : Text → ℕ → Text → Result Fault GenerationVerification
  make_verification generation_id point_count point_ids_hash = do
    generation ← require_text generation_id 80
    hash ← require_text point_ids_hash 64
    raise_if (not (is_generation_id generation)) value_error
    raise_if (ltb point_count 1) value_error
    raise_if (not (is_digest hash)) value_error
    ok (record { generation_id = generation; point_count = point_count; point_ids_hash = hash })

  unfoldable pub from_point_ids : Text → List Text → Result Fault GenerationVerification
  from_point_ids generation_id point_ids = do
    raise_if (eqb (length point_ids) 0 || not (distinct point_ids)) value_error
    make_verification generation_id (length point_ids) (canonical_digest py point_ids)

  -- `GenerationVerification.proves`
  unfoldable pub proves : GenerationVerification → GenerationManifest → Result Fault Bool
  proves v m = do expected ← from_point_ids m.generation_id m.chunk_ids; ok (v == expected)
