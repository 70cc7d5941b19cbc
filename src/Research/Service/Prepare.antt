-- ===== src/Research/Service/Prepare.antt =====
-- The first part of `_ingest_impl` of app/research/service.py: from a document to the evidence and
-- the manifest of its generation. The chunker, the embedder, the clock and the owner of the lease are
-- given: `time i` is the clock's reading `i`, and a tick is a second. A service without a chunker is
-- one whose chunker raises.
use marketview.Base.Texts.{Text}
use marketview.Research.Python.{Python, strip}
use marketview.Research.Evidence.{FilingDocument, from_document}
use marketview.Research.Deadline.{Fault, RequestDeadline, value_error}
use marketview.Research.Service.Run.{Failure}
use marketview.Research.Retrieval.{EvidenceChunk}
use marketview.Research.Vectors.{EmbeddedChunk, EmbeddingVector}
use marketview.Research.Domain.{
  CorpusDescriptor, GenerationManifest, make_manifest, EmbeddingDescriptor-Eq, CorpusDescriptor-Eq,
}
use marketview.Base.{
  [], ◌∷◌, suc, ◌!=◌, Bool, List, any, eqb, keep, length, map, not, ◌||◌, ℕ, ℕ-Eq, List-Eq,
}
use marketview.Base.Result.{◌>>=◌, ◌>>◌, Result, err, ok, raise_if}

pub data IngestionOutcome : Type 0 where
  created replaced unchanged : IngestionOutcome

pub record IngestionResult : Type 0 where
  pub outcome : IngestionOutcome
  pub inserted_count : ℕ
  pub removed_count : ℕ
  pub cleanup_pending_count : ℕ

-- What a generation is made of.
pub record Prepared : Type 0 where
  pub texts : List Text
  pub evidence : List EvidenceChunk
  pub manifest : GenerationManifest

-- The parts of the service and of the standard library that are given.
pub record Given : Type 0 where
  pub py : Python
  pub isoformat : ℕ → Text
  pub is_trusted_url : Text → Text → Text → Bool
  pub chunk_document : FilingDocument → Result Fault (List Text)
  pub embed_documents : List Text → RequestDeadline → ℕ → Result Failure (List EmbeddingVector)
  pub time : ℕ → ℕ
  pub owner : Text

-- `EmbeddedChunk.__post_init__` over the pairs of `zip`, in step.
unfoldable pub embedded :
    List EvidenceChunk → List EmbeddingVector → Result Fault (List EmbeddedChunk)
embedded (e ∷ es) (v ∷ vs) = do
  raise_if (v.descriptor != e.corpus.embedding) value_error
  rest ← embedded es vs
  ok ((record { evidence = e; embedding = v }) ∷ rest)
embedded [] [] = ok []
embedded _ _ = err value_error

abbrev pub chunk_ids_of : List EvidenceChunk → List Text
chunk_ids_of [] = []
chunk_ids_of (e ∷ es) = e.chunk_id ∷ chunk_ids_of es

module _ (g : Given) (corpus : CorpusDescriptor) where
  -- `enumerate` over the texts, from an ordinal.
  unfoldable pub evidence_from : FilingDocument → ℕ → List Text → Result Fault (List EvidenceChunk)
  evidence_from d n [] = ok []
  evidence_from d n (t ∷ ts) = do
    e ← from_document g.py g.isoformat g.is_trusted_url d corpus n t
    es ← evidence_from d (suc n) ts
    ok (e ∷ es)

  -- The evidence is not of the first's generation or of the service's corpus.
  abbrev pub strays_from : EvidenceChunk → EvidenceChunk → Bool
  strays_from f e =
      e.generation_id != f.generation_id
      || (e.reference.accession_number != f.reference.accession_number
          || (e.content_hash != f.content_hash || e.corpus != corpus))

  -- `_manifest`; on no evidence, `evidence[0]` raises.
  unfoldable pub manifest_of : List EvidenceChunk → Result Fault GenerationManifest
  manifest_of [] = err value_error
  manifest_of (f ∷ es) = do
    raise_if (any (strays_from f) (f ∷ es)) value_error
    make_manifest g.py corpus f.reference.symbol f.reference.accession_number f.generation_id
        f.content_hash (chunk_ids_of (f ∷ es))

  -- The first `try` of `_ingest_impl`.
  unfoldable pub prepare : FilingDocument → Result Fault Prepared
  prepare d = do
    chunks ← g.chunk_document d
    let texts = keep (λ t. not (eqb (length t) 0)) (map (strip g.py) chunks)
    raise_if (eqb (length texts) 0) value_error
    es ← evidence_from d 0 texts
    m ← manifest_of es
    ok (record { texts = texts; evidence = es; manifest = m })
