-- ===== src/Research/Tests.antt =====
-- Data for the runs of the research code on concrete inputs, and the runs.
use marketview.Research.Retrieval.{EvidenceChunk}
use marketview.Research.Records.{embedding}
use marketview.Base.Texts.{Text, codes}
use marketview.Research.Deadline.{RequestDeadline}
use marketview.Research.Python.{
  Python, between, is_accession, is_chunk_id, is_digest, is_generation_id, is_symbol, is_version,
  replicate, strip,
}
use marketview.Research.Python.Stripping.{IsPython}
use marketview.Research.Domain.Normal.{IsManifest}
use marketview.Research.Domain.Proofs.{IsCanonical, make_manifest-of_IsCanonical}
use marketview.Research.Domain.{
  CorpusDescriptor, EmbeddingDescriptor, GenerationManifest, distinct, make_corpus, make_embedding,
  require_text,
}
use marketview.Base.{
  ◌≡◌, refl, [], ◌∷◌, zero, suc, true, false, none, some, inl, inr, ◌++◌, arith, eqb,
}
pub mod Calls
pub mod Documents
pub mod Ledgers
pub mod Services
pub mod Queries
pub mod Facades

-- Python for text of plain ASCII that is in its case already.
abbrev pub ascii : Python
ascii = record {
  upper = λ s. s;
  lower = λ s. s;
  is_space = λ c. eqb c 32;
  is_decimal = between 48 57;
  sha256 = λ s. replicate 64 48;
}

digest_of_zeros : is_digest (replicate 64 48) ≡ true
unfolding is_digest
digest_of_zeros = refl

pub ascii-IsPython : IsPython ascii
ascii-IsPython = record {
  space_printable = λ c h. ground arith;
  space_decimal = λ c h. ground arith;
  upper-is_symbol = λ s h. refl;
  lower-lower = λ s. refl;
  sha256-is_digest = λ s. digest_of_zeros;
}

abbrev pub sample_embedding : EmbeddingDescriptor
sample_embedding = record {
  provider = codes "openai";
  model = codes "small";
  version = codes "v1";
  dimensions = 2;
}

abbrev pub sample_corpus : CorpusDescriptor
sample_corpus = record {
  corpus_version = codes "c1";
  chunker_version = codes "k1";
  embedding = sample_embedding;
}

abbrev pub digest_text : Text
digest_text = replicate 64 97

abbrev pub sample_chunk_id : Text
sample_chunk_id = codes "chunk-" ++ replicate 64 98

abbrev pub sample_manifest : GenerationManifest
sample_manifest = record {
  corpus = sample_corpus;
  symbol = codes "AAPL";
  accession_number = codes "0000320193-24-000123";
  generation_id = codes "gen-" ++ replicate 64 99;
  content_hash = digest_text;
  chunk_ids = sample_chunk_id ∷ [];
}

pub sample_manifest-IsCanonical : IsCanonical ascii sample_manifest
unfolding is_symbol is_accession is_generation_id is_digest distinct is_chunk_id
sample_manifest-IsCanonical = record {
  symbol = refl;
  accession = refl;
  generation = refl;
  content = refl;
  nonempty = omega arith;
  unique = refl;
  chunks = refl;
}

pub sample_manifest-IsManifest : IsManifest ascii sample_manifest
unfolding make_embedding make_corpus require_text is_version strip
sample_manifest-IsManifest = record {
  embedding = refl;
  corpus = refl;
  manifest =
      make_manifest-of_IsCanonical ascii ascii-IsPython sample_manifest sample_manifest-IsCanonical;
}

-- A deadline that ends at 100.
abbrev pub sample_deadline : RequestDeadline
sample_deadline = record { expires_at = 100 }

abbrev pub sample_evidence : EvidenceChunk
sample_evidence = record {
  reference = record {
    symbol = codes "AAPL";
    cik = codes "0000320193";
    accession_number = codes "0000320193-24-000123";
    filing_type = codes "10-K";
    title = codes "Annual report";
    filed_date = 20240102;
    source_url = codes "https://www.sec.gov/a";
  };
  corpus = sample_corpus;
  generation_id = sample_manifest.generation_id;
  chunk_id = sample_chunk_id;
  content_hash = digest_text;
  ordinal = 0;
  text = codes "Revenue rose.";
}
