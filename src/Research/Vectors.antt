-- ===== src/Research/Vectors.antt =====
-- `InMemoryVectorStore` (app/research/memory.py) without its similarity search, and
-- `GenerationInspection` (app/research/ports.py). A method takes the store and returns the new one
-- where it changes it; a call that raises changes nothing. The components of a vector, finite
-- floats that are only compared here, are numbers that are the same just when Python's `==` holds.
use native.Mathlib.Decide.{ℕ_discrete}
use marketview.Base.Texts.{Text}
use marketview.Base.Result.{Result, err, ok, raise_if, ◌>>=◌, ◌>>◌}
use marketview.Research.Python.{Python}
use marketview.Research.Deadline.{Fault, RequestDeadline, raise_if_expired, value_error}
use marketview.Research.Retrieval.{EvidenceChunk}
use marketview.Research.Domain.{
  EmbeddingDescriptor, GenerationManifest, VerificationOutcome, distinct, from_point_ids,
  integrity_mismatch, missing_points, GenerationManifest-Eq, CorpusDescriptor-Eq,
  EmbeddingDescriptor-Eq,
}
use marketview.Research.Domain.Outcome.{failed_outcome, verified_outcome}
use marketview.Base.{
  ◌≡◌, refl, [], ◌∷◌, zero, suc, true, false, none, some, inl, inr, ◌!=◌, ◌&&◌, ◌+◌, ◌++◌, ◌==◌,
  Bool, Eq, List, Option, all, any, eqb, first, keep, length, ltb, min, not, ◌||◌, ℕ, if◌then◌else◌,
  ℕ-Eq, List-Eq,
}
pub mod Inspection
pub mod Staging

pub record EmbeddingVector : Type 0 where
  pub descriptor : EmbeddingDescriptor
  pub values : List ℕ

pub record EmbeddedChunk : Type 0 where
  pub evidence : EvidenceChunk
  pub embedding : EmbeddingVector

-- A pair of the tuple `_generations`.
pub record Entry : Type 0 where
  pub manifest : GenerationManifest
  pub chunks : List EmbeddedChunk

unfoldable pub EvidenceChunk-discrete : Discrete EvidenceChunk
EvidenceChunk-discrete = hlevel ℕ_discrete

unfoldable pub EmbeddedChunk-discrete : Discrete EmbeddedChunk
EmbeddedChunk-discrete = hlevel ℕ_discrete

instance abbrev pub EmbeddedChunk-Eq : Eq EmbeddedChunk
EmbeddedChunk-Eq = record { decides = EmbeddedChunk-discrete }

pub data InspectionState : Type 0 where
  absent exact partial inconsistent : InspectionState

pub record GenerationInspection : Type 0 where
  pub state : InspectionState
  pub expected_point_count : ℕ
  pub observed_point_count : ℕ

-- The test of `GenerationInspection.__post_init__` for each state.
abbrev pub count_fits : InspectionState → ℕ → ℕ → Bool
count_fits absent expected observed = eqb observed 0
count_fits exact expected observed = eqb observed expected
count_fits partial expected observed = ltb 0 observed && ltb observed expected
count_fits inconsistent expected observed = true

unfoldable pub make_inspection : GenerationInspection → Result Fault GenerationInspection
make_inspection i = do
  raise_if (ltb i.expected_point_count 1) value_error
  raise_if (not (count_fits i.state i.expected_point_count i.observed_point_count)) value_error
  ok i

abbrev pub entry_of : Text → Entry → Bool
entry_of id e = e.manifest.generation_id == id

-- `_find_generation`
unfoldable pub find_generation : Text → List Entry → Option Entry
find_generation id entries = first (entry_of id) entries

unfoldable pub point_ids : List EmbeddedChunk → List Text
point_ids [] = []
point_ids (c ∷ cs) = c.evidence.chunk_id ∷ point_ids cs

-- The comparison of a chunk's metadata with the manifest's that two methods make.
abbrev pub belongs : GenerationManifest → EmbeddedChunk → Bool
belongs m c =
    c.evidence.corpus == m.corpus
    && (c.evidence.reference.symbol == m.symbol
        && (c.evidence.reference.accession_number == m.accession_number
            && (c.evidence.generation_id == m.generation_id
                && c.evidence.content_hash == m.content_hash)))

-- `_validate_generation`
unfoldable pub validate_generation :
    GenerationManifest → List EmbeddedChunk → Result Fault (Unit {0})
validate_generation m chunks = do
  raise_if (eqb (length chunks) 0 || point_ids chunks != m.chunk_ids) value_error
  raise_if (any (λ c. not (belongs m c)) chunks) value_error

unfoldable pub stage_generation :
    GenerationManifest
    → List EmbeddedChunk
    → RequestDeadline
    → ℕ
    → List Entry
    → Result Fault (List Entry)
stage_generation m chunks deadline now entries = do
  raise_if_expired deadline now
  validate_generation m chunks
  elim (find_generation m.generation_id entries) [
    | none ↦ ok (
        keep (λ e. not (entry_of m.generation_id e)) entries
        ++ (record { manifest = m; chunks = chunks }) ∷ [])
    | some e ↦ if e.manifest == m && e.chunks == chunks then ok entries else err value_error
  ]

unfoldable pub delete_generation :
    GenerationManifest → RequestDeadline → ℕ → List Entry → Result Fault (List Entry)
delete_generation m deadline now entries = do
  raise_if_expired deadline now
  ok (keep (λ e. not (entry_of m.generation_id e)) entries)

unfoldable pub points : List Entry → ℕ
points [] = 0
points (e ∷ es) = length e.chunks + points es

-- The state that `inspect_generation` reads off the one entry of a generation.
unfoldable pub entry_state : GenerationManifest → List EmbeddedChunk → InspectionState
entry_state m chunks =
    if eqb (length chunks) 0
      || (not (distinct (point_ids chunks))
          || (point_ids chunks != keep (λ id. any (λ p. p == id) (point_ids chunks)) m.chunk_ids
              || not
                  (all (λ c. belongs m c && c.embedding.descriptor == m.corpus.embedding) chunks)))
    then inconsistent
    else if point_ids chunks == m.chunk_ids
    then exact
    else partial

unfoldable pub entries_state : GenerationManifest → List Entry → InspectionState
entries_state m [] = absent
entries_state m (e ∷ []) = if e.manifest != m then inconsistent else entry_state m e.chunks
entries_state m (e ∷ f ∷ es) = inconsistent

unfoldable pub inspect_generation :
    GenerationManifest → RequestDeadline → ℕ → List Entry → Result Fault GenerationInspection
inspect_generation m deadline now entries = do
  raise_if_expired deadline now
  make_inspection (record {
    state = entries_state m (keep (entry_of m.generation_id) entries);
    expected_point_count = length m.chunk_ids;
    observed_point_count = points (keep (entry_of m.generation_id) entries);
  })

module _ (py : Python) where
  -- What `verify_generation` returns for the entry of the manifest.
  unfoldable pub verify_entry : GenerationManifest → Entry → Result Fault VerificationOutcome
  verify_entry m e = elim (validate_generation e.manifest e.chunks) [
    | ok _ ↦ do
      v ← from_point_ids py m.generation_id (point_ids e.chunks)
      verified_outcome v (length m.chunk_ids) 1
    | err _ ↦
        failed_outcome integrity_mismatch (length m.chunk_ids)
          (min (length e.chunks) (length m.chunk_ids)) 0 1
  ]

  unfoldable pub verify_generation :
      GenerationManifest → RequestDeadline → ℕ → List Entry → Result Fault VerificationOutcome
  verify_generation m deadline now entries = do
    raise_if_expired deadline now
    elim (find_generation m.generation_id entries) [
      | none ↦ failed_outcome missing_points (length m.chunk_ids) 0 0 1
      | some e ↦
          if e.manifest != m
          then failed_outcome missing_points (length m.chunk_ids) 0 0 1
          else verify_entry m e
    ]
