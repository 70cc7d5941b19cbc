-- ===== src/Research/Records/Codec.antt =====
-- `to_json` and `from_json` of the control records, over the JSON library. The fields are written in
-- the order of their keys, as `sort_keys` leaves them.
use marketview.Base.Int.{pos}
use marketview.Research.Deadline.{Fault, value_error}
use marketview.Base.Result.{Result, err, ok}
use marketview.Research.Domain.{GenerationManifest, GenerationVerification}
use marketview.Research.Json.{
  optional_text, Json, null, obj, field, str, end, bool, num, arr, items_of,
}
use marketview.Research.Records.{
  GenerationStageRecord, FailureStage, SupersededCleanupRecord, GenerationState, ReservationState,
  IngestionRetryResult, IngestionRetryClaim, CleanupState, Reservation, RetryState, pending,
  succeeded, staged, sec_fetch, IngestionCheckpoint, authorized, parsing_chunking, committed,
  failed, released, published, vector_staging, aborted, vector_verification, redis_publication,
  cleanup, checkpointing,
}
use marketview.Base.Texts.{Text, codes}
use Prim.Native.String.{String}
use marketview.Base.{[], ◌∷◌, none, some, List, Option, if◌then◌else◌, ◌==◌, ℕ-Eq, List-Eq}

-- The values of the enumerations.
unfoldable pub state_text : GenerationState → Text
state_text staged = codes "STAGED"
state_text GenerationState.verified = codes "VERIFIED"
state_text published = codes "PUBLISHED"
state_text aborted = codes "ABORTED"
state_text GenerationState.cleaned = codes "CLEANED"

unfoldable pub cleanup_text : CleanupState → Text
cleanup_text pending = codes "PENDING"
cleanup_text CleanupState.cleaned = codes "CLEANED"

unfoldable pub retry_text : RetryState → Text
retry_text succeeded = codes "SUCCEEDED"
retry_text failed = codes "FAILED"

unfoldable pub reservation_text : ReservationState → Text
reservation_text authorized = codes "AUTHORIZED"
reservation_text committed = codes "COMMITTED"
reservation_text released = codes "RELEASED"

unfoldable pub failure_stage_text : FailureStage → Text
failure_stage_text sec_fetch = codes "sec_fetch"
failure_stage_text parsing_chunking = codes "parsing_chunking"
failure_stage_text FailureStage.embedding = codes "embedding"
failure_stage_text vector_staging = codes "vector_staging"
failure_stage_text vector_verification = codes "vector_verification"
failure_stage_text redis_publication = codes "redis_publication"
failure_stage_text cleanup = codes "cleanup"
failure_stage_text checkpointing = codes "checkpointing"

-- `Enum(value)`: the member whose value it is.
unfoldable pub member {ℓ} : {A : Type ℓ} → (A → Text) → List A → Text → Result Fault A
member text [] t = err value_error
member text (x ∷ xs) t = if text x == t then ok x else member text xs t

abbrev pub generation_states : List GenerationState
generation_states =
    staged ∷ GenerationState.verified ∷ published ∷ aborted ∷ GenerationState.cleaned ∷ []

abbrev pub cleanup_states : List CleanupState
cleanup_states = pending ∷ CleanupState.cleaned ∷ []

abbrev pub retry_states : List RetryState
retry_states = succeeded ∷ failed ∷ []

abbrev pub reservation_states : List ReservationState
reservation_states = authorized ∷ committed ∷ released ∷ []

abbrev pub failure_stages : List FailureStage
failure_stages =
    sec_fetch ∷ parsing_chunking ∷ FailureStage.embedding ∷ vector_staging ∷ vector_verification
    ∷ redis_publication ∷ cleanup ∷ checkpointing ∷ []

abbrev pub manifest_keys : List String
manifest_keys =
    "corpus_version" ∷ "chunker_version" ∷ "embedding_provider" ∷ "embedding_model"
    ∷ "embedding_version" ∷ "embedding_dimensions" ∷ "symbol" ∷ "accession_number" ∷ "generation_id"
    ∷ "content_hash" ∷ "chunk_ids" ∷ []

abbrev pub stage_keys : List String
stage_keys = "manifest" ∷ "state" ∷ "verification" ∷ []

abbrev pub verification_keys : List String
verification_keys = "generation_id" ∷ "point_count" ∷ "point_ids_hash" ∷ []

abbrev pub cleanup_keys : List String
cleanup_keys = "superseded_manifest" ∷ "active_generation_id" ∷ "state" ∷ []

abbrev pub checkpoint_keys : List String
checkpoint_keys =
    "job_digest" ∷ "cursor_digest" ∷ "processed_count" ∷ "failed_count" ∷ "complete" ∷ []

abbrev pub claim_keys : List String
claim_keys = "attempt_digest" ∷ "checkpoint_digest" ∷ "cursor_digest" ∷ "job_digest" ∷ []

abbrev pub result_keys : List String
result_keys =
    "attempt_digest" ∷ "failure_stage" ∷ "inserted_count" ∷ "job_digest" ∷ "removed_count" ∷ "state"
    ∷ []

abbrev pub reservation_keys : List String
reservation_keys =
    "reservation_digest" ∷ "budget_digest" ∷ "principal_digest" ∷ "units" ∷ "state" ∷ []

-- `_manifest_value`
unfoldable pub manifest_value : GenerationManifest → Json
manifest_value m = obj (
    field "accession_number" (str m.accession_number) (
      field "chunk_ids" (arr (items_of m.chunk_ids)) (
        field "chunker_version" (str m.corpus.chunker_version) (
          field "content_hash" (str m.content_hash) (
            field "corpus_version" (str m.corpus.corpus_version) (
              field "embedding_dimensions" (num (pos m.corpus.embedding.dimensions)) (
                field "embedding_model" (str m.corpus.embedding.model) (
                  field "embedding_provider" (str m.corpus.embedding.provider) (
                    field "embedding_version" (str m.corpus.embedding.version) (
                      field "generation_id" (str m.generation_id)
                        (field "symbol" (str m.symbol) end)))))))))))

unfoldable pub verification_value : Option GenerationVerification → Json
verification_value none = null
verification_value (some v) = obj (
    field "generation_id" (str v.generation_id) (
      field "point_count" (num (pos v.point_count))
        (field "point_ids_hash" (str v.point_ids_hash) end)))

unfoldable pub stage_value : GenerationStageRecord → Json
unfolding manifest_value verification_value
stage_value r = obj (
    field "manifest" (manifest_value r.manifest) (
      field "state" (str (state_text r.state))
        (field "verification" (verification_value r.verification) end)))

unfoldable pub cleanup_value : SupersededCleanupRecord → Json
unfolding manifest_value
cleanup_value r = obj (
    field "active_generation_id" (str r.active_generation_id) (
      field "state" (str (cleanup_text r.state))
        (field "superseded_manifest" (manifest_value r.superseded_manifest) end)))

unfoldable pub checkpoint_value : IngestionCheckpoint → Json
unfolding optional_text
checkpoint_value r = obj (
    field "complete" (bool r.complete) (
      field "cursor_digest" (optional_text r.cursor_digest) (
        field "failed_count" (num (pos r.failed_count)) (
          field "job_digest" (str r.job_digest)
            (field "processed_count" (num (pos r.processed_count)) end)))))

unfoldable pub claim_value : IngestionRetryClaim → Json
claim_value r = obj (
    field "attempt_digest" (str r.attempt_digest) (
      field "checkpoint_digest" (str r.checkpoint_digest)
        (field "cursor_digest" (str r.cursor_digest) (field "job_digest" (str r.job_digest) end))))

unfoldable pub failure_value : Option FailureStage → Json
failure_value none = null
failure_value (some s) = str (failure_stage_text s)

unfoldable pub result_value : IngestionRetryResult → Json
unfolding failure_value
result_value r = obj (
    field "attempt_digest" (str r.attempt_digest) (
      field "failure_stage" (failure_value r.failure_stage) (
        field "inserted_count" (num (pos r.inserted_count)) (
          field "job_digest" (str r.job_digest) (
            field "removed_count" (num (pos r.removed_count))
              (field "state" (str (retry_text r.state)) end))))))

unfoldable pub reservation_value : Reservation → Json
reservation_value r = obj (
    field "budget_digest" (str r.budget_digest) (
      field "principal_digest" (str r.principal_digest) (
        field "reservation_digest" (str r.reservation_digest) (
          field "state" (str (reservation_text r.state)) (field "units" (num (pos r.units)) end)))))
