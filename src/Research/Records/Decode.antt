-- ===== src/Research/Records/Decode.antt =====
-- `from_json` of the control records: schema, types, then the record's own constructor.
use Prim.Native.String.{String}
use marketview.Research.Domain.{
  GenerationManifest, GenerationVerification, make_embedding, make_corpus, make_manifest,
  make_verification,
}
use marketview.Research.Records.{
  GenerationStageRecord, SupersededCleanupRecord, IngestionCheckpoint, IngestionRetryResult,
  IngestionRetryClaim, Reservation, FailureStage, make_claim, make_result, make_reservation,
  make_stage, make_cleanup, make_checkpoint,
}
use marketview.Research.Deadline.{Fault, value_error}
use marketview.Base.Texts.{Text}
use marketview.Base.Result.{Result, ◌>>=◌, ok, err}
use marketview.Research.Json.{
  JsonLibrary, Fields, Json, load_record, as_fields, item, as_optional_text, as_bool, as_texts, str,
  obj, as_text, as_count, null,
}
use marketview.Research.Records.Codec.{
  member, state_text, failure_stage_text, cleanup_text, retry_text, reservation_text, retry_states,
  reservation_states, checkpoint_keys, cleanup_keys, generation_states, reservation_keys,
  stage_keys, manifest_keys, cleanup_states, result_keys, claim_keys, failure_stages,
  verification_keys,
}
use marketview.Research.Python.{Python}
use marketview.Base.{none, some, Option, ℕ}

-- `value[key]`, read as text, as a count, or as a member of an enumeration.
abbrev pub text_at : String → Fields → Result Fault Text
text_at k fs = do v ← item k fs; as_text v

abbrev pub count_at : String → Fields → Result Fault ℕ
count_at k fs = do v ← item k fs; as_count v

unfoldable pub decode_failure : Json → Result Fault (Option FailureStage)
unfolding member failure_stage_text
decode_failure null = ok none
decode_failure (str t) = do s ← member failure_stage_text failure_stages t; ok (some s)
decode_failure _ = err value_error

unfoldable pub decode_checkpoint_fields : Fields → Result Fault IngestionCheckpoint
decode_checkpoint_fields fs = do
  job ← text_at "job_digest" fs
  cursor_value ← item "cursor_digest" fs
  cursor ← as_optional_text cursor_value
  processed ← count_at "processed_count" fs
  failures ← count_at "failed_count" fs
  complete_value ← item "complete" fs
  done ← as_bool complete_value
  make_checkpoint (record {
    job_digest = job;
    cursor_digest = cursor;
    processed_count = processed;
    failed_count = failures;
    complete = done;
  })

unfoldable pub decode_claim_fields : Fields → Result Fault IngestionRetryClaim
decode_claim_fields fs = do
  job ← text_at "job_digest" fs
  attempt ← text_at "attempt_digest" fs
  checkpoint ← text_at "checkpoint_digest" fs
  cursor ← text_at "cursor_digest" fs
  make_claim (record {
    job_digest = job;
    attempt_digest = attempt;
    checkpoint_digest = checkpoint;
    cursor_digest = cursor;
  })

unfoldable pub decode_result_fields : Fields → Result Fault IngestionRetryResult
unfolding member retry_text
decode_result_fields fs = do
  job ← text_at "job_digest" fs
  attempt ← text_at "attempt_digest" fs
  state_value ← text_at "state" fs
  s ← member retry_text retry_states state_value
  stage_json ← item "failure_stage" fs
  stage ← decode_failure stage_json
  inserted ← count_at "inserted_count" fs
  removed ← count_at "removed_count" fs
  make_result (record {
    job_digest = job;
    attempt_digest = attempt;
    state = s;
    failure_stage = stage;
    inserted_count = inserted;
    removed_count = removed;
  })

unfoldable pub decode_reservation_fields : Fields → Result Fault Reservation
unfolding member reservation_text
decode_reservation_fields fs = do
  reservation ← text_at "reservation_digest" fs
  budget ← text_at "budget_digest" fs
  principal ← text_at "principal_digest" fs
  amount ← count_at "units" fs
  state_value ← text_at "state" fs
  s ← member reservation_text reservation_states state_value
  make_reservation (record {
    reservation_digest = reservation;
    budget_digest = budget;
    principal_digest = principal;
    units = amount;
    state = s;
  })

module _ (py : Python) where
  -- `_manifest_from_value`
  unfoldable pub manifest_from_value : Json → Result Fault GenerationManifest
  manifest_from_value value = do
    fs ← as_fields manifest_keys value
    provider ← text_at "embedding_provider" fs
    model ← text_at "embedding_model" fs
    version ← text_at "embedding_version" fs
    dimensions ← count_at "embedding_dimensions" fs
    descriptor ← make_embedding py provider model version dimensions
    corpus_version ← text_at "corpus_version" fs
    chunker_version ← text_at "chunker_version" fs
    corpus ← make_corpus py corpus_version chunker_version descriptor
    chunk_value ← item "chunk_ids" fs
    chunk_ids ← as_texts chunk_value
    symbol ← text_at "symbol" fs
    accession ← text_at "accession_number" fs
    generation ← text_at "generation_id" fs
    content ← text_at "content_hash" fs
    make_manifest py corpus symbol accession generation content chunk_ids

  unfoldable pub decode_verification : Json → Result Fault (Option GenerationVerification)
  decode_verification null = ok none
  decode_verification (obj fs) = do
    checked ← as_fields verification_keys (obj fs)
    generation ← text_at "generation_id" checked
    count ← count_at "point_count" checked
    hash ← text_at "point_ids_hash" checked
    v ← make_verification py generation count hash
    ok (some v)
  decode_verification _ = err value_error

  unfoldable pub decode_stage_fields : Fields → Result Fault GenerationStageRecord
  unfolding member state_text
  decode_stage_fields fs = do
    manifest_json ← item "manifest" fs
    m ← manifest_from_value manifest_json
    verification_json ← item "verification" fs
    v ← decode_verification verification_json
    state_value ← text_at "state" fs
    s ← member state_text generation_states state_value
    make_stage py (record { manifest = m; state = s; verification = v })

  unfoldable pub decode_cleanup_fields : Fields → Result Fault SupersededCleanupRecord
  unfolding member cleanup_text
  decode_cleanup_fields fs = do
    manifest_json ← item "superseded_manifest" fs
    m ← manifest_from_value manifest_json
    active ← text_at "active_generation_id" fs
    state_value ← text_at "state" fs
    s ← member cleanup_text cleanup_states state_value
    make_cleanup (record { superseded_manifest = m; active_generation_id = active; state = s })

module _ (lib : JsonLibrary) where
  unfoldable pub checkpoint_from_json : Text → Result Fault IngestionCheckpoint
  checkpoint_from_json raw = do
    fs ← load_record lib raw checkpoint_keys
    decode_checkpoint_fields fs

  unfoldable pub claim_from_json : Text → Result Fault IngestionRetryClaim
  claim_from_json raw = do fs ← load_record lib raw claim_keys; decode_claim_fields fs

  unfoldable pub result_from_json : Text → Result Fault IngestionRetryResult
  result_from_json raw = do fs ← load_record lib raw result_keys; decode_result_fields fs

  unfoldable pub reservation_from_json : Text → Result Fault Reservation
  reservation_from_json raw = do
    fs ← load_record lib raw reservation_keys
    decode_reservation_fields fs

  module _ (py : Python) where
    unfoldable pub stage_from_json : Text → Result Fault GenerationStageRecord
    stage_from_json raw = do fs ← load_record lib raw stage_keys; decode_stage_fields py fs

    unfoldable pub cleanup_from_json : Text → Result Fault SupersededCleanupRecord
    cleanup_from_json raw = do fs ← load_record lib raw cleanup_keys; decode_cleanup_fields py fs
