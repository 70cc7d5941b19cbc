-- ===== src/Research/Records/RoundTrip.antt =====
-- `from_json` reads back what `to_json` writes, for every record that its constructor accepts.
use marketview.Research.Domain.Normal.{IsManifest, IsVerification}
use marketview.Research.Domain.{GenerationVerification, GenerationManifest}
use marketview.Research.Python.{Python}
use marketview.Base.Result.{ok}
use marketview.Research.Records.{
  ReservationState, FailureStage, GenerationState, CleanupState, IngestionCheckpoint, RetryState,
  make_checkpoint, staged, pending, succeeded, authorized, sec_fetch, published, failed, committed,
  parsing_chunking, aborted, released, vector_staging, vector_verification, redis_publication,
  cleanup, checkpointing, Reservation, IngestionRetryClaim, IngestionRetryResult, make_claim,
  make_reservation, make_result, SupersededCleanupRecord, GenerationStageRecord, make_cleanup,
  make_stage,
}
use marketview.Research.Records.Decode.{
  checkpoint_from_json, decode_checkpoint_fields, decode_failure, result_from_json, claim_from_json,
  reservation_from_json, stage_from_json, decode_verification, manifest_from_value,
  cleanup_from_json, decode_claim_fields, decode_reservation_fields, decode_result_fields,
  decode_stage_fields, decode_cleanup_fields,
}
use marketview.Research.Records.Codec.{
  member, failure_stage_text, reservation_text, state_text, cleanup_text, retry_text,
  checkpoint_value, retry_states, reservation_states, cleanup_states, generation_states,
  failure_stages, reservation_value, claim_value, failure_value, result_value, stage_value,
  cleanup_value, verification_value, manifest_value,
}
use marketview.Research.Json.{
  JsonLibrary, Json, load_record, as_fields, has_schema, has_key, keys_within, item, as_text,
  as_count, as_bool, as_texts, as_optional_text-optional_text, texts_of-items_of,
}
use marketview.Base.{◌≡◌, refl, none, some, List-decides, Option}
use native.Mathlib.Decide.{ℕ_discrete}

member-state_text :
    (s : GenerationState) → member state_text generation_states (state_text s) ≡ ok s
unfolding member state_text List-decides ℕ_discrete
member-state_text staged = refl
member-state_text GenerationState.verified = refl
member-state_text published = refl
member-state_text aborted = refl
member-state_text GenerationState.cleaned = refl

member-cleanup_text :
    (s : CleanupState) → member cleanup_text cleanup_states (cleanup_text s) ≡ ok s
unfolding member cleanup_text List-decides ℕ_discrete
member-cleanup_text pending = refl
member-cleanup_text CleanupState.cleaned = refl

member-retry_text : (s : RetryState) → member retry_text retry_states (retry_text s) ≡ ok s
unfolding member retry_text List-decides ℕ_discrete
member-retry_text succeeded = refl
member-retry_text failed = refl

member-reservation_text :
    (s : ReservationState) → member reservation_text reservation_states (reservation_text s) ≡ ok s
unfolding member reservation_text List-decides ℕ_discrete
member-reservation_text authorized = refl
member-reservation_text committed = refl
member-reservation_text released = refl

member-failure_stage_text :
    (s : FailureStage) → member failure_stage_text failure_stages (failure_stage_text s) ≡ ok s
unfolding member failure_stage_text List-decides ℕ_discrete
member-failure_stage_text sec_fetch = refl
member-failure_stage_text parsing_chunking = refl
member-failure_stage_text FailureStage.embedding = refl
member-failure_stage_text vector_staging = refl
member-failure_stage_text vector_verification = refl
member-failure_stage_text redis_publication = refl
member-failure_stage_text cleanup = refl
member-failure_stage_text checkpointing = refl

-- The JSON library reads back the value `v` that it wrote.
abbrev pub Reads : JsonLibrary → Json → Type 0
Reads lib v = lib.loads (lib.dumps v) ≡ some v

decode_failure-failure_value : (s : Option FailureStage) → decode_failure (failure_value s) ≡ ok s
unfolding decode_failure failure_value
decode_failure-failure_value none = refl
decode_failure-failure_value (some s) = rw (member-failure_stage_text s)

-- What a round trip computes with: the reading of fields.
reading : Unit {0}
unfolding load_record as_fields has_schema has_key keys_within item as_text as_count as_bool
    as_texts
reading = tt

module _ (lib : JsonLibrary) where
  -- A checkpoint that its constructor accepts is read back from its own JSON text, where the JSON
  -- library loads what it dumped for it.
  pub checkpoint_from_json-checkpoint_value :
      (r : IngestionCheckpoint)
      → make_checkpoint r ≡ ok r
      → Reads lib (checkpoint_value r)
      → checkpoint_from_json lib (lib.dumps (checkpoint_value r)) ≡ ok r
  unfolding reading checkpoint_from_json checkpoint_value decode_checkpoint_fields
  checkpoint_from_json-checkpoint_value r valid h =
      rw (h, load_record, as_optional_text-optional_text) valid

  -- A retry claim that its constructor accepts is read back from its own JSON text, where the JSON
  -- library loads what it dumped for it.
  pub claim_from_json-claim_value :
      (r : IngestionRetryClaim)
      → make_claim r ≡ ok r
      → Reads lib (claim_value r)
      → claim_from_json lib (lib.dumps (claim_value r)) ≡ ok r
  unfolding reading claim_from_json claim_value decode_claim_fields
  claim_from_json-claim_value r valid h = rw (h, load_record) valid

  -- A retry result that its constructor accepts is read back from its own JSON text, where the JSON
  -- library loads what it dumped for it.
  pub result_from_json-result_value :
      (r : IngestionRetryResult)
      → make_result r ≡ ok r
      → Reads lib (result_value r)
      → result_from_json lib (lib.dumps (result_value r)) ≡ ok r
  unfolding reading result_from_json result_value decode_result_fields
  result_from_json-result_value r valid h =
      rw (h, load_record, member-retry_text, decode_failure-failure_value) valid

  -- A reservation that its constructor accepts is read back from its own JSON text, where the JSON
  -- library loads what it dumped for it.
  pub reservation_from_json-reservation_value :
      (r : Reservation)
      → make_reservation r ≡ ok r
      → Reads lib (reservation_value r)
      → reservation_from_json lib (lib.dumps (reservation_value r)) ≡ ok r
  unfolding reading reservation_from_json reservation_value decode_reservation_fields
  reservation_from_json-reservation_value r valid h =
      rw (h, load_record, member-reservation_text) valid

  module _ (py : Python) where
    manifest_from_value-manifest_value :
        (m : GenerationManifest)
        → IsManifest py m
        → manifest_from_value py (manifest_value m) ≡ ok m
    unfolding reading manifest_from_value manifest_value
    manifest_from_value-manifest_value m valid =
        rw (valid.embedding, valid.corpus, texts_of-items_of) valid.manifest

    decode_verification-verification_value :
        (v : Option GenerationVerification)
        → IsVerification py v
        → decode_verification py (verification_value v) ≡ ok v
    unfolding reading decode_verification verification_value
    decode_verification-verification_value none valid = refl
    decode_verification-verification_value (some v) valid = rw valid

    -- A generation's lifecycle record is read back from its own JSON text, if its manifest and its proof
    -- are ones that their constructors return, the record is one that its constructor accepts, and the
    -- JSON library loads what it dumped for it.
    pub stage_from_json-stage_value :
        (r : GenerationStageRecord)
        → IsManifest py r.manifest
        → IsVerification py r.verification
        → make_stage py r ≡ ok r
        → Reads lib (stage_value r)
        → stage_from_json lib py (lib.dumps (stage_value r)) ≡ ok r
    unfolding reading stage_from_json stage_value decode_stage_fields
    stage_from_json-stage_value r m v valid h =
        rw
          (
            h,
            load_record,
            manifest_from_value-manifest_value r.manifest m,
            decode_verification-verification_value r.verification v,
            member-state_text,
          )
          valid

    -- The record of a superseded generation is read back from its own JSON text, if its manifest is one
    -- that its constructor returns, the record is one that its constructor accepts, and the JSON library
    -- loads what it dumped for it.
    pub cleanup_from_json-cleanup_value :
        (r : SupersededCleanupRecord)
        → IsManifest py r.superseded_manifest
        → make_cleanup r ≡ ok r
        → Reads lib (cleanup_value r)
        → cleanup_from_json lib py (lib.dumps (cleanup_value r)) ≡ ok r
    unfolding reading cleanup_from_json cleanup_value decode_cleanup_fields
    cleanup_from_json-cleanup_value r m valid h =
        rw
          (
            h,
            load_record,
            manifest_from_value-manifest_value r.superseded_manifest m,
            member-cleanup_text,
          )
          valid
