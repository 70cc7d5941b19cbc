-- ===== src/Research/Tests/Ledgers.antt =====
-- The control records on sample values, in JSON texts that a small library of texts knows.
use native.Mathlib.Decide.{ℕ_discrete}
use marketview.Base.Result.{ok}
use marketview.Research.Domain.{
  make_manifest, proves, GenerationVerification-Eq, VerificationReason, VerificationOutcome,
}
use marketview.Research.Domain.Outcome.{make_outcome, outcome_proves}
use marketview.Research.Python.{is_digest, is_generation_id, replicate, canonical_digest}
use marketview.Research.Domain.Proofs.{
  exact_proof, make_manifest-of_IsCanonical, proves-exact_proof, outcome_proves-verified,
}
use marketview.Research.Records.Codec.{
  checkpoint_value, claim_value, cleanup_value, reservation_value, result_value, stage_value,
}
use marketview.Research.Records.RoundTrip.{
  result_from_json-result_value, checkpoint_from_json-checkpoint_value, claim_from_json-claim_value,
  cleanup_from_json-cleanup_value, reservation_from_json-reservation_value,
  stage_from_json-stage_value,
}
use marketview.Research.Records.Decode.{
  result_from_json, checkpoint_from_json, claim_from_json, cleanup_from_json, reservation_from_json,
  stage_from_json,
}
use marketview.Research.Tests.{
  ascii, ascii-IsPython, sample_corpus, sample_manifest, sample_manifest-IsCanonical,
  sample_manifest-IsManifest,
}
use marketview.Base.Texts.{Text, codes}
use marketview.Research.Records.{
  GenerationStageRecord, IngestionCheckpoint, IngestionRetryClaim, IngestionRetryResult,
  Reservation, SupersededCleanupRecord, authorized, failed, make_checkpoint, make_claim,
  make_cleanup, make_reservation, make_result, make_stage, pending, require_public_digest, staged,
  vector_verification,
}
use marketview.Research.Json.{Fields, Json, JsonLibrary, end, field, obj}
use marketview.Research.Retry.Binding.{
  Collision, IsStored, attempt_two-binds, attempt_two_from_json-attempt_two_value,
}
use marketview.Research.Retry.{
  AttemptTwoClaim, AttemptTwoSnapshot, attempt_two_from_json, attempt_two_value, check_claim,
  checkpoint_digest_of, claim_digest_of, make_attempt_two_claim, make_attempt_two_snapshot,
  make_snapshot, result_digest_of,
}
use marketview.Base.{
  ◌≡◌, refl, [], ◌∷◌, suc, true, none, some, ◌++◌, ◌==◌, List-decides, Option-decides, ℕ, ◌⊎◌,
  if◌then◌else◌, List-Eq, ℕ-Eq, ◌≤◌, ◌∙◌, ap, ==_refl, length,
}

-- A library that knows one value.
abbrev knows : Json → JsonLibrary
knows v = record { dumps = λ w. codes "{}"; loads = λ t. some v }

abbrev a_digest : Text
a_digest = replicate 64 97

abbrev b_digest : Text
b_digest = replicate 64 98

abbrev zeros : Text
zeros = replicate 64 48

abbrev checkpoint_sample : IngestionCheckpoint
checkpoint_sample = record {
  job_digest = a_digest;
  cursor_digest = some b_digest;
  processed_count = 0;
  failed_count = 1;
  complete = true;
}

abbrev claim_sample : IngestionRetryClaim
claim_sample = record {
  job_digest = a_digest;
  attempt_digest = a_digest;
  checkpoint_digest = zeros;
  cursor_digest = b_digest;
}

abbrev result_sample : IngestionRetryResult
result_sample = record {
  job_digest = a_digest;
  attempt_digest = a_digest;
  state = failed;
  failure_stage = some vector_verification;
  inserted_count = 0;
  removed_count = 0;
}

abbrev reservation_sample : Reservation
reservation_sample = record {
  reservation_digest = a_digest;
  budget_digest = b_digest;
  principal_digest = zeros;
  units = 1;
  state = authorized;
}

abbrev second_sample : AttemptTwoClaim
second_sample = record {
  job_digest = a_digest;
  attempt_digest = b_digest;
  checkpoint_digest = zeros;
  cursor_digest = b_digest;
  first_claim_digest = zeros;
  first_result_digest = zeros;
}

checkpoint_valid : make_checkpoint checkpoint_sample ≡ ok checkpoint_sample
unfolding make_checkpoint is_digest
checkpoint_valid = refl

claim_valid : make_claim claim_sample ≡ ok claim_sample
unfolding make_claim is_digest
claim_valid = refl

result_valid : make_result result_sample ≡ ok result_sample
unfolding make_result is_digest
result_valid = refl

reservation_valid : make_reservation reservation_sample ≡ ok reservation_sample
unfolding make_reservation is_digest
reservation_valid = refl

second_valid : make_attempt_two_claim second_sample ≡ ok second_sample
unfolding make_attempt_two_claim require_public_digest is_digest
second_valid = refl

checkpoint_from_json-checkpoint_value_example :
    checkpoint_from_json (knows (checkpoint_value checkpoint_sample)) (codes "{}")
    ≡ ok checkpoint_sample
checkpoint_from_json-checkpoint_value_example =
    checkpoint_from_json-checkpoint_value (knows (checkpoint_value checkpoint_sample))
      checkpoint_sample checkpoint_valid refl

claim_from_json-claim_value_example :
    claim_from_json (knows (claim_value claim_sample)) (codes "{}") ≡ ok claim_sample
claim_from_json-claim_value_example =
    claim_from_json-claim_value (knows (claim_value claim_sample)) claim_sample claim_valid refl

result_from_json-result_value_example :
    result_from_json (knows (result_value result_sample)) (codes "{}") ≡ ok result_sample
result_from_json-result_value_example =
    result_from_json-result_value (knows (result_value result_sample)) result_sample result_valid
      refl

reservation_from_json-reservation_value_example :
    reservation_from_json (knows (reservation_value reservation_sample)) (codes "{}")
    ≡ ok reservation_sample
reservation_from_json-reservation_value_example =
    reservation_from_json-reservation_value (knows (reservation_value reservation_sample))
      reservation_sample reservation_valid refl

attempt_two_from_json-attempt_two_value_example :
    attempt_two_from_json (knows (attempt_two_value second_sample)) (codes "{}") ≡ ok second_sample
attempt_two_from_json-attempt_two_value_example =
    attempt_two_from_json-attempt_two_value (knows (attempt_two_value second_sample)) second_sample
      second_valid refl

-- A staged record of the sample generation.
abbrev stage_sample : GenerationStageRecord
stage_sample = record { manifest = sample_manifest; verification = none; state = staged }

stage_valid : make_stage ascii stage_sample ≡ ok stage_sample
unfolding make_stage
stage_valid = refl

stage_from_json-stage_value_example :
    stage_from_json (knows (stage_value stage_sample)) ascii (codes "{}") ≡ ok stage_sample
stage_from_json-stage_value_example =
    stage_from_json-stage_value (knows (stage_value stage_sample)) ascii stage_sample
      sample_manifest-IsManifest tt stage_valid refl

abbrev cleanup_sample : SupersededCleanupRecord
cleanup_sample = record {
  superseded_manifest = sample_manifest;
  active_generation_id = codes "gen-" ++ replicate 64 100;
  state = pending;
}

cleanup_valid : make_cleanup cleanup_sample ≡ ok cleanup_sample
unfolding make_cleanup is_generation_id List-decides ℕ_discrete
cleanup_valid = refl

cleanup_from_json-cleanup_value_example :
    cleanup_from_json (knows (cleanup_value cleanup_sample)) ascii (codes "{}") ≡ ok cleanup_sample
cleanup_from_json-cleanup_value_example =
    cleanup_from_json-cleanup_value (knows (cleanup_value cleanup_sample)) ascii cleanup_sample
      sample_manifest-IsManifest cleanup_valid refl

-- A library that tells the three records of a ledger apart by their number of fields.
abbrev fields : Fields → ℕ
fields end = 0
fields (field k v rest) = suc (fields rest)

abbrev numbered : Json → Text
numbered (obj fs) = fields fs ∷ []
numbered _ = []

abbrev ledger_library : JsonLibrary
ledger_library = record {
  dumps = numbered;
  loads = λ t.
      if t == 5 ∷ []
      then some (checkpoint_value checkpoint_sample)
      else if t == 4 ∷ []
      then some (claim_value claim_sample)
      else some (result_value result_sample);
}

abbrev snapshot_sample : AttemptTwoSnapshot
snapshot_sample = record {
  checkpoint = checkpoint_sample;
  first_claim = claim_sample;
  first_result = result_sample;
  claim = some second_sample;
  result = none;
}

snapshot-IsStored : IsStored ledger_library ascii snapshot_sample
unfolding checkpoint_value claim_value result_value List-decides ℕ_discrete
snapshot-IsStored = record {
  checkpoint = checkpoint_valid;
  claim = claim_valid;
  result = result_valid;
  reads_checkpoint = refl;
  reads_claim = refl;
  reads_result = refl;
}

snapshot_valid : make_attempt_two_snapshot ledger_library ascii snapshot_sample ≡ ok snapshot_sample
unfolding make_attempt_two_snapshot make_snapshot check_claim checkpoint_digest_of claim_digest_of
    result_digest_of List-decides ℕ_discrete Option-decides
snapshot_valid = refl

attempt_two-binds_example :
    ((checkpoint_sample ≡ checkpoint_sample)
      × ((claim_sample ≡ claim_sample) × (result_sample ≡ result_sample)))
    ⊎ Collision ascii
attempt_two-binds_example =
    attempt_two-binds ledger_library ascii snapshot_sample snapshot_sample second_sample
      snapshot-IsStored snapshot-IsStored snapshot_valid snapshot_valid refl refl

proves-exact_proof_example :
    proves ascii (exact_proof ascii sample_manifest) sample_manifest
    ≡ ok (exact_proof ascii sample_manifest == exact_proof ascii sample_manifest)
proves-exact_proof_example =
    proves-exact_proof ascii ascii-IsPython (exact_proof ascii sample_manifest) sample_manifest
      sample_manifest-IsCanonical

make_manifest-of_IsCanonical_example :
    make_manifest ascii sample_corpus sample_manifest.symbol sample_manifest.accession_number
      sample_manifest.generation_id sample_manifest.content_hash sample_manifest.chunk_ids
    ≡ ok sample_manifest
make_manifest-of_IsCanonical_example =
    make_manifest-of_IsCanonical ascii ascii-IsPython sample_manifest sample_manifest-IsCanonical

abbrev outcome_sample : VerificationOutcome
outcome_sample = record {
  reason = VerificationReason.verified;
  expected_point_count = 1;
  observed_point_count = 1;
  null_point_count = 0;
  attempt_count = 2;
  verification = some (record {
    generation_id = sample_manifest.generation_id;
    point_count = 1;
    point_ids_hash = zeros;
  });
}

outcome_valid : make_outcome outcome_sample ≡ ok outcome_sample
unfolding make_outcome
outcome_valid = refl

outcome_sample_proves : outcome_proves ascii outcome_sample sample_manifest ≡ ok true
unfolding outcome_proves exact_proof canonical_digest
outcome_sample_proves =
    proves-exact_proof ascii ascii-IsPython (exact_proof ascii sample_manifest) sample_manifest
      sample_manifest-IsCanonical
    ∙ ap ok (==_refl (exact_proof ascii sample_manifest))

outcome_proves-verified_example :
    (outcome_sample.reason ≡ VerificationReason.verified)
    × (outcome_sample.verification ≡ some (exact_proof ascii sample_manifest))
    × (outcome_sample.observed_point_count ≡ length sample_manifest.chunk_ids)
    × (outcome_sample.expected_point_count ≡ length sample_manifest.chunk_ids)
    × (outcome_sample.null_point_count ≡ 0)
    × (1 ≤ 2)
    × (2 ≤ 4)
outcome_proves-verified_example =
    outcome_proves-verified ascii ascii-IsPython outcome_sample sample_manifest
      sample_manifest-IsCanonical outcome_valid outcome_sample_proves
