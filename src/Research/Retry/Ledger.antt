-- ===== src/Research/Retry/Ledger.antt =====
-- What an accepted second-attempt snapshot says of the ledger that it extends.
use marketview.Research.Records.{vector_verification, FailureStage}
use marketview.Base.Result.{ok, Result-cases}
use marketview.Research.Python.{Python}
use marketview.Research.Json.{JsonLibrary}
use marketview.Research.Retry.{
  AttemptTwoClaim, AttemptTwoSnapshot, check_claim, checkpoint_digest_of, claim_digest_of,
  make_attempt_two_snapshot, make_snapshot, result_digest_of, IngestionRetrySnapshot,
  is_vector_verification,
}
use marketview.Base.{◌≡◌, true, some, inl, inr, ◌≢◌, eqb, arith, Option}

module _ (lib : JsonLibrary) (py : Python) where
  -- The links between the records of an accepted snapshot whose second claim is there.
  pub record IsLinked (s : AttemptTwoSnapshot) (c : AttemptTwoClaim) : Type 0 where
    pub job_checkpoint : c.job_digest ≡ s.checkpoint.job_digest
    pub job_claim : s.first_claim.job_digest ≡ s.checkpoint.job_digest
    pub job_result : s.first_result.job_digest ≡ s.checkpoint.job_digest
    pub first_attempt : s.first_result.attempt_digest ≡ s.first_claim.attempt_digest
    pub new_attempt : c.attempt_digest ≢ s.first_claim.attempt_digest
    pub cursor : s.checkpoint.cursor_digest ≡ some c.cursor_digest
    pub first_claim_links :
        s.first_claim.checkpoint_digest ≡ checkpoint_digest_of lib py s.checkpoint
    pub links_checkpoint : c.checkpoint_digest ≡ checkpoint_digest_of lib py s.checkpoint
    pub links_claim : c.first_claim_digest ≡ claim_digest_of lib py s.first_claim
    pub links_result : c.first_result_digest ≡ result_digest_of lib py s.first_result
    pub only_failure : s.checkpoint.failed_count ≡ 1
    pub failed_stage : s.first_result.failure_stage ≡ some vector_verification

  -- The first retry's records, as the second snapshot checks them.
  abbrev first_retry : AttemptTwoSnapshot → IngestionRetrySnapshot
  first_retry s = record {
    checkpoint = some s.checkpoint;
    claim = some s.first_claim;
    result = some s.first_result;
  }

  snapshot_checks :
      (s : AttemptTwoSnapshot)
      → make_attempt_two_snapshot lib py s ≡ ok s
      → (t : IngestionRetrySnapshot) × (make_snapshot lib py (first_retry s) ≡ ok t)
  unfolding make_attempt_two_snapshot
  snapshot_checks s h = elim (Result-cases (make_snapshot lib py (first_retry s))) [
    | inl (t, e) ↦ (t, e)
    | inr (f, e) ↦ ground arith
  ]

  snapshot_eligible :
      (s : AttemptTwoSnapshot)
      → make_attempt_two_snapshot lib py s ≡ ok s
      → (eqb s.checkpoint.failed_count 1 ≡ true)
        × (is_vector_verification s.first_result.failure_stage ≡ true)
  unfolding make_attempt_two_snapshot
  snapshot_eligible s h = let (t, e) = snapshot_checks s h in (ground arith, ground arith)

  snapshot_claims :
      (s : AttemptTwoSnapshot) (c : AttemptTwoClaim)
      → make_attempt_two_snapshot lib py s ≡ ok s
      → s.claim ≡ some c
      → check_claim lib py s c ≡ ok tt
  unfolding make_attempt_two_snapshot
  snapshot_claims s c h e =
      let (t, k) = snapshot_checks s h in
      elim (Result-cases (check_claim lib py s c)) [ inl (_, r) ↦ r | inr (f, r) ↦ ground arith ]

  is_vector_verification-eq :
      (f : Option FailureStage) → is_vector_verification f ≡ true → f ≡ some vector_verification
  is_vector_verification-eq f h = ground arith

  -- An accepted snapshot with a second claim is linked: all its records are of one job, the first
  -- claim names the checkpoint, the second claim names the checkpoint, the first claim and the first
  -- result by the digests of their JSON, its attempt is a new one, and the first retry failed at
  -- the verification of the vectors.
  pub make_attempt_two_snapshot-IsLinked :
      (s : AttemptTwoSnapshot) (c : AttemptTwoClaim)
      → make_attempt_two_snapshot lib py s ≡ ok s
      → s.claim ≡ some c
      → IsLinked s c
  unfolding make_snapshot check_claim
  make_attempt_two_snapshot-IsLinked s c h e =
      let (t, k) = snapshot_checks s h in
      let (n, v) = snapshot_eligible s h in
      let l = snapshot_claims s c h e in
      record {
        job_checkpoint = ground arith;
        job_claim = ground arith;
        job_result = ground arith;
        first_attempt = ground arith;
        new_attempt = λ same. ground arith;
        cursor = ground arith;
        first_claim_links = ground arith;
        links_checkpoint = ground arith;
        links_claim = ground arith;
        links_result = ground arith;
        only_failure = ground arith;
        failed_stage = is_vector_verification-eq s.first_result.failure_stage v;
      }
