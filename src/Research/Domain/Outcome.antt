-- ===== src/Research/Domain/Outcome.antt =====
-- `GenerationVerificationOutcome` (app/research/domain.py): which outcomes its constructor accepts,
-- and what an outcome proves.
use marketview.Base.Result.{Result, err, ok, raise_if, ◌>>◌}
use marketview.Research.Python.{Python}
use marketview.Research.Domain.{
  GenerationManifest, GenerationVerification, VerificationOutcome, VerificationReason,
  missing_points, partial_visibility, proves, verified,
}
use marketview.Research.Deadline.{Fault, value_error}
use marketview.Base.{true, false, none, some, ◌&&◌, ◌+◌, Bool, Option, eqb, leb, ltb, not, ◌||◌, ℕ}

abbrev pub is_missing : VerificationReason → Bool
is_missing missing_points = true
is_missing _ = false

abbrev pub is_partial : VerificationReason → Bool
is_partial partial_visibility = true
is_partial _ = false

-- The test of the proof against the reason and the counts.
abbrev pub check_proof :
    VerificationReason → ℕ → ℕ → ℕ → Option GenerationVerification → Result Fault (Unit {0})
check_proof verified expected observed nulls none = err value_error
check_proof verified expected observed nulls (some v) =
    raise_if (not (eqb observed expected) || not (eqb nulls 0) || not (eqb v.point_count expected))
      value_error
check_proof _ expected observed nulls none = ok tt
check_proof _ expected observed nulls (some _) = err value_error

-- `GenerationVerificationOutcome.__post_init__`, on counts that are never negative.
unfoldable pub make_outcome : VerificationOutcome → Result Fault VerificationOutcome
make_outcome o = do
  raise_if (ltb o.expected_point_count 1) value_error
  raise_if (ltb o.expected_point_count o.observed_point_count) value_error
  raise_if
      (ltb o.expected_point_count o.null_point_count
        || ltb o.expected_point_count (o.observed_point_count + o.null_point_count))
      value_error
  raise_if (not (leb 1 o.attempt_count && leb o.attempt_count 4)) value_error
  check_proof o.reason o.expected_point_count o.observed_point_count o.null_point_count
      o.verification
  raise_if (is_missing o.reason && not (eqb o.observed_point_count 0)) value_error
  raise_if
      (is_partial o.reason
        && not (ltb 0 o.observed_point_count && ltb o.observed_point_count o.expected_point_count))
      value_error
  ok o

-- `GenerationVerificationOutcome.verified`
unfoldable pub verified_outcome : GenerationVerification → ℕ → ℕ → Result Fault VerificationOutcome
unfolding make_outcome
verified_outcome v expected attempts = make_outcome (record {
  reason = verified;
  expected_point_count = expected;
  observed_point_count = expected;
  null_point_count = 0;
  attempt_count = attempts;
  verification = some v;
})

abbrev pub is_verified : VerificationReason → Bool
is_verified verified = true
is_verified _ = false

-- `GenerationVerificationOutcome.failed`
unfoldable pub failed_outcome :
    VerificationReason → ℕ → ℕ → ℕ → ℕ → Result Fault VerificationOutcome
unfolding make_outcome
failed_outcome reason expected observed nulls attempts = do
  raise_if (is_verified reason) value_error
  make_outcome (record {
    reason = reason;
    expected_point_count = expected;
    observed_point_count = observed;
    null_point_count = nulls;
    attempt_count = attempts;
    verification = none;
  })

-- `GenerationVerificationOutcome.proves`
unfoldable pub outcome_proves :
    Python → VerificationOutcome → GenerationManifest → Result Fault Bool
unfolding proves
outcome_proves py o m = elim o.verification [ none ↦ ok false | some v ↦ proves py v m ]
