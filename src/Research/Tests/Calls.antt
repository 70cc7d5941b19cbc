-- ===== src/Research/Tests/Calls.antt =====
-- The control plane, the deadlines and the vector store on one sample generation.
use marketview.Research.Vectors.Inspection.{is_embedded, stage_generation-inspects}
use marketview.Research.Vectors.Staging.{
  delete_generation-other, stage_generation-immutable, stage_generation-verifies,
}
use marketview.Research.Domain.{GenerationVerification, VerificationOutcome}
use marketview.Research.Domain.Outcome.{outcome_proves}
use marketview.Research.Deadline.{raise_if_expired, child, child_bounds}
use marketview.Research.Plane.Publishing.{publish_generation-unchanged, publish_generation-swaps}
use marketview.Base.Result.{ok}
use marketview.Research.Domain.Proofs.{exact_proof, proves-exact_proof}
use marketview.Research.Python.{canonical_digest, replicate}
use marketview.Research.Tests.{
  ascii, ascii-IsPython, sample_deadline, sample_manifest, sample_manifest-IsCanonical,
  sample_corpus, sample_evidence, sample_embedding,
}
use marketview.Research.Plane.{
  accession_digest, commit_publication, get_active_generation, owns, publish_generation,
  record_cleanup, is_in, is_of,
}
use marketview.Base.Texts.{Text}
use marketview.Research.Plane.State.{Plane, empty_plane, generation_of}
use marketview.Research.Plane.Soundness.{
  IsSound, acquire_call, after_all, after_all-IsSound, stage_call,
}
use marketview.Research.Records.{
  AccessionLease, GenerationStageRecord, GenerationState, has_proof, make_stage, published,
  with_state, GenerationStageRecord-Eq,
}
use marketview.Research.Vectors.{
  stage_generation, delete_generation, belongs, find_generation, EmbeddedChunk, validate_generation,
  Entry, point_ids, verify_generation, inspect_generation, exact,
}
use native.Mathlib.Decide.{ℕ_discrete}
use marketview.Base.{
  Option-decides, differs_refl, ◌≡◌, refl, [], ◌∷◌, true, none, some, inl, arith, List-decides,
  ==_refl, first, if◌then◌else◌, ◌<◌, ◌≤◌, ◌⊎◌, ◌==◌, ◌+◌, ℕ-Eq, List-Eq,
}

abbrev owner : Text
owner = replicate 64 100

pub empty_plane-IsSound : IsSound ascii empty_plane
empty_plane-IsSound = record {
  accepted = tt;
  one_stage = λ g. omega arith;
  one_active = λ c s a. omega arith;
  one_lease = λ a. omega arith;
}

abbrev sample_lease : AccessionLease
sample_lease = record { accession_digest = replicate 64 48; owner_digest = owner }

after_all-IsSound_example : IsSound ascii (
    after_all ascii
      (acquire_call sample_manifest owner 60 sample_deadline 5
        ∷ stage_call sample_lease sample_manifest sample_deadline 6
        ∷ [])
      empty_plane)
after_all-IsSound_example =
    after_all-IsSound ascii
      (acquire_call sample_manifest owner 60 sample_deadline 5
        ∷ stage_call sample_lease sample_manifest sample_deadline 6
        ∷ [])
      empty_plane empty_plane-IsSound

abbrev sample_verification : GenerationVerification
sample_verification = record {
  generation_id = sample_manifest.generation_id;
  point_count = 1;
  point_ids_hash = replicate 64 48;
}

-- The sample's record once it is verified.
abbrev verified_stage : GenerationStageRecord
verified_stage = record {
  manifest = sample_manifest;
  verification = some (record {
    generation_id = sample_manifest.generation_id;
    point_count = 1;
    point_ids_hash = replicate 64 48;
  });
  state = GenerationState.verified;
}

abbrev verified_plane : Plane
verified_plane = record {
  active = [];
  leases = sample_lease ∷ [];
  stages = verified_stage ∷ [];
  pending_cleanups = [];
}

published_ok :
    make_stage ascii (record verified_stage { state = published })
    ≡ ok (record verified_stage { state = published })
unfolding make_stage has_proof exact_proof canonical_digest
published_ok =
    rw
      (
        proves-exact_proof ascii ascii-IsPython sample_verification sample_manifest
            sample_manifest-IsCanonical,
        ==_refl sample_verification,
      )
      refl

abbrev digest_zeros : Text
digest_zeros = replicate 64 48

sample_owns : owns ascii sample_lease sample_manifest verified_plane ≡ true
unfolding owns accession_digest
sample_owns = rw (==_refl sample_lease, ==_refl digest_zeros) refl

sample_commits :
    (commit_publication ascii verified_stage sample_manifest none verified_plane).0 ≡ ok true
unfolding commit_publication record_cleanup with_state
sample_commits = rw (published_ok) refl

publish_sample :
    (publish_generation ascii sample_lease verified_stage none sample_manifest none sample_deadline
      5 6 verified_plane).0
    ≡ ok true
unfolding publish_generation raise_if_expired get_active_generation List-decides Option-decides
    commit_publication
publish_sample =
    rw (sample_owns, differs_refl sample_manifest, ==_refl verified_stage) sample_commits

publish_generation-swaps_example :
    (owns ascii sample_lease sample_manifest verified_plane ≡ true)
    × (verified_stage.manifest ≡ sample_manifest)
    × (verified_stage.state ≡ GenerationState.verified)
    × (is_in verified_stage verified_plane.stages ≡ true)
    × (generation_of (
          first
            (is_of sample_corpus sample_manifest.symbol sample_manifest.accession_number)
            verified_plane.active)
        ≡ none)
    × (first
          (is_of sample_corpus sample_manifest.symbol sample_manifest.accession_number)
          (publish_generation ascii sample_lease verified_stage none sample_manifest none
            sample_deadline 5 6 verified_plane).1.active
        ≡ (if is_of sample_corpus sample_manifest.symbol sample_manifest.accession_number
              sample_manifest
            then some sample_manifest
            else first
                (is_of sample_corpus sample_manifest.symbol sample_manifest.accession_number)
                verified_plane.active))
publish_generation-swaps_example =
    publish_generation-swaps ascii sample_lease verified_stage none sample_manifest none
      sample_deadline 5 6 verified_plane sample_corpus sample_manifest.symbol
      sample_manifest.accession_number publish_sample

publish_generation-unchanged_example :
    (publish_generation ascii sample_lease verified_stage none sample_manifest none sample_deadline
      5 6 empty_plane).1
    ≡ empty_plane
unfolding publish_generation raise_if_expired owns
publish_generation-unchanged_example =
    publish_generation-unchanged ascii sample_lease verified_stage none sample_manifest none
      sample_deadline 5 6 empty_plane (inl refl)

child_of_sample : child sample_deadline 24 5 6 ≡ ok (record { expires_at = 30 })
unfolding child raise_if_expired
child_of_sample = refl

child_bounds_example : (5 < 100) × (30 ≤ 100) × (30 ≤ 6 + 24)
child_bounds_example =
    child_bounds sample_deadline (record { expires_at = 30 }) 24 5 6 child_of_sample

abbrev sample_chunk : EmbeddedChunk
sample_chunk = record {
  evidence = sample_evidence;
  embedding = record { descriptor = sample_embedding; values = 3 ∷ 4 ∷ [] };
}

sample_belongs : belongs sample_manifest sample_chunk ≡ true
sample_belongs =
    rw
      (
        ==_refl sample_corpus,
        ==_refl sample_manifest.symbol,
        ==_refl sample_manifest.accession_number,
        ==_refl sample_manifest.generation_id,
        ==_refl sample_manifest.content_hash,
      )
      refl

sample_validates : validate_generation sample_manifest (sample_chunk ∷ []) ≡ ok tt
unfolding validate_generation point_ids
sample_validates = rw (sample_belongs, differs_refl sample_manifest.chunk_ids) refl

abbrev sample_entry : Entry
sample_entry = record { manifest = sample_manifest; chunks = sample_chunk ∷ [] }

stage_sample :
    stage_generation sample_manifest (sample_chunk ∷ []) sample_deadline 5 []
    ≡ ok (sample_entry ∷ [])
unfolding stage_generation raise_if_expired find_generation
stage_sample = rw (sample_validates) refl

delete_sample : delete_generation sample_manifest sample_deadline 5 (sample_entry ∷ []) ≡ ok []
unfolding delete_generation raise_if_expired List-decides ℕ_discrete
delete_sample = refl

stage_generation-immutable_example :
    ((find_generation sample_manifest.generation_id [] ≡ none)
      ⊎ (find_generation sample_manifest.generation_id [] ≡ some sample_entry))
    × (find_generation sample_manifest.generation_id (sample_entry ∷ []) ≡ (
        if sample_manifest.generation_id == sample_manifest.generation_id
        then some sample_entry
        else find_generation sample_manifest.generation_id []))
stage_generation-immutable_example =
    stage_generation-immutable sample_manifest (sample_chunk ∷ []) sample_deadline 5 []
      (sample_entry ∷ []) sample_manifest.generation_id stage_sample

delete_generation-other_example : find_generation sample_manifest.generation_id [] ≡ (
    if sample_manifest.generation_id == sample_manifest.generation_id
    then none
    else find_generation sample_manifest.generation_id (sample_entry ∷ []))
delete_generation-other_example =
    delete_generation-other sample_manifest sample_deadline 5 (sample_entry ∷ []) []
      sample_manifest.generation_id delete_sample

stage_generation-verifies_example :
    (o : VerificationOutcome) × ((verify_generation ascii sample_manifest sample_deadline 9
          (sample_entry ∷ [])
        ≡ ok o)
      × (outcome_proves ascii o sample_manifest ≡ ok true))
stage_generation-verifies_example =
    stage_generation-verifies ascii ascii-IsPython sample_manifest (sample_chunk ∷ [])
      sample_deadline sample_deadline 5 9 [] (sample_entry ∷ []) sample_manifest-IsCanonical
      stage_sample (omega arith)

sample_embedded : is_embedded sample_manifest (sample_chunk ∷ []) ≡ true
sample_embedded = rw (==_refl sample_embedding) refl

stage_generation-inspects_example :
    inspect_generation sample_manifest sample_deadline 9 (sample_entry ∷ [])
    ≡ ok (record { state = exact; expected_point_count = 1; observed_point_count = 1 })
stage_generation-inspects_example =
    stage_generation-inspects ascii sample_manifest (sample_chunk ∷ []) sample_deadline
      sample_deadline 5 9 [] (sample_entry ∷ []) sample_manifest-IsCanonical sample_embedded
      (omega arith) stage_sample (omega arith)
