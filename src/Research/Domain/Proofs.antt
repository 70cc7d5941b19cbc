-- ===== src/Research/Domain/Proofs.antt =====
-- What a manifest's constructor guarantees, and which verification proves it.
use marketview.Base.Texts.{Text}
use marketview.Research.Domain.Normal.{
  require_text-of_is_symbol, require_text-of_is_accession, make_verification-eq,
  require_text-of_is_generation_id, require_text-of_is_digest,
}
use marketview.Base.Result.{ok}
use marketview.Research.Domain.{
  make_manifest, GenerationManifest, from_point_ids, GenerationVerification, proves,
  CorpusDescriptor, VerificationOutcome, distinct, GenerationVerification-Eq, VerificationReason,
}
use marketview.Research.Domain.Outcome.{outcome_proves, make_outcome}
use marketview.Research.Python.Stripping.{IsPython}
use marketview.Research.Python.{
  Python, is_symbol, canonical_digest, is_accession, is_generation_id, join, is_digest, is_chunk_id,
}
use marketview.Base.{
  ◌≡◌, [], ◌∷◌, true, false, some, inl, inr, length, ◌==◌, List, arith, ◌<◌, any, not, ◌≤◌,
  Option-cases,
}

module _ (py : Python) where
  -- What `GenerationManifest.__post_init__` has checked.
  pub record IsCanonical (m : GenerationManifest) : Type 0 where
    pub symbol : is_symbol m.symbol ≡ true
    pub accession : is_accession py m.accession_number ≡ true
    pub generation : is_generation_id m.generation_id ≡ true
    pub content : is_digest m.content_hash ≡ true
    pub nonempty : 0 < length m.chunk_ids
    pub unique : distinct m.chunk_ids ≡ true
    pub chunks : any (λ item. not (is_chunk_id item)) m.chunk_ids ≡ false

  -- The one verification of a manifest: its generation, its number of points, and their digest.
  unfoldable pub exact_proof : GenerationManifest → GenerationVerification
  exact_proof m = record {
    generation_id = m.generation_id;
    point_count = length m.chunk_ids;
    point_ids_hash = canonical_digest py m.chunk_ids;
  }

  -- Every manifest that the constructor returns is canonical.
  pub make_manifest-IsCanonical :
      (corpus : CorpusDescriptor) (symbol accession generation content : Text)
      (chunk_ids : List Text) {m : GenerationManifest}
      → make_manifest py corpus symbol accession generation content chunk_ids ≡ ok m
      → IsCanonical m
  unfolding make_manifest
  make_manifest-IsCanonical corpus symbol accession generation content chunk_ids h = ground arith

  module _ (laws : IsPython py) where
    -- The constructor of a manifest accepts every canonical manifest's parts and returns the manifest
    -- unchanged: no field is normalised away.
    pub make_manifest-of_IsCanonical :
        (m : GenerationManifest)
        → IsCanonical m
        → make_manifest py m.corpus m.symbol m.accession_number m.generation_id m.content_hash
            m.chunk_ids
          ≡ ok m
    unfolding make_manifest
    make_manifest-of_IsCanonical m c =
        rw
          (
            require_text-of_is_symbol py laws m.symbol c.symbol,
            require_text-of_is_accession py laws m.accession_number c.accession,
            require_text-of_is_generation_id py laws m.generation_id c.generation,
            require_text-of_is_digest py laws m.content_hash c.content,
            laws.upper-is_symbol m.symbol c.symbol,
          )
          (ground arith)

    -- A canonical manifest has a verification: `from_point_ids` computes the exact one.
    pub from_point_ids-exact_proof :
        (m : GenerationManifest)
        → IsCanonical m
        → from_point_ids py m.generation_id m.chunk_ids ≡ ok (exact_proof m)
    unfolding from_point_ids exact_proof canonical_digest
    from_point_ids-exact_proof m c =
        rw
          (make_verification-eq py laws m.generation_id (length m.chunk_ids)
            (py.sha256 (join (31 ∷ []) m.chunk_ids)) c.generation c.nonempty
            (laws.sha256-is_digest _))
          (ground arith)

    -- `proves` never raises on a canonical manifest, and answers whether the verification is the
    -- exact one.
    pub proves-exact_proof :
        (v : GenerationVerification) (m : GenerationManifest)
        → IsCanonical m
        → proves py v m ≡ ok (v == exact_proof m)
    unfolding proves
    proves-exact_proof v m c = rw (from_point_ids-exact_proof m c)

    proven :
        (v : GenerationVerification) (m : GenerationManifest)
        → IsCanonical m
        → proves py v m ≡ ok true
        → v ≡ exact_proof m
    proven v m c h = ground (arith, proves-exact_proof v m c)

    checked :
        (o : VerificationOutcome) (v : GenerationVerification)
        → o.verification ≡ some v
        → make_outcome o ≡ ok o
        → (o.reason ≡ VerificationReason.verified)
          × (o.observed_point_count ≡ v.point_count)
          × (o.expected_point_count ≡ v.point_count)
          × (o.null_point_count ≡ 0)
          × (1 ≤ o.attempt_count)
          × (o.attempt_count ≤ 4)
    unfolding make_outcome
    checked o v e h = ground arith

    -- An outcome that its constructor accepts and that proves a canonical manifest is a verified one
    -- that observed exactly the manifest's points, none of them null, within four attempts.
    pub outcome_proves-verified :
        (o : VerificationOutcome) (m : GenerationManifest)
        → IsCanonical m
        → make_outcome o ≡ ok o
        → outcome_proves py o m ≡ ok true
        → (o.reason ≡ VerificationReason.verified)
          × (o.verification ≡ some (exact_proof m))
          × (o.observed_point_count ≡ length m.chunk_ids)
          × (o.expected_point_count ≡ length m.chunk_ids)
          × (o.null_point_count ≡ 0)
          × (1 ≤ o.attempt_count)
          × (o.attempt_count ≤ 4)
    unfolding outcome_proves exact_proof
    outcome_proves-verified o m c valid h = elim (Option-cases o.verification) [
      | inl absent ↦ ground arith
      | inr (v, e) ↦
          let exact : v ≡ exact_proof m = proven v m c (ground arith) in
          ground (arith, checked o v e valid)
    ]
