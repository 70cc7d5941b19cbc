-- ===== src/Research/Plane/Soundness.antt =====
-- The invariant of the control plane, over any sequence of calls by any callers.
use marketview.Base.Result.{ok}
use marketview.Base.Texts.{Text}
use marketview.Research.Plane.Calls.{
  Restaged, with_stage, acquire_generation_lease-after, with_active, stage_generation-after,
  mark_generation_verified-after, publish_generation-after, mark_superseded_cleaned-after,
  abort_generation-after, clean_generation-after, release_generation_lease-after,
}
use marketview.Research.Deadline.{RequestDeadline}
use marketview.Research.Python.{Python}
use marketview.Research.Plane.State.{Plane}
use marketview.Research.Domain.{CorpusDescriptor, GenerationManifest, GenerationVerification}
use marketview.Research.Records.{
  AccessionLease, GenerationStageRecord, SupersededCleanupRecord, make_stage, AccessionLease-Eq,
}
use marketview.Base.{
  ◌≡◌, [], ◌∷◌, false, inl, inr, ◌++◌, ◌==◌, Bool, List, Option, arith, count, count-append,
  count-keep-le, keep, ℕ, ◌≤◌, ℕ-Eq, List-Eq, ◌⊎◌, count-replace, any, ◌!=◌, Bool-cases, ==→eq,
  count-of_not_any,
}
use marketview.Research.Plane.{
  accession_digest, acquire_generation_lease, has_generation, is_of, mark_generation_verified,
  publish_generation, stage_generation,
}
use marketview.Research.Plane.Cleanup.{
  abort_generation, clean_generation, mark_superseded_cleaned, release_generation_lease,
}

-- One call of a method that may change the plane, with the clock's readings.
pub data Call : Type 0 where
  acquire_call : GenerationManifest → Text → ℕ → RequestDeadline → ℕ → Call
  stage_call : AccessionLease → GenerationManifest → RequestDeadline → ℕ → Call
  verify_call :
      AccessionLease → GenerationStageRecord → GenerationVerification → RequestDeadline → ℕ → Call
  publish_call :
      AccessionLease
      → GenerationStageRecord
      → Option Text
      → GenerationManifest
      → Option GenerationManifest
      → RequestDeadline
      → ℕ
      → ℕ
      → Call
  clean_superseded_call :
      AccessionLease → SupersededCleanupRecord → ℕ → RequestDeadline → ℕ → ℕ → Call
  abort_call : AccessionLease → GenerationStageRecord → RequestDeadline → ℕ → Call
  clean_call : AccessionLease → GenerationStageRecord → ℕ → RequestDeadline → ℕ → Call
  release_call : AccessionLease → RequestDeadline → ℕ → Call

-- Every stored record is one that its constructor accepts.
abbrev pub AllAccepted : Python → List GenerationStageRecord → Type 0
AllAccepted py [] = Unit {0}
AllAccepted py (r ∷ rs) = (make_stage py r ≡ ok r) × AllAccepted py rs

module _ (py : Python) where
  unfoldable pub after : Call → Plane → Plane
  after (acquire_call m owner ttl d now) p = (acquire_generation_lease py m owner ttl d now p).1
  after (stage_call lease m d now) p = (stage_generation py lease m d now p).1
  after (verify_call lease r v d now) p = (mark_generation_verified py lease r v d now p).1
  after (publish_call lease r expected m superseded d now now') p =
      (publish_generation py lease r expected m superseded d now now' p).1
  after (clean_superseded_call lease entry ttl d now now') p =
      (mark_superseded_cleaned py lease entry ttl d now now' p).1
  after (abort_call lease r d now) p = (abort_generation py lease r d now p).1
  after (clean_call lease r ttl d now) p = (clean_generation py lease r ttl d now p).1
  after (release_call lease d now) p = (release_generation_lease py lease d now p).1

  unfoldable pub after_all : List Call → Plane → Plane
  after_all [] p = p
  after_all (x ∷ xs) p = after_all xs (after x p)

  -- Stored records are accepted, a generation has at most one of them, a filing has at most one
  -- active manifest, and at most one lease.
  pub record IsSound (p : Plane) : Type 0 where
    pub accepted : AllAccepted py p.stages
    pub one_stage : (g : Text) → count (has_generation g) p.stages ≤ 1
    pub one_active :
        (corpus : CorpusDescriptor) (symbol accession : Text)
        → count (is_of corpus symbol accession) p.active ≤ 1
    pub one_lease : (a : Text) → count (λ l. l.accession_digest == a) p.leases ≤ 1

  AllAccepted-keep :
      (q : GenerationStageRecord → Bool) (rs : List GenerationStageRecord)
      → AllAccepted py rs
      → AllAccepted py (keep q rs)
  AllAccepted-keep q [] h = tt
  AllAccepted-keep q (r ∷ rs) h = ground (arith, AllAccepted-keep q rs h.1)

  AllAccepted-append :
      (rs : List GenerationStageRecord) (r : GenerationStageRecord)
      → AllAccepted py rs
      → make_stage py r ≡ ok r
      → AllAccepted py (rs ++ r ∷ [])
  AllAccepted-append [] r h e = (e, tt)
  AllAccepted-append (x ∷ rs) r h e = (h.0, AllAccepted-append rs r h.1 e)

  Restaged-AllAccepted :
      (r : GenerationStageRecord) (xs xs' : List GenerationStageRecord)
      → Restaged py r xs xs'
      → AllAccepted py xs
      → AllAccepted py xs'
  Restaged-AllAccepted r xs xs' (inl e) h = rw e h
  Restaged-AllAccepted r xs xs' (inr (e, s)) h =
      rw s (AllAccepted-append _ r (AllAccepted-keep _ xs h) e)

  with_stage-one :
      (r : GenerationStageRecord) (xs : List GenerationStageRecord) (g : Text)
      → count (has_generation g) xs ≤ 1
      → count (has_generation g) (with_stage r xs) ≤ 1
  with_stage-one r xs g h =
      count-replace (has_generation g) (has_generation r.manifest.generation_id) r xs
        (λ e y f. ground arith) h

  Restaged-one :
      (r : GenerationStageRecord) (xs xs' : List GenerationStageRecord) (g : Text)
      → Restaged py r xs xs'
      → count (has_generation g) xs ≤ 1
      → count (has_generation g) xs' ≤ 1
  Restaged-one r xs xs' g (inl e) h = rw e h
  Restaged-one r xs xs' g (inr (e, s)) h = rw s (with_stage-one r xs g h)

  -- A call that leaves leases and active manifests alone, and restages at most one record.
  Restaged-IsSound :
      (r : GenerationStageRecord) (p p' : Plane)
      → (p'.leases ≡ p.leases) × (p'.active ≡ p.active) × Restaged py r p.stages p'.stages
      → IsSound p
      → IsSound p'
  Restaged-IsSound r p p' (l, a, s) h = record {
    accepted = Restaged-AllAccepted r p.stages p'.stages s h.accepted;
    one_stage = λ g. Restaged-one r p.stages p'.stages g s (h.one_stage g);
    one_active = λ corpus symbol accession. rw a (h.one_active corpus symbol accession);
    one_lease = λ g. rw l (h.one_lease g);
  }

  with_active-one :
      (m : GenerationManifest) (xs xs' : List GenerationManifest) (corpus : CorpusDescriptor)
      (symbol accession : Text)
      → (xs' ≡ xs) ⊎ (xs' ≡ with_active m xs)
      → count (is_of corpus symbol accession) xs ≤ 1
      → count (is_of corpus symbol accession) xs' ≤ 1
  with_active-one m xs xs' corpus symbol accession (inl e) h = rw e h
  with_active-one m xs xs' corpus symbol accession (inr e) h = rw e (
      count-replace (is_of corpus symbol accession) (is_of m.corpus m.symbol m.accession_number) m
        xs (λ e y f. ground arith) h)

  published-IsSound :
      (r : GenerationStageRecord) (m : GenerationManifest) (p p' : Plane)
      → (p'.leases ≡ p.leases)
        × ((p'.active ≡ p.active) ⊎ (p'.active ≡ with_active m p.active))
        × Restaged py r p.stages p'.stages
      → IsSound p
      → IsSound p'
  published-IsSound r m p p' (l, a, s) h = record {
    accepted = Restaged-AllAccepted r p.stages p'.stages s h.accepted;
    one_stage = λ g. Restaged-one r p.stages p'.stages g s (h.one_stage g);
    one_active = λ corpus symbol accession.
        with_active-one m p.active p'.active corpus symbol accession a
          (h.one_active corpus symbol accession);
    one_lease = λ g. rw l (h.one_lease g);
  }

  leased-one :
      (l : AccessionLease) (xs xs' : List AccessionLease) (g : Text)
      → (xs' ≡ xs)
        ⊎ ((any (λ k. k.accession_digest == l.accession_digest) xs ≡ false) × (xs' ≡ xs ++ l ∷ []))
      → count (λ k. k.accession_digest == g) xs ≤ 1
      → count (λ k. k.accession_digest == g) xs' ≤ 1
  leased-one l xs xs' g (inl e) h = rw e h
  leased-one l xs xs' g (inr (free, e)) h = elim (Bool-cases (l.accession_digest == g)) [
    | inl same ↦
        let eq : l.accession_digest ≡ g = ==→eq l.accession_digest g same in
        ground (
          arith,
          count-append (λ (k : AccessionLease). k.accession_digest == g) xs (l ∷ []),
          count-of_not_any (λ (k : AccessionLease). k.accession_digest == g) xs (rw (← eq) free),
        )
    | inr other ↦
        ground (arith, count-append (λ (k : AccessionLease). k.accession_digest == g) xs (l ∷ []))
  ]

  released-one :
      (lease : AccessionLease) (xs xs' : List AccessionLease) (g : Text)
      → (xs' ≡ xs) ⊎ (xs' ≡ keep (λ item. item != lease) xs)
      → count (λ k. k.accession_digest == g) xs ≤ 1
      → count (λ k. k.accession_digest == g) xs' ≤ 1
  released-one lease xs xs' g (inl e) h = rw e h
  released-one lease xs xs' g (inr e) h = rw e (
      omega (
        arith,
        count-keep-le (λ (k : AccessionLease). k.accession_digest == g) (λ item. item != lease) xs,
      ))

  pub after-IsSound : (x : Call) (p : Plane) → IsSound p → IsSound (after x p)
  unfolding after
  after-IsSound (acquire_call m owner ttl d now) p h =
      let (s, a, l) = acquire_generation_lease-after py m owner ttl d now p in
      record {
        accepted = rw s h.accepted;
        one_stage = λ g. rw s (h.one_stage g);
        one_active = λ corpus symbol accession. rw a (h.one_active corpus symbol accession);
        one_lease = λ g.
            leased-one (record { accession_digest = accession_digest py m; owner_digest = owner })
              p.leases _ g l (h.one_lease g);
      }
  after-IsSound (stage_call lease m d now) p h =
      Restaged-IsSound _ p _ (stage_generation-after py lease m d now p) h
  after-IsSound (verify_call lease r v d now) p h =
      Restaged-IsSound _ p _ (mark_generation_verified-after py lease r v d now p) h
  after-IsSound (publish_call lease r expected m superseded d now now') p h =
      published-IsSound _ m p _
        (publish_generation-after py lease r expected m superseded d now now' p) h
  after-IsSound (clean_superseded_call lease entry ttl d now now') p h =
      let (l, a, s) = mark_superseded_cleaned-after py lease entry ttl d now now' p in
      record {
        accepted = rw s h.accepted;
        one_stage = λ g. rw s (h.one_stage g);
        one_active = λ corpus symbol accession. rw a (h.one_active corpus symbol accession);
        one_lease = λ g. rw l (h.one_lease g);
      }
  after-IsSound (abort_call lease r d now) p h =
      Restaged-IsSound _ p _ (abort_generation-after py lease r d now p) h
  after-IsSound (clean_call lease r ttl d now) p h =
      Restaged-IsSound _ p _ (clean_generation-after py lease r ttl d now p) h
  after-IsSound (release_call lease d now) p h =
      let (s, a, l) = release_generation_lease-after py lease d now p in
      record {
        accepted = rw s h.accepted;
        one_stage = λ g. rw s (h.one_stage g);
        one_active = λ corpus symbol accession. rw a (h.one_active corpus symbol accession);
        one_lease = λ g. released-one lease p.leases _ g l (h.one_lease g);
      }

  -- Whatever calls are made of a sound plane, in whatever order, by whatever callers, whether they
  -- succeed, refuse or raise, the plane stays sound: every stored lifecycle record is one that its
  -- constructor accepts, no generation has two records, and no filing has two active manifests or
  -- two leases.
  pub after_all-IsSound : (xs : List Call) (p : Plane) → IsSound p → IsSound (after_all xs p)
  unfolding after_all
  after_all-IsSound [] p h = h
  after_all-IsSound (x ∷ xs) p h = after_all-IsSound xs (after x p) (after-IsSound x p h)
