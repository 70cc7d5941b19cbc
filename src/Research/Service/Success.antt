-- ===== src/Research/Service/Success.antt =====
-- What a successful `ingest` (app/research/service.py) has done: its result against the manifest that
-- was active, and the manifest that is active now.
use marketview.Research.Service.Keeps.{modify-Keeps, Keeps, if-Keeps, pure-Keeps}
use marketview.Research.Plane.Publishing.{publish_generation-swaps, is_of_self}
use marketview.Base.Result.{ok, Result}
use marketview.Research.Records.{AccessionLease, GenerationStageRecord}
use marketview.Research.Service.Ingest.{
  is_success, replaced_count, leave_active, ingest_leased, replace_active, release, recover,
  clean_up,
}
use marketview.Research.Service.Steps.{check_latest, publish_verified, cleanup_superseded}
use marketview.Research.Service.Active.{after-active_still}
use marketview.Base.Texts.{Text}
use marketview.Research.Deadline.{RequestDeadline, raise_if_expired}
use marketview.Research.Service.Keeps.Steps.{
  PublishesOnly, cleanup_superseded-Keeps, check_recovery-Keeps, release-Keeps,
}
use marketview.Research.Plane.State.{Plane}
use marketview.Research.Service.Prepare.{
  Given, IngestionOutcome, IngestionResult, Prepared, created, replaced, unchanged,
}
use marketview.Research.Evidence.{FilingDocument}
use marketview.Research.Service.Ensures.{
  Ensures, bind-Ensures, pure-Ensures, throw-Ensures, if-Ensures, still-Ensures, option-Ensures,
  keep-Ensures, weaken-Ensures, given-Ensures, ok-injective, both-Ensures, lift-Ensures,
}
use marketview.Research.Domain.{
  GenerationManifest-Eq, CorpusDescriptor-Eq, CorpusDescriptor, GenerationManifest,
  GenerationVerification,
}
use marketview.Base.{
  ◌&&◌, is_none, first_satisfies, Option-Eq, List-Eq, ℕ-Eq, ◌≡◌, refl, true, none, some, ◌!=◌, ◌==◌,
  Option, arith, first, length, ℕ, ◌∙◌, if◌then◌else◌, List-Eq, Option-Eq, ℕ-Eq, ◌+◌, false,
  ==_refl, Bool, is_some, sym, subst, eqb,
}
use marketview.Research.Service.Run.{Run, on_plane, on_plane_twice, Step, Failure}
use marketview.Research.Plane.{get_active_generation, is_of, publish_generation}
use marketview.Research.Plane.Soundness.{after, Call}
pub mod Filing

-- The outcome of an ingestion of a manifest, by the manifest that was active.
abbrev pub outcome_for : Option GenerationManifest → GenerationManifest → IngestionOutcome
outcome_for none m = created
outcome_for (some old) m = if some old == some m then unchanged else replaced

-- The numbers of vectors that were inserted and removed.
abbrev pub counts_for : Option GenerationManifest → Prepared → ℕ × ℕ
counts_for before x =
    if before == some x.manifest then (0, 0) else (length x.evidence, replaced_count before)

outcome_for-replaced :
    (before : Option GenerationManifest) (m : GenerationManifest)
    → (before == some m) ≡ false
    → (if is_some before then replaced else created) ≡ outcome_for before m
outcome_for-replaced none m e = refl
outcome_for-replaced (some old) m e = rw e refl

module _ (g : Given) (corpus : CorpusDescriptor) (deadline : RequestDeadline) (d : FilingDocument)
    (x : Prepared) (before : Option GenerationManifest) where
  abbrev pub IsActive : Plane → Type 0
  IsActive p =
      first (is_of x.manifest.corpus x.manifest.symbol x.manifest.accession_number) p.active
      ≡ some x.manifest

  abbrev pub Fits : IngestionResult → Type 0
  Fits o =
      (o.outcome ≡ outcome_for before x.manifest)
      × ((o.inserted_count, o.removed_count) ≡ counts_for before x)

  pub keeps-IsActive :
      (c : Call) (p : Plane) → PublishesOnly x.manifest c → IsActive p → IsActive (after g.py c p)
  keeps-IsActive c p h i = after-active_still g.py x.manifest c p h i

  -- The manifest that is found is of the filing that was looked for.
  pub found-IsActive :
      (corpus' : CorpusDescriptor) (symbol accession : Text) (p : Plane)
      → first (is_of corpus' symbol accession) p.active ≡ some x.manifest
      → IsActive p
  found-IsActive corpus' symbol accession p h =
      let e = first_satisfies (is_of corpus' symbol accession) p.active x.manifest h in
      let c : corpus' ≡ x.manifest.corpus = ground arith in
      let s : symbol ≡ x.manifest.symbol = ground arith in
      let a : accession ≡ x.manifest.accession_number = ground arith in rw (c, s, a) at h

  pub get_active-Ensures :
      (symbol accession : Text) (I : Run → Type 0)
      → Ensures I
          (on_plane g.time (get_active_generation g.py corpus symbol accession deadline))
          (λ a r. first (is_of corpus symbol accession) r.plane.active ≡ a)
  unfolding Ensures on_plane get_active_generation raise_if_expired
  get_active-Ensures symbol accession I r i a e = ground (arith, e)

  pub check_latest-Ensures :
      Ensures
        (λ r. Unit {0})
        (check_latest g corpus deadline d x.manifest)
        (λ a r. IsActive r.plane)
  unfolding check_latest
  check_latest-Ensures =
      bind-Ensures _ (λ a r. first (is_of corpus d.symbol d.accession_number) r.plane.active ≡ a) _
        _ _ (get_active-Ensures d.symbol d.accession_number _)
        (λ latest.
          if-Ensures _ _ (latest != some x.manifest) _ _ (λ e. throw-Ensures _ _ _)
            (λ e. pure-Ensures _ _ tt (λ r i.
              let same : latest ≡ some x.manifest = ground arith in
              found-IsActive corpus d.symbol d.accession_number r.plane (i ∙ same))))

  pub publish_generation-Ensures :
      (lease : AccessionLease) (s : GenerationStageRecord) (expected : Option Text)
      (superseded : Option GenerationManifest)
      → Ensures
          (λ r. Unit {0})
          (on_plane_twice g.time
            (publish_generation g.py lease s expected x.manifest superseded deadline))
          (λ done r. done ≡ true → IsActive r.plane)
  unfolding Ensures on_plane_twice
  publish_generation-Ensures lease s expected superseded r i done e said =
      let answered : (publish_generation g.py lease s expected x.manifest superseded deadline
            (g.time r.readings) (g.time (r.readings + 1)) r.plane).0
          ≡ ok true =
        ground arith in
      (publish_generation-swaps g.py lease s expected x.manifest superseded deadline
        (g.time r.readings) (g.time (r.readings + 1)) r.plane x.manifest.corpus x.manifest.symbol
        x.manifest.accession_number answered).5
      ∙ rw (is_of_self g.py x.manifest) refl

  pub publish_verified-Ensures :
      (lease : AccessionLease) (current : Option GenerationManifest) (s : GenerationStageRecord)
      (v : GenerationVerification)
      → Ensures
          (λ r. Unit {0})
          (publish_verified g corpus deadline lease d x.manifest current s v)
          (λ a r. IsActive r.plane)
  unfolding publish_verified
  publish_verified-Ensures lease current s v =
      bind-Ensures _ (λ a r. Unit {0}) _ _ _ (still-Ensures _ _)
        (λ a1.
          bind-Ensures _ (λ a r. Unit {0}) _ _ _ (still-Ensures _ _)
            (λ marked. option-Ensures _ _ marked _ _ (throw-Ensures _ _ _) (λ verified_stage.
              bind-Ensures _ (λ a r. Unit {0}) _ _ _ (still-Ensures _ _)
                (λ a2.
                  bind-Ensures _ (λ done r. done ≡ true → IsActive r.plane) _ _ _
                    (publish_generation-Ensures lease verified_stage _ _)
                    (λ done.
                      bind-Ensures _ (λ a r. done ≡ true → IsActive r.plane) _ _ _
                        (keep-Ensures (λ p. done ≡ true → IsActive p) _
                          (modify-Keeps _ _ (λ r. refl)))
                        (λ a3.
                          if-Ensures _ _ done _ _ (λ said. pure-Ensures _ _ tt (λ r i. i said))
                            (λ no.
                              weaken-Ensures _ _ _ _ _ (λ r i. tt) (λ a r i. i)
                                check_latest-Ensures)))))))

  pub cleanup_superseded-Ensures :
      (lease : AccessionLease)
      → Ensures
          (λ r. IsActive r.plane)
          (cleanup_superseded g corpus deadline lease x.manifest)
          (λ a r. IsActive r.plane)
  cleanup_superseded-Ensures lease = keep-Ensures IsActive _ (
      cleanup_superseded-Keeps g corpus deadline IsActive x.manifest keeps-IsActive lease
        x.manifest)

  pub Fits-unchanged :
      (n : ℕ)
      → before ≡ some x.manifest
      → Fits (record {
        outcome = unchanged;
        inserted_count = 0;
        removed_count = 0;
        cleanup_pending_count = n;
      })
  Fits-unchanged n e = rw (e, ==_refl (some x.manifest)) (refl, refl)

  pub Fits-replaced :
      (n : ℕ)
      → (before == some x.manifest) ≡ false
      → Fits (record {
        outcome = if is_some before then replaced else created;
        inserted_count = length x.evidence;
        removed_count = replaced_count before;
        cleanup_pending_count = n;
      })
  Fits-replaced n e = (outcome_for-replaced before x.manifest e, rw e refl)

  pub replace_active-Ensures :
      (lease : AccessionLease)
      → (before == some x.manifest) ≡ false
      → Ensures
          (λ r. Unit {0})
          (replace_active g corpus deadline lease d x before)
          (λ o r. Fits o × IsActive r.plane)
  unfolding replace_active
  replace_active-Ensures lease differs =
      bind-Ensures _ (λ a r. Unit {0}) _ _ _ (still-Ensures _ _)
        (λ proven.
          bind-Ensures _ (λ a r. IsActive r.plane) _ _ _
            (publish_verified-Ensures lease before proven.0 proven.1)
            (λ a.
              bind-Ensures _ (λ n r. IsActive r.plane) _ _ _ (cleanup_superseded-Ensures lease)
                (λ n. pure-Ensures _ _ _ (λ r i. (Fits-replaced n differs, i)))))

  pub leave_active-Ensures :
      (lease : AccessionLease)
      → before ≡ some x.manifest
      → Ensures
          (λ r. IsActive r.plane)
          (leave_active g corpus deadline lease x.manifest)
          (λ o r. Fits o × IsActive r.plane)
  unfolding leave_active
  leave_active-Ensures lease same =
      bind-Ensures _ (λ n r. IsActive r.plane) _ _ _ (cleanup_superseded-Ensures lease)
        (λ n. pure-Ensures _ _ _ (λ r i. (Fits-unchanged n same, i)))
