-- ===== src/Research/Service/Success/Filing.antt =====
-- What a successful `ingest` (app/research/service.py) has done: its result against the manifest that
-- was active, and the manifest that is active now.
use marketview.Research.Vectors.{Entry}
use marketview.Research.Service.Steps.{remaining, at_stage, start}
use marketview.Research.Service.Ingest.{
  clean_up, ingest_leased, ingest_prepared, is_success, leave_active, recover, release,
  replace_active, ingest, ingest_impl, as_stage_error,
}
use marketview.Research.Plane.Calls.{acquire_generation_lease-after}
use marketview.Research.Plane.{acquire_generation_lease, get_active_generation, is_of}
use marketview.Base.Texts.{Text}
use marketview.Base.Result.{Result, err, ok, Result-cases}
use marketview.Research.Deadline.{RequestDeadline, raise_if_expired, Fault}
use marketview.Research.Service.Keeps.Steps.{PublishesOnly, check_recovery-Keeps, release-Keeps}
use marketview.Research.Plane.State.{Plane}
use marketview.Research.Service.Keeps.{Keeps, calling-Keeps, if-Keeps, modify-Keeps, pure-Keeps}
use marketview.Research.Service.Prepare.{Given, IngestionResult, Prepared, prepare}
use marketview.Research.Service.Success.{
  Fits, IsActive, found-IsActive, keeps-IsActive, leave_active-Ensures, replace_active-Ensures,
  outcome_for, counts_for,
}
use marketview.Research.Evidence.{FilingDocument}
use marketview.Research.Service.Keeps.{on_store-Keeps}
use marketview.Research.Service.Ensures.{
  Ensures, bind-Ensures, both-Ensures, err-ne-ok, finally-Ensures, given-Ensures, handle-Ensures,
  if-Ensures, keep-Ensures, lift-Ensures, ok-injective, option-Ensures, still-Ensures,
  throw-Ensures, weaken-Ensures,
}
use marketview.Research.Domain.{CorpusDescriptor, GenerationManifest, GenerationManifest-Eq}
use marketview.Research.Records.{AccessionLease, parsing_chunking}
use marketview.Base.{
  ◌≡◌, refl, some, inl, inr, ◌&&◌, ◌==◌, Bool, Option, arith, eqb, first, is_none, is_some, subst,
  sym, ℕ, ◌∙◌, if◌then◌else◌, ℕ-Eq, List-Eq, Option-Eq, List, ◌≢◌,
}
use marketview.Research.Service.Run.{
  ◌>>=◌, lift, Failure, Run, Step, on_plane, handle, on_store, throw, from_fault,
}
use marketview.Research.Plane.Soundness.{after, Call}

module _ (g : Given) (corpus : CorpusDescriptor) (deadline : RequestDeadline) (d : FilingDocument)
    (x : Prepared) (before : Option GenerationManifest) where
  -- The manifest that was active, and what it says if it is this one.
  abbrev Found : Option GenerationManifest → Run → Type 0
  Found current r =
      (current ≡ before)
      × (current ≡ some x.manifest → (IsActive g corpus deadline d x before) r.plane)

  keep-Found :
      {A : Type 0} (current : Option GenerationManifest) (f : Step A)
      → Keeps
          (λ p.
            (current ≡ before)
            × (current ≡ some x.manifest → (IsActive g corpus deadline d x before) p))
          f
      → Ensures (Found current) f (λ a r. Found current r)
  keep-Found current f h = keep-Ensures _ f h

  keeps-Found :
      (current : Option GenerationManifest) (c : Call) (p : Plane)
      → PublishesOnly x.manifest c
      → (current ≡ before) × (current ≡ some x.manifest → (IsActive g corpus deadline d x before) p)
      → (current ≡ before)
        × (current ≡ some x.manifest → (IsActive g corpus deadline d x before) (after g.py c p))
  keeps-Found current c p h i =
      (i.0, λ e. (keeps-IsActive g corpus deadline d x before) c p h (i.1 e))

  get_active-Found :
      Ensures
        (λ r. first (is_of corpus d.symbol d.accession_number) r.plane.active ≡ before)
        (on_plane g.time (get_active_generation g.py corpus d.symbol d.accession_number deadline))
        Found
  unfolding Ensures on_plane get_active_generation raise_if_expired
  get_active-Found r i a e =
      let found : first (is_of corpus d.symbol d.accession_number) r.plane.active ≡ a =
        ground (arith, e) in
      let still : (on_plane g.time
            (get_active_generation g.py corpus d.symbol d.accession_number deadline) r).1.plane
          ≡ r.plane =
        ground arith in
      (
        sym found ∙ i,
        λ same. rw still (
            (found-IsActive g corpus deadline d x before) corpus d.symbol d.accession_number r.plane
              (found ∙ same)),
      )

  rest-Ensures :
      (lease : AccessionLease) (current : Option GenerationManifest)
      → Ensures
          (Found current)
          (if current == some x.manifest
            then leave_active g corpus deadline lease x.manifest
            else replace_active g corpus deadline lease d x current)
          (λ o r.
            (Fits g corpus deadline d x before) o × (IsActive g corpus deadline d x before) r.plane)
  rest-Ensures lease current = given-Ensures _ _ _ _ (λ same.
      if-Ensures _ _ (current == some x.manifest) _ _
        (λ e.
          let is_it : current ≡ some x.manifest = ground (arith, e) in
          weaken-Ensures _ _ _ _ _ (λ r i. i is_it) (λ o r i. i)
            ((leave_active-Ensures g corpus deadline d x before) lease (sym same ∙ is_it)))
        (λ e. rw same (
          weaken-Ensures _ _ _ _ _ (λ r i. tt) (λ o r i. i)
            ((replace_active-Ensures g corpus deadline d x before) lease (rw same at e)))))

  ingest_leased-Ensures :
      (lease : AccessionLease) (retry_failed : Bool)
      → Ensures
          (λ r. first (is_of corpus d.symbol d.accession_number) r.plane.active ≡ before)
          (ingest_leased g corpus deadline lease d x retry_failed)
          (λ o r.
            (Fits g corpus deadline d x before) o × (IsActive g corpus deadline d x before) r.plane)
  unfolding ingest_leased
  ingest_leased-Ensures lease retry_failed = bind-Ensures _ Found _ _ _ get_active-Found (λ current.
      bind-Ensures _ (λ a r. Found current r) _ _ _
        (keep-Found current _ (modify-Keeps _ _ (λ r. refl)))
        (λ a1.
          bind-Ensures _ (λ a r. Found current r) _ _ _
            (keep-Found current _ (
              if-Keeps _ retry_failed _ _
                (check_recovery-Keeps g corpus deadline _ x.manifest (keeps-Found current) d
                  x.manifest current)
                (pure-Keeps _ _)))
            (λ a2. rest-Ensures lease current)))

  recover-Ensures :
      (lease : AccessionLease) (e : Failure) (Q : IngestionResult → Run → Type 0)
      → Ensures (λ r. Unit {0}) (recover g corpus deadline lease x.manifest e) Q
  unfolding recover clean_up
  recover-Ensures lease e Q =
      bind-Ensures _ (λ a r. Unit {0}) _ _ _ (still-Ensures _ _)
        (λ original.
          bind-Ensures _ (λ a r. Unit {0}) _ _ _ (still-Ensures _ _)
            (λ stage.
              bind-Ensures _ (λ a r. Unit {0}) _ _ _ (still-Ensures _ _)
                (λ done. option-Ensures _ _ stage _ _ (throw-Ensures _ _ _) (λ s.
                  if-Ensures _ _ done _ _ (λ h. throw-Ensures _ _ _)
                    (λ h.
                      bind-Ensures _ (λ a r. Unit {0}) _ _ _ (still-Ensures _ _)
                        (λ left.
                          bind-Ensures _ (λ a r. Unit {0}) _ _ _ (still-Ensures _ _)
                            (λ current.
                              if-Ensures _ _ (eqb left 0) _ _ (λ h'. throw-Ensures _ _ _)
                                (λ h'.
                                  bind-Ensures _ (λ a r. Unit {0}) _ _ _ (still-Ensures _ _)
                                    (λ cleaned_up.
                                      if-Ensures _ _ (is_some cleaned_up) _ _
                                        (λ k. throw-Ensures _ _ _)
                                        (λ k. throw-Ensures _ _ _))))))))))

  -- The release returns what it is told of, or fails.
  release-same :
      (lease : AccessionLease) (y : Result Failure IngestionResult)
      → Ensures (λ r. Unit {0}) (release g corpus deadline lease y) (λ o r. y ≡ ok o)
  unfolding release
  release-same lease y =
      bind-Ensures _ (λ a r. Unit {0}) _ _ _ (still-Ensures _ _)
        (λ left.
          if-Ensures _ _ (eqb left 0) _ _ (λ h. lift-Ensures _ y)
            (λ h.
              bind-Ensures _ (λ a r. Unit {0}) _ _ _ (still-Ensures _ _)
                (λ done.
                  if-Ensures _ _ (is_none done && is_success y) _ _ (λ k. throw-Ensures _ _ _)
                    (λ k. lift-Ensures _ y))))

  release-Ensures :
      (lease : AccessionLease) (o : IngestionResult)
      → Ensures
          (λ r.
            (Fits g corpus deadline d x before) o × (IsActive g corpus deadline d x before) r.plane)
          (release g corpus deadline lease (ok o))
          (λ o' r.
            (Fits g corpus deadline d x before) o'
            × (IsActive g corpus deadline d x before) r.plane)
  release-Ensures lease o = given-Ensures _ _ _ _ (λ fits.
      weaken-Ensures _ _ _
        (λ o' r. (ok o ≡ ok o') × (IsActive g corpus deadline d x before) r.plane) _ (λ r i. i)
        (λ o' r i.
          (subst (Fits g corpus deadline d x before) (ok-injective (ok o) o o' refl i.0) fits, i.1))
        (both-Ensures _ _ _ _
          (weaken-Ensures _ _ _ _ _ (λ r i. tt) (λ o' r i. i) (release-same lease (ok o)))
          (keep-Ensures (IsActive g corpus deadline d x before) _ (
            release-Keeps g corpus deadline (IsActive g corpus deadline d x before) x.manifest
              (keeps-IsActive g corpus deadline d x before) lease (ok o)))))

  acquire_generation_lease-Ensures :
      (owner : Text) (ttl : ℕ)
      → Ensures
          (λ r. first (is_of corpus d.symbol d.accession_number) r.plane.active ≡ before)
          (on_plane g.time (acquire_generation_lease g.py x.manifest owner ttl deadline))
          (λ a r. first (is_of corpus d.symbol d.accession_number) r.plane.active ≡ before)
  unfolding Ensures on_plane
  acquire_generation_lease-Ensures owner ttl r i a e =
      rw
        (acquire_generation_lease-after g.py x.manifest owner ttl deadline (g.time r.readings)
          r.plane).1
        i

  ingest_prepared-Ensures :
      (retry_failed : Bool)
      → Ensures
          (λ r. first (is_of corpus d.symbol d.accession_number) r.plane.active ≡ before)
          (ingest_prepared g corpus deadline d retry_failed x)
          (λ o r.
            (Fits g corpus deadline d x before) o × (IsActive g corpus deadline d x before) r.plane)
  unfolding ingest_prepared remaining
  ingest_prepared-Ensures retry_failed =
      bind-Ensures _
        (λ a r. first (is_of corpus d.symbol d.accession_number) r.plane.active ≡ before) _ _ _
        (keep-Ensures (λ p. first (is_of corpus d.symbol d.accession_number) p.active ≡ before) _
          (calling-Keeps _ _))
        (λ left.
          bind-Ensures _
            (λ a r. first (is_of corpus d.symbol d.accession_number) r.plane.active ≡ before) _ _ _
            (handle-Ensures _ _ _ _ (acquire_generation_lease-Ensures g.owner _)
              (λ e. throw-Ensures _ _ _))
            (λ lease. option-Ensures _ _ lease _ _ (throw-Ensures _ _ _) (λ l.
              finally-Ensures _ _ _ _ _
                (handle-Ensures _ _ _ _ (ingest_leased-Ensures l retry_failed)
                  (λ e. recover-Ensures l e _))
                (λ o. release-Ensures l o)
                (λ e.
                  weaken-Ensures _ _ _ _ _ (λ r i. i) (λ o r i. absurd (err-ne-ok _ _ i))
                    (release-same l (err e))))))

  chunked-Ensures :
      (retry_failed : Bool) (y : Result Fault Prepared)
      → y ≡ ok x
      → Ensures
          (λ r. first (is_of corpus d.symbol d.accession_number) r.plane.active ≡ before)
          (at_stage parsing_chunking (lift (from_fault y))
            >>= ingest_prepared g corpus deadline d retry_failed)
          (λ o r.
            Fits g corpus deadline d x before o × IsActive g corpus deadline d x before r.plane)
  unfolding ◌>>=◌ handle lift Ensures
  chunked-Ensures retry_failed (ok z) e =
      let same : z ≡ x = ground arith in
      subst
        (λ w.
          Ensures (λ r. first (is_of corpus d.symbol d.accession_number) r.plane.active ≡ before)
            (at_stage parsing_chunking (lift (from_fault (ok w)))
              >>= ingest_prepared g corpus deadline d retry_failed)
            (λ o r.
              Fits g corpus deadline d x before o × IsActive g corpus deadline d x before r.plane))
        (sym same) (λ r i b h. ingest_prepared-Ensures retry_failed r i b h)
  chunked-Ensures retry_failed (err z) e = absurd (ground arith)

  pub ingest_impl-Ensures :
      (retry_failed : Bool)
      → prepare g corpus d ≡ ok x
      → Ensures
          (λ r. first (is_of corpus d.symbol d.accession_number) r.plane.active ≡ before)
          (handle
            (ingest_impl g corpus deadline d retry_failed)
            (λ e. throw {A = IngestionResult} (as_stage_error e)))
          (λ o r.
            Fits g corpus deadline d x before o × IsActive g corpus deadline d x before r.plane)
  unfolding ingest_impl
  ingest_impl-Ensures retry_failed e =
      handle-Ensures _ _ _ _
        (bind-Ensures _
          (λ a r. first (is_of corpus d.symbol d.accession_number) r.plane.active ≡ before) _ _ _
          (keep-Ensures (λ p. first (is_of corpus d.symbol d.accession_number) p.active ≡ before) _
            (on_store-Keeps _ _ _))
          (λ a. chunked-Ensures retry_failed (prepare g corpus d) e))
        (λ e. throw-Ensures _ _ _)

ingest-unprepared_raises :
    (g : Given) (corpus : CorpusDescriptor) (deadline : RequestDeadline) (d : FilingDocument)
    (retry_failed : Bool) (p : Plane) (es : List Entry) (o : IngestionResult) (e : Fault)
    → prepare g corpus d ≡ err e
    → (ingest g corpus deadline d retry_failed p es).0 ≢ ok o
unfolding ingest ingest_impl handle ◌>>=◌ on_store lift throw raise_if_expired
ingest-unprepared_raises g corpus deadline d retry_failed p es o e k h = ground arith

-- An ingestion that returns has prepared a generation whose manifest is the active one of its filing
-- from then on. By the manifest that was active before for the document's filing, its result says
-- created, replaced or unchanged, and counts the vectors of the new generation and those of the
-- replaced one.
pub ingest-succeeds :
    (g : Given) (corpus : CorpusDescriptor) (deadline : RequestDeadline) (d : FilingDocument)
    (retry_failed : Bool) (p : Plane) (es : List Entry) (o : IngestionResult)
    → (ingest g corpus deadline d retry_failed p es).0 ≡ ok o
    → let before = first (is_of corpus d.symbol d.accession_number) p.active in
      let active' = (ingest g corpus deadline d retry_failed p es).1.plane.active in
      (x : Prepared) × (prepare g corpus d ≡ ok x)
      × (o.outcome ≡ outcome_for before x.manifest)
      × ((o.inserted_count, o.removed_count) ≡ counts_for before x)
      × (first (is_of x.manifest.corpus x.manifest.symbol x.manifest.accession_number) active'
          ≡ some x.manifest)
unfolding ingest Ensures
ingest-succeeds g corpus deadline d retry_failed p es o h =
    elim (Result-cases (prepare g corpus d)) [
      | inl (x, e) ↦
          (let done =
              ingest_impl-Ensures g corpus deadline d x
                (first (is_of corpus d.symbol d.accession_number) p.active) retry_failed e
                (start p es) refl o h in
            (x, e, done.0.0, done.0.1, done.1))
      | inr (e, k) ↦ absurd (ingest-unprepared_raises g corpus deadline d retry_failed p es o e k h)
    ]
