-- ===== src/Research/Service/Keeps/Steps.antt =====
-- Every step of `_ingest_impl` (app/research/service.py) keeps a property of the control plane that
-- each of its calls keeps, where one manifest only is published.
use marketview.Research.Vectors.{Entry}
use marketview.Base.Result.{Result, ok, err}
use marketview.Research.Service.Ingest.{
  ingest_leased, ingest_impl, ingest_prepared, ingest, clean_up, release, recover, leave_active,
  replace_active, as_stage_error,
}
use marketview.Research.Plane.Cleanup.{list_pending_cleanups}
use marketview.Research.Json.{item}
use marketview.Research.Service.Steps.{
  check_recovered, check_recovery, cleanup_all, cleanup_one, cleanup_superseded, check_latest,
  stage_and_verify, publish_verified, proof_of, at_stage, abandon, remaining, start,
}
use marketview.Base.Texts.{Text}
use marketview.Research.Deadline.{RequestDeadline, Fault}
use marketview.Research.Plane.State.{Plane, generation_of}
use marketview.Research.Service.Keeps.{
  Keeps, attempt-Keeps, bind-Keeps, handle-Keeps, if-Keeps, on_plane-Keeps, on_plane_twice-Keeps,
  on_store-Keeps, option-Keeps, pure-Keeps, throw-Keeps, write_store-Keeps, failing_at-Keeps,
  modify-Keeps, calling-Keeps, lift-Keeps, gets-Keeps, finally-Keeps,
}
use marketview.Research.Service.Prepare.{Given, Prepared, IngestionResult, prepare}
use marketview.Research.Evidence.{FilingDocument}
use marketview.Research.Domain.{CorpusDescriptor, GenerationManifest, GenerationVerification}
use marketview.Research.Records.{
  AccessionLease, GenerationStageRecord, SupersededCleanupRecord, parsing_chunking,
}
use marketview.Base.{
  ◌≡◌, refl, [], ◌∷◌, none, some, List, Option, arith, subst, sym, ℕ, Bool, max, min,
}
use marketview.Research.Plane.{get_active_generation, get_generation_stage}
use marketview.Research.Plane.Soundness.{
  clean_superseded_call, stage_call, verify_call, abort_call, clean_call, release_call,
  acquire_call, publish_call, after, Call, publish_call,
}
use marketview.Research.Service.Run.{lift, ◌>>=◌, on_plane, handle, Failure, throw, from_fault}

-- A call that publishes publishes this manifest.
abbrev pub PublishesOnly : GenerationManifest → Call → Type 0
PublishesOnly m (publish_call lease r expected m' superseded d now now') = m' ≡ m
PublishesOnly m _ = Unit

module _ (g : Given) (corpus : CorpusDescriptor) (deadline : RequestDeadline) (P : Plane → Type 0)
    (m : GenerationManifest)
    (keeps : (x : Call) (p : Plane) → PublishesOnly m x → P p → P (after g.py x p)) where
  cleanup_one-Keeps :
      (lease : AccessionLease) (item : SupersededCleanupRecord)
      → Keeps P (cleanup_one g corpus deadline lease item)
  unfolding cleanup_one after
  cleanup_one-Keeps lease item =
      handle-Keeps P _ _
        (bind-Keeps P _ _ (write_store-Keeps P _ _) (λ a.
          bind-Keeps P _ _
            (on_plane_twice-Keeps P _ _
              (λ n n' p. keeps (clean_superseded_call lease item 86400 deadline n n') p tt))
            (λ b. pure-Keeps P _)))
        (λ e. pure-Keeps P _)

  cleanup_all-Keeps :
      (lease : AccessionLease) (xs : List SupersededCleanupRecord)
      → Keeps P (cleanup_all g corpus deadline lease xs)
  unfolding cleanup_all
  cleanup_all-Keeps lease [] = pure-Keeps P _
  cleanup_all-Keeps lease (x ∷ xs) =
      bind-Keeps P _ _ (cleanup_one-Keeps lease x)
        (λ a. bind-Keeps P _ _ (cleanup_all-Keeps lease xs) (λ b. pure-Keeps P _))

  list_pending_cleanups-plane :
      (symbol : Text) (now : ℕ) (p : Plane)
      → (list_pending_cleanups g.py corpus symbol deadline now p).1 ≡ p
  unfolding list_pending_cleanups
  list_pending_cleanups-plane symbol now p = ground arith

  list_pending_cleanups-Keeps :
      (symbol : Text)
      → Keeps P (on_plane g.time (list_pending_cleanups g.py corpus symbol deadline))
  list_pending_cleanups-Keeps symbol =
      on_plane-Keeps P _ _ (λ n p i. subst P (sym (list_pending_cleanups-plane symbol n p)) i)

  pub cleanup_superseded-Keeps :
      (lease : AccessionLease) (m' : GenerationManifest)
      → Keeps P (cleanup_superseded g corpus deadline lease m')
  unfolding cleanup_superseded
  cleanup_superseded-Keeps lease m' =
      bind-Keeps P _ _ (attempt-Keeps P _ (list_pending_cleanups-Keeps m'.symbol))
        (λ x. option-Keeps P x _ _ (pure-Keeps P _) (λ items. cleanup_all-Keeps lease _))

  get_active-plane :
      (symbol accession : Text) (now : ℕ) (p : Plane)
      → (get_active_generation g.py corpus symbol accession deadline now p).1 ≡ p
  unfolding get_active_generation
  get_active-plane symbol accession now p = ground arith

  get_active-Keeps :
      (symbol accession : Text)
      → Keeps P (on_plane g.time (get_active_generation g.py corpus symbol accession deadline))
  get_active-Keeps symbol accession =
      on_plane-Keeps P _ _ (λ n p i. subst P (sym (get_active-plane symbol accession n p)) i)

  get_stage-plane :
      (m' : GenerationManifest) (now : ℕ) (p : Plane)
      → (get_generation_stage g.py m' deadline now p).1 ≡ p
  unfolding get_generation_stage
  get_stage-plane m' now p = ground arith

  check_recovered-Keeps :
      (m' : GenerationManifest) (found : Option GenerationStageRecord)
      → Keeps P (check_recovered g corpus deadline m' found)
  unfolding check_recovered
  check_recovered-Keeps m' found = if-Keeps P _ _ _ (throw-Keeps P _ _) (
      bind-Keeps P _ _ (failing_at-Keeps P _) (λ a.
        bind-Keeps P _ _ (on_store-Keeps P _ _)
          (λ b. if-Keeps P _ _ _ (throw-Keeps P _ _) (failing_at-Keeps P _))))

  pub check_recovery-Keeps :
      (d : FilingDocument) (m' : GenerationManifest) (current : Option GenerationManifest)
      → Keeps P (check_recovery g corpus deadline d m' current)
  unfolding check_recovery
  check_recovery-Keeps d m' current = if-Keeps P _ _ _ (throw-Keeps P _ _) (
      bind-Keeps P _ _ (list_pending_cleanups-Keeps d.symbol) (λ items.
        if-Keeps P _ _ _ (throw-Keeps P _ _) (
          bind-Keeps P _ _
            (on_plane-Keeps P _ _ (λ n p i. subst P (sym (get_stage-plane m' n p)) i))
            (λ found. check_recovered-Keeps m' found))))

  stage_and_verify-Keeps :
      (lease : AccessionLease) (x : Prepared) → Keeps P (stage_and_verify g corpus deadline lease x)
  unfolding stage_and_verify after
  stage_and_verify-Keeps lease x =
      bind-Keeps P _ _
        (on_plane-Keeps P _ _ (λ n p. keeps (stage_call lease x.manifest deadline n) p tt))
        (λ stage. option-Keeps P stage _ _ (throw-Keeps P _ _) (λ staged_record.
          bind-Keeps P _ _ (modify-Keeps P _ (λ r. refl)) (λ a1.
            bind-Keeps P _ _ (failing_at-Keeps P _) (λ a2.
              bind-Keeps P _ _ (calling-Keeps P _) (λ embeddings.
                bind-Keeps P _ _ (lift-Keeps P _) (λ chunks.
                  bind-Keeps P _ _ (failing_at-Keeps P _) (λ a3.
                    bind-Keeps P _ _ (write_store-Keeps P _ _) (λ a4.
                      bind-Keeps P _ _ (failing_at-Keeps P _) (λ a5.
                        bind-Keeps P _ _ (on_store-Keeps P _ _) (λ outcome.
                          bind-Keeps P _ _ (lift-Keeps P _) (λ proven.
                            if-Keeps P _ _ _ (throw-Keeps P _ _)
                              (proof_of-Keeps staged_record outcome.verification))))))))))))
    where
      proof_of-Keeps :
          (r : GenerationStageRecord) (v : Option GenerationVerification) → Keeps P (proof_of r v)
      proof_of-Keeps r none = throw-Keeps P _ _
      proof_of-Keeps r (some v) = pure-Keeps P _

  check_latest-Keeps :
      (d : FilingDocument) (m' : GenerationManifest) → Keeps P (check_latest g corpus deadline d m')
  unfolding check_latest
  check_latest-Keeps d m' =
      bind-Keeps P _ _ (get_active-Keeps d.symbol d.accession_number)
        (λ latest. if-Keeps P _ _ _ (throw-Keeps P _ _) (pure-Keeps P _))

  publish_verified-Keeps :
      (lease : AccessionLease) (d : FilingDocument) (current : Option GenerationManifest)
      (r : GenerationStageRecord) (v : GenerationVerification)
      → Keeps P (publish_verified g corpus deadline lease d m current r v)
  unfolding publish_verified after
  publish_verified-Keeps lease d current r v = bind-Keeps P _ _ (failing_at-Keeps P _) (λ a1.
      bind-Keeps P _ _ (on_plane-Keeps P _ _ (λ n p. keeps (verify_call lease r v deadline n) p tt))
        (λ marked. option-Keeps P marked _ _ (throw-Keeps P _ _) (λ s.
          bind-Keeps P _ _ (modify-Keeps P _ (λ r. refl)) (λ a2.
            bind-Keeps P _ _
              (on_plane_twice-Keeps P _ _ (λ n n' p.
                keeps (publish_call lease s (generation_of current) m _ deadline n n') p refl))
              (λ done.
                bind-Keeps P _ _ (modify-Keeps P _ (λ r. refl))
                  (λ a3. if-Keeps P done _ _ (pure-Keeps P _) (check_latest-Keeps d m)))))))

  abandon-Keeps :
      (lease : AccessionLease) (m' : GenerationManifest) (r : GenerationStageRecord)
      (current : Option GenerationManifest)
      → Keeps P (abandon g corpus deadline lease m' r current)
  unfolding abandon after
  abandon-Keeps lease m' r current =
      bind-Keeps P _ _ (on_plane-Keeps P _ _ (λ n p. keeps (abort_call lease r deadline n) p tt))
        (λ gone. option-Keeps P gone _ _ (pure-Keeps P _) (λ s.
          bind-Keeps P _ _ (if-Keeps P _ _ _ (write_store-Keeps P _ _) (pure-Keeps P _)) (λ a.
            bind-Keeps P _ _
              (on_plane-Keeps P _ _ (λ n p. keeps (clean_call lease s 86400 deadline n) p tt))
              (λ b. pure-Keeps P _))))

  clean_up-Keeps :
      (lease : AccessionLease) (m' : GenerationManifest) (r : GenerationStageRecord) (e : Failure)
      → Keeps P (clean_up g corpus deadline lease m' r e)
  unfolding clean_up remaining
  clean_up-Keeps lease m' r e = bind-Keeps P _ _ (calling-Keeps P _) (λ left.
      bind-Keeps P _ _ (gets-Keeps P _) (λ current. if-Keeps P _ _ _ (throw-Keeps P _ _) (
        bind-Keeps P _ _ (attempt-Keeps P _ (abandon-Keeps lease m' r current))
          (λ done. if-Keeps P _ _ _ (throw-Keeps P _ _) (throw-Keeps P _ _)))))

  recover-Keeps :
      (lease : AccessionLease) (m' : GenerationManifest) (e : Failure)
      → Keeps P (recover g corpus deadline lease m' e)
  unfolding recover
  recover-Keeps lease m' e = bind-Keeps P _ _ (gets-Keeps P _) (λ original.
      bind-Keeps P _ _ (gets-Keeps P _) (λ stage. bind-Keeps P _ _ (gets-Keeps P _) (λ done.
        option-Keeps P stage _ _ (throw-Keeps P _ _)
          (λ s. if-Keeps P done _ _ (throw-Keeps P _ _) (clean_up-Keeps lease m' s _)))))

  pub release-Keeps :
      (lease : AccessionLease) (result : Result Failure IngestionResult)
      → Keeps P (release g corpus deadline lease result)
  unfolding release after remaining
  release-Keeps lease result = bind-Keeps P _ _ (calling-Keeps P _) (λ left.
      if-Keeps P _ _ _ (lift-Keeps P _) (
        bind-Keeps P _ _
          (attempt-Keeps P _
            (on_plane-Keeps P _ _ (λ n p. keeps (release_call lease deadline n) p tt)))
          (λ done. if-Keeps P _ _ _ (throw-Keeps P _ _) (lift-Keeps P _))))

  ingest_leased-Keeps :
      (lease : AccessionLease) (d : FilingDocument) (x : Prepared) (retry_failed : Bool)
      → x.manifest ≡ m
      → Keeps P (ingest_leased g corpus deadline lease d x retry_failed)
  unfolding ingest_leased leave_active replace_active
  ingest_leased-Keeps lease d x retry_failed same =
      bind-Keeps P _ _ (get_active-Keeps d.symbol d.accession_number) (λ current.
        bind-Keeps P _ _ (modify-Keeps P _ (λ r. refl)) (λ a1.
          bind-Keeps P _ _
            (if-Keeps P retry_failed _ _ (check_recovery-Keeps d x.manifest current)
              (pure-Keeps P _))
            (λ a2.
              if-Keeps P _ _ _
                (bind-Keeps P _ _ (cleanup_superseded-Keeps lease x.manifest) (λ n. pure-Keeps P _))
                (bind-Keeps P _ _ (stage_and_verify-Keeps lease x) (λ proven.
                  bind-Keeps P _ _
                    (subst
                      (λ m'.
                        Keeps P
                          (publish_verified g corpus deadline lease d m' current proven.0 proven.1))
                      (sym same) (publish_verified-Keeps lease d current proven.0 proven.1))
                    (λ a3.
                      bind-Keeps P _ _ (cleanup_superseded-Keeps lease x.manifest)
                        (λ n. pure-Keeps P _)))))))

  ingest_prepared-Keeps :
      (d : FilingDocument) (retry_failed : Bool) (x : Prepared)
      → x.manifest ≡ m
      → Keeps P (ingest_prepared g corpus deadline d retry_failed x)
  unfolding ingest_prepared remaining after
  ingest_prepared-Keeps d retry_failed x same = bind-Keeps P _ _ (calling-Keeps P _) (λ left.
      bind-Keeps P _ _
        (handle-Keeps P _ _
          (on_plane-Keeps P _ _ (λ n p.
            keeps (acquire_call x.manifest g.owner (max 1 (min 3600 left)) deadline n) p tt))
          (λ e. throw-Keeps P _ _))
        (λ lease. option-Keeps P lease _ _ (throw-Keeps P _ _) (λ l.
          finally-Keeps P _ _
            (handle-Keeps P _ _ (ingest_leased-Keeps l d x retry_failed same)
              (recover-Keeps l x.manifest))
            (release-Keeps l))))

  rest-Keeps :
      (d : FilingDocument) (retry_failed : Bool) (y : Result Fault Prepared)
      → ((x : Prepared) → y ≡ ok x → x.manifest ≡ m)
      → Keeps P (
          at_stage parsing_chunking (lift (from_fault y))
          >>= ingest_prepared g corpus deadline d retry_failed)
  unfolding Keeps ◌>>=◌ handle lift throw
  rest-Keeps d retry_failed (ok x) same r j =
      ingest_prepared-Keeps d retry_failed x (same x refl) r j
  rest-Keeps d retry_failed (err e) same r j = j

  ingest-Keeps :
      (d : FilingDocument) (retry_failed : Bool) (p : Plane) (es : List Entry)
      → ((x : Prepared) → prepare g corpus d ≡ ok x → x.manifest ≡ m)
      → Keeps P (
          handle
            (ingest_impl g corpus deadline d retry_failed)
            (λ e. throw {A = IngestionResult} (as_stage_error e)))
  unfolding ingest_impl
  ingest-Keeps d retry_failed p es same =
      handle-Keeps P _ _
        (bind-Keeps P _ _ (on_store-Keeps P _ _)
          (λ a. rest-Keeps d retry_failed (prepare g corpus d) same))
        (λ e. throw-Keeps P _ _)

  -- An ingestion whose generation has this manifest, if it gets that far, keeps what each call
  -- keeps.
  pub ingest-keeps :
      (d : FilingDocument) (retry_failed : Bool) (p : Plane) (es : List Entry)
      → ((x : Prepared) → prepare g corpus d ≡ ok x → x.manifest ≡ m)
      → P p
      → P (ingest g corpus deadline d retry_failed p es).1.plane
  unfolding ingest Keeps
  ingest-keeps d retry_failed p es same i = ingest-Keeps d retry_failed p es same (start p es) i
