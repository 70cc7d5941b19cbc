-- ===== src/Research/Service/Active.antt =====
-- What an ingestion (app/research/service.py) may do to the active manifests.
use marketview.Research.Plane.{is_of, publish_generation}
use marketview.Research.Service.Ingest.{ingest, ingest_impl}
use marketview.Research.Plane.Publishing.{first_replaced, is_of_self}
use marketview.Research.Plane.Calls.{
  abort_generation-after, acquire_generation_lease-after, clean_generation-after,
  mark_generation_verified-after, mark_superseded_cleaned-after, publish_generation-after,
  release_generation_lease-after, stage_generation-after, with_active,
}
use marketview.Base.Texts.{Text}
use marketview.Base.Result.{Result, err, ok, Result-cases}
use marketview.Research.Python.{Python}
use marketview.Research.Service.Keeps.Steps.{PublishesOnly, ingest-keeps}
use marketview.Research.Plane.State.{Plane}
use marketview.Research.Service.Prepare.{Given, Prepared, prepare}
use marketview.Research.Evidence.{FilingDocument}
use marketview.Research.Deadline.{Fault, RequestDeadline, raise_if_expired}
use marketview.Research.Vectors.{Entry}
use marketview.Research.Domain.{CorpusDescriptor, GenerationManifest}
use marketview.Base.{
  ◌≡◌, refl, [], true, some, inl, inr, Bool, Bool-cases, List, Option, arith, first, subst, ◌⊎◌,
  if◌then◌else◌,
}
use marketview.Research.Service.Run.{◌>>=◌, handle, on_store, lift, throw}
use marketview.Research.Plane.Soundness.{
  after-IsSound, after, Call, IsSound, abort_call, acquire_call, clean_call, release_call,
  stage_call, verify_call, publish_call, clean_superseded_call,
}

module _ (py : Python) (m : GenerationManifest) where
  after-active :
      (x : Call) (p : Plane)
      → PublishesOnly m x
      → ((after py x p).active ≡ p.active) ⊎ ((after py x p).active ≡ with_active m p.active)
  unfolding after
  after-active (acquire_call m' owner ttl d now) p h =
      inl (acquire_generation_lease-after py m' owner ttl d now p).1
  after-active (stage_call lease m' d now) p h = inl (stage_generation-after py lease m' d now p).1
  after-active (verify_call lease r v d now) p h =
      inl (mark_generation_verified-after py lease r v d now p).1
  after-active (publish_call lease r expected m' superseded d now now') p h =
      subst
        (λ y.
          ((publish_generation py lease r expected m' superseded d now now' p).1.active ≡ p.active)
          ⊎ ((publish_generation py lease r expected m' superseded d now now' p).1.active
              ≡ with_active y p.active))
        h (publish_generation-after py lease r expected m' superseded d now now' p).1
  after-active (clean_superseded_call lease entry ttl d now now') p h =
      inl (mark_superseded_cleaned-after py lease entry ttl d now now' p).1
  after-active (abort_call lease r d now) p h = inl (abort_generation-after py lease r d now p).1
  after-active (clean_call lease r ttl d now) p h =
      inl (clean_generation-after py lease r ttl d now p).1
  after-active (release_call lease d now) p h =
      inl (release_generation_lease-after py lease d now p).1

  -- The filing's active manifest is the one that it was, or the filing is the manifest's and the
  -- manifest is active.
  abbrev pub Moved : Option GenerationManifest → CorpusDescriptor → Text → Text → Plane → Type 0
  Moved before corpus symbol accession p =
      (first (is_of corpus symbol accession) p.active ≡ before)
      ⊎ ((is_of corpus symbol accession m ≡ true)
          × (first (is_of corpus symbol accession) p.active ≡ some m))

  first-with_active :
      (xs : List GenerationManifest) (corpus : CorpusDescriptor) (symbol accession : Text)
      → first (is_of corpus symbol accession) (with_active m xs) ≡ (
          if is_of corpus symbol accession m
          then some m
          else first (is_of corpus symbol accession) xs)
  first-with_active xs corpus symbol accession = first_replaced py m xs corpus symbol accession

  pub after-Moved :
      (before : Option GenerationManifest) (corpus : CorpusDescriptor) (symbol accession : Text)
      (x : Call) (p : Plane)
      → PublishesOnly m x
      → Moved before corpus symbol accession p
      → Moved before corpus symbol accession (after py x p)
  after-Moved before corpus symbol accession x p h i = elim (after-active x p h) [
    | inl same ↦ rw same i
    | inr new ↦
        rw (new, first-with_active p.active corpus symbol accession)
          (elim (Bool-cases (is_of corpus symbol accession m)) [
            | inl e ↦ rw e (inr (refl, refl))
            | inr e ↦ rw e (ground (arith, i))
          ])
  ]

  -- Once the manifest is active, it stays so.
  pub after-active_still :
      (x : Call) (p : Plane)
      → PublishesOnly m x
      → first (is_of m.corpus m.symbol m.accession_number) p.active ≡ some m
      → first (is_of m.corpus m.symbol m.accession_number) (after py x p).active ≡ some m
  after-active_still x p h i = elim (after-active x p h) [
    | inl same ↦ rw same i
    | inr new ↦
        rw (new, first-with_active p.active m.corpus m.symbol m.accession_number, is_of_self py m)
          refl
  ]

-- A manifest that no filing has.
abbrev no_manifest : GenerationManifest
no_manifest = record {
  corpus = record {
    corpus_version = [];
    chunker_version = [];
    embedding = record { provider = []; model = []; version = []; dimensions = 0 };
  };
  symbol = [];
  accession_number = [];
  generation_id = [];
  content_hash = [];
  chunk_ids = [];
}

abbrev manifest_or_none : Result Fault Prepared → GenerationManifest
manifest_or_none (ok x) = x.manifest
manifest_or_none (err e) = no_manifest

module _ (g : Given) (corpus : CorpusDescriptor) (deadline : RequestDeadline) where
  manifest_or_none-prepared :
      (y : Result Fault Prepared) (x : Prepared) → y ≡ ok x → x.manifest ≡ manifest_or_none y
  manifest_or_none-prepared y x h = rw h refl

  -- However an ingestion ends, the plane is sound after it if it was before.
  pub ingest-IsSound :
      (d : FilingDocument) (retry_failed : Bool) (p : Plane) (es : List Entry)
      → IsSound g.py p
      → IsSound g.py (ingest g corpus deadline d retry_failed p es).1.plane
  ingest-IsSound d retry_failed p es h =
      ingest-keeps g corpus deadline (IsSound g.py) (manifest_or_none (prepare g corpus d))
        (λ x q only i. after-IsSound g.py x q i) d retry_failed p es
        (manifest_or_none-prepared (prepare g corpus d)) h

  ingest-unprepared :
      (d : FilingDocument) (retry_failed : Bool) (p : Plane) (es : List Entry) (e : Fault)
      → prepare g corpus d ≡ err e
      → (ingest g corpus deadline d retry_failed p es).1.plane ≡ p
  unfolding ingest ingest_impl handle ◌>>=◌ on_store lift throw raise_if_expired
  ingest-unprepared d retry_failed p es e h = ground arith

  -- However the ingestion of a document ends, the active manifest of every filing is the one that it
  -- was, or the document was prepared, the filing is that of the prepared manifest, and the prepared
  -- manifest is active.
  pub ingest-moves :
      (d : FilingDocument) (retry_failed : Bool) (p : Plane) (es : List Entry)
      (corpus' : CorpusDescriptor) (symbol accession : Text)
      → let active' = (ingest g corpus deadline d retry_failed p es).1.plane.active in
        let is_it = is_of corpus' symbol accession in
        (first is_it active' ≡ first is_it p.active)
        ⊎ ((x : Prepared) × (prepare g corpus d ≡ ok x)
            × (is_it x.manifest ≡ true)
            × (first is_it active' ≡ some x.manifest))
  ingest-moves d retry_failed p es corpus' symbol accession =
      elim (Result-cases (prepare g corpus d)) [
        | inl (x, h) ↦
            elim (ingest-keeps g corpus deadline
              (Moved g.py x.manifest (first (is_of corpus' symbol accession) p.active) corpus'
                symbol accession)
              x.manifest
              (λ c q only i. after-Moved g.py x.manifest _ corpus' symbol accession c q only i) d
              retry_failed p es (λ y k. ground (arith, h, k)) (inl refl)) [
                | inl same ↦ inl same
                | inr moved ↦ inr (x, h, moved.0, moved.1)
              ]
        | inr (e, h) ↦ rw (ingest-unprepared d retry_failed p es e h) (inl refl)
      ]
