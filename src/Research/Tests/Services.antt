-- ===== src/Research/Tests/Services.antt =====
-- Runs of the ingestion and of a query on concrete inputs.
use marketview.Research.Service.Success.Filing.{ingest-succeeds}
use marketview.Research.Service.Success.{counts_for, outcome_for}
use marketview.Research.Service.Active.{ingest-IsSound, ingest-moves}
use marketview.Research.Plane.Soundness.{IsSound}
use native.Mathlib.Decide.{ℕ_discrete}
use marketview.Research.Service.Ingest.{
  clean_up, ingest, ingest_impl, ingest_leased, ingest_prepared, leave_active, recover, release,
  replace_active,
}
use marketview.Base.Texts.{codes, Text}
use marketview.Research.Tests.{
  ascii, digest_text, sample_corpus, sample_deadline, sample_embedding, sample_manifest,
}
use marketview.Research.Plane.State.{empty_plane}
use marketview.Research.Service.Prepare.{
  Given, IngestionResult, Prepared, created, embedded, evidence_from, manifest_of, prepare,
}
use marketview.Research.Evidence.{
  FilingDocument, canonical_chunk_id, canonical_citation_digest, canonical_evidence_digest,
  canonical_generation_id, chunk_id_for, from_document, is_cik, make_evidence, make_reference,
  reference_of,
}
use marketview.Base.{
  List-decides, Option-decides, [], false, first, none, refl, some, true, ◌∷◌, ◌≡◌, ◌⊎◌, List,
}
use marketview.Base.Result.{ok}
use marketview.Research.Plane.{
  accession_digest, acquire_generation_lease, commit_publication, get_active_generation,
  get_generation_stage, is_of, list_active_generations, mark_generation_verified, owns,
  publish_generation, record_cleanup, replace_stage, stage_generation, store_stage,
}
use marketview.Research.Python.{
  canonical_digest, decimal, decimal_onto, fullmatch, is_accession, is_chunk_id, is_digest,
  is_generation_id, is_symbol, is_version, strip,
}
use marketview.Research.Domain.{
  CorpusDescriptor-discrete, EmbeddingDescriptor-discrete, GenerationManifest-discrete,
  GenerationVerification-discrete, corpus_key, distinct, embedding_key, from_point_ids, make_corpus,
  make_embedding, make_manifest, make_verification, proves, require_text, GenerationManifest,
  CorpusDescriptor,
}
use marketview.Research.Domain.Outcome.{
  failed_outcome, make_outcome, outcome_proves, verified_outcome,
}
use marketview.Research.Deadline.{after, child, raise_if_expired, remaining_seconds}
use marketview.Research.Records.{
  AccessionLease-discrete, GenerationStageRecord-discrete, SupersededCleanupRecord-discrete,
  has_proof, make_checkpoint, make_claim, make_cleanup, make_lease, make_reservation, make_result,
  make_stage, recoverable_generation_records, require_public_digest, with_state,
}
use marketview.Research.Plane.Cleanup.{
  abort_generation, clean_generation, list_pending_cleanups, mark_superseded_cleaned,
  release_generation_lease,
}
use marketview.Research.Vectors.{
  EmbeddedChunk-discrete, EvidenceChunk-discrete, delete_generation, entries_state, entry_state,
  find_generation, inspect_generation, make_inspection, point_ids, points, validate_generation,
  verify_entry, verify_generation,
}
use marketview.Research.Service.Run.{
  calling, failing_at, finally, gets, handle, lift, modify, on_plane, on_plane_twice, on_store,
  pure, throw, write_store, ◌>>=◌,
}
use marketview.Research.Service.Steps.{
  abandon, attempt, check_latest, check_recovered, check_recovery, cleanup_all, cleanup_one,
  cleanup_superseded, publish_verified, remaining, stage_and_verify,
}
use marketview.Research.Tests.Calls.{empty_plane-IsSound}
use marketview.Research.Plane.Refinement.{
  ChosenFrom, asked_by, view, publish_all, after_all-refines,
}
use marketview.Research.Plane.Soundness.{after_all, acquire_call}
use marketview.Research.Vectors as Vectors

abbrev sample_document : FilingDocument
sample_document = record {
  symbol = codes "AAPL";
  cik = codes "0000320193";
  accession_number = codes "0000320193-24-000123";
  filing_type = codes "10-K";
  title = codes "Annual report";
  filed_date = 20240102;
  source_url = codes "https://www.sec.gov/a";
  text = codes "Revenue rose.";
  content_hash = digest_text;
}

-- A chunker of one chunk, an embedder of one vector, and a clock that stands at 1.
abbrev sample_given : Given
sample_given = record {
  py = ascii;
  isoformat = λ d. codes "2024-01-02";
  is_trusted_url = λ url cik accession. true;
  chunk_document = λ d. ok (d.text ∷ []);
  embed_documents =
      λ texts deadline i. ok ((record { descriptor = sample_embedding; values = 1 ∷ 0 ∷ [] }) ∷ []);
  time = λ i. 1;
  owner = digest_text;
}

abbrev created_one : IngestionResult
created_one = record {
  outcome = created;
  inserted_count = 1;
  removed_count = 0;
  cleanup_pending_count = 0;
}

ingested :
    (ingest sample_given sample_corpus sample_deadline sample_document false empty_plane []).0
    ≡ ok created_one
unfolding fullmatch is_digest is_generation_id is_chunk_id is_symbol is_version decimal_onto decimal
    is_accession strip canonical_digest is_cik make_reference canonical_citation_digest
    canonical_generation_id canonical_evidence_digest chunk_id_for canonical_chunk_id make_evidence
    reference_of from_document distinct embedding_key corpus_key require_text make_embedding
    make_corpus make_manifest make_verification from_point_ids proves make_outcome verified_outcome
    failed_outcome outcome_proves after remaining_seconds raise_if_expired child
    require_public_digest make_lease has_proof make_stage with_state recoverable_generation_records
    make_cleanup make_checkpoint make_claim make_result make_reservation replace_stage
    accession_digest owns acquire_generation_lease store_stage mark_generation_verified
    get_generation_stage get_active_generation list_active_generations record_cleanup
    commit_publication publish_generation list_pending_cleanups mark_superseded_cleaned
    abort_generation clean_generation release_generation_lease make_inspection find_generation
    point_ids validate_generation delete_generation points entry_state entries_state
    inspect_generation verify_entry verify_generation pure throw gets lift calling on_plane
    on_plane_twice on_store write_store modify ◌>>=◌ handle finally failing_at embedded
    evidence_from manifest_of prepare attempt remaining cleanup_one cleanup_all cleanup_superseded
    check_recovered check_recovery stage_and_verify check_latest publish_verified abandon
    leave_active replace_active ingest_leased clean_up recover release ingest_prepared ingest_impl
    ingest stage_generation Vectors.stage_generation List-decides Option-decides
    GenerationManifest-discrete CorpusDescriptor-discrete EmbeddingDescriptor-discrete
    GenerationVerification-discrete AccessionLease-discrete GenerationStageRecord-discrete
    SupersededCleanupRecord-discrete EvidenceChunk-discrete EmbeddedChunk-discrete ℕ_discrete
ingested = refl

ingest-succeeds_example :
    let before =
      first (is_of sample_corpus sample_document.symbol sample_document.accession_number) [] in
    let active' =
      (ingest sample_given sample_corpus sample_deadline sample_document false empty_plane
        []).1.plane.active in
    (x : Prepared) × (prepare sample_given sample_corpus sample_document ≡ ok x)
    × (created_one.outcome ≡ outcome_for before x.manifest)
    × ((1, 0) ≡ counts_for before x)
    × (first (is_of x.manifest.corpus x.manifest.symbol x.manifest.accession_number) active'
        ≡ some x.manifest)
ingest-succeeds_example =
    ingest-succeeds sample_given sample_corpus sample_deadline sample_document false empty_plane []
      created_one ingested

ingest-moves_example :
    let active' =
      (ingest sample_given sample_corpus sample_deadline sample_document false empty_plane
        []).1.plane.active in
    let is_it = is_of sample_corpus (codes "MSFT") sample_document.accession_number in
    (first is_it active' ≡ none)
    ⊎ ((x : Prepared) × (prepare sample_given sample_corpus sample_document ≡ ok x)
        × (is_it x.manifest ≡ true)
        × (first is_it active' ≡ some x.manifest))
ingest-moves_example =
    ingest-moves sample_given sample_corpus sample_deadline sample_document false empty_plane []
      sample_corpus (codes "MSFT") sample_document.accession_number

ingest-IsSound_example :
    IsSound ascii
      (ingest sample_given sample_corpus sample_deadline sample_document true empty_plane
        []).1.plane
ingest-IsSound_example =
    ingest-IsSound sample_given sample_corpus sample_deadline sample_document true empty_plane []
      empty_plane-IsSound

after_all-refines_example :
    (ms : List GenerationManifest) × ChosenFrom ms
      (asked_by (acquire_call sample_manifest digest_text 60 sample_deadline 1 ∷ []))
    × ((corpus : CorpusDescriptor) (symbol accession : Text)
        → view
            (after_all ascii
              (acquire_call sample_manifest digest_text 60 sample_deadline 1 ∷ [])
              empty_plane)
            corpus
            symbol
            accession
          ≡ publish_all ms (view empty_plane) corpus symbol accession)
after_all-refines_example =
    after_all-refines ascii (acquire_call sample_manifest digest_text 60 sample_deadline 1 ∷ [])
      empty_plane
