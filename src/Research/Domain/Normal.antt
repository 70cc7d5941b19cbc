-- ===== src/Research/Domain/Normal.antt =====
-- The constructors normalise: what one returns, it returns again. So a record that was built by its
-- constructor is a fixed point, which is what reading it back needs.
use marketview.Base.Result.{ok}
use marketview.Base.Texts.{Text, codes}
use marketview.Research.Domain.{
  GenerationManifest, require_text, GenerationVerification, make_embedding, make_verification,
  make_corpus, make_manifest,
}
use marketview.Research.Python.Stripping.{
  IsPython, length-fullmatch, length-headed, strip-of_is_symbol, strip-of_is_accession,
  strip-of_is_digest, strip-of_is_generation_id,
}
use marketview.Research.Python.{
  Python, is_accession, is_digest, is_symbol, is_generation_id, strip, accession_pattern, replicate,
  literal, is_hex,
}
use marketview.Base.{◌≡◌, true, none, some, Option, ℕ, ◌<◌, arith, length, ◌≤◌, ◌++◌}

module _ (py : Python) where
  -- A manifest whose parts their constructors return unchanged.
  pub record IsManifest (m : GenerationManifest) : Type 0 where
    pub embedding :
        make_embedding py m.corpus.embedding.provider m.corpus.embedding.model
          m.corpus.embedding.version m.corpus.embedding.dimensions
        ≡ ok m.corpus.embedding
    pub corpus :
        make_corpus py m.corpus.corpus_version m.corpus.chunker_version m.corpus.embedding
        ≡ ok m.corpus
    pub manifest :
        make_manifest py m.corpus m.symbol m.accession_number m.generation_id m.content_hash
          m.chunk_ids
        ≡ ok m

  abbrev pub IsVerification : Option GenerationVerification → Type 0
  IsVerification none = Unit {0}
  IsVerification (some v) =
      make_verification py v.generation_id v.point_count v.point_ids_hash ≡ ok v

  module _ (laws : IsPython py) where
    require_text-eq :
        (s : Text) (n : ℕ)
        → strip py s ≡ s
        → 0 < length s
        → length s ≤ n
        → require_text py s n ≡ ok s
    unfolding require_text
    require_text-eq s n e pos le = rw e (ground arith)

    pub require_text-of_is_digest : (s : Text) → is_digest s ≡ true → require_text py s 64 ≡ ok s
    unfolding is_digest
    require_text-of_is_digest s h =
        let n = length-fullmatch (replicate 64 is_hex) s h in
        require_text-eq s 64 (strip-of_is_digest py laws s h) (omega arith) (omega arith)

    pub require_text-of_is_generation_id :
        (s : Text) → is_generation_id s ≡ true → require_text py s 80 ≡ ok s
    unfolding is_generation_id
    require_text-of_is_generation_id s h =
        let n = length-fullmatch (literal (codes "gen-") ++ replicate 64 is_hex) s h in
        require_text-eq s 80 (strip-of_is_generation_id py laws s h) (omega arith) (omega arith)

    pub require_text-of_is_accession :
        (s : Text) → is_accession py s ≡ true → require_text py s 20 ≡ ok s
    unfolding is_accession
    require_text-of_is_accession s h =
        let n = length-fullmatch (accession_pattern py) s h in
        require_text-eq s 20 (strip-of_is_accession py laws s h) (omega arith) (omega arith)

    pub require_text-of_is_symbol : (s : Text) → is_symbol s ≡ true → require_text py s 32 ≡ ok s
    unfolding is_symbol
    require_text-of_is_symbol s h =
        let n = length-headed _ _ 31 s h in
        require_text-eq s 32 (strip-of_is_symbol py laws s h) n.0 n.1

    -- A verification is returned unchanged when it is made of a canonical generation ID, a positive
    -- count and a digest.
    pub make_verification-eq :
        (g : Text) (n : ℕ) (h : Text)
        → is_generation_id g ≡ true
        → 0 < n
        → is_digest h ≡ true
        → make_verification py g n h
          ≡ ok (record { generation_id = g; point_count = n; point_ids_hash = h })
    unfolding make_verification
    make_verification-eq g n h hg hn hh =
        rw (require_text-of_is_generation_id g hg, require_text-of_is_digest h hh, hg, hh)
          (ground arith)
