-- ===== src/Research/Retrieval/Chunks.antt =====
-- Lists of hits of distinct chunks.
use marketview.Base.Texts.{Text}
use marketview.Research.Retrieval.{SearchHit}
use marketview.Base.{
  ◌≡◌, refl, [], ◌∷◌, true, false, ◌&&◌, ◌++◌, ◌==◌, Bool, List, any, arith, not, ◌||◌, List-Eq,
  ℕ-Eq,
}

abbrev pub has_id : Text → SearchHit → Bool
has_id id h = h.evidence.chunk_id == id

-- No two hits have one chunk id.
abbrev pub has_distinct_chunks : List SearchHit → Bool
has_distinct_chunks [] = true
has_distinct_chunks (h ∷ hs) = not (any (has_id h.evidence.chunk_id) hs) && has_distinct_chunks hs

pub any-append-last :
    (p : SearchHit → Bool) (xs : List SearchHit) (h : SearchHit)
    → any p (xs ++ h ∷ []) ≡ (any p xs || p h)
any-append-last p [] h = ground arith
any-append-last p (x ∷ xs) h = ground (arith, any-append-last p xs h)

==_sym : (a b : Text) → (a == b) ≡ (b == a)
==_sym a b = ground arith

pub has_distinct_chunks-append :
    (xs : List SearchHit) (h : SearchHit)
    → has_distinct_chunks xs ≡ true
    → any (has_id h.evidence.chunk_id) xs ≡ false
    → has_distinct_chunks (xs ++ h ∷ []) ≡ true
has_distinct_chunks-append [] h d n = refl
has_distinct_chunks-append (x ∷ xs) h d n = ground (
  arith,
  has_distinct_chunks-append xs h,
  any-append-last (has_id x.evidence.chunk_id) xs h,
  ==_sym x.evidence.chunk_id h.evidence.chunk_id,
)

any-append :
    (p : SearchHit → Bool) (xs ys : List SearchHit) → any p (xs ++ ys) ≡ (any p xs || any p ys)
any-append p [] ys = refl
any-append p (x ∷ xs) ys = ground (arith, any-append p xs ys)

pub has_distinct_chunks-skip :
    (xs ys : List SearchHit) (h : SearchHit)
    → has_distinct_chunks (xs ++ h ∷ ys) ≡ true
    → has_distinct_chunks (xs ++ ys) ≡ true
has_distinct_chunks-skip [] ys h d = ground arith
has_distinct_chunks-skip (x ∷ xs) ys h d = ground (
  arith,
  has_distinct_chunks-skip xs ys h,
  any-append (has_id x.evidence.chunk_id) xs ys,
  any-append (has_id x.evidence.chunk_id) xs (h ∷ ys),
)

pub has_distinct_chunks-not_before :
    (xs ys : List SearchHit) (h : SearchHit)
    → has_distinct_chunks (xs ++ h ∷ ys) ≡ true
    → any (has_id h.evidence.chunk_id) xs ≡ false
has_distinct_chunks-not_before [] ys h d = refl
has_distinct_chunks-not_before (x ∷ xs) ys h d = ground (
  arith,
  has_distinct_chunks-not_before xs ys h,
  any-append (has_id x.evidence.chunk_id) xs (h ∷ ys),
  ==_sym x.evidence.chunk_id h.evidence.chunk_id,
)
