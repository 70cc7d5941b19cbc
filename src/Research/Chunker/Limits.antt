-- ===== src/Research/Chunker/Limits.antt =====
-- What `chunk` returns and when it raises.
use marketview.Research.Deadline.{value_error}
use marketview.Research.Chunker.Windows.{is_chain, windows-covers, windows-none, is_chain-window}
use marketview.Base.Result.{err, ok}
use marketview.Base.Texts.{Text}
use marketview.Research.Python.{Python, strip}
use marketview.Research.Chunker.{
  Chunker, Match, Patterns, chunk, gather, get_elem, make_chunker, raises, section_chunks, sections,
  slice, usable, window_text, window_texts,
}
use marketview.Base.{
  ◌≡◌, refl, [], ◌∷◌, zero, suc, true, inl, inr, ◌++◌, ◌-◌, ◌<◌, Bool, Bool-cases, List, all, arith,
  eqb, keep, length, ltb, not, ℕ, ◌≤◌, ◌⊎◌, eqb→eq,
}

module _ (py : Python) (re : Patterns) (c : Chunker) where
  absurd_lt : (i : ℕ) → i < 0 → ⊥
  absurd_lt i l = omega arith

  get_elem-total {ℓ} :
      {A : Type ℓ} (xs : List A) (i : ℕ) → i < length xs → (x : A) × (get_elem xs i ≡ ok x)
  get_elem-total [] i l = absurd (absurd_lt i l)
  get_elem-total (x ∷ xs) zero l = (x, refl)
  get_elem-total (x ∷ xs) (suc i) l = get_elem-total xs i (omega arith)

  window_text-total :
      (section : Text) (matches : List Match) (a b : ℕ)
      → a < b
      → b ≤ length matches
      → (t : Text) × (window_text py re section matches (a, b) ≡ ok t)
  unfolding window_text
  window_text-total section matches a b l m =
      let (f, e) = get_elem-total matches a (omega arith) in
      let (g, k) = get_elem-total matches (b - 1) (omega arith) in
      (strip py (slice section f.start g.finish), rw (e, k) refl)

  window_texts-total :
      (section : Text) (matches : List Match) (s : ℕ) (ws : List (ℕ × ℕ))
      → c.overlap_tokens < c.max_tokens
      → is_chain c (length matches) s ws ≡ true
      → (ts : List Text) × (window_texts py re section matches ws ≡ ok ts)
  window_texts-total section matches s [] o h = ([], refl)
  window_texts-total section matches s ((a, b) ∷ []) o h =
      let (t, e) = window_text-total section matches a b (ground arith) (ground arith) in
      (t ∷ [], rw (e) refl)
  window_texts-total section matches s ((a, b) ∷ w ∷ ws) o h =
      let (l, m) = is_chain-window c (length matches) s a b (w ∷ ws) o h in
      let (t, e) = window_text-total section matches a b l m in
      let (ts, k) =
        window_texts-total section matches (b - c.overlap_tokens) (w ∷ ws) o (ground arith) in
      (t ∷ ts, rw (e, k) refl)

  section_chunks-total :
      (section : Text)
      → c.overlap_tokens < c.max_tokens
      → (ts : List Text) × (section_chunks py re c section ≡ ok ts)
  unfolding section_chunks
  section_chunks-total section o = elim (Bool-cases (eqb (length (re.find_tokens section)) 0)) [
    | inl none_found ↦ (
      [],
      rw
          (windows-none c (length (re.find_tokens section))
            (eqb→eq (length (re.find_tokens section)) 0 none_found))
          refl,
    )
    | inr found ↦
        let (ws, e, h, _) = windows-covers c (length (re.find_tokens section)) 0 o (ground arith) in
        let (ts, k) = window_texts-total section (re.find_tokens section) 0 ws o h in
        (ts, rw (e, k) refl)
  ]

  gather-cases :
      (chunks sections : List Text)
      → c.overlap_tokens < c.max_tokens
      → length chunks ≤ c.max_chunks
      → ((ts : List Text) × ((gather py re c chunks sections ≡ ok ts) × (length ts ≤ c.max_chunks)))
        ⊎ (gather py re c chunks sections ≡ err (raises value_error))
  unfolding gather
  gather-cases chunks [] o l = inl (chunks, (refl, l))
  gather-cases chunks (s ∷ ss) o l =
      let (new, e) = section_chunks-total s o in
      elim (Bool-cases (ltb c.max_chunks (length (chunks ++ new)))) [
        | inl many ↦ inr (rw (e, many) refl)
        | inr few ↦ rw (e, few) (gather-cases (chunks ++ new) ss o (ground arith))
      ]

  length-keep-le : (p : Text → Bool) (xs : List Text) → length (keep p xs) ≤ length xs
  length-keep-le p [] = omega arith
  length-keep-le p (x ∷ xs) = ground (arith, length-keep-le p xs)

  all-keep_self : (p : Text → Bool) (xs : List Text) → all p (keep p xs) ≡ true
  all-keep_self p [] = refl
  all-keep_self p (x ∷ xs) = ground (arith, all-keep_self p xs)

  -- A chunker that passed its constructor's tests returns chunks that are not empty, at least one
  -- and no more than its maximum, or raises a value error: it never runs on, and no index is out
  -- of range.
  pub chunk-cases :
      (text : Text)
      → make_chunker c ≡ ok c
      → ((ts : List Text) × ((chunk py re c text ≡ ok ts)
            × ((0 < length ts)
                × ((length ts ≤ c.max_chunks) × (all (λ s. not (eqb (length s) 0)) ts ≡ true)))))
        ⊎ (chunk py re c text ≡ err (raises value_error))
  unfolding chunk make_chunker usable
  chunk-cases text valid =
      elim (gather-cases [] (sections py re text) (ground arith) (omega arith)) [
        | inl (ts, (e, l)) ↦
            elim (Bool-cases (eqb (length (keep (λ s. not (eqb (length s) 0)) ts)) 0)) [
              | inl none_left ↦ inr (rw (e, none_left) refl)
              | inr some_left ↦ inl (
                keep (λ s. not (eqb (length s) 0)) ts,
                (
                  rw (e, some_left) refl,
                  (
                    ground arith,
                    (
                      omega (arith, length-keep-le (λ s. not (eqb (length s) 0)) ts),
                      all-keep_self (λ s. not (eqb (length s) 0)) ts,
                    ),
                  ),
                ),
              )
            ]
        | inr e ↦ inr (rw (e) refl)
      ]
