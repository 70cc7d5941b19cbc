-- ===== src/Research/Chunker/Windows.antt =====
-- The loop of `_section_chunks`: it ends, and its windows cover the tokens of the section.
use marketview.Base.Result.{ok}
use marketview.Research.Chunker.{Chunker, windows}
use marketview.Base.{
  ◌≡◌, [], ◌∷◌, zero, suc, true, false, inl, inr, ◌&&◌, ◌+◌, ◌-◌, ◌<◌, Bool, Bool-cases, List, any,
  arith, eqb, leb, ltb, ℕ, ◌≤◌, ltb→lt, min,
}

-- Windows that start at a token and end with the last: each holds a token and no more than the
-- maximum, and each but the last is full and shares exactly the overlap with the next.
abbrev pub is_chain : Chunker → ℕ → ℕ → List (ℕ × ℕ) → Bool
is_chain c n s [] = false
is_chain c n s ((a, b) ∷ []) = eqb a s && ltb a b && leb b (a + c.max_tokens) && eqb b n
is_chain c n s ((a, b) ∷ w ∷ ws) =
    eqb a s && eqb b (a + c.max_tokens) && ltb b n && is_chain c n (b - c.overlap_tokens) (w ∷ ws)

is_chain-cons :
    (c : Chunker) (n s : ℕ) (ws : List (ℕ × ℕ))
    → s + c.max_tokens < n
    → is_chain c n (s + c.max_tokens - c.overlap_tokens) ws ≡ true
    → is_chain c n s ((s, s + c.max_tokens) ∷ ws) ≡ true
is_chain-cons c n s [] l h = ground arith
is_chain-cons c n s (w ∷ ws) l h = ground arith

absurd_lt : (n s : ℕ) → s < n → n < s + 0 → ⊥
absurd_lt n s l f = omega arith

windows_step :
    (c : Chunker) (fuel n s : ℕ) (ws : List (ℕ × ℕ))
    → s + c.max_tokens < n
    → windows c fuel n (s + c.max_tokens - c.overlap_tokens) ≡ ok ws
    → windows c (suc fuel) n s ≡ ok ((s, s + c.max_tokens) ∷ ws)
unfolding windows
windows_step c fuel n s ws l e =
    let m : min (s + c.max_tokens) n ≡ s + c.max_tokens = omega arith in rw (m, e) (ground arith)

windows-is_chain :
    (c : Chunker) (fuel n s : ℕ)
    → c.overlap_tokens < c.max_tokens
    → s < n
    → n < s + fuel
    → (ws : List (ℕ × ℕ)) × ((windows c fuel n s ≡ ok ws) × (is_chain c n s ws ≡ true))
unfolding windows
windows-is_chain c zero n s o l f = absurd (absurd_lt n s l f)
windows-is_chain c (suc fuel) n s o l f = elim (Bool-cases (ltb (s + c.max_tokens) n)) [
  | inl more ↦
      let (ws, (e, h)) =
        windows-is_chain c fuel n (s + c.max_tokens - c.overlap_tokens) o (ground arith)
          (ground arith) in
      (
        (s, s + c.max_tokens) ∷ ws,
        (
          windows_step c fuel n s ws (ltb→lt (s + c.max_tokens) n more) e,
          is_chain-cons c n s ws (ltb→lt (s + c.max_tokens) n more) h,
        ),
      )
  | inr done ↦ ((s, n) ∷ [], (ground arith, ground arith))
]

pub is_chain-window :
    (c : Chunker) (n s a b : ℕ) (ws : List (ℕ × ℕ))
    → c.overlap_tokens < c.max_tokens
    → is_chain c n s ((a, b) ∷ ws) ≡ true
    → (a < b) × (b ≤ n)
is_chain-window c n s a b [] o h = (ground arith, ground arith)
is_chain-window c n s a b ((x, y) ∷ ws) o h = (ground arith, ground arith)

-- A token that some window holds.
abbrev pub holds : ℕ → ℕ × ℕ → Bool
holds i (a, b) = leb a i && ltb i b

is_chain-any-holds :
    (c : Chunker) (n s i : ℕ) (ws : List (ℕ × ℕ))
    → is_chain c n s ws ≡ true
    → s ≤ i
    → i < n
    → any (holds i) ws ≡ true
is_chain-any-holds c n s i [] h l m = ground arith
is_chain-any-holds c n s i ((a, b) ∷ []) h l m = ground arith
is_chain-any-holds c n s i ((a, b) ∷ w ∷ ws) h l m = elim (Bool-cases (ltb i b)) [
  | inl e ↦ ground arith
  | inr e ↦ ground (arith, is_chain-any-holds c n (b - c.overlap_tokens) i (w ∷ ws))
]

-- The loop over the tokens of a section, with fuel for one window more than the tokens, ends; its
-- windows start at the first token and end with the last, each holds a token and no more than the
-- maximum, each but the last is full and shares exactly the overlap with the next, and any token
-- stands in a window. This for an overlap below the maximum.
pub windows-covers :
    (c : Chunker) (n i : ℕ)
    → c.overlap_tokens < c.max_tokens
    → i < n
    → (ws : List (ℕ × ℕ)) × (windows c (suc n) n 0 ≡ ok ws)
      × (is_chain c n 0 ws ≡ true)
      × (any (holds i) ws ≡ true)
windows-covers c n i o l =
    let (ws, (e, h)) = windows-is_chain c (suc n) n 0 o (omega arith) (omega arith) in
    (ws, e, h, is_chain-any-holds c n 0 i ws h (omega arith) l)

pub windows-none : (c : Chunker) (n : ℕ) → n ≡ 0 → windows c (suc n) n 0 ≡ ok []
unfolding windows
windows-none c n e = ground arith
