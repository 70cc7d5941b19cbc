-- ===== src/Research/Python/Stripping.antt =====
-- Text in one of the canonical patterns has no white space, so `strip` keeps it.
use marketview.Base.Texts.{Text, codes}
use marketview.Research.Python.{
  fullmatch, Python, strip, is_hex, between, is_digest, replicate, rstrip, lstrip, is_symbol,
  is_version, is_accession, is_generation_id, literal, accession_pattern, headed,
}
use marketview.Base.{
  ◌≡◌, refl, [], ◌∷◌, zero, suc, true, false, List, ℕ, all, arith, Bool, ◌++◌, not, &&-eq-true,
  length, ◌&&◌, ◌<◌, leb, ◌≤◌, ◌+◌,
}

-- What the standard library documents of its text and hash functions: white space holds no printable
-- ASCII character and no decimal digit, upper case keeps a symbol, lower case is its own lower case,
-- and a SHA-256 digest is 64 lowercase hexadecimal digits.
pub record IsPython (py : Python) : Type 0 where
  pub space_printable : (c : ℕ) → between 33 126 c ≡ true → py.is_space c ≡ false
  pub space_decimal : (c : ℕ) → py.is_decimal c ≡ true → py.is_space c ≡ false
  pub upper-is_symbol : (s : Text) → is_symbol s ≡ true → py.upper s ≡ s
  pub lower-lower : (s : Text) → py.lower (py.lower s) ≡ py.lower s
  pub sha256-is_digest : (s : Text) → is_digest (py.sha256 s) ≡ true

-- Every class of a pattern implies `q`.
abbrev pub Implies : List (ℕ → Bool) → (ℕ → Bool) → Type 0
Implies [] q = Unit {0}
Implies (p ∷ ps) q = ((c : ℕ) → p c ≡ true → q c ≡ true) × Implies ps q

pub Implies-replicate :
    (n : ℕ) (p q : ℕ → Bool) → ((c : ℕ) → p c ≡ true → q c ≡ true) → Implies (replicate n p) q
Implies-replicate zero p q h = tt
Implies-replicate (suc n) p q h = (h, Implies-replicate n p q h)

pub Implies-append :
    (ps rs : List (ℕ → Bool)) (q : ℕ → Bool) → Implies ps q → Implies rs q → Implies (ps ++ rs) q
Implies-append [] rs q h k = k
Implies-append (p ∷ ps) rs q h k = (h.0, Implies-append ps rs q h.1 k)

pub all-fullmatch :
    (ps : List (ℕ → Bool)) (q : ℕ → Bool) (s : Text)
    → Implies ps q
    → fullmatch ps s ≡ true
    → all q s ≡ true
unfolding fullmatch
all-fullmatch [] q [] h m = refl
all-fullmatch [] q (c ∷ s) h m = cc
all-fullmatch (p ∷ ps) q [] h m = cc
all-fullmatch (p ∷ ps) q (c ∷ s) h m =
    let both = &&-eq-true (p c) (fullmatch ps s) m in
    rw (h.0 c both.0, all-fullmatch ps q s h.1 both.1)

pub length-fullmatch :
    (ps : List (ℕ → Bool)) (s : Text) → fullmatch ps s ≡ true → length s ≡ length ps
unfolding fullmatch
length-fullmatch [] [] m = refl
length-fullmatch [] (c ∷ s) m = cc
length-fullmatch (p ∷ ps) [] m = cc
length-fullmatch (p ∷ ps) (c ∷ s) m =
    omega (arith, length-fullmatch ps s (&&-eq-true (p c) (fullmatch ps s) m).1)

all-implies :
    (p q : ℕ → Bool) (s : Text)
    → ((c : ℕ) → p c ≡ true → q c ≡ true)
    → all p s ≡ true
    → all q s ≡ true
all-implies p q [] h m = refl
all-implies p q (c ∷ s) h m =
    let both = &&-eq-true (p c) (all p s) m in rw (h c both.0, all-implies p q s h both.1)

all-headed :
    (first rest : ℕ → Bool) (n : ℕ) (q : ℕ → Bool) (s : Text)
    → ((c : ℕ) → first c ≡ true → q c ≡ true)
    → ((c : ℕ) → rest c ≡ true → q c ≡ true)
    → headed first rest n s ≡ true
    → all q s ≡ true
all-headed first rest n q [] f g m = refl
all-headed first rest n q (c ∷ s) f g m =
    let outer = &&-eq-true (first c && all rest s) (leb (length s) n) m in
    let inner = &&-eq-true (first c) (all rest s) outer.0 in
    rw (f c inner.0, all-implies rest q s g inner.1)

pub length-headed :
    (first rest : ℕ → Bool) (n : ℕ) (s : Text)
    → headed first rest n s ≡ true
    → (0 < length s) × (length s ≤ n + 1)
length-headed first rest n [] m = cc
length-headed first rest n (c ∷ s) m = ground arith

module _ (py : Python) where
  abbrev pub not_space : ℕ → Bool
  not_space c = not (py.is_space c)

  rstrip-of_not_space : (s : Text) → all not_space s ≡ true → rstrip py.is_space s ≡ s
  rstrip-of_not_space [] h = refl
  rstrip-of_not_space (c ∷ []) h = ground arith
  rstrip-of_not_space (c ∷ d ∷ s) h =
      rw (rstrip-of_not_space (d ∷ s) (&&-eq-true (not_space c) (all not_space (d ∷ s)) h).1)

  lstrip-of_not_space : (s : Text) → all not_space s ≡ true → lstrip py.is_space s ≡ s
  lstrip-of_not_space [] h = refl
  lstrip-of_not_space (c ∷ s) h = ground arith

  pub strip-of_not_space : (s : Text) → all not_space s ≡ true → strip py s ≡ s
  unfolding strip
  strip-of_not_space s h = rw (lstrip-of_not_space s h) (rstrip-of_not_space s h)

  module _ (laws : IsPython py) where
    printable→not_space : (c : ℕ) → between 33 126 c ≡ true → not_space c ≡ true
    printable→not_space c h = rw (laws.space_printable c h)

    hex→not_space : (c : ℕ) → is_hex c ≡ true → not_space c ≡ true
    hex→not_space c h = printable→not_space c (ground arith)

    decimal→not_space : (c : ℕ) → py.is_decimal c ≡ true → not_space c ≡ true
    decimal→not_space c h = rw (laws.space_decimal c h)

    literal→not_space :
        (t : Text) → all (λ c. between 33 126 c) t ≡ true → Implies (literal t) not_space
    literal→not_space [] h = tt
    literal→not_space (c ∷ t) h =
        let both = &&-eq-true (between 33 126 c) (all (λ d. between 33 126 d) t) h in
        (λ d e. printable→not_space d (ground arith), literal→not_space t both.1)

    -- `str.strip` keeps every canonical digest and identifier.
    pub strip-of_is_digest : (s : Text) → is_digest s ≡ true → strip py s ≡ s
    unfolding is_digest
    strip-of_is_digest s h = strip-of_not_space s (
        all-fullmatch (replicate 64 is_hex) not_space s
          (Implies-replicate 64 is_hex not_space hex→not_space) h)

    pub strip-of_is_generation_id : (s : Text) → is_generation_id s ≡ true → strip py s ≡ s
    unfolding is_generation_id
    strip-of_is_generation_id s h = strip-of_not_space s (
        all-fullmatch (literal (codes "gen-") ++ replicate 64 is_hex) not_space s
          (Implies-append (literal (codes "gen-")) (replicate 64 is_hex) not_space
            (literal→not_space (codes "gen-") refl)
            (Implies-replicate 64 is_hex not_space hex→not_space))
          h)

    accession-not_space : Implies (accession_pattern py) not_space
    accession-not_space =
        let digits = λ (n : ℕ). Implies-replicate n py.is_decimal not_space decimal→not_space in
        let dash : Implies (literal (codes "-")) not_space = literal→not_space (codes "-") refl in
        Implies-append (replicate 10 py.is_decimal)
          (literal (codes "-")
            ++ (replicate 2 py.is_decimal ++ (literal (codes "-") ++ replicate 6 py.is_decimal)))
          not_space (digits 10)
          (
            dash.0,
            Implies-append (replicate 2 py.is_decimal)
                (literal (codes "-") ++ replicate 6 py.is_decimal) not_space (digits 2)
                (dash.0, digits 6),
          )

    pub strip-of_is_accession : (s : Text) → is_accession py s ≡ true → strip py s ≡ s
    unfolding is_accession
    strip-of_is_accession s h =
        strip-of_not_space s
          (all-fullmatch (accession_pattern py) not_space s accession-not_space h)

    pub strip-of_is_symbol : (s : Text) → is_symbol s ≡ true → strip py s ≡ s
    unfolding is_symbol
    strip-of_is_symbol s h = strip-of_not_space s (
        all-headed _ _ 31 not_space s (λ c e. printable→not_space c (ground arith))
          (λ c e. printable→not_space c (ground arith)) h)

    pub strip-of_is_version : (s : Text) → is_version s ≡ true → strip py s ≡ s
    unfolding is_version
    strip-of_is_version s h = strip-of_not_space s (
        all-headed _ _ 127 not_space s (λ c e. printable→not_space c (ground arith))
          (λ c e. printable→not_space c (ground arith)) h)
