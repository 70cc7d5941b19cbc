-- ===== src/Research/Python.antt =====
-- What the research code takes from Python's standard library, as parameters: case mapping, the
-- Unicode classes that `str.strip` and `\d` test, and SHA-256 in lowercase hexadecimal. The patterns
-- are written out over these.
pub mod Stripping
use marketview.Base.{
  ℕ, zero, suc, ◌+◌, ◌/◌, ◌%◌, Bool, true, false, ◌&&◌, ◌||◌, List, [], ◌∷◌, ◌++◌, map, ltb, leb,
  eqb, if◌then◌else◌, length, first, all,
}
use marketview.Base.Texts.{Text, codes}

pub record Python : Type 0 where
  pub upper : Text → Text
  pub lower : Text → Text
  pub is_space : ℕ → Bool
  pub is_decimal : ℕ → Bool
  pub sha256 : Text → Text

-- `[lo-hi]`
abbrev pub between : ℕ → ℕ → ℕ → Bool
between lo hi c = leb lo c && leb c hi

-- `[0-9a-f]`
abbrev pub is_hex : ℕ → Bool
is_hex c = between 48 57 c || between 97 102 c

-- `[A-Z0-9]`
abbrev pub is_upper_alnum : ℕ → Bool
is_upper_alnum c = between 65 90 c || between 48 57 c

-- `[A-Za-z0-9]`
abbrev pub is_alnum : ℕ → Bool
is_alnum c = between 65 90 c || between 97 122 c || between 48 57 c

-- `fullmatch` of a pattern with one class for each character.
unfoldable pub fullmatch : List (ℕ → Bool) → Text → Bool
fullmatch [] [] = true
fullmatch [] (_ ∷ _) = false
fullmatch (_ ∷ _) [] = false
fullmatch (p ∷ ps) (c ∷ s) = p c && fullmatch ps s

abbrev pub replicate {ℓ} : {A : Type ℓ} → ℕ → A → List A
replicate zero a = []
replicate (suc n) a = a ∷ replicate n a

abbrev pub literal : Text → List (ℕ → Bool)
literal = map (λ c. eqb c)

-- `[0-9a-f]{64}`
unfoldable pub is_digest : Text → Bool
unfolding fullmatch
is_digest = fullmatch (replicate 64 is_hex)

-- `gen-[0-9a-f]{64}`
unfoldable pub is_generation_id : Text → Bool
unfolding fullmatch
is_generation_id = fullmatch (literal (codes "gen-") ++ replicate 64 is_hex)

-- `chunk-[0-9a-f]{64}`
unfoldable pub is_chunk_id : Text → Bool
unfolding fullmatch
is_chunk_id = fullmatch (literal (codes "chunk-") ++ replicate 64 is_hex)

-- A first character of one class, then at most `n` of another.
abbrev pub headed : (ℕ → Bool) → (ℕ → Bool) → ℕ → Text → Bool
headed first rest n [] = false
headed first rest n (c ∷ s) = first c && all rest s && leb (length s) n

-- `^[A-Z0-9][A-Z0-9.\-]{0,31}$`
unfoldable pub is_symbol : Text → Bool
is_symbol = headed is_upper_alnum (λ c. is_upper_alnum c || eqb c 46 || eqb c 45) 31

-- `^[A-Za-z0-9][A-Za-z0-9._:/-]{0,127}$`
unfoldable pub is_version : Text → Bool
is_version =
    headed is_alnum (λ c. is_alnum c || eqb c 46 || eqb c 95 || eqb c 58 || eqb c 47 || eqb c 45)
      127

-- `xs.lstrip()` for the characters of one class
abbrev pub lstrip : (ℕ → Bool) → Text → Text
lstrip p [] = []
lstrip p (c ∷ s) = if p c then lstrip p s else c ∷ s

abbrev pub rstrip : (ℕ → Bool) → Text → Text
rstrip p [] = []
rstrip p (c ∷ s) = elim (rstrip p s) [ [] ↦ if p c then [] else c ∷ [] | x ∷ xs ↦ c ∷ x ∷ xs ]

-- `"\x1f".join(parts)`
abbrev pub join : Text → List Text → Text
join sep [] = []
join sep (x ∷ []) = x
join sep (x ∷ y ∷ xs) = x ++ sep ++ join sep (y ∷ xs)

-- The decimal digits of a number below `10 ^ fuel`, before `rest`.
unfoldable pub decimal_onto : ℕ → ℕ → Text → Text
decimal_onto zero n rest = rest
decimal_onto (suc fuel) n rest =
    let more = decimal_onto fuel (n / 10) ((48 + n % 10) ∷ rest) in
    if ltb n 10 then (48 + n) ∷ rest else more

-- `str(n)`; `n + 1` digits are always enough.
unfoldable pub decimal : ℕ → Text
unfolding decimal_onto
decimal n = decimal_onto (suc n) n []

module _ (py : Python) where
  -- `^\d{10}-\d{2}-\d{6}$`
  abbrev pub accession_pattern : List (ℕ → Bool)
  accession_pattern =
      replicate 10 py.is_decimal
      ++ (literal (codes "-")
          ++ (replicate 2 py.is_decimal ++ (literal (codes "-") ++ replicate 6 py.is_decimal)))

  unfoldable pub is_accession : Text → Bool
  unfolding fullmatch
  is_accession = fullmatch accession_pattern

  -- `str.strip`
  unfoldable pub strip : Text → Text
  strip s = rstrip py.is_space (lstrip py.is_space s)

  -- `_canonical_digest`
  unfoldable pub canonical_digest : List Text → Text
  canonical_digest parts = py.sha256 (join (31 ∷ []) parts)
