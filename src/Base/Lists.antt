-- ===== src/Base/Lists.antt =====
-- Lists measured and indexed by native numbers, under the library's names, and Python's generator
-- expressions over a Boolean test.
use Prim.Native.Nat.{ℕ, zero, suc, ◌+◌, ◌≤◌}
use mathlib.Core.Bool.{not, Bool, true, false, ◌&&◌, ◌||◌}
use mathlib.Core.List.{List, [], ◌∷◌, ◌++◌}
use mathlib.Core.Option.{Option, none, some}
use mathlib.Core.Path.{◌≡◌, refl}
use native.Mathlib.Omega.{arith}
use mathlib.Core.Logic.{inl, inr}
use marketview.Base.Tests.{if◌then◌else◌, Bool-cases}

module _ {ℓ} {A : Type ℓ} where
  abbrev pub length : List A → ℕ
  length [] = 0
  length (x ∷ xs) = suc (length xs)

  pub length-append : (xs ys : List A) → length (xs ++ ys) ≡ length xs + length ys
  length-append [] ys = omega arith
  length-append (x ∷ xs) ys = omega (arith, length-append xs ys)

  -- `[x for x in xs if p(x)]`
  abbrev pub keep : (A → Bool) → List A → List A
  keep p [] = []
  keep p (x ∷ xs) = if p x then x ∷ keep p xs else keep p xs

  -- `next((x for x in xs if p(x)), None)`
  abbrev pub first : (A → Bool) → List A → Option A
  first p [] = none
  first p (x ∷ xs) = if p x then some x else first p xs

  abbrev pub any : (A → Bool) → List A → Bool
  any p [] = false
  any p (x ∷ xs) = p x || any p xs

  abbrev pub all : (A → Bool) → List A → Bool
  all p [] = true
  all p (x ∷ xs) = p x && all p xs

  abbrev pub take : ℕ → List A → List A
  take zero xs = []
  take (suc n) [] = []
  take (suc n) (x ∷ xs) = x ∷ take n xs

  abbrev pub drop : ℕ → List A → List A
  drop zero xs = xs
  drop (suc n) [] = []
  drop (suc n) (x ∷ xs) = drop n xs

  pub first_satisfies : (p : A → Bool) (xs : List A) (x : A) → first p xs ≡ some x → p x ≡ true
  first_satisfies p [] x h = ground (arith, h)
  first_satisfies p (y ∷ ys) x h = elim (Bool-cases (p y)) [
    | inl e ↦ ground (arith, e, h)
    | inr e ↦ first_satisfies p ys x (rw e at h)
  ]

  -- What an update by key leaves: the entries of the other keys, then the new one.
  pub first-keep-not :
      (p : A → Bool) (x : A) (xs : List A)
      → p x ≡ true
      → first p (keep (λ y. not (p y)) xs ++ x ∷ []) ≡ some x
  first-keep-not p x [] h = rw h
  first-keep-not p x (y ∷ ys) h = ground (arith, first-keep-not p x ys h)

  -- A search that the removed and the added entries cannot meet is not changed.
  pub first-keep_other :
      (p q : A → Bool) (x : A) (xs : List A)
      → ((y : A) → q y ≡ true → p y ≡ false)
      → p x ≡ false
      → first p (keep (λ y. not (q y)) xs ++ x ∷ []) ≡ first p xs
  first-keep_other p q x [] h e = rw e
  first-keep_other p q x (y ∷ ys) h e = ground (arith, first-keep_other p q x ys h e, h y)

  -- A test that holds of every entry holds of those that are kept.
  pub all-keep : (p q : A → Bool) (xs : List A) → all p xs ≡ true → all p (keep q xs) ≡ true
  all-keep p q [] h = refl
  all-keep p q (x ∷ xs) h = ground (arith, all-keep p q xs)

  pub all-append :
      (p : A → Bool) (xs ys : List A) → all p xs ≡ true → all p ys ≡ true → all p (xs ++ ys) ≡ true
  all-append p [] ys h k = k
  all-append p (x ∷ xs) ys h k = ground (arith, all-append p xs ys)

  -- How many entries pass a test.
  abbrev pub count : (A → Bool) → List A → ℕ
  count p [] = 0
  count p (x ∷ xs) = if p x then suc (count p xs) else count p xs

  pub count-append : (p : A → Bool) (xs ys : List A) → count p (xs ++ ys) ≡ count p xs + count p ys
  count-append p [] ys = omega arith
  count-append p (x ∷ xs) ys = ground (arith, count-append p xs ys)

  pub count-keep-le : (p q : A → Bool) (xs : List A) → count p (keep q xs) ≤ count p xs
  count-keep-le p q [] = omega arith
  count-keep-le p q (x ∷ xs) = ground (arith, count-keep-le p q xs)

  pub count-keep-not : (p : A → Bool) (xs : List A) → count p (keep (λ y. not (p y)) xs) ≡ 0
  count-keep-not p [] = refl
  count-keep-not p (x ∷ xs) = ground (arith, count-keep-not p xs)

  pub count-of_not_any : (p : A → Bool) (xs : List A) → any p xs ≡ false → count p xs ≡ 0
  count-of_not_any p [] h = refl
  count-of_not_any p (x ∷ xs) h = ground (arith, count-of_not_any p xs)

  count-keep_covered :
      (p q : A → Bool) (xs : List A)
      → ((y : A) → p y ≡ true → q y ≡ true)
      → count p (keep (λ y. not (q y)) xs) ≡ 0
  count-keep_covered p q [] h = refl
  count-keep_covered p q (x ∷ xs) h = ground (arith, count-keep_covered p q xs h, h x)

  -- Replacing the entries of a key by one entry keeps every key to one entry at most.
  pub count-replace :
      (p q : A → Bool) (x : A) (xs : List A)
      → (p x ≡ true → (y : A) → p y ≡ true → q y ≡ true)
      → count p xs ≤ 1
      → count p (keep (λ y. not (q y)) xs ++ x ∷ []) ≤ 1
  count-replace p q x xs h le = elim (Bool-cases (p x)) [
    | inl same ↦ ground (
      arith,
      count-append p (keep (λ y. not (q y)) xs) (x ∷ []),
      count-keep_covered p q xs (h same),
    )
    | inr other ↦ ground (
      arith,
      count-append p (keep (λ y. not (q y)) xs) (x ∷ []),
      count-keep-le p (λ y. not (q y)) xs,
    )
  ]
