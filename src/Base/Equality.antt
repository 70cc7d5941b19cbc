-- ===== src/Base/Equality.antt =====
-- Python's `==` on values: a Boolean test that decides equality.
use Prim.Native.Nat.{ℕ}
use mathlib.Core.Bool.{Bool, true, false}
use mathlib.Core.List.{List, [], ◌∷◌}
use mathlib.Core.Option.{Option, none, some}
use mathlib.Core.Path.{◌≡◌, refl}
use native.Mathlib.Decide.{ℕ_discrete}
use native.Mathlib.Omega.{arith}

pub record Eq {ℓ} (A : Type ℓ) : Type ℓ where
  pub decides : Discrete A

module _ {ℓ} {A : Type ℓ} ⦃e : Eq A⦄ where
  infix 50 ◌==◌ ◌!=◌
  abbrev pub ◌==◌ : A → A → Bool
  a == b = elim (e.decides a b) [ yes _ ↦ true | no _ ↦ false ]

  abbrev pub ◌!=◌ : A → A → Bool
  a != b = elim (e.decides a b) [ yes _ ↦ false | no _ ↦ true ]

  pub ==→eq : (a b : A) → (a == b) ≡ true → a ≡ b
  ==→eq a b h = ground arith

  pub ==_refl : (a : A) → (a == a) ≡ true
  ==_refl a = ground arith

  pub differs_refl : (a : A) → (a != a) ≡ false
  differs_refl a = ground arith

∷-decides :
    {A : Type 0} {x y : A} {xs ys : List A} → Dec (x ≡ y) → Dec (xs ≡ ys) → Dec (x ∷ xs ≡ y ∷ ys)
∷-decides (yes p) (yes q) = yes (cc)
∷-decides (yes p) (no n) = no (λ e. n (cc))
∷-decides (no n) r = no (λ e. n (cc))

unfoldable pub List-decides : {A : Type 0} → Discrete A → Discrete (List A)
unfolding ∷-decides
List-decides d [] [] = yes refl
List-decides d [] (y ∷ ys) = no (λ e. cc)
List-decides d (x ∷ xs) [] = no (λ e. cc)
List-decides d (x ∷ xs) (y ∷ ys) = ∷-decides (d x y) (List-decides d xs ys)

some-decides : {A : Type 0} {x y : A} → Dec (x ≡ y) → Dec (some x ≡ some y)
some-decides (yes p) = yes (cc)
some-decides (no n) = no (λ e. n (cc))

unfoldable pub Option-decides : {A : Type 0} → Discrete A → Discrete (Option A)
unfolding some-decides
Option-decides d none none = yes refl
Option-decides d none (some y) = no (λ e. cc)
Option-decides d (some x) none = no (λ e. cc)
Option-decides d (some x) (some y) = some-decides (d x y)

instance abbrev pub ℕ-Eq : Eq ℕ
ℕ-Eq = record { decides = ℕ_discrete }

instance abbrev pub List-Eq : {A : Type 0} ⦃e : Eq A⦄ → Eq (List A)
List-Eq ⦃e⦄ = record { decides = List-decides e.decides }

instance abbrev pub Option-Eq : {A : Type 0} ⦃e : Eq A⦄ → Eq (Option A)
Option-Eq ⦃e⦄ = record { decides = Option-decides e.decides }
