-- ===== src/Base/Dict.antt =====
-- A Python dict in insertion order, rebuilt by each update as the source does.
use marketview.Base.{
  ◌≡◌, refl, Option, none, some, List, [], ◌∷◌, arith, Eq, ◌==◌, ◌!=◌, if◌then◌else◌,
}

module _ {ℓ κ} {K : Type ℓ} {V : Type κ} ⦃e : Eq K⦄ where
  -- `d.get(k)`
  unfoldable pub lookup : K → List (K × V) → Option V
  lookup k [] = none
  lookup k ((j, v) ∷ d) = if k == j then some v else lookup k d

  -- `{**d, k: v}`
  unfoldable pub insert : K → V → List (K × V) → List (K × V)
  insert k v [] = (k, v) ∷ []
  insert k v ((j, w) ∷ d) = if k == j then (k, v) ∷ d else (j, w) ∷ insert k v d

  -- `{name: value for name, value in d.items() if name != k}`
  unfoldable pub without : K → List (K × V) → List (K × V)
  without k [] = []
  without k ((j, v) ∷ d) = if j != k then (j, v) ∷ without k d else without k d

  pub lookup-insert :
      (j k : K) (v : V) (d : List (K × V))
      → lookup j (insert k v d) ≡ (if j == k then some v else lookup j d)
  unfolding lookup insert
  lookup-insert j k v [] = refl
  lookup-insert j k v ((i, w) ∷ d) = ground (arith, lookup-insert j k v d)

  pub lookup-without :
      (j k : K) (d : List (K × V)) → lookup j (without k d) ≡ (if j == k then none else lookup j d)
  unfolding lookup without
  lookup-without j k [] = ground arith
  lookup-without j k ((i, w) ∷ d) = ground (arith, lookup-without j k d)
