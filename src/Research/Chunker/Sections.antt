-- ===== src/Research/Chunker/Sections.antt =====
-- The grouping of paragraphs into sections.
use mathlib.Core.List.{append_assoc}
use marketview.Base.Texts.{Text}
use marketview.Research.Python.{Python}
use marketview.Research.Chunker.{Patterns, group}
use marketview.Base.{
  ◌≡◌, refl, [], ◌∷◌, true, false, inl, inr, ◌++◌, Bool, List, all, not, arith, drop, Bool-cases,
  ◌&&◌, all-append, eqb, length,
}

abbrev pub concat : List (List Text) → List Text
concat [] = []
concat (g ∷ gs) = g ++ concat gs

module _ (py : Python) (re : Patterns) where
  -- A section: it is not empty, and none of its paragraphs but the first is a heading.
  abbrev pub is_section : List Text → Bool
  is_section [] = false
  is_section (p ∷ ps) = all (λ s. not (re.is_heading s)) ps

  concat-group_from : (current ps : List Text) → concat (group py re current ps) ≡ current ++ ps
  unfolding group
  concat-group_from [] [] = refl
  concat-group_from (x ∷ xs) [] = ground arith
  concat-group_from current (p ∷ ps) =
      elim (Bool-cases (re.is_heading p && not (eqb (length current) 0))) [
        | inl h ↦ ground (arith, concat-group_from (p ∷ []) ps)
        | inr h ↦
            ground
              (arith, concat-group_from (current ++ p ∷ []) ps, append_assoc current (p ∷ []) ps)
      ]

  group-is_section :
      (current ps : List Text)
      → all (λ s. not (re.is_heading s)) (drop 1 current) ≡ true
      → all is_section (group py re current ps) ≡ true
  unfolding group
  group-is_section [] [] h = refl
  group-is_section (x ∷ xs) [] h = ground arith
  group-is_section [] (p ∷ ps) h = ground (arith, group-is_section (p ∷ []) ps)
  group-is_section (x ∷ xs) (p ∷ ps) h = elim (Bool-cases (re.is_heading p)) [
    | inl e ↦ ground (arith, group-is_section (p ∷ []) ps refl)
    | inr e ↦ ground (
      arith,
      group-is_section (x ∷ xs ++ p ∷ []) ps,
      all-append (λ s. not (re.is_heading s)) xs (p ∷ []) h,
    )
  ]

  -- Grouping a text's paragraphs loses none of them and keeps their order, and only the first
  -- paragraph of a section may be a heading.
  pub group-sections :
      (ps : List Text)
      → (concat (group py re [] ps) ≡ ps) × (all is_section (group py re [] ps) ≡ true)
  group-sections ps = (concat-group_from [] ps, group-is_section [] ps refl)
