-- ===== src/Market/Pages.antt =====
-- `_paginate_history` of app/services/market_data.py, and `Page` of app/models.py. A cursor is the
-- offset that its digits spell.
use mathlib.Core.List.{append-nil}
use marketview.Base.{
  ◌*◌, leb, eqb, all, ◌&&◌, true, Bool, ◌≡◌, refl, [], ◌∷◌, zero, suc, none, some, inl, inr, ◌+◌,
  ◌++◌, ◌-◌, List, Option, drop, is_some, length, ltb, min, take, ℕ, if◌then◌else◌, ◌≤◌, ◌<◌, ap,
  arith, ◌∙◌, Bool-cases, ltb→lt, sym, false,
}

pub record Page {ℓ} (A : Type ℓ) : Type ℓ where
  pub items : List A
  pub total : ℕ
  pub next_cursor : Option ℕ

abbrev pub offset_of : Option ℕ → ℕ
offset_of none = 0
offset_of (some n) = n

unfoldable pub paginate_history {ℓ} : {A : Type ℓ} → List A → ℕ → Option ℕ → Page A
paginate_history xs limit cursor =
    let items = take limit (drop (offset_of cursor) xs) in
    let following = offset_of cursor + length items in
    record {
      items = items;
      total = length xs;
      next_cursor = if ltb following (length xs) then some following else none;
    }

-- The pages from a cursor on, as long as there is a next one; `none` is out of fuel.
unfoldable pub all_pages {ℓ} : {A : Type ℓ} → ℕ → List A → ℕ → Option ℕ → Option (List (Page A))
all_pages zero xs limit cursor = none
all_pages (suc fuel) xs limit cursor =
    let page = paginate_history xs limit cursor in
    let rest = all_pages fuel xs limit page.next_cursor in
    if is_some page.next_cursor
    then elim rest [ none ↦ none | some pages ↦ some (page ∷ pages) ]
    else some (page ∷ [])

abbrev pub items_of {ℓ} : {A : Type ℓ} → List (Page A) → List A
items_of [] = []
items_of (p ∷ ps) = p.items ++ items_of ps

-- The page has the total of the whole list, and no more items than the limit.
abbrev pub fits {ℓ} : {A : Type ℓ} → List A → ℕ → Page A → Bool
fits xs limit p = eqb p.total (length xs) && leb (length p.items) limit

few_more :
    (count limit left : ℕ)
    → limit < left
    → 0 < count
    → (count - 1) * limit ≤ left - limit - 1
    → (suc count - 1) * limit ≤ left - 1
few_more zero limit left lt some_page h = absurd (omega arith)
few_more (suc n) limit left lt some_page h =
    let e : suc n - 1 ≡ n = omega arith in
    let f : suc (suc n) - 1 ≡ suc n = omega arith in
    let h' : n * limit ≤ left - limit - 1 = rw e at h in rw f (omega arith)

module _ {ℓ} {A : Type ℓ} where
  drop_nil : (n : ℕ) → drop {A = A} n [] ≡ []
  drop_nil zero = refl
  drop_nil (suc n) = refl

  drop-drop : (j k : ℕ) (xs : List A) → drop j (drop k xs) ≡ drop (k + j) xs
  drop-drop j zero xs = ground arith
  drop-drop j (suc k) [] = drop_nil j ∙ sym (drop_nil (suc k + j))
  drop-drop j (suc k) (x ∷ xs) =
      let e : suc (k + j) ≡ suc k + j = omega arith in
      drop-drop j k xs ∙ ap (λ n. drop n (x ∷ xs)) e

  take-length-drop : (n : ℕ) (ys : List A) → take n ys ++ drop (length (take n ys)) ys ≡ ys
  take-length-drop zero ys = refl
  take-length-drop (suc n) [] = refl
  take-length-drop (suc n) (y ∷ ys) = ap (λ zs. y ∷ zs) (take-length-drop n ys)

  length-take : (n : ℕ) (ys : List A) → length (take n ys) ≡ min n (length ys)
  length-take zero ys = ground arith
  length-take (suc n) [] = ground arith
  length-take (suc n) (y ∷ ys) = ground (arith, length-take n ys)

  length-drop : (k : ℕ) (xs : List A) → length (drop k xs) ≡ length xs - k
  length-drop zero xs = ground arith
  length-drop (suc k) [] = ground arith
  length-drop (suc k) (x ∷ xs) = ground (arith, length-drop k xs)

  take-whole : (n : ℕ) (ys : List A) → length ys ≤ n → take n ys ≡ ys
  take-whole zero [] h = refl
  take-whole zero (y ∷ ys) h = absurd (omega arith)
  take-whole (suc n) [] h = refl
  take-whole (suc n) (y ∷ ys) h = ap (λ zs. y ∷ zs) (take-whole n ys (omega arith))

  -- The pages hold the list from the offset on, each is as large as it may be and has the total, and
  -- none is spare.
  pub record IsComplete (xs : List A) (limit offset : ℕ) (pages : List (Page A)) : Type ℓ where
    pub whole : items_of pages ≡ drop offset xs
    pub fitting : all (fits xs limit) pages ≡ true
    pub some_page : 0 < length pages
    pub few : (length pages - 1) * limit ≤ length xs - offset - 1

  length-items :
      (limit k : ℕ) (xs : List A) → length (take limit (drop k xs)) ≡ min limit (length xs - k)
  length-items limit k xs = length-take limit (drop k xs) ∙ ap (min limit) (length-drop k xs)

  paginate_history-fits :
      (xs : List A) (limit : ℕ) (cursor : Option ℕ)
      → fits xs limit (paginate_history xs limit cursor) ≡ true
  unfolding paginate_history
  paginate_history-fits xs limit cursor = ground (arith, length-items limit (offset_of cursor) xs)

  -- A last page.
  last-IsComplete :
      (xs : List A) (limit : ℕ) (cursor : Option ℕ)
      → 0 < limit
      → ltb (offset_of cursor + length (take limit (drop (offset_of cursor) xs))) (length xs)
        ≡ false
      → IsComplete xs limit (offset_of cursor) (paginate_history xs limit cursor ∷ [])
  unfolding paginate_history
  last-IsComplete xs limit cursor pos last =
      let k = offset_of cursor in
      let size = length-items limit k xs in
      let small : length (drop k xs) ≤ limit = ground (arith, size, length-drop k xs) in
      record {
        whole = append-nil _ ∙ take-whole limit (drop k xs) small;
        fitting = rw (paginate_history-fits xs limit cursor) refl;
        some_page = omega arith;
        few = omega arith;
      }

  -- A page before others.
  more-IsComplete :
      (xs : List A) (limit : ℕ) (cursor : Option ℕ) (pages : List (Page A))
      → 0 < limit
      → (let following = offset_of cursor + length (take limit (drop (offset_of cursor) xs)) in
          (following < length xs) × IsComplete xs limit following pages)
      → IsComplete xs limit (offset_of cursor) (paginate_history xs limit cursor ∷ pages)
  unfolding paginate_history
  more-IsComplete xs limit cursor pages pos (lt, c) =
      let k = offset_of cursor in
      let items = take limit (drop k xs) in
      let size = length-items limit k xs in
      let full : length items ≡ limit = omega arith in
      let same : length xs - (k + length items) ≡ length xs - k - limit = omega arith in
      let shorter : (length pages - 1) * limit ≤ length xs - k - limit - 1 = rw same at c.few in
      record {
        whole =
            ap (λ zs. items ++ zs) (c.whole ∙ sym (drop-drop (length items) k xs))
            ∙ take-length-drop limit (drop k xs);
        fitting = rw (paginate_history-fits xs limit cursor, c.fitting) refl;
        some_page = omega arith;
        few = few_more (length pages) limit (length xs - k) (omega arith) c.some_page shorter;
      }

  all_pages-more :
      (fuel : ℕ) (xs : List A) (limit : ℕ) (cursor : Option ℕ) (pages : List (Page A))
      → (let following = offset_of cursor + length (take limit (drop (offset_of cursor) xs)) in
          (ltb following (length xs) ≡ true)
          × (all_pages fuel xs limit (some following) ≡ some pages))
      → all_pages (suc fuel) xs limit cursor ≡ some (paginate_history xs limit cursor ∷ pages)
  unfolding all_pages paginate_history
  all_pages-more fuel xs limit cursor pages (more, e) = simp (more, e) refl

  all_pages-last :
      (fuel : ℕ) (xs : List A) (limit : ℕ) (cursor : Option ℕ)
      → ltb (offset_of cursor + length (take limit (drop (offset_of cursor) xs))) (length xs)
        ≡ false
      → all_pages (suc fuel) xs limit cursor ≡ some (paginate_history xs limit cursor ∷ [])
  unfolding all_pages paginate_history
  all_pages-last fuel xs limit cursor last = simp last refl

  -- Following the cursors from page to page, with a limit of one or more and fuel for one page more
  -- than the items that are left, comes to an end. The pages hold the rest of the list from the
  -- first cursor on, each item once and in order, and each page has at most the limit of items and
  -- the total of the whole list. There is at least one page, and none is spare: the limit times the
  -- number of the other pages is below the number of items that are left, or there is only one page.
  pub all_pages-IsComplete :
      (fuel : ℕ) (xs : List A) (limit : ℕ) (cursor : Option ℕ)
      → 0 < limit
      → length xs - offset_of cursor < fuel
      → (pages : List (Page A)) × (all_pages fuel xs limit cursor ≡ some pages)
        × IsComplete xs limit (offset_of cursor) pages
  all_pages-IsComplete zero xs limit cursor pos enough = absurd (omega arith)
  all_pages-IsComplete (suc fuel) xs limit cursor pos enough =
      let k = offset_of cursor in
      let following = k + length (take limit (drop k xs)) in
      elim (Bool-cases (ltb following (length xs))) [
        | inl more ↦
            let lt = ltb→lt _ _ more in
            let (pages, e, c) =
              all_pages-IsComplete fuel xs limit (some following) pos
                (ground (arith, lt, length-items limit k xs)) in
            (
              paginate_history xs limit cursor ∷ pages,
              all_pages-more fuel xs limit cursor pages (more, e),
              more-IsComplete xs limit cursor pages pos (lt, c),
            )
        | inr last ↦ (
          paginate_history xs limit cursor ∷ [],
          all_pages-last fuel xs limit cursor last,
          last-IsComplete xs limit cursor pos last,
        )
      ]
