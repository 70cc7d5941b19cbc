-- ===== src/Research/Json.antt =====
-- JSON values as `json.loads` builds them, and the reading of one key or one typed value.
use marketview.Base.Int.{ℤ}
use marketview.Research.Deadline.{Fault, value_error}
use marketview.Base.Texts.{Text}
use marketview.Base.Result.{Result, ok, err, ◌>>=◌}
use text.Mathlib.Text.{◌==◌ as str_eq}
use Prim.Native.String.{String}
use marketview.Base.{
  ◌≡◌, refl, [], ◌∷◌, true, false, none, some, Option, Bool, List, any, ◌||◌, all, ℕ, ◌&&◌,
  if◌then◌else◌,
}

mutual
  pub data Json : Type 0 where
    null : Json
    bool : Bool → Json
    num : ℤ → Json
    real : Text → Json
    str : Text → Json
    arr : Items → Json
    obj : Fields → Json

  pub data Items : Type 0 where
    nil : Items
    cons : Json → Items → Items

  pub data Fields : Type 0 where
    end : Fields
    field : String → Json → Fields → Fields

-- `value[k]`
unfoldable pub item : String → Fields → Result Fault Json
item k end = err value_error
item k (field j v fs) = if str_eq j k then ok v else item k fs

unfoldable pub has_key : String → Fields → Bool
has_key k end = false
has_key k (field j v fs) = str_eq j k || has_key k fs

unfoldable pub keys_within : List String → Fields → Bool
keys_within ks end = true
keys_within ks (field j v fs) = any (λ k. str_eq j k) ks && keys_within ks fs

-- `frozenset(decoded) == expected_keys`
unfoldable pub has_schema : List String → Fields → Bool
unfolding has_key keys_within
has_schema ks fs = all (λ k. has_key k fs) ks && keys_within ks fs

unfoldable pub as_fields : List String → Json → Result Fault Fields
unfolding has_schema
as_fields ks (obj fs) = if has_schema ks fs then ok fs else err value_error
as_fields ks _ = err value_error

unfoldable pub as_text : Json → Result Fault Text
as_text (str t) = ok t
as_text _ = err value_error

-- `_require_count` without `positive`
unfoldable pub as_count : Json → Result Fault ℕ
as_count (num (ℤ.pos n)) = ok n
as_count _ = err value_error

unfoldable pub as_bool : Json → Result Fault Bool
as_bool (bool b) = ok b
as_bool _ = err value_error

-- A list whose items are all text; the source refuses any other item when it validates them.
unfoldable pub texts_of : Items → Result Fault (List Text)
texts_of nil = ok []
texts_of (cons (str t) xs) = do ts ← texts_of xs; ok (t ∷ ts)
texts_of (cons _ xs) = err value_error

unfoldable pub as_texts : Json → Result Fault (List Text)
unfolding texts_of
as_texts (arr xs) = texts_of xs
as_texts _ = err value_error

unfoldable pub as_optional_text : Json → Result Fault (Option Text)
as_optional_text null = ok none
as_optional_text (str t) = ok (some t)
as_optional_text _ = err value_error

-- `list(texts)`
unfoldable pub items_of : List Text → Items
items_of [] = nil
items_of (t ∷ ts) = cons (str t) (items_of ts)

unfoldable pub optional_text : Option Text → Json
optional_text none = null
optional_text (some t) = str t

pub texts_of-items_of : (ts : List Text) → texts_of (items_of ts) ≡ ok ts
unfolding texts_of items_of
texts_of-items_of [] = refl
texts_of-items_of (t ∷ ts) = rw (texts_of-items_of ts)

pub as_optional_text-optional_text : (t : Option Text) → as_optional_text (optional_text t) ≡ ok t
unfolding as_optional_text optional_text
as_optional_text-optional_text none = refl
as_optional_text-optional_text (some t) = refl

-- The serializer and its inverse are the standard library's.
pub record JsonLibrary : Type 0 where
  pub dumps : Json → Text
  pub loads : Text → Option Json

module _ (lib : JsonLibrary) where
  -- `_load_record`
  unfoldable pub load_record : Text → List String → Result Fault Fields
  unfolding as_fields
  load_record raw expected_keys = elim (lib.loads raw) [
    | none ↦ err value_error
    | some decoded ↦ as_fields expected_keys decoded
  ]
