-- ===== src/Validation.antt =====
-- The checks of the callers' input (app/validation.py), which return the normal form of a text or
-- raise `InputValidationError`. A text that is not a `str` is not modelled. A date is the number of
-- its day.
use marketview.Base.Texts.{Text}
use marketview.Base.{
  none, some, ◌&&◌, ◌-◌, Bool, Option, all, any, eqb, leb, length, ltb, not, ◌||◌, ℕ, if◌then◌else◌,
}
use marketview.Base.Result.{Result, ok, err, raise_if, ◌>>◌}
use marketview.Research.Python.{Python, strip, is_upper_alnum, is_symbol}

pub data InputError : Type 0 where
  input_validation_error : InputError

-- `[A-Z0-9.\- ]`
abbrev pub is_query_character : ℕ → Bool
is_query_character c = is_upper_alnum c || eqb c 46 || eqb c 45 || eqb c 32

-- A control character of ASCII.
abbrev pub is_control : ℕ → Bool
is_control c = ltb c 32 || eqb c 127

module _ (py : Python) where
  unfoldable pub validate_symbol : Text → Result InputError Text
  validate_symbol symbol =
      let normalized = py.upper (strip py symbol) in
      if is_symbol normalized then ok normalized else err input_validation_error

  unfoldable pub validate_symbol_query : Text → Result InputError Text
  validate_symbol_query query =
      let normalized = py.upper (strip py query) in
      if ltb (length normalized) 2
        || not (
            all is_query_character normalized
            && leb 2 (length normalized)
            && leb (length normalized) 32)
      then err input_validation_error
      else ok normalized

  unfoldable pub validate_research_question : Text → Result InputError Text
  validate_research_question question =
      let normalized = strip py question in
      if not (leb 1 (length normalized) && leb (length normalized) 500) || any is_control normalized
      then err input_validation_error
      else ok normalized

  -- A cursor that is given as text.
  unfoldable pub validate_cursor : Option Text → Result InputError (Option Text)
  validate_cursor none = ok none
  validate_cursor (some cursor) =
      let normalized = strip py cursor in
      if all py.is_decimal normalized && leb 1 (length normalized) && leb (length normalized) 12
      then ok (some normalized)
      else err input_validation_error

unfoldable pub validate_limit : ℕ → ℕ → Result InputError ℕ
validate_limit limit maximum =
    if leb 1 limit && leb limit maximum then ok limit else err input_validation_error

unfoldable pub validate_date_range : ℕ → ℕ → Result InputError (ℕ × ℕ)
validate_date_range start_date end_date = do
  raise_if (ltb end_date start_date) input_validation_error
  raise_if (ltb 365 (end_date - start_date)) input_validation_error
  ok (start_date, end_date)
