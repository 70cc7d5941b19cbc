-- ===== src/Base/Int.antt =====
-- Python's integers where a negative one can reach a guard. `negsuc n` is -(n + 1).
use marketview.Base.{ℕ, zero, suc, ◌+◌, ◌-◌, Bool, true, false}

pub data ℤ : Type 0 where
  pos : ℕ → ℤ
  negsuc : ℕ → ℤ

abbrev pub pos_part : ℤ → ℕ
pos_part (pos n) = n
pos_part (negsuc _) = 0

abbrev pub neg_part : ℤ → ℕ
neg_part (pos _) = 0
neg_part (negsuc n) = suc n

-- `i <= 0`
abbrev pub is_nonpositive : ℤ → Bool
is_nonpositive (pos zero) = true
is_nonpositive (pos (suc _)) = false
is_nonpositive (negsuc _) = true

-- `i < 0`
abbrev pub is_negative : ℤ → Bool
is_negative (pos _) = false
is_negative (negsuc _) = true

-- `t + i` on a clock that starts at 0: a sum below 0 is kept as 0, which no reading is below.
abbrev pub add_seconds : ℕ → ℤ → ℕ
add_seconds t i = t + pos_part i - neg_part i
