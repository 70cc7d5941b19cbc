-- ===== src/Research/Deadline.antt =====
-- `RequestDeadline` (app/research/deadline.py). Times are whole ticks of one monotonic clock, whose
-- readings are arguments.
use marketview.Base.{
  ℕ, ◌+◌, ◌-◌, ◌≤◌, ◌<◌, min, max, ◌≡◌, arith, ltb, leb, if◌then◌else◌, ℕ-Eq, List-Eq, Option-Eq,
}
use marketview.Base.Result.{Result, ok, err, raise_if, ◌>>◌}

-- `ValueError` and `TimeoutError`.
pub data Fault : Type 0 where
  value_error timeout_error : Fault

pub record RequestDeadline : Type 0 where
  pub expires_at : ℕ

-- A duration of zero is refused.
unfoldable pub after : ℕ → ℕ → Result Fault RequestDeadline
after seconds now = do
  raise_if (leb seconds 0) value_error
  ok (record { expires_at = now + seconds })

unfoldable pub remaining_seconds : RequestDeadline → ℕ → ℕ
remaining_seconds d now = max 0 (d.expires_at - now)

unfoldable pub raise_if_expired : RequestDeadline → ℕ → Result Fault (Unit {0})
unfolding remaining_seconds
raise_if_expired d now = raise_if (leb (remaining_seconds d now) 0) timeout_error

-- `child` reads the clock twice: to test the parent, and to place its own end.
unfoldable pub child : RequestDeadline → ℕ → ℕ → ℕ → Result Fault RequestDeadline
unfolding raise_if_expired
child d maximum_seconds now now' = do
  raise_if (leb maximum_seconds 0) value_error
  raise_if_expired d now
  ok (record { expires_at = min d.expires_at (now' + maximum_seconds) })

-- A deadline passes exactly the readings before its end.
pub raise_if_expired-eq :
    (d : RequestDeadline) (now : ℕ)
    → raise_if_expired d now ≡ (if ltb now d.expires_at then ok tt else err timeout_error)
unfolding raise_if_expired
raise_if_expired-eq d now = ground arith

-- A child is given only to a parent that has not expired, and it outlives neither the parent nor its
-- own duration.
pub child_bounds :
    (d c : RequestDeadline) (maximum now now' : ℕ)
    → child d maximum now now' ≡ ok c
    → (now < d.expires_at) × (c.expires_at ≤ d.expires_at) × (c.expires_at ≤ now' + maximum)
unfolding child raise_if_expired
child_bounds d c maximum now now' h = ground arith
