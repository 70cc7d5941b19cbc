-- ===== src/Cache/Memory/Quota.antt =====
-- The counters of `MemoryCache`: what a reservation and its release do to the count.
use marketview.Base.{
  ℕ, ◌+◌, ◌-◌, ◌≤◌, ◌<◌, ◌≡◌, ◌≢◌, inl, inr, Option, none, some, List, [], ◌∷◌, arith, leb,
  if◌then◌else◌, Option-cases, ◌==◌, ℕ-Eq, List-Eq, Option-Eq,
}
use marketview.Base.Dict.{lookup, lookup-insert, lookup-without}
use marketview.Base.Int.{ℤ, pos, pos_part}
use marketview.Base.Result.{ok}
use marketview.Base.Texts.{Text}
use marketview.Cache.Memory.Calls.{
  Call, get_call, set_call, reserve_call, release_call, increment_call, lock_call, unlock_call,
  after, after_all,
}
use marketview.Cache.Memory.{
  MemoryCache, Counter, reserve_quota, release_quota, increment_rate, current_count, get, set,
  acquire_lock, release_lock,
}

-- The number that a key's counter records, live or not.
abbrev pub recorded : Option Counter → ℕ
recorded none = 0
recorded (some k) = k.value

module _ {V : Type 0} where
  -- With a positive limit and window, a reservation is refused exactly when the live count has
  -- reached the limit, and then changes no count; otherwise it answers the count plus one, which is
  -- then the key's live count. No other key's count changes.
  pub reserve_quota-count :
      (key : Text) (limit window now : ℕ) (q : Text) (c : MemoryCache V)
      → 0 < limit
      → 0 < window
      → let used = current_count key now c in
        let (r, c') = reserve_quota key (pos limit) (pos window) now c in
        (r ≡ ok (if leb limit used then none else some (used + 1)))
        × (current_count q now c' ≡ (
            if q == key
            then (if leb limit used then used else used + 1)
            else current_count q now c))
  unfolding reserve_quota current_count
  reserve_quota-count key limit window now q c hl hw = (ground arith, grind (arith, lookup-insert))

  -- A release takes one from a positive live count, never below zero, answers what is left, and
  -- changes no other key's count.
  pub release_quota-count :
      (key : Text) (now : ℕ) (q : Text) (c : MemoryCache V)
      → let used = current_count key now c in
        let (left, c') = release_quota key now c in
        (left ≡ used - 1)
        × (current_count q now c' ≡ (if q == key then used - 1 else current_count q now c))
  unfolding release_quota current_count
  release_quota-count key now q c = elim (Option-cases (lookup key c.counters)) [
    | inl absent ↦ (ground arith, grind (arith, lookup-insert, lookup-without))
    | inr (k, found) ↦
        (ground arith, rw (found, release_quota) (grind (arith, lookup-insert, lookup-without)))
  ]

  -- A call that leaves the budget `limit` of `key` alone: every reservation under `key` asks for at
  -- most `limit`, and no rate counter shares the key.
  abbrev pub RespectsBudget : Text → ℕ → Call V → Type 0
  RespectsBudget key limit (reserve_call k l w t) = k ≡ key → pos_part l ≤ limit
  RespectsBudget key limit (increment_call k w t) = k ≢ key
  RespectsBudget key limit _ = Unit {0}

  abbrev pub AllRespect : Text → ℕ → List (Call V) → Type 0
  AllRespect key limit [] = Unit {0}
  AllRespect key limit (x ∷ xs) = RespectsBudget key limit x × AllRespect key limit xs

  abbrev pub WithinBudget : Text → ℕ → MemoryCache V → Type 0
  WithinBudget key limit c = recorded (lookup key c.counters) ≤ limit

  after-WithinBudget :
      (key : Text) (limit : ℕ) (x : Call V) (c : MemoryCache V)
      → RespectsBudget key limit x
      → WithinBudget key limit c
      → WithinBudget key limit (after x c)
  unfolding after get set reserve_quota release_quota increment_rate acquire_lock release_lock
  after-WithinBudget key limit (get_call k t) c h w = ground arith
  after-WithinBudget key limit (set_call k v ttl stale t) c h w = ground arith
  after-WithinBudget key limit (reserve_call k (ℤ.pos n) d t) c h w = grind (arith, lookup-insert)
  after-WithinBudget key limit (reserve_call k (ℤ.negsuc n) d t) c h w = ground arith
  after-WithinBudget key limit (release_call k t) c h w =
      elim (Option-cases (lookup k c.counters)) [
        | inl absent ↦ grind (arith, lookup-insert, lookup-without)
        | inr (u, found) ↦
            rw (found, after, release_quota) (grind (arith, lookup-insert, lookup-without))
      ]
  after-WithinBudget key limit (increment_call k d t) c h w = grind (arith, lookup-insert)
  after-WithinBudget key limit (lock_call k token ttl t) c h w = ground arith
  after-WithinBudget key limit (unlock_call k token) c h w = ground arith

  after_all-WithinBudget :
      (key : Text) (limit : ℕ) (xs : List (Call V)) (c : MemoryCache V)
      → AllRespect key limit xs
      → WithinBudget key limit c
      → WithinBudget key limit (after_all xs c)
  unfolding after_all
  after_all-WithinBudget key limit [] c h w = w
  after_all-WithinBudget key limit (x ∷ xs) c h w =
      after_all-WithinBudget key limit xs (after x c) h.1 (after-WithinBudget key limit x c h.0 w)

  -- The daily budget is never overspent: from a cache with no counter for `key`, after any calls in
  -- any order whose reservations under `key` ask for at most `limit` and whose rate counters use
  -- other keys, the count that is read under `key`, at any time, is at most `limit`.
  pub current_count-le-limit :
      (key : Text) (limit : ℕ) (xs : List (Call V)) (c : MemoryCache V) (now : ℕ)
      → lookup key c.counters ≡ none
      → AllRespect key limit xs
      → current_count key now (after_all xs c) ≤ limit
  unfolding current_count
  current_count-le-limit key limit xs c now e h =
      ground (arith, after_all-WithinBudget key limit xs c h (rw e (omega arith)))
