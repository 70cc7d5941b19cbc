-- ===== src/Cache/Memory.antt =====
-- `MemoryCache` (app/cache/memory.py) and `CacheEntry` (app/cache/base.py). Every method runs under
-- the one mutex, so it is one step on the three dictionaries; the clock's reading, a whole number
-- of seconds, is an argument. A method returns its result and the state that it leaves.
use marketview.Base.{
  ℕ, zero, suc, ◌+◌, ◌-◌, ◌*◌, ◌≤◌, ◌<◌, min, max, ◌≡◌, refl, sym, ap, ◌∙◌, subst, ◌≢◌, ◌↔◌, ◌⊎◌,
  inl, inr, Bool, true, false, ◌&&◌, ◌||◌, not, Option, none, some, List, [], ◌∷◌, ◌++◌, map, arith,
  ltb, leb, eqb, if◌then◌else◌, is_some, is_none, ltb→lt, leb→le, eqb→eq, Bool-cases, Option-cases,
  &&-eq-true, Eq, ◌==◌, ◌!=◌, ==→eq, ==_refl, length, length-append, keep, first, any, all, take,
  drop, ℕ-Eq, List-Eq, Option-Eq,
}
use marketview.Base.Dict.{lookup, insert, without}
use marketview.Base.Int.{ℤ, is_nonpositive, is_negative, pos_part, add_seconds}
use marketview.Base.Result.{Result, ok, err}
use marketview.Base.Texts.{Text}
pub mod Calls
pub mod Values
pub mod Quota
pub mod Locks

pub record CacheEntry (V : Type 0) : Type 0 where
  pub value : V
  pub is_fresh : Bool

abbrev pub is_stale : {V : Type 0} → CacheEntry V → Bool
is_stale c = not c.is_fresh

pub record StoredValue (V : Type 0) : Type 0 where
  pub value : V
  pub fresh_until : ℕ
  pub stale_until : ℕ

pub record Counter : Type 0 where
  pub value : ℕ
  pub expires_at : ℕ

pub record LockValue : Type 0 where
  pub token : Text
  pub expires_at : ℕ

pub record MemoryCache (V : Type 0) : Type 0 where
  pub values : List (Text × StoredValue V)
  pub counters : List (Text × Counter)
  pub locks : List (Text × LockValue)

-- `ValueError`, the only exception that the methods raise.
pub data CacheError : Type 0 where
  value_error : CacheError

-- `existing and existing.expires_at > now`
abbrev pub live : ℕ → Option Counter → Option Counter
live now none = none
live now (some k) = if ltb now k.expires_at then some k else none

-- The counter that `reserve_quota` and `_increment` write.
abbrev pub bumped : ℕ → ℤ → Option Counter → Counter
bumped now window_seconds none = record { value = 1; expires_at = add_seconds now window_seconds }
bumped now window_seconds (some k) = record { value = k.value + 1; expires_at = k.expires_at }

-- `existing and existing.expires_at > now and existing.value >= limit`, for a count of zero or more
abbrev pub exhausted : ℤ → Option Counter → Bool
exhausted limit none = false
exhausted limit (some k) = leb (pos_part limit) k.value

-- `existing and existing.expires_at > now`, of a lock
abbrev pub is_held : ℕ → Option LockValue → Bool
is_held now none = false
is_held now (some l) = ltb now l.expires_at

module _ {V : Type 0} where
  abbrev pub empty_cache : MemoryCache V
  empty_cache = record { values = []; counters = []; locks = [] }

  unfoldable pub get : Text → ℕ → MemoryCache V → Option (CacheEntry V) × MemoryCache V
  get key now c = elim (lookup key c.values) [
    | none ↦ (none, c)
    | some stored ↦
        if leb stored.stale_until now
        then (none, record c { values = without key c.values })
        else (some (record { value = stored.value; is_fresh = ltb now stored.fresh_until }), c)
  ]

  unfoldable pub set :
      Text → V → ℤ → ℤ → ℕ → MemoryCache V → Result CacheError (Unit {0}) × MemoryCache V
  set key v ttl_seconds stale_seconds now c =
      if is_nonpositive ttl_seconds || is_negative stale_seconds then (err value_error, c) else (
        ok tt,
        record c {
          values =
              insert key
                (record {
                  value = v;
                  fresh_until = add_seconds now ttl_seconds;
                  stale_until = add_seconds (add_seconds now ttl_seconds) stale_seconds;
                })
                c.values;
        },
      )

  unfoldable pub reserve_quota :
      Text → ℤ → ℤ → ℕ → MemoryCache V → Result CacheError (Option ℕ) × MemoryCache V
  reserve_quota key limit window_seconds now c =
      if is_nonpositive window_seconds || is_nonpositive limit
      then (err value_error, c)
      else let existing = live now (lookup key c.counters) in
        if exhausted limit existing
        then (ok none, c)
        else let updated = bumped now window_seconds existing in
          (ok (some updated.value), record c { counters = insert key updated c.counters })

  unfoldable pub release_quota : Text → ℕ → MemoryCache V → ℕ × MemoryCache V
  release_quota key now c = elim (lookup key c.counters) [
    | none ↦ (0, c)
    | some k ↦
        if leb k.expires_at now || leb k.value 0
        then (0, record c { counters = without key c.counters })
        else let remaining = k.value - 1 in
          if eqb remaining 0 then (0, record c { counters = without key c.counters }) else (
            remaining,
            record c {
              counters =
                  insert key (record { value = remaining; expires_at = k.expires_at }) c.counters;
            },
          )
  ]

  -- `_increment`
  unfoldable pub increment_rate : Text → ℤ → ℕ → MemoryCache V → Result CacheError ℕ × MemoryCache V
  increment_rate key window_seconds now c =
      if is_nonpositive window_seconds
      then (err value_error, c)
      else let updated = bumped now window_seconds (live now (lookup key c.counters)) in
        (ok updated.value, record c { counters = insert key updated c.counters })

  unfoldable pub current_count : Text → ℕ → MemoryCache V → ℕ
  current_count key now c = elim (live now (lookup key c.counters)) [ none ↦ 0 | some k ↦ k.value ]

  unfoldable pub acquire_lock : Text → Text → ℤ → ℕ → MemoryCache V → Bool × MemoryCache V
  acquire_lock key token ttl_seconds now c =
      if is_held now (lookup key c.locks) then (false, c) else (
        true,
        record c {
          locks =
              insert key (record { token = token; expires_at = add_seconds now ttl_seconds })
                c.locks;
        },
      )

  unfoldable pub release_lock : Text → Text → MemoryCache V → Bool × MemoryCache V
  release_lock key token c = elim (lookup key c.locks) [
    | none ↦ (false, c)
    | some l ↦
        if l.token != token then (false, c) else (true, record c { locks = without key c.locks })
  ]
