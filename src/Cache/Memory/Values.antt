-- ===== src/Cache/Memory/Values.antt =====
-- `get` and `set` of `MemoryCache`: what is read back, and when.
use marketview.Base.{
  ℕ, ◌+◌, ◌≤◌, ◌<◌, ◌≡◌, none, some, arith, ltb, if◌then◌else◌, ◌==◌, ℕ-Eq, List-Eq, Option-Eq,
}
use marketview.Base.Dict.{lookup-insert, lookup-without}
use marketview.Base.Int.{pos}
use marketview.Base.Texts.{Text}
use marketview.Cache.Memory.{MemoryCache, get, set}

module _ {V : Type 0} where
  -- After a value is stored at `now` under `key` with a positive TTL, a read of `key` finds it fresh
  -- until the TTL has passed, stale for the stale period after that, and not at all from then on; a
  -- read of any other key answers as before the write.
  pub get-set :
      (key : Text) (v : V) (ttl stale now : ℕ) (q : Text) (later : ℕ) (c : MemoryCache V)
      → 0 < ttl
      → (get q later (set key v (pos ttl) (pos stale) now c).1).0 ≡ (
          if q == key
          then (if ltb later (now + ttl + stale)
              then some (record { value = v; is_fresh = ltb later (now + ttl) })
              else none)
          else (get q later c).0)
  unfolding get set
  get-set key v ttl stale now q later c h = grind (arith, lookup-insert)

  -- A read, which may evict an expired value, is invisible to every later read: at any key and any
  -- time from the read's on, the answer is the one that the cache before the read gives.
  pub get-get :
      (key q : Text) (now later : ℕ) (c : MemoryCache V)
      → now ≤ later
      → (get q later (get key now c).1).0 ≡ (get q later c).0
  unfolding get
  get-get key q now later c h = grind (arith, lookup-without)
