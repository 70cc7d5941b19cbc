-- ===== src/Cache/Memory/Calls.antt =====
-- Whole runs of calls of `MemoryCache`, in any order and by any callers.
use marketview.Base.{ℕ, List, [], ◌∷◌, ℕ-Eq, List-Eq, Option-Eq}
use marketview.Base.Int.{ℤ}
use marketview.Base.Texts.{Text}
use marketview.Cache.Memory.{
  MemoryCache, get, set, reserve_quota, release_quota, increment_rate, acquire_lock, release_lock,
}

-- One call of a method that may change the state, with the clock's reading.
pub data Call (V : Type 0) : Type 0 where
  get_call : Text → ℕ → Call V
  set_call : Text → V → ℤ → ℤ → ℕ → Call V
  reserve_call : Text → ℤ → ℤ → ℕ → Call V
  release_call : Text → ℕ → Call V
  increment_call : Text → ℤ → ℕ → Call V
  lock_call : Text → Text → ℤ → ℕ → Call V
  unlock_call : Text → Text → Call V

module _ {V : Type 0} where
  unfoldable pub after : Call V → MemoryCache V → MemoryCache V
  after (get_call k t) c = (get k t c).1
  after (set_call k v ttl stale t) c = (set k v ttl stale t c).1
  after (reserve_call k limit w t) c = (reserve_quota k limit w t c).1
  after (release_call k t) c = (release_quota k t c).1
  after (increment_call k w t) c = (increment_rate k w t c).1
  after (lock_call k token ttl t) c = (acquire_lock k token ttl t c).1
  after (unlock_call k token) c = (release_lock k token c).1

  unfoldable pub after_all : List (Call V) → MemoryCache V → MemoryCache V
  after_all [] c = c
  after_all (x ∷ xs) c = after_all xs (after x c)
