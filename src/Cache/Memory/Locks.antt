-- ===== src/Cache/Memory/Locks.antt =====
-- The locks of `MemoryCache` against whole runs of calls.
use marketview.Base.{
  ℕ, ◌+◌, ◌<◌, ◌≡◌, ◌≢◌, true, false, some, List, [], ◌∷◌, arith, ==_refl, ℕ-Eq, List-Eq, Option-Eq,
}
use marketview.Base.Dict.{lookup, lookup-insert, lookup-without}
use marketview.Base.Int.{ℤ, pos}
use marketview.Base.Texts.{Text}
use marketview.Cache.Memory.Calls.{
  Call, get_call, set_call, reserve_call, release_call, increment_call, lock_call, unlock_call,
  after, after_all,
}
use marketview.Cache.Memory.{
  MemoryCache, get, set, reserve_quota, release_quota, increment_rate, acquire_lock, release_lock,
}

module _ {V : Type 0} where
  -- A call that does not end the lock `key` of `owner` before `until`: it does not release it with
  -- the owner's token, and an attempt to take it comes before `until`.
  abbrev pub Spares : Text → Text → ℕ → Call V → Type 0
  Spares key owner until (lock_call k token ttl t) = k ≡ key → t < until
  Spares key owner until (unlock_call k token) = k ≡ key → token ≢ owner
  Spares key owner until _ = Unit {0}

  abbrev pub SpareAll : Text → Text → ℕ → List (Call V) → Type 0
  SpareAll key owner until [] = Unit {0}
  SpareAll key owner until (x ∷ xs) = Spares key owner until x × SpareAll key owner until xs

  after-keeps_lock :
      (key owner : Text) (until : ℕ) (x : Call V) (c : MemoryCache V)
      → Spares key owner until x
      → lookup key c.locks ≡ some (record { token = owner; expires_at = until })
      → lookup key (after x c).locks ≡ some (record { token = owner; expires_at = until })
  unfolding after get set reserve_quota release_quota increment_rate acquire_lock release_lock
  after-keeps_lock key owner until (get_call k t) c h e = ground arith
  after-keeps_lock key owner until (set_call k v ttl stale t) c h e = ground arith
  after-keeps_lock key owner until (reserve_call k limit w t) c h e = ground arith
  after-keeps_lock key owner until (release_call k t) c h e = ground arith
  after-keeps_lock key owner until (increment_call k w t) c h e = ground arith
  after-keeps_lock key owner until (lock_call k token ttl t) c h e = grind (arith, lookup-insert)
  after-keeps_lock key owner until (unlock_call k token) c h e = grind (arith, lookup-without)

  after_all-keeps_lock :
      (key owner : Text) (until : ℕ) (xs : List (Call V)) (c : MemoryCache V)
      → SpareAll key owner until xs
      → lookup key c.locks ≡ some (record { token = owner; expires_at = until })
      → lookup key (after_all xs c).locks ≡ some (record { token = owner; expires_at = until })
  unfolding after_all
  after_all-keeps_lock key owner until [] c h e = e
  after_all-keeps_lock key owner until (x ∷ xs) c h e =
      after_all-keeps_lock key owner until xs (after x c) h.1
        (after-keeps_lock key owner until x c h.0 e)

  acquire_lock-holds :
      (key owner : Text) (ttl now : ℕ) (c : MemoryCache V)
      → (acquire_lock key owner (pos ttl) now c).0 ≡ true
      → lookup key (acquire_lock key owner (pos ttl) now c).1.locks
        ≡ some (record { token = owner; expires_at = now + ttl })
  unfolding acquire_lock
  acquire_lock-holds key owner ttl now c h = grind (arith, lookup-insert, ==_refl)

  held_excludes :
      (key owner other : Text) (ttl : ℤ) (until later : ℕ) (c : MemoryCache V)
      → lookup key c.locks ≡ some (record { token = owner; expires_at = until })
      → later < until
      → other ≢ owner
      → (acquire_lock key other ttl later c ≡ (false, c)) × (release_lock key other c ≡ (false, c))
  unfolding acquire_lock release_lock
  held_excludes key owner other ttl until later c e lt ne = ground arith

  -- Mutual exclusion: once `owner` has taken a lock at `now` for `ttl` seconds, and whatever calls
  -- follow in whatever order, so long as none releases it with the owner's token and none tries to
  -- take it from `now + ttl` on, an attempt with another token before then is refused, and so is a
  -- release with that token, and neither changes anything.
  pub acquire_lock-excludes :
      (key owner : Text) (ttl now : ℕ) (c : MemoryCache V) (xs : List (Call V))
      → (acquire_lock key owner (pos ttl) now c).0 ≡ true
      → SpareAll key owner (now + ttl) xs
      → (other : Text) (ttl' : ℤ) (later : ℕ) → later < now + ttl
      → other ≢ owner
      → let c' = after_all xs (acquire_lock key owner (pos ttl) now c).1 in
        (acquire_lock key other ttl' later c' ≡ (false, c'))
        × (release_lock key other c' ≡ (false, c'))
  acquire_lock-excludes key owner ttl now c xs h spare other ttl' later lt ne =
      let c₁ = (acquire_lock key owner (pos ttl) now c).1 in
      held_excludes key owner other ttl' (now + ttl) later (after_all xs c₁)
        (after_all-keeps_lock key owner (now + ttl) xs c₁ spare
          (acquire_lock-holds key owner ttl now c h))
        lt ne

  -- The owner's release frees the lock at once: the next attempt, by anyone, succeeds.
  pub release_lock-frees :
      (key owner other : Text) (ttl : ℤ) (until now : ℕ) (c : MemoryCache V)
      → lookup key c.locks ≡ some (record { token = owner; expires_at = until })
      → let (released, c') = release_lock key owner c in
        (released ≡ true) × ((acquire_lock key other ttl now c').0 ≡ true)
  unfolding acquire_lock release_lock
  release_lock-frees key owner other ttl until now c e = grind (arith, lookup-without, ==_refl)
