-- ===== src/Market/Charge.antt =====
-- What one call of `_cached` (app/services/market_data.py) charges to the day's quota, over
-- `MemoryCache` and a clock that stands still.
use marketview.Market.Cached.{
  cached, decode, load, locked, refresh, releasing, unless_fresh, wait_for, rollback_quota, reserve,
  store, fail, stale_or,
}
use marketview.Base.Texts.{Text}
use marketview.Market.Quota.{
  IsQuiet, Same, acquire_refresh_lock-IsQuiet, decode-IsQuiet, on_memory, read-IsQuiet,
  stale_or-IsQuiet, store-IsQuiet, release_lock-counters, handle_provider_error-IsQuiet,
}
use marketview.Base.{
  ◌≡◌, refl, zero, suc, true, false, none, some, inl, inr, ◌+◌, ◌-◌, ◌<◌, Bool, Option, ℕ, ◌∙◌, ◌⊎◌,
  if◌then◌else◌, ==_refl, arith, subst, sym, List-Eq, ap, ℕ-Eq,
}
use marketview.Base.Result.{Result, ok, err, Result-cases, is_ok}
use marketview.Market.{
  ◌>>=◌, pure, Envelope, Market, MarketError, Service, Source, Step, cache_unavailable, on_cache,
  quota_window_seconds, quota_exceeded,
}
use marketview.Cache.Memory.Quota.{release_quota-count, reserve_quota-count}
use marketview.Cache.Memory.{MemoryCache, CacheEntry, current_count}

module _ (A : Type 0) (v : Service (MemoryCache (Envelope A)) A) (t : ℕ)
    (answer : Result MarketError A) where
  -- The quota's count of the day.
  abbrev pub used : Market (MemoryCache (Envelope A)) → ℕ
  used m = current_count (v.quota_key_for t) t m.cache

  -- The provider was called once, within the budget, and the day's count is one more if it answered
  -- and the same if it failed.
  abbrev pub Charged :
      Market (MemoryCache (Envelope A)) → Market (MemoryCache (Envelope A)) → Type 0
  Charged m m' =
      (used m < v.daily_credit_budget)
      × (m'.provider_calls ≡ m.provider_calls + 1)
      × (used m' ≡ (if is_ok answer then used m + 1 else used m))

  -- The provider was not called, and the day's count is the same.
  abbrev pub Spared : Market (MemoryCache (Envelope A)) → Market (MemoryCache (Envelope A)) → Type 0
  Spared m m' = (m'.provider_calls ≡ m.provider_calls) × (used m' ≡ used m)

  abbrev pub Outcome :
      Market (MemoryCache (Envelope A)) → Market (MemoryCache (Envelope A)) → Type 0
  Outcome m m' = Spared m m' ⊎ Charged m m'

  Same-used : (m m' : Market (MemoryCache (Envelope A))) → Same A m m' → used m' ≡ used m
  unfolding current_count
  Same-used m m' h = rw h.0 refl

  Same-Outcome :
      (m m' m'' : Market (MemoryCache (Envelope A))) → Same A m m' → Outcome m' m'' → Outcome m m''
  Same-Outcome m m' m'' h (inl s) = inl (s.0 ∙ h.1, s.1 ∙ Same-used m m' h)
  Same-Outcome m m' m'' h (inr c) = inr (rw (← Same-used m m' h, ← h.1) c)

  Outcome-Same :
      (m m' m'' : Market (MemoryCache (Envelope A))) → Outcome m m' → Same A m' m'' → Outcome m m''
  Outcome-Same m m' m'' (inl s) h = inl (h.1 ∙ s.0, Same-used m' m'' h ∙ s.1)
  Outcome-Same m m' m'' (inr c) h = inr (c.0, h.1 ∙ c.1, Same-used m' m'' h ∙ c.2)

  unfoldable Settles : {B : Type 0} → Step (MemoryCache (Envelope A)) B → Type 0
  Settles f = (m : Market (MemoryCache (Envelope A))) → Outcome m (f m).1

  IsQuiet-Settles : {B : Type 0} (f : Step (MemoryCache (Envelope A)) B) → IsQuiet A f → Settles f
  unfolding Settles IsQuiet
  IsQuiet-Settles f h m = inl ((h m).1, Same-used m (f m).1 (h m))

  bind-Settles :
      {B C : Type 0} (f : Step (MemoryCache (Envelope A)) B)
      (k : B → Step (MemoryCache (Envelope A)) C)
      → IsQuiet A f
      → ((b : B) → Settles (k b))
      → Settles (f >>= k)
  unfolding Settles IsQuiet ◌>>=◌
  bind-Settles f k h hk m = elim (Result-cases (f m).0) [
    | inl (b, e) ↦ rw (e, ◌>>=◌) (Same-Outcome m (f m).1 (k b (f m).1).1 (h m) (hk b (f m).1))
    | inr (x, e) ↦ rw (e, ◌>>=◌) (inl ((h m).1, Same-used m (f m).1 (h m)))
  ]

  unless_fresh-Settles :
      (entry old : Option (CacheEntry (Envelope A)))
      (k : Option (CacheEntry (Envelope A)) → Step (MemoryCache (Envelope A)) A)
      → ((old' : Option (CacheEntry (Envelope A))) → Settles (k old'))
      → Settles (unless_fresh (on_memory v) entry old k)
  unfolding unless_fresh
  unless_fresh-Settles none old k h = h old
  unless_fresh-Settles (some entry) old k h = fresh_or entry.is_fresh
    where
      fresh_or :
          (b : Bool)
          → Settles (if b then decode (on_memory v) entry Source.cache else k (some entry))
      fresh_or true = IsQuiet-Settles _ (decode-IsQuiet A v entry Source.cache)
      fresh_or false = h (some entry)

  -- The count after a release of the quota.
  rolled_back-used :
      (m : Market (MemoryCache (Envelope A)))
      → ((i : ℕ) → v.time i ≡ t)
      → used (rollback_quota (on_memory v) (v.quota_key_for t) m).1 ≡ used m - 1
  unfolding rollback_quota on_cache ◌>>=◌ pure
  rolled_back-used m still =
      let q = v.quota_key_for t in
      rw still (rw (==_refl q) at (release_quota-count q t q m.cache).1)

  -- The call of the provider, once the quota is reserved.
  load-used :
      (key : Text) (ttl : ℕ) (old : Option (CacheEntry (Envelope A))) (y : Result MarketError A)
      (m : Market (MemoryCache (Envelope A)))
      → ((i : ℕ) → v.time i ≡ t)
      → let m' = (load (on_memory v) key ttl old (v.quota_key_for t) y m).1 in
        (m'.provider_calls ≡ m.provider_calls + 1)
        × (used m' ≡ (if is_ok y then used m else used m - 1))
  unfolding load IsQuiet ◌>>=◌ rollback_quota on_cache pure
  load-used key ttl old (ok x) m still =
      let called = record m { provider_calls = m.provider_calls + 1; readings = m.readings + 1 } in
      let same = store-IsQuiet A v key ttl old x (v.time m.readings) called in
      (
        same.1,
        Same-used called (store (on_memory v) key ttl old x (v.time m.readings) called).1 same,
      )
  load-used key ttl old (err e) m still =
      let called = record m { provider_calls = m.provider_calls + 1 } in
      let rolled = (rollback_quota (on_memory v) (v.quota_key_for t) called).1 in
      let same = handle_provider_error-IsQuiet A v key old e rolled in
      (
        same.1,
        Same-used rolled (fail (on_memory v) key old e rolled).1 same
            ∙ rolled_back-used called still,
      )

  -- The reservation, by the day's count.
  abbrev Reserved :
      Market (MemoryCache (Envelope A))
      → Result MarketError (Option ℕ) × Market (MemoryCache (Envelope A))
      → Type 0
  Reserved m r =
      (r.1.provider_calls ≡ m.provider_calls)
      × (((r.0 ≡ ok none) × (used r.1 ≡ used m))
          ⊎ ((used m < v.daily_credit_budget)
              × (r.0 ≡ ok (some (used m + 1)))
              × (used r.1 ≡ used m + 1)))

  reserve-Reserved :
      (window : ℕ) (old : Option (CacheEntry (Envelope A))) (m : Market (MemoryCache (Envelope A)))
      → ((i : ℕ) → v.time i ≡ t)
      → 0 < v.daily_credit_budget
      → 0 < window
      → Reserved m (reserve (on_memory v) (v.quota_key_for t) window old m)
  unfolding reserve on_cache ◌>>=◌ pure
  reserve-Reserved window old m still positive open_window =
      let q = v.quota_key_for t in
      let now = v.time m.readings in
      let same : now ≡ t = still m.readings in
      let counted =
        reserve_quota-count q v.daily_credit_budget window now q m.cache positive open_window in
      let self = ==_refl q in ground arith

  -- The refresh from an instant on.
  abbrev charge :
      Text → ℕ → Option (CacheEntry (Envelope A)) → ℕ → Step (MemoryCache (Envelope A)) A
  charge key ttl old now m =
      (reserve (on_memory v) (v.quota_key_for now) (quota_window_seconds now) old >>= λ reservation.
      elim reservation [
        | none ↦ stale_or (on_memory v) old quota_exceeded
        | some n ↦ load (on_memory v) key ttl old (v.quota_key_for now) answer
      ])
        (record m { readings = m.readings + 1 })

  window-positive : (now : ℕ) → 0 < quota_window_seconds now
  unfolding quota_window_seconds
  window-positive now = ground arith

  counted_after :
      (y : Result MarketError A) (n n' n'' : ℕ)
      → n' ≡ n + 1
      → n'' ≡ (if is_ok y then n' else n' - 1)
      → n'' ≡ (if is_ok y then n + 1 else n)
  counted_after y n n' n'' h k = ground arith

  charged :
      (key : Text) (ttl : ℕ) (old : Option (CacheEntry (Envelope A)))
      (m : Market (MemoryCache (Envelope A)))
      → ((i : ℕ) → v.time i ≡ t)
      → 0 < v.daily_credit_budget
      → Outcome m (charge key ttl old t m).1
  unfolding ◌>>=◌ IsQuiet
  charged key ttl old m still positive =
      let m1 = record m { readings = m.readings + 1 } in
      let r = reserve (on_memory v) (v.quota_key_for t) (quota_window_seconds t) old m1 in
      let h = reserve-Reserved (quota_window_seconds t) old m1 still positive (window-positive t) in
      elim h.1 [
        | inl refused ↦
            let same = stale_or-IsQuiet A v old quota_exceeded r.1 in
            let end_state = (stale_or (on_memory v) old quota_exceeded r.1).1 in
            rw (refused.0, ◌>>=◌) (inl (same.1 ∙ h.0, Same-used r.1 end_state same ∙ refused.1))
        | inr granted ↦
            let done = load-used key ttl old answer r.1 still in
            rw (granted.1, ◌>>=◌)
              (inr (
                granted.0,
                done.0 ∙ ap (λ n. n + 1) h.0,
                counted_after answer (used m) (used r.1) _ granted.2 done.1,
              ))
      ]

  refresh-Settles :
      (key : Text) (ttl : ℕ) (old : Option (CacheEntry (Envelope A)))
      → ((i : ℕ) → v.time i ≡ t)
      → 0 < v.daily_credit_budget
      → Settles (refresh (on_memory v) key ttl old answer)
  unfolding refresh Settles
  refresh-Settles key ttl old still positive m =
      subst (λ now. Outcome m (charge key ttl old now m).1) (sym (still m.readings))
        (charged key ttl old m still positive)

  wait_for-Settles :
      (n : ℕ) (key : Text) (old : Option (CacheEntry (Envelope A)))
      → ((i : ℕ) (c : MemoryCache (Envelope A)) → (v.others i c).counters ≡ c.counters)
      → Settles (wait_for (on_memory v) n key old)
  unfolding wait_for Settles
  wait_for-Settles zero key old alone m =
      IsQuiet-Settles _ (stale_or-IsQuiet A v old cache_unavailable) m
  wait_for-Settles (suc n) key old alone m =
      Same-Outcome m (record m { cache = v.others m.readings m.cache })
        (wait_for (on_memory v) (suc n) key old m).1 (alone m.readings m.cache, refl)
        (bind-Settles _ _ (read-IsQuiet A v key)
          (λ contender.
            unless_fresh-Settles contender old _ (λ old'. wait_for-Settles n key old' alone))
          (record m { cache = v.others m.readings m.cache }))

  released-Settles :
      (key : Text) (f : Step (MemoryCache (Envelope A)) A)
      → Settles f
      → Settles (releasing (on_memory v) key f)
  unfolding Settles releasing
  released-Settles key f h m =
      Outcome-Same m (f m).1 (releasing (on_memory v) key f m).1 (h m)
        (release_lock-counters A key v.token (f m).1.cache, refl)

  locked-Settles :
      (key : Text) (ttl : ℕ) (old : Option (CacheEntry (Envelope A)))
      → ((i : ℕ) → v.time i ≡ t)
      → 0 < v.daily_credit_budget
      → ((i : ℕ) (c : MemoryCache (Envelope A)) → (v.others i c).counters ≡ c.counters)
      → Settles (locked (on_memory v) key ttl old answer)
  unfolding locked
  locked-Settles key ttl old still positive alone =
      bind-Settles _ _ (acquire_refresh_lock-IsQuiet A v (v.lock_key key) old)
        (λ acquired. held acquired)
    where
      held :
          (b : Bool)
          → Settles (
              if b
              then releasing
                  (on_memory v)
                  (v.lock_key key)
                  (refresh (on_memory v) key ttl old answer)
              else wait_for (on_memory v) v.lock_wait_attempts key old)
      held true = released-Settles (v.lock_key key) _ (refresh-Settles key ttl old still positive)
      held false = wait_for-Settles v.lock_wait_attempts key old alone

  -- One call of the cached read either does not call the provider and leaves the day's count as it
  -- was, or found the count below the budget and called the provider once, and then the count is one
  -- more if the provider answered, and the same if it failed. The clock stands still, the budget is
  -- positive, and what other processes do while the call waits for the lock leaves the counts alone.
  pub cached-charges :
      (key : Text) (ttl : ℕ) (m : Market (MemoryCache (Envelope A)))
      → ((i : ℕ) → v.time i ≡ t)
      → 0 < v.daily_credit_budget
      → ((i : ℕ) (c : MemoryCache (Envelope A)) → (v.others i c).counters ≡ c.counters)
      → let m' = (cached (on_memory v) key ttl answer m).1 in Spared m m' ⊎ Charged m m'
  unfolding cached Settles
  cached-charges key ttl m still positive alone =
      bind-Settles _ _ (read-IsQuiet A v key)
        (λ entry. unless_fresh-Settles entry none _ (λ old.
          bind-Settles _ _ (read-IsQuiet A v key) (λ second.
            unless_fresh-Settles second old _
              (λ old'. locked-Settles key ttl old' still positive alone))))
        m
