-- ===== src/Market/Quota.antt =====
-- What `_cached` of app/services/market_data.py charges to the day's quota, over `MemoryCache`.
use marketview.Market.Memory.{memory_port}
use marketview.Market.Cached.{
  acquire_refresh_lock, decode, read, stale_or, fail, store, handle_provider_error, provided,
}
use marketview.Base.Texts.{Text}
use marketview.Base.{
  ◌≡◌, refl, true, false, none, some, inl, inr, Bool, Option, arith, is_some, ℕ, ◌∙◌, if◌then◌else◌,
}
use marketview.Base.Result.{Result, ok, err, Result-cases}
use marketview.Base.Int.{pos}
use marketview.Market.{
  ◌>>=◌, pure, throw, payload, CacheFault, Envelope, Market, MarketError, Service, Source, Step,
  cache_unavailable, on_cache, reported, invalid_mark, foreign, not_found, cached_invalid,
  cached_not_found, quota_exceeded, provider_failure,
}
use marketview.Cache.Memory.{MemoryCache, CacheEntry, current_count}
use marketview.Cache.Memory as Memory

-- The service over the cache in memory.
abbrev pub on_memory :
    {A : Type 0} → Service (MemoryCache (Envelope A)) A → Service (MemoryCache (Envelope A)) A
on_memory {A} v = record v { port = memory_port A }

module _ (A : Type 0) where
  -- The quota and the provider are left alone.
  abbrev pub Same : Market (MemoryCache (Envelope A)) → Market (MemoryCache (Envelope A)) → Type 0
  Same m m' = (m'.cache.counters ≡ m.cache.counters) × (m'.provider_calls ≡ m.provider_calls)

  unfoldable pub IsQuiet : {B : Type 0} → Step (MemoryCache (Envelope A)) B → Type 0
  IsQuiet f = (m : Market (MemoryCache (Envelope A))) → Same m (f m).1

  pub bind-IsQuiet :
      {B C : Type 0} (f : Step (MemoryCache (Envelope A)) B)
      (k : B → Step (MemoryCache (Envelope A)) C)
      → IsQuiet f
      → ((b : B) → IsQuiet (k b))
      → IsQuiet (f >>= k)
  unfolding IsQuiet ◌>>=◌
  bind-IsQuiet f k h hk m = elim (Result-cases (f m).0) [
    | inl (b, e) ↦ rw (e, ◌>>=◌) ((hk b (f m).1).0 ∙ (h m).0, (hk b (f m).1).1 ∙ (h m).1)
    | inr (x, e) ↦ rw (e, ◌>>=◌) (h m)
  ]

  pub pure-IsQuiet : {B : Type 0} (b : B) → IsQuiet (pure b)
  unfolding IsQuiet pure
  pure-IsQuiet b m = (refl, refl)

  pub throw-IsQuiet : (B : Type 0) (e : MarketError) → IsQuiet (throw {A = B} e)
  unfolding IsQuiet throw
  throw-IsQuiet B e m = (refl, refl)

  pub reported-IsQuiet : {B : Type 0} (x : Result CacheFault B) → IsQuiet (reported x)
  reported-IsQuiet (ok b) = pure-IsQuiet b
  reported-IsQuiet (err e) = throw-IsQuiet _ cache_unavailable

  pub on_cache-IsQuiet :
      {B : Type 0} (time : ℕ → ℕ)
      (f : ℕ → MemoryCache (Envelope A) → Result CacheFault B × MemoryCache (Envelope A))
      → ((now : ℕ) (c : MemoryCache (Envelope A)) → (f now c).1.counters ≡ c.counters)
      → IsQuiet (on_cache time f)
  unfolding IsQuiet on_cache
  on_cache-IsQuiet time f h m = (h _ _, refl)

  pub get-counters :
      (key : Text) (now : ℕ) (c : MemoryCache (Envelope A))
      → (Memory.get key now c).1.counters ≡ c.counters
  unfolding Memory.get
  get-counters key now c = ground arith

  pub set-counters :
      (key : Text) (x : Envelope A) (ttl old now : ℕ) (c : MemoryCache (Envelope A))
      → (Memory.set key x (pos ttl) (pos old) now c).1.counters ≡ c.counters
  unfolding Memory.set
  set-counters key x ttl old now c = ground arith

  pub acquire_lock-counters :
      (key token : Text) (ttl now : ℕ) (c : MemoryCache (Envelope A))
      → (Memory.acquire_lock key token (pos ttl) now c).1.counters ≡ c.counters
  unfolding Memory.acquire_lock
  acquire_lock-counters key token ttl now c = ground arith

  pub release_lock-counters :
      (key token : Text) (c : MemoryCache (Envelope A))
      → (Memory.release_lock key token c).1.counters ≡ c.counters
  unfolding Memory.release_lock
  release_lock-counters key token c = ground arith

module _ (A : Type 0) (v : Service (MemoryCache (Envelope A)) A) where
  pub decode-IsQuiet :
      (entry : CacheEntry (Envelope A)) (source : Source)
      → IsQuiet A (decode (on_memory v) entry source)
  unfolding IsQuiet decode
  decode-IsQuiet entry source m = ground arith

  pub stale_or-IsQuiet :
      (old : Option (CacheEntry (Envelope A))) (e : MarketError)
      → IsQuiet A (stale_or (on_memory v) old e)
  unfolding stale_or
  stale_or-IsQuiet none e = throw-IsQuiet A _ e
  stale_or-IsQuiet (some entry) e = decode-IsQuiet entry Source.stale

  pub read-IsQuiet : (key : Text) → IsQuiet A (read (on_memory v) key)
  unfolding read
  read-IsQuiet key =
      bind-IsQuiet A _ _ (on_cache-IsQuiet A _ _ (λ n c. get-counters A key n c))
        (λ x. reported-IsQuiet A x)

  pub acquire_refresh_lock-IsQuiet :
      (key : Text) (old : Option (CacheEntry (Envelope A)))
      → IsQuiet A (acquire_refresh_lock (on_memory v) key old)
  unfolding acquire_refresh_lock
  acquire_refresh_lock-IsQuiet key old =
      bind-IsQuiet A _ _
        (on_cache-IsQuiet A _ _ (λ n c. acquire_lock-counters A key v.token 30 n c))
        (λ x. answered x)
    where
      answered :
          (x : Result CacheFault Bool)
          → IsQuiet A (elim x [
            | ok acquired ↦ pure acquired
            | err e ↦ if is_some old then pure false else throw cache_unavailable
          ])
      answered (ok b) = pure-IsQuiet A b
      answered (err e) = refused old
        where
          refused :
              (old' : Option (CacheEntry (Envelope A)))
              → IsQuiet A (if is_some old' then pure false else throw {A = Bool} cache_unavailable)
          refused none = throw-IsQuiet A _ cache_unavailable
          refused (some entry) = pure-IsQuiet A false

  pub releasing-IsQuiet :
      (key : Text) (m m' : Market (MemoryCache (Envelope A)))
      → Same A m m'
      → Same A m (record m' { cache = ((on_memory v).port.release_lock key v.token m'.cache).1 })
  releasing-IsQuiet key m m' h = (release_lock-counters A key v.token m'.cache ∙ h.0, h.1)

  pub handle_provider_error-IsQuiet :
      (key : Text) (old : Option (CacheEntry (Envelope A))) (e : MarketError)
      → IsQuiet A (fail (on_memory v) key old e)
  unfolding fail handle_provider_error
  handle_provider_error-IsQuiet key old foreign = throw-IsQuiet A _ foreign
  handle_provider_error-IsQuiet key old not_found =
      bind-IsQuiet A _ _
        (on_cache-IsQuiet A _ _
          (λ n c. set-counters A key (invalid_mark true) v.ttls.invalid 0 n c))
        (λ x. written x)
    where
      written :
          (x : Result CacheFault (Unit {0}))
          → IsQuiet A (elim x [
            | ok u ↦ stale_or (on_memory v) old not_found
            | err e ↦ stale_or (on_memory v) old cache_unavailable
          ])
      written (ok u) = stale_or-IsQuiet old not_found
      written (err e) = stale_or-IsQuiet old cache_unavailable
  handle_provider_error-IsQuiet key old cache_unavailable = stale_or-IsQuiet old cache_unavailable
  handle_provider_error-IsQuiet key old cached_invalid = stale_or-IsQuiet old cached_invalid
  handle_provider_error-IsQuiet key old cached_not_found = stale_or-IsQuiet old cached_not_found
  handle_provider_error-IsQuiet key old quota_exceeded = stale_or-IsQuiet old quota_exceeded
  handle_provider_error-IsQuiet key old provider_failure = stale_or-IsQuiet old provider_failure

  pub provided-IsQuiet : (x : A) (as_of : ℕ) → IsQuiet A (provided (on_memory v) x as_of)
  unfolding IsQuiet provided
  provided-IsQuiet x as_of m = (refl, refl)

  pub store-IsQuiet :
      (key : Text) (ttl : ℕ) (old : Option (CacheEntry (Envelope A))) (x : A) (as_of : ℕ)
      → IsQuiet A (store (on_memory v) key ttl old x as_of)
  unfolding store
  store-IsQuiet key ttl old x as_of =
      bind-IsQuiet A _ _
        (on_cache-IsQuiet A _ _
          (λ n c. set-counters A key (payload x (some as_of)) ttl v.ttls.stale n c))
        (λ y. written y)
    where
      written :
          (y : Result CacheFault (Unit {0}))
          → IsQuiet A (elim y [
            | ok u ↦ provided (on_memory v) x as_of
            | err e ↦ stale_or (on_memory v) old cache_unavailable
          ])
      written (ok u) = provided-IsQuiet x as_of
      written (err e) = stale_or-IsQuiet old cache_unavailable
