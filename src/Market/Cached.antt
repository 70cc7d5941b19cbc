-- ===== src/Market/Cached.antt =====
-- `_cached` of app/services/market_data.py and the methods that it calls, in the order of their
-- calls. The provider's answer is given.
use Prim.Native.Nat.{zero}
use marketview.Base.Texts.{Text}
use marketview.Base.{true, false, none, some, ◌+◌, Bool, Option, is_some, ℕ, if◌then◌else◌, suc}
use marketview.Base.Result.{Result, ok, err}
use marketview.Market.{
  ◌>>=◌, ◌>>◌, pure, throw, payload, Envelope, MarketError, Service, Source, Step,
  cache_unavailable, cached_invalid, cached_not_found, foreign, invalid_mark, malformed, not_found,
  on_cache, quota_exceeded, reported, quota_window_seconds,
}
use marketview.Cache.Memory.{CacheEntry}

module _ {S A : Type 0} (v : Service S A) where
  -- `_decode`, of the source it is read from.
  unfoldable pub decode : CacheEntry (Envelope A) → Source → Step S A
  decode entry source m = elim entry.value [
    | malformed ↦ (err cache_unavailable, m)
    | invalid_mark is_not_found ↦
        (err (if is_not_found then cached_not_found else cached_invalid), m)
    | payload a as_of ↦ (
      ok a,
      record m {
        readings = elim as_of [ none ↦ m.readings + 1 | some t ↦ m.readings ];
        metadata = some (record {
          source = source;
          as_of = elim as_of [ none ↦ v.time m.readings | some t ↦ t ];
          cached = true;
          is_stale = elim source [
            | Source.cache ↦ false
            | Source.stale ↦ true
            | Source.provider ↦ false
            | Source.local ↦ false
          ];
        });
      },
    )
  ]

  -- `_read`
  unfoldable pub read : Text → Step S (Option (CacheEntry (Envelope A)))
  read key = on_cache v.time (v.port.get key) >>= reported

  -- The stale entry, or what is raised without one.
  unfoldable pub stale_or : Option (CacheEntry (Envelope A)) → MarketError → Step S A
  stale_or none e = throw e
  stale_or (some entry) e = decode entry Source.stale

  -- `_acquire_refresh_lock`
  unfoldable pub acquire_refresh_lock : Text → Option (CacheEntry (Envelope A)) → Step S Bool
  acquire_refresh_lock key old = on_cache v.time (v.port.acquire_lock key v.token 30) >>= λ x.
      elim x [
        | ok acquired ↦ pure acquired
        | err e ↦ if is_some old then pure false else throw cache_unavailable
      ]

  -- `_reserve`
  unfoldable pub reserve : Text → ℕ → Option (CacheEntry (Envelope A)) → Step S (Option ℕ)
  reserve key window old =
      on_cache v.time (v.port.reserve_quota key v.daily_credit_budget window) >>= λ x. elim x [
        | ok n ↦ pure n
        | err e ↦ if is_some old then pure none else throw cache_unavailable
      ]

  -- `_rollback_quota`, whose failures are suppressed
  unfoldable pub rollback_quota : Text → Step S (Unit {0})
  rollback_quota key = on_cache v.time (v.port.release_quota key) >>= λ x. pure tt

  -- `_handle_provider_error`, for a `MarketDataError`; a write that fails raises without a stale entry.
  unfoldable pub handle_provider_error :
      Text → Option (CacheEntry (Envelope A)) → MarketError → Step S A
  handle_provider_error key old not_found =
      on_cache v.time (v.port.set key (invalid_mark true) v.ttls.invalid 0) >>= λ x. elim x [
        | ok u ↦ stale_or old not_found
        | err e ↦ stale_or old cache_unavailable
      ]
  handle_provider_error key old e = stale_or old e

  -- The result of the provider, with its metadata.
  unfoldable pub provided : A → ℕ → Step S A
  provided a as_of m = (
    ok a,
    record m {
      metadata =
          some
            (record { source = Source.provider; as_of = as_of; cached = false; is_stale = false });
    },
  )

  -- The result of the provider is written, and answered if it was.
  unfoldable pub store : Text → ℕ → Option (CacheEntry (Envelope A)) → A → ℕ → Step S A
  store key ttl old a as_of =
      on_cache v.time (v.port.set key (payload a (some as_of)) ttl v.ttls.stale) >>= λ x. elim x [
        | ok u ↦ provided a as_of
        | err e ↦ stale_or old cache_unavailable
      ]

  -- What the provider raises; what is no `MarketDataError` is `foreign`.
  unfoldable pub fail : Text → Option (CacheEntry (Envelope A)) → MarketError → Step S A
  fail key old foreign = throw foreign
  fail key old e = handle_provider_error key old e

  -- The provider's call, and what follows it.
  unfoldable pub load :
      Text → ℕ → Option (CacheEntry (Envelope A)) → Text → Result MarketError A → Step S A
  load key ttl old quota_key answer m =
      let called = record m { provider_calls = m.provider_calls + 1 } in
      elim answer [
        | ok a ↦
            store key ttl old a (v.time called.readings)
              (record called { readings = called.readings + 1 })
        | err e ↦ (rollback_quota quota_key >> fail key old e) called
      ]

  -- The quota is reserved, and the provider called if it was.
  unfoldable pub refresh :
      Text → ℕ → Option (CacheEntry (Envelope A)) → Result MarketError A → Step S A
  refresh key ttl old answer m =
      let now = v.time m.readings in
      let quota_key = v.quota_key_for now in
      (reserve quota_key (quota_window_seconds now) old >>= λ reservation. elim reservation [
        | none ↦ stale_or old quota_exceeded
        | some n ↦ load key ttl old quota_key answer
      ])
        (record m { readings = m.readings + 1 })

  -- A fresh entry is answered; otherwise it, or the older entry without it, is passed on.
  unfoldable pub unless_fresh :
      Option (CacheEntry (Envelope A))
      → Option (CacheEntry (Envelope A))
      → (Option (CacheEntry (Envelope A)) → Step S A)
      → Step S A
  unless_fresh none old k = k old
  unless_fresh (some entry) old k =
      if entry.is_fresh then decode entry Source.cache else k (some entry)

  -- The loop while another holds the lock.
  unfoldable pub wait_for : ℕ → Text → Option (CacheEntry (Envelope A)) → Step S A
  wait_for zero key old m = stale_or old cache_unavailable m
  wait_for (suc n) key old m =
      (read key >>= λ contender. unless_fresh contender old (λ old'. wait_for n key old'))
        (record m { cache = v.others m.readings m.cache })

  -- The `finally`: the lock is released, whose failures are suppressed.
  unfoldable pub releasing : Text → Step S A → Step S A
  releasing key f m =
      let (x, m') = f m in (x, record m' { cache = (v.port.release_lock key v.token m'.cache).1 })

  unfoldable pub locked :
      Text → ℕ → Option (CacheEntry (Envelope A)) → Result MarketError A → Step S A
  locked key ttl old answer = acquire_refresh_lock (v.lock_key key) old >>= λ acquired.
      if acquired
      then releasing (v.lock_key key) (refresh key ttl old answer)
      else wait_for v.lock_wait_attempts key old

  -- `_cached`, by what the loader answers if it is called.
  unfoldable pub cached : Text → ℕ → Result MarketError A → Step S A
  cached key ttl answer = read key >>= λ entry.
      unless_fresh entry none
        (λ old. read key >>= λ second. unless_fresh second old (λ old'. locked key ttl old' answer))
