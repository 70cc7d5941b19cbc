-- ===== src/Market.antt =====
-- `MarketDataService` (app/services/market_data.py): a read goes to the cache first and to the
-- provider under a refresh lock and a daily quota. The cache is an interface, and so is what other
-- processes do to it while a refresh waits. The keys of `CacheKeyBuilder` and the tokens of locks are
-- given; an instant is a number of seconds since the epoch in UTC. The lock of `asyncio` between the
-- tasks of one process has no counterpart: one call runs at a time.
use marketview.Base.Texts.{Text}
use marketview.Base.{
  ◌≡◌, refl, [], ◌∷◌, zero, suc, true, false, none, some, inl, inr, ◌%◌, ◌+◌, ◌-◌, Bool, Option,
  max, ℕ,
}
use marketview.Base.Result.{Result, ok, err}
use marketview.Cache.Memory.{CacheEntry}
pub mod Memory
pub mod Cached
pub mod Pages
pub mod Quota
pub mod Charge
pub mod Tests

-- What a method of the cache raises: `CacheUnavailableError`, or something else.
pub data CacheFault : Type 0 where
  unavailable other_fault : CacheFault

-- A value that the cache holds: a payload that the model accepts, with the instant it was read at if
-- that can be parsed; the mark of a symbol that is invalid, with whether its code is that of
-- `ProviderNotFoundError`; or neither.
pub data Envelope (A : Type 0) : Type 0 where
  payload : A → Option ℕ → Envelope A
  invalid_mark : Bool → Envelope A
  malformed : Envelope A

pub data MarketError : Type 0 where
  cache_unavailable cached_invalid cached_not_found quota_exceeded : MarketError
  not_found provider_failure : MarketError
  foreign : MarketError

-- The service's cache, over a state.
pub record CachePort (S A : Type 0) : Type 0 where
  pub get : Text → ℕ → S → Result CacheFault (Option (CacheEntry (Envelope A))) × S
  pub set : Text → Envelope A → ℕ → ℕ → ℕ → S → Result CacheFault (Unit {0}) × S
  pub reserve_quota : Text → ℕ → ℕ → ℕ → S → Result CacheFault (Option ℕ) × S
  pub release_quota : Text → ℕ → S → Result CacheFault ℕ × S
  pub current_count : Text → ℕ → S → Result CacheFault ℕ × S
  pub acquire_lock : Text → Text → ℕ → ℕ → S → Result CacheFault Bool × S
  pub release_lock : Text → Text → S → Result CacheFault Bool × S

pub data Source : Type 0 where
  cache stale provider local : Source

pub record ServiceMetadata : Type 0 where
  pub source : Source
  pub as_of : ℕ
  pub cached : Bool
  pub is_stale : Bool

-- The service in one call: the cache, the readings of the clock, the number of calls of the provider,
-- and the metadata of the last answer.
pub record Market (S : Type 0) : Type 0 where
  pub cache : S
  pub readings : ℕ
  pub provider_calls : ℕ
  pub metadata : Option ServiceMetadata

pub record ServiceTtls : Type 0 where
  pub completed_history : ℕ
  pub latest : ℕ
  pub invalid : ℕ
  pub stale : ℕ

-- The service's parameters, and what is given to it.
pub record Service (S A : Type 0) : Type 0 where
  pub port : CachePort S A
  pub time : ℕ → ℕ
  pub daily_credit_budget : ℕ
  pub ttls : ServiceTtls
  pub lock_wait_attempts : ℕ
  pub quota_key_for : ℕ → Text
  pub lock_key : Text → Text
  pub token : Text
  pub others : ℕ → S → S

abbrev pub Step : Type 0 → Type 0 → Type 0
Step S A = Market S → Result MarketError A × Market S

module _ {S A : Type 0} where
  unfoldable pub pure : A → Step S A
  pure a m = (ok a, m)

  unfoldable pub throw : MarketError → Step S A
  throw e m = (err e, m)

  -- A method of the cache, at the clock's next reading, with whatever it raises.
  unfoldable pub on_cache :
      (ℕ → ℕ) → (ℕ → S → Result CacheFault A × S) → Step S (Result CacheFault A)
  on_cache time f m =
      let (x, s) = f (time m.readings) m.cache in
      (ok x, record m { cache = s; readings = m.readings + 1 })

infixl 5 ◌>>=◌ ◌>>◌
unfoldable pub ◌>>=◌ : {S A B : Type 0} → Step S A → (A → Step S B) → Step S B
◌>>=◌ m f r = let (x, r') = m r in elim x [ ok a ↦ f a r' | err e ↦ (err e, r') ]

abbrev pub ◌>>◌ : {S A B : Type 0} → Step S A → Step S B → Step S B
m >> k = m >>= λ _. k

-- `timedelta` to the next midnight, at least a second.
unfoldable pub quota_window_seconds : ℕ → ℕ
quota_window_seconds now = max 1 (86400 - now % 86400)

-- A failure of the cache is reported as `CacheUnavailableError`.
abbrev pub reported : {S A : Type 0} → Result CacheFault A → Step S A
reported (ok a) = pure a
reported (err e) = throw cache_unavailable
