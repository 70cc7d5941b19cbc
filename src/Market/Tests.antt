-- ===== src/Market/Tests.antt =====
-- Runs of the market data service on concrete inputs.
use marketview.Market.Memory.{memory_port}
use marketview.Base.Texts.{codes}
use marketview.Market.Cached.{cached}
use marketview.Market.Pages.{Page, all_pages, IsComplete, all_pages-IsComplete}
use marketview.Market.{Envelope, Market, Service}
use marketview.Market.Charge.{Charged, Spared, cached-charges}
use marketview.Base.{some, List, ◌≡◌, refl, [], ◌∷◌, none, arith, ℕ, ◌⊎◌}
use marketview.Base.Result.{ok}
use marketview.Cache.Memory.{MemoryCache, empty_cache}

-- A service over the cache in memory, at instant 5, with a budget of two calls.
abbrev sample_service : Service (MemoryCache (Envelope ℕ)) ℕ
sample_service = record {
  port = memory_port ℕ;
  time = λ i. 5;
  daily_credit_budget = 2;
  ttls = record { completed_history = 100; latest = 10; invalid = 5; stale = 50 };
  lock_wait_attempts = 5;
  quota_key_for = λ now. codes "quota";
  lock_key = λ key. codes "lock";
  token = codes "token";
  others = λ i c. c;
}

abbrev sample_market : Market (MemoryCache (Envelope ℕ))
sample_market = record { cache = empty_cache; readings = 0; provider_calls = 0; metadata = none }

cached-charges_example :
    let m' = (cached sample_service (codes "AAPL") 10 (ok 7) sample_market).1 in
    Spared ℕ sample_service 5 (ok 7) sample_market m'
    ⊎ Charged ℕ sample_service 5 (ok 7) sample_market m'
cached-charges_example =
    cached-charges ℕ sample_service 5 (ok 7) (codes "AAPL") 10 sample_market (λ i. refl)
      (omega arith) (λ i c. refl)

all_pages-IsComplete_example :
    (pages : List (Page ℕ)) × (all_pages 4 (1 ∷ 2 ∷ 3 ∷ []) 2 none ≡ some pages)
    × IsComplete (1 ∷ 2 ∷ 3 ∷ []) 2 0 pages
all_pages-IsComplete_example =
    all_pages-IsComplete 4 (1 ∷ 2 ∷ 3 ∷ []) 2 none (omega arith) (omega arith)
