-- ===== src/Market/Memory.antt =====
-- `MemoryCache` (app/cache/memory.py) as the cache of the market data service.
use marketview.Market.{CacheFault, CachePort, Envelope, other_fault}
use marketview.Base.Result.{Result, ok, err}
use marketview.Base.Int.{pos}
use marketview.Cache.Memory as Memory
use marketview.Cache.Memory.{MemoryCache, CacheError}

-- `ValueError` is not `CacheUnavailableError`.
abbrev pub from_cache : {A : Type 0} → Result CacheError A → Result CacheFault A
from_cache (ok a) = ok a
from_cache (err e) = err other_fault

abbrev pub memory_port : (A : Type 0) → CachePort (MemoryCache (Envelope A)) A
memory_port A = record {
  get = λ key now c. let (x, c') = Memory.get key now c in (ok x, c');
  set = λ key v ttl stale now c.
      let (x, c') = Memory.set key v (pos ttl) (pos stale) now c in (from_cache x, c');
  reserve_quota = λ key limit window now c.
      let (x, c') = Memory.reserve_quota key (pos limit) (pos window) now c in (from_cache x, c');
  release_quota = λ key now c. let (x, c') = Memory.release_quota key now c in (ok x, c');
  current_count = λ key now c. (ok (Memory.current_count key now c), c);
  acquire_lock = λ key token ttl now c.
      let (x, c') = Memory.acquire_lock key token (pos ttl) now c in (ok x, c');
  release_lock = λ key token c. let (x, c') = Memory.release_lock key token c in (ok x, c');
}
