-- ===== src/Cache/Tests.antt =====
-- The cache on a few calls.
use marketview.Base.Int.{pos}
use marketview.Base.Result.{ok}
use marketview.Cache.Memory.Values.{get-set}
use marketview.Cache.Memory.Quota.{current_count-le-limit, release_quota-count, reserve_quota-count}
use marketview.Cache.Memory.Locks.{acquire_lock-excludes, release_lock-frees}
use marketview.Base.Texts.{Text, codes}
use marketview.Cache.Memory.{
  MemoryCache, acquire_lock, current_count, get, release_lock, release_quota, reserve_quota, set,
}
use marketview.Cache.Memory.Calls.{Call, after_all, get_call, release_call, reserve_call}
use native.Mathlib.Decide.{ℕ_discrete}
use marketview.Base.Dict.{lookup}
use marketview.Base.{
  List-decides, ◌≡◌, refl, [], ◌∷◌, true, false, none, some, ◌+◌, ◌-◌, ◌==◌, List, arith, leb, ltb,
  ℕ, ◌≤◌, if◌then◌else◌, List-Eq, ℕ-Eq, ◌≢◌,
}

abbrev empty_cache : MemoryCache ℕ
empty_cache = record { values = []; counters = []; locks = [] }

abbrev price : Text
price = codes "price"

abbrev quota : Text
quota = codes "quota"

get-set_example : (get price 12 (set price 7 (pos 5) (pos 10) 10 empty_cache).1).0 ≡ (
    if price == price
    then (if ltb 12 (10 + 5 + 10)
        then some (record { value = 7; is_fresh = ltb 12 (10 + 5) })
        else none)
    else (get price 12 empty_cache).0)
get-set_example = get-set price 7 5 10 10 price 12 empty_cache (omega arith)

reserve_quota-count_example :
    let used = current_count quota 3 empty_cache in
    let (r, c') = reserve_quota quota (pos 2) (pos 60) 3 empty_cache in
    (r ≡ ok (if leb 2 used then none else some (used + 1)))
    × (current_count quota 3 c' ≡ (
        if quota == quota
        then (if leb 2 used then used else used + 1)
        else current_count quota 3 empty_cache))
reserve_quota-count_example =
    reserve_quota-count quota 2 60 3 quota empty_cache (omega arith) (omega arith)

release_quota-count_example :
    let used = current_count quota 3 empty_cache in
    let (left, c') = release_quota quota 3 empty_cache in
    (left ≡ used - 1)
    × (current_count quota 3 c'
        ≡ (if quota == quota then used - 1 else current_count quota 3 empty_cache))
release_quota-count_example = release_quota-count quota 3 quota empty_cache

abbrev quota_calls : List (Call ℕ)
quota_calls = reserve_call quota (pos 2) (pos 60) 3 ∷ release_call quota 4 ∷ []

no_counter : lookup quota empty_cache.counters ≡ none
unfolding lookup
no_counter = refl

current_count-le-limit_example : current_count quota 5 (after_all quota_calls empty_cache) ≤ 2
current_count-le-limit_example =
    current_count-le-limit quota 2 quota_calls empty_cache 5 no_counter
      ((λ e. omega arith), (tt, tt))

lock_taken : (acquire_lock price (codes "a") (pos 30) 1 empty_cache).0 ≡ true
unfolding acquire_lock lookup
lock_taken = refl

b-ne-a : codes "bb" ≢ codes "a"
b-ne-a e = ground arith

acquire_lock-excludes_example :
    let c' =
      after_all (get_call price 2 ∷ []) (acquire_lock price (codes "a") (pos 30) 1 empty_cache).1 in
    (acquire_lock price (codes "bb") (pos 30) 5 c' ≡ (false, c'))
    × (release_lock price (codes "bb") c' ≡ (false, c'))
acquire_lock-excludes_example =
    acquire_lock-excludes price (codes "a") 30 1 empty_cache (get_call price 2 ∷ []) lock_taken
      (tt, tt) (codes "bb") (pos 30) 5 (omega arith) b-ne-a

abbrev locked_cache : MemoryCache ℕ
locked_cache = record {
  values = [];
  counters = [];
  locks = (price, record { token = codes "a"; expires_at = 31 }) ∷ [];
}

lock_found : lookup price locked_cache.locks ≡ some (record { token = codes "a"; expires_at = 31 })
unfolding lookup List-decides ℕ_discrete
lock_found = refl

release_lock-frees_example :
    let (released, c') = release_lock price (codes "a") locked_cache in
    (released ≡ true) × ((acquire_lock price (codes "bb") (pos 30) 5 c').0 ≡ true)
release_lock-frees_example =
    release_lock-frees price (codes "a") (codes "bb") (pos 30) 31 5 locked_cache lock_found
