-- ===== src/Cache/Tests.antt =====
-- The cache on concrete inputs: a cache of numbers with an entry fetched at 0 and a bound of 3.
use arko.Base.{ℕ, true, ◌≡◌, refl, [], ◌∷◌, arith}
use arko.Base.Assoc.{lookup}
use arko.Base.SyncMap
use arko.Base.SyncMap.{SyncMap}
use arko.Cache.{
  Entry, Cache, ok, fetch, refresh, waits, runs, panic, hit, miss, get_start, enter, land,
  invalidate, conclude,
}
use arko.Cache.Flights.{stale_read_panics}

abbrev seven : Entry ℕ
seven = record { value = 7; fetched_at = 0 }

abbrev one_entry : Cache ⦃x = SyncMap.listed⦄ ℕ
one_entry = record { entries = ("a", seven) ∷ []; ttl = 3; flights = [] }

stale_read_panics_example :
    let c1 = (enter ⦃x = SyncMap.listed⦄ one_entry "a" refresh).0 in
    let c2 = invalidate ⦃x = SyncMap.listed⦄ c1 "a" in
    (get_start ⦃x = SyncMap.listed⦄ one_entry "a" 9 ≡ hit 7 true)
    × ((enter ⦃x = SyncMap.listed⦄ one_entry "a" refresh).1 ≡ runs)
    × (get_start ⦃x = SyncMap.listed⦄ c2 "a" 10 ≡ miss)
    × ((enter ⦃x = SyncMap.listed⦄ c2 "a" fetch).1 ≡ waits)
    × (conclude (land ⦃x = SyncMap.listed⦄ c2 "a" 10 refresh (ok 8)).1 ≡ panic)
unfolding lookup
stale_read_panics_example =
    stale_read_panics ⦃x = SyncMap.listed⦄ one_entry "a" 9 10 seven (ok 8) refl (omega arith) refl
