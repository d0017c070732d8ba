-- ===== src/Cache/Flights.antt =====
-- Interleavings of `Get` with the goroutine that replaces a stale entry and with `Invalidate`.
use arko.Base.{ℕ, ◌-◌, ◌<◌, String, true, ◌≡◌, none, some, arith, eq_refl}
use arko.Base.Assoc.{lookup, lookup-insert}
use arko.Base.SyncMap.{SyncMap}
use arko.Cache.{
  Entry, Cache, Fetched, ok, err, Flight, fetch, refresh, waits, runs, panic, get_start, miss, hit,
  enter, take_off, land, invalidate, conclude,
}

module _ ⦃x : SyncMap⦄ {T : Type 0} where
  -- A stale entry, with nothing in flight, is read, which starts its refresh; the entry is
  -- invalidated while the refresh runs; the next read misses, waits for the refresh, and panics
  -- when that ends, whatever it got.
  pub stale_read_panics :
      (c : Cache T) (key : String) (now later : ℕ) (e : Entry T) (res : Fetched T)
      → x.load c.entries key ≡ some e
      → c.ttl < now - e.fetched_at
      → lookup key c.flights ≡ none
      → let c1 = (enter c key refresh).0 in
        let c2 = invalidate c1 key in
        (get_start c key now ≡ hit e.value true)
        × ((enter c key refresh).1 ≡ runs)
        × (get_start c2 key later ≡ miss)
        × ((enter c2 key fetch).1 ≡ waits)
        × (conclude (land c2 key later refresh res).1 ≡ panic)
  unfolding enter take_off get_start invalidate land conclude
  stale_read_panics c key now later e (ok v) h old free =
      ground (
        arith,
        x.load-delete c.entries key key,
        eq_refl key,
        lookup-insert key key refresh c.flights,
      )
  stale_read_panics c key now later e (err _) h old free =
      ground (
        arith,
        x.load-delete c.entries key key,
        eq_refl key,
        lookup-insert key key refresh c.flights,
      )

  -- What a fetch that is in flight during `Invalidate` gets is cached after it.
  pub invalidate_lost :
      (c : Cache T) (key : String) (now : ℕ) (v : T) (kind : Flight)
      → x.load (land (invalidate c key) key now kind (ok v)).0.entries key
        ≡ some (record { value = v; fetched_at = now })
  unfolding land
  invalidate_lost c key now v fetch = rw (x.load-store, eq_refl)
  invalidate_lost c key now v refresh = rw (x.load-store, eq_refl)
