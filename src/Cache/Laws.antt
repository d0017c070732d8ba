-- ===== src/Cache/Laws.antt =====
-- What `Get` returns and leaves in the cache, where no other call on the key is in flight.
use arko.Base.{
  ℕ, ◌-◌, String, ◌≡◌, ◌≢◌, none, some, arith, ltb, if◌then◌else◌, eq_iff, eq_refl, ◌==◌,
  Option-cases, Bool-cases, inl, inr, refl,
}
use arko.Base.Assoc.{lookup, insert, lookup-remove}
use arko.Base.SyncMap.{SyncMap}
use arko.Cache.{
  Entry, Cache, Fetched, Flight, ok, err, fetch, refresh, value, failed, get, invalidate, enter,
  take_off, land, put,
}

module _ ⦃x : SyncMap⦄ {T : Type 0} where
  -- An entry is served whatever its age, nothing changes, and it is fetched anew exactly when it is
  -- older than the cache's bound.
  pub get_hit :
      (c : Cache T) (key : String) (now : ℕ) (res : Fetched T) (e : Entry T)
      → x.load c.entries key ≡ some e
      → get c key now res ≡ (value e.value, c, ltb c.ttl (now - e.fetched_at))
  unfolding get
  get_hit c key now res e h = ground arith

  -- A miss that fetches a value while nothing is in flight for the key returns the value and leaves
  -- it under the key, with its instant; other keys load as before, and nothing is left in flight.
  pub get_miss-ok :
      (c : Cache T) (key j : String) (now : ℕ) (v : T)
      → x.load c.entries key ≡ none
      → lookup key c.flights ≡ none
      → ((get c key now (ok v)).0 ≡ value v)
        × (x.load (get c key now (ok v)).1.entries j ≡ (
            if key == j then some (record { value = v; fetched_at = now }) else x.load c.entries j))
        × (lookup key (get c key now (ok v)).1.flights ≡ none)
  unfolding get
  get_miss-ok c key j now v h k = ground (
    arith,
    x.load-store c.entries key j (record { value = v; fetched_at = now }),
    lookup-remove key key (insert key fetch c.flights),
    eq_refl key,
  )

  -- A miss whose fetch fails while nothing is in flight for the key returns the error; every key
  -- loads as before, and nothing is left in flight.
  pub get_miss-err :
      (c : Cache T) (key j : String) (now : ℕ) (e : String)
      → x.load c.entries key ≡ none
      → lookup key c.flights ≡ none
      → ((get c key now (err e)).0 ≡ failed e)
        × (x.load (get c key now (err e)).1.entries j ≡ x.load c.entries j)
        × (lookup key (get c key now (err e)).1.flights ≡ none)
  unfolding get
  get_miss-err c key j now e h k =
      ground (arith, lookup-remove key key (insert key fetch c.flights), eq_refl key)

  -- Where nothing is in flight for a key, a read after `Invalidate` returns what its own fetch
  -- returns, whatever was cached, and every other key loads as before.
  pub get-invalidate :
      (c : Cache T) (key : String) (now : ℕ) (v : T)
      → lookup key c.flights ≡ none
      → ((get (invalidate c key) key now (ok v)).0 ≡ value v)
        × ((j : String) → key ≢ j → x.load (invalidate c key).entries j ≡ x.load c.entries j)
  unfolding invalidate
  get-invalidate c key now v k = (
    (get_miss-ok _ key key now v (rw (x.load-delete, eq_refl)) k).0,
    λ j ne. ground (arith, x.load-delete c.entries key j, eq_iff key j),
  )

  -- An entry stays under its key whatever key is read, and whatever the read fetches.
  pub get_keeps :
      (c : Cache T) (key j : String) (now : ℕ) (res : Fetched T) (e : Entry T)
      → x.load c.entries j ≡ some e
      → x.load (get c key now res).1.entries j ≡ some e
  unfolding get
  get_keeps c key j now (ok v) e h = ground (
    arith,
    x.load-store c.entries key j (record { value = v; fetched_at = now }),
    eq_iff key j,
    Option-cases (x.load c.entries key),
    Option-cases (lookup key c.flights),
  )
  get_keeps c key j now (err m) e h =
      ground (arith, Option-cases (x.load c.entries key), Option-cases (lookup key c.flights))

  pub enter-entries :
      (c : Cache T) (key : String) (k : Flight) → (enter c key k).0.entries ≡ c.entries
  unfolding enter take_off
  enter-entries c key refresh = ground arith
  enter-entries c key fetch = ground arith

  -- A refresh of another key leaves an entry, and so does one that fails.
  pub land_keeps :
      (c : Cache T) (key j : String) (now : ℕ) (res : Fetched T) (e : Entry T)
      → (key ≡ j → (v : T) → res ≢ ok v)
      → x.load c.entries j ≡ some e
      → x.load (land c key now refresh res).0.entries j ≡ some e
  unfolding land put
  land_keeps c key j now (ok v) e n h = elim (Bool-cases (key == j)) [
    | inl q ↦ absurd (n ((eq_iff key j).0 q) v refl)
    | inr q ↦ rw (x.load-store, q) h
  ]
  land_keeps c key j now (err m) e n h = h
