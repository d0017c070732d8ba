-- ===== src/Cache.antt =====
-- internal/cache/cache.go: a cache that serves stale entries while it fetches them anew. Its map is
-- `xsync.Map`, an interface here. Of `singleflight.Group` the model has what its documentation
-- promises: of one key at most one call runs, and a caller that meets a running call waits for it
-- and receives its result. Between the atomic steps below other calls may run.
pub mod Laws
pub mod Flights
mod Tests
use arko.Base.{
  ℕ, ◌-◌, String, Bool, true, false, Option, none, some, List, [], ◌∷◌, ltb, if◌then◌else◌,
}
use arko.Base.Assoc.{lookup, insert, remove}
use arko.Base.SyncMap.{SyncMap}

pub record Entry (T : Type 0) : Type 0 where
  pub value : T
  pub fetched_at : ℕ

-- What the function passed to `Get` returns.
pub data Fetched (T : Type 0) : Type 0 where
  ok : T → Fetched T
  err : String → Fetched T

-- The two functions that `Get` passes to `Do`: that of a miss, and that of the goroutine which
-- replaces a stale entry.
pub data Flight : Type 0 where
  fetch refresh : Flight

-- What `Do` returns: `(any, error)`.
pub data DoResult (T : Type 0) : Type 0 where
  entry : Entry T → DoResult T
  nothing : DoResult T
  fault : String → DoResult T

-- How a call of `Get` ends; `panic` is a type assertion on a nil interface, and `blocked` is a call
-- that still waits for one in flight.
pub data GetResult (T : Type 0) : Type 0 where
  value : T → GetResult T
  failed : String → GetResult T
  panic blocked : GetResult T

-- The first part of `Get`: a hit, with whether it starts a refresh, or a miss, which goes to `Do`.
pub data Started (T : Type 0) : Type 0 where
  hit : T → Bool → Started T
  miss : Started T

-- A call of `Do` joins a running call, has its result at once, or runs its function.
pub data Entered (T : Type 0) : Type 0 where
  waits : Entered T
  done : DoResult T → Entered T
  runs : Entered T

-- v.(entry[T]).value behind the test of the error
unfoldable pub conclude : {T : Type 0} → DoResult T → GetResult T
conclude (entry e) = value e.value
conclude nothing = panic
conclude (fault e) = failed e

module _ ⦃x : SyncMap⦄ where
  open x use {Map, new as new_map, load, store, delete}

  pub record Cache (T : Type 0) : Type 0 where
    pub entries : Map (Entry T)
    pub ttl : ℕ
    pub flights : List (String × Flight)

  unfoldable pub new : {T : Type 0} → ℕ → Cache T
  new ttl = record { entries = new_map; ttl = ttl; flights = [] }

  unfoldable pub new_default : {T : Type 0} → Cache T
  unfolding new
  new_default = new 3_000_000_000

  module _ {T : Type 0} where
    unfoldable pub get_start : Cache T → String → ℕ → Started T
    get_start c key now = elim (load c.entries key) [
      | none ↦ miss
      | some e ↦ hit e.value (ltb c.ttl (now - e.fetched_at))
    ]

    -- `Do` with nothing in flight: the function of a miss looks once more.
    unfoldable pub take_off : Cache T → String → Flight → Cache T × Entered T
    take_off c key refresh = (record c { flights = insert key refresh c.flights }, runs)
    take_off c key fetch = elim (load c.entries key) [
      | some e ↦ (c, done (entry e))
      | none ↦ (record c { flights = insert key fetch c.flights }, runs)
    ]

    unfoldable pub enter : Cache T → String → Flight → Cache T × Entered T
    unfolding take_off
    enter c key kind = elim (lookup key c.flights) [
      | some running ↦ (c, waits)
      | none ↦ take_off c key kind
    ]

    unfoldable pub put : Cache T → String → ℕ → T → Cache T
    put c key now v = record c {
      entries = store c.entries key (record { value = v; fetched_at = now });
    }

    -- The function in flight got `res`: the new cache, and what every waiting call of `Do` returns.
    unfoldable pub land : Cache T → String → ℕ → Flight → Fetched T → Cache T × DoResult T
    unfolding put
    land c key now fetch (ok v) = (
      record (put c key now v) { flights = remove key c.flights },
      entry (record { value = v; fetched_at = now }),
    )
    land c key now fetch (err e) = (record c { flights = remove key c.flights }, fault e)
    land c key now refresh (ok v) =
        (record (put c key now v) { flights = remove key c.flights }, nothing)
    land c key now refresh (err e) = (record c { flights = remove key c.flights }, nothing)

    -- `Get` as a whole, where no other call comes between its steps and `fn` returns `res`. The
    -- last part is whether a refresh was started.
    unfoldable pub after_enter :
        String → ℕ → Fetched T → Cache T × Entered T → GetResult T × Cache T
    unfolding land conclude
    after_enter key now res (c, waits) = (blocked, c)
    after_enter key now res (c, done r) = (conclude r, c)
    after_enter key now res (c, runs) = let (c', r) = land c key now fetch res in (conclude r, c')

    unfoldable pub after_start :
        Cache T → String → ℕ → Fetched T → Started T → GetResult T × Cache T × Bool
    unfolding after_enter enter
    after_start c key now res (hit v stale) = (value v, c, stale)
    after_start c key now res miss =
        let (r, c') = after_enter key now res (enter c key fetch) in (r, c', false)

    unfoldable pub get : Cache T → String → ℕ → Fetched T → GetResult T × Cache T × Bool
    unfolding after_start get_start
    get c key now res = after_start c key now res (get_start c key now)

    unfoldable pub invalidate : Cache T → String → Cache T
    invalidate c key = record c { entries = delete c.entries key }

    unfoldable pub clear : Cache T → Cache T
    clear c = record c { entries = new_map }
