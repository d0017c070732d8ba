-- ===== src/Session/Tests.antt =====
-- The session store on concrete inputs.
use arko.Base.{Bool, false, ◌≡◌, refl, none, [], ◌∷◌, ◌==◌, if◌then◌else◌}
use arko.Session.{Session, found, Store, get, put, restarted, zero_session}
use arko.Session.Reads.{get-put}
use arko.Session.Named.{session, named, session_json, settings_json, names_json}

abbrev ann : Session
ann = record (zero_session "@ann") { access_token = "t" }

abbrev empty_store : Store
empty_store = record { keyring = (false, []); cache = []; global_cache = none }

abbrev with_ann : Bool → Store
with_ann refuses = record {
  keyring = (refuses, ("@ann", session ann) ∷ []);
  cache = ("@ann", ann) ∷ [];
  global_cache = none;
}

get-put_example :
    let r = (put empty_store ann).0 in
    ((get r "@ann").0 ≡ (if "@ann" == "@ann" then found ann else (get empty_store "@ann").0))
    × ((get (restarted r) "@ann").0
        ≡ (if "@ann" == "@ann" then found ann else (get (restarted empty_store) "@ann").0))
unfolding put
get-put_example = get-put empty_store ann (refl, refl) refl "@ann" (refl, refl)

abbrev dark : Session → Session
dark s = record s { theme = "dark" }
