-- ===== src/Matrix/Refresh/Tests.antt =====
-- The refresh of tokens on concrete inputs: an hour of life, and the first round of the loop.
use arko.Base.{◌≤◌, ◌<◌, ◌*◌, false, ◌≡◌, refl, none, some, [], ◌∷◌}
use arko.Base.Assoc.{lookup}
use arko.Session
use arko.Session.{Session, Store, found, restarted, zero_session}
use arko.Session.Named.{named, session_json, settings_json, names_json, session}
use arko.Matrix.Refresh.{refresh_wait, min_wait, RefreshResponse, Refreshing, refresh_round}
use arko.Matrix.Refresh.Laws.{refresh_wait-le, refresh_round-agrees}

refresh_wait-le_example :
    (min_wait ≤ refresh_wait 3_600_000)
    × (38_000 ≤ 3_600_000
        → 3_600_000 ≤ 115_292_150_460
        → (refresh_wait 3_600_000 ≡ 3_600_000 * 800_000)
          × (refresh_wait 3_600_000 < 3_600_000 * 1_000_000))
refresh_wait-le_example = refresh_wait-le 3_600_000

abbrev ann : Session
ann = record (zero_session "@ann") {
  access_token = "a0";
  refresh_token = "r0";
  expires_in_ms = 3_600_000;
}

abbrev stored : Store
stored = record {
  keyring = (false, ("@ann", session ann) ∷ []);
  cache = ("@ann", ann) ∷ [];
  global_cache = none;
}

abbrev waiting : Refreshing
waiting = record {
  client_token = "a0";
  refresh_token = "r0";
  expires_in_ms = 3_600_000;
  wait = 2_880_000_000_000;
}

abbrev answer : RefreshResponse
answer = record { access_token = "a1"; refresh_token = ""; expires_in_ms = 7_200_000 }

refresh_round-agrees_example :
    let (t, q) = refresh_round stored "@ann" waiting (some answer) in
    (now : Session) × ((Session.get t "@ann").0 ≡ found now)
    × ((Session.get (restarted t) "@ann").0 ≡ found now)
    × (now.access_token ≡ q.client_token)
    × (now.refresh_token ≡ q.refresh_token)
    × (now.expires_in_ms ≡ q.expires_in_ms)
    × (q.wait ≡ refresh_wait now.expires_in_ms)
unfolding lookup Session.update
refresh_round-agrees_example =
    refresh_round-agrees stored "@ann" waiting answer ann (refl, refl) refl refl refl refl refl
