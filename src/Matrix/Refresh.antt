-- ===== src/Matrix/Refresh.antt =====
-- internal/matrix/refresh.go: the loop that refreshes the access token of a session. The answer of
-- the server, an HTTP request, is an argument. A duration is a number of nanoseconds, an int64: its
-- arithmetic wraps at 64 bits, and a number from 2^63 on stands for a negative one.
pub mod Laws
mod Tests
use arko.Base.{
  ℕ, ◌*◌, ◌/◌, ◌%◌, ◌^◌, String, Bool, true, false, not, Option, none, some, ◌==◌, ltb, leb, eqb,
  ◌&&◌, if◌then◌else◌,
}
use arko.Session
use arko.Session.{Session, GlobalSettings, Store}
use arko.Session.External.{Keyring, Json}
use arko.Base.{List}

pub record RefreshResponse : Type 0 where
  pub access_token : String
  pub refresh_token : String
  pub expires_in_ms : ℕ

-- n > 0 of an int64
abbrev pub positive : ℕ → Bool
positive n = ltb 0 n && ltb n (2 ^ 63)

abbrev pub min_wait : ℕ
min_wait = 30_000_000_000

abbrev pub retry_delay : ℕ
retry_delay = 30_000_000_000

-- `refreshWait` with 80 percent: the product, and its test against the floor.
unfoldable pub at_least : ℕ → ℕ → ℕ
at_least floor p = if leb (2 ^ 63) p then floor else if ltb (p / 100) floor then floor else p / 100

unfoldable pub refresh_wait : ℕ → ℕ
unfolding at_least
refresh_wait expires_in_ms = at_least min_wait (expires_in_ms * 1_000_000 % 2 ^ 64 * 80 % 2 ^ 64)

-- The variables of `tokenRefreshLoop`; `client_token` is the client's `AccessToken`.
pub record Refreshing : Type 0 where
  pub client_token : String
  pub refresh_token : String
  pub expires_in_ms : ℕ
  pub wait : ℕ

-- The change that is made to the stored session.
unfoldable pub renewed : RefreshResponse → Session → Session
renewed resp s = record s {
  access_token = resp.access_token;
  refresh_token = if not (resp.refresh_token == "") then resp.refresh_token else s.refresh_token;
  expires_in_ms = if positive resp.expires_in_ms then resp.expires_in_ms else s.expires_in_ms;
}

-- `doRefreshToken`, from the response's status and its body, where that parses.
unfoldable pub do_refresh_token : ℕ → Option RefreshResponse → Option RefreshResponse
do_refresh_token status none = none
do_refresh_token status (some resp) =
    if eqb status 200 then (if resp.access_token == "" then none else some resp) else none

module _ ⦃k : Keyring⦄ ⦃sessions : Json Session⦄ ⦃settings : Json GlobalSettings⦄
    ⦃users : Json (List String)⦄ where
  -- `startTokenRefresh`: whether the loop runs, and its first wait.
  unfoldable pub start_token_refresh : Session → Option Refreshing
  unfolding refresh_wait
  start_token_refresh sess =
      if sess.refresh_token == ""
      then none
      else if positive sess.expires_in_ms
      then some (record {
        client_token = sess.access_token;
        refresh_token = sess.refresh_token;
        expires_in_ms = sess.expires_in_ms;
        wait = refresh_wait sess.expires_in_ms;
      })
      else none

  -- One round of the loop, after its wait; `none` is a request that failed.
  unfoldable pub refresh_round :
      Store → String → Refreshing → Option RefreshResponse → Store × Refreshing
  unfolding refresh_wait renewed Session.update
  refresh_round s user r none = (s, record r { wait = retry_delay })
  refresh_round s user r (some resp) =
      let expires = if positive resp.expires_in_ms then resp.expires_in_ms else r.expires_in_ms in
      (
        (Session.update s user (renewed resp)).0,
        record {
          client_token = resp.access_token;
          refresh_token =
              if not (resp.refresh_token == "") then resp.refresh_token else r.refresh_token;
          expires_in_ms = expires;
          wait = refresh_wait expires;
        },
      )
