-- ===== src/Matrix/Refresh/Laws.antt =====
-- When a token is refreshed, and with which tokens the loop goes on.
use arko.Base.{
  ℕ, ◌*◌, ◌≤◌, ◌<◌, String, true, ◌≡◌, refl, some, arith, if◌then◌else◌, List, sym, ap, not, ◌==◌,
}
use arko.Session
use arko.Session.{Session, GlobalSettings, Store, found, restarted}
use arko.Session.External.{Keyring, Json}
use arko.Session.Laws.{IsUserKey}
use arko.Session.Reads.{get-update}
use arko.Matrix.Refresh.{
  refresh_wait, at_least, min_wait, positive, RefreshResponse, Refreshing, renewed, refresh_round,
}

-- The wait is never below half a minute; for a life from 38 seconds to 115292150460 ms it is four
-- fifths of the life, so the token is refreshed before it expires.
pub refresh_wait-le :
    (e : ℕ)
    → (min_wait ≤ refresh_wait e)
      × (38_000 ≤ e
          → e ≤ 115_292_150_460
          → (refresh_wait e ≡ e * 800_000) × (refresh_wait e < e * 1_000_000))
unfolding refresh_wait at_least
refresh_wait-le e = (ground arith, λ l u. ground arith)

-- A life from 115292150461 ms to twice that overflows the product, and the wait is half a minute.
pub refresh_wait_wraps :
    (e : ℕ) → 115_292_150_461 ≤ e → e < 230_584_300_921 → refresh_wait e ≡ min_wait
unfolding refresh_wait at_least
refresh_wait_wraps e l u = ground arith

module _ ⦃k : Keyring⦄ ⦃sessions : Json Session⦄ ⦃settings : Json GlobalSettings⦄
    ⦃users : Json (List String)⦄ where
  -- A round that gets new tokens and stores them without an error keeps the loop, the client and
  -- the stored session in step: a read of the session, in this process or in the next one, gives
  -- the access token that the client uses, and the refresh token and the life with which the loop
  -- goes on.
  pub refresh_round-agrees :
      (s : Store) (user : String) (r : Refreshing) (resp : RefreshResponse) (sess : Session)
      → IsUserKey user
      → (Session.get s user).0 ≡ found sess
      → sess.user_id ≡ user
      → sess.refresh_token ≡ r.refresh_token
      → sess.expires_in_ms ≡ r.expires_in_ms
      → (Session.update s user (renewed resp)).1 ≡ true
      → let (t, q) = refresh_round s user r (some resp) in
        (now : Session) × ((Session.get t user).0 ≡ found now)
        × ((Session.get (restarted t) user).0 ≡ found now)
        × (now.access_token ≡ q.client_token)
        × (now.refresh_token ≡ q.refresh_token)
        × (now.expires_in_ms ≡ q.expires_in_ms)
        × (q.wait ≡ refresh_wait now.expires_in_ms)
  unfolding refresh_round renewed
  refresh_round-agrees s user r resp sess key h same tok exp ok =
      let p = get-update s user (renewed resp) sess key h same ok in
      (
        renewed resp sess,
        p.0,
        p.1,
        refl,
        ap (λ v. if not (resp.refresh_token == "") then resp.refresh_token else v) tok,
        ap (λ v. if positive resp.expires_in_ms then resp.expires_in_ms else v) exp,
        ap (λ v. refresh_wait (if positive resp.expires_in_ms then resp.expires_in_ms else v))
            (sym exp),
      )
