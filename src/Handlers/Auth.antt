-- ===== src/Handlers/Auth.antt =====
-- internal/middleware/session.go and auth.go: the session of a request, and which requests pass.
-- The user id that the cookie holds (securecookie is not in the repository), whether the manager
-- has a client of a user and whether that is verified are arguments.
use arko.Base.{
  String, Bool, true, false, not, ◌&&◌, ◌||◌, ◌≡◌, ◌≢◌, refl, some, List, [], ◌∷◌, ◌==◌, arith,
  has_prefix, if◌then◌else◌, eq_iff, ◌⊎◌,
}
use arko.Session
use arko.Session.{
  Session, GlobalSettings, Got, found, not_found, broken, Store, default, get_known_users,
  restarted,
}
use arko.Session.External.{Keyring, Json}
use arko.Session.Laws.{IsUserKey}
use arko.Session.Reads.{get-delete}

pub data Outcome : Type 0 where
  passes to_login to_verify : Outcome

-- What a request brings: `is_ws` the upgrade to a websocket.
pub record Request : Type 0 where
  pub cookie_user : String
  pub is_ws : Bool
  pub path : String

abbrev pub or_else : Got → Session → Session
or_else (found sess) other = sess
or_else not_found other = other
or_else broken other = other

module _ ⦃k : Keyring⦄ ⦃sessions : Json Session⦄ ⦃settings : Json GlobalSettings⦄
    ⦃users : Json (List String)⦄ where
  -- The session that the cookie names, or the default one.
  unfoldable pub cookie_session : Store → String → Session × Store
  cookie_session s user =
      let (got, s1) = Session.get s user in
      if user == "" then (default, s) else (or_else got default, s1)

  -- The part on the first known user, with whether a cookie is set.
  unfoldable pub adopt : Session × Store → Got × Store → Session × Store × Bool
  adopt (sess, s) (found first, s1) =
      if first.logged_in then (first, s1, true) else (sess, s1, false)
  adopt (sess, s) (not_found, s1) = (sess, s1, false)
  adopt (sess, s) (broken, s1) = (sess, s1, false)

  unfoldable pub adopt_first : Session × Store → List String → Session × Store × Bool
  unfolding adopt
  adopt_first (sess, s) [] = (sess, s, false)
  adopt_first (sess, s) (user ∷ others) = adopt (sess, s) (Session.get s user)

  unfoldable pub session_middleware : Store → Request → Session × Store × Bool
  unfolding adopt_first cookie_session
  session_middleware s req =
      let (sess, s1) = cookie_session s req.cookie_user in
      if not sess.logged_in && req.cookie_user == ""
      then adopt_first (sess, s1) (get_known_users s1)
      else (sess, s1, false)

  -- The result has whether the cookie is cleared.
  unfoldable pub auth :
      Store → Session → Request → (String → Bool) → (String → Bool) → Outcome × Store × Bool
  auth s sess req has_client is_verified =
      if req.is_ws
      then (passes, s, false)
      else if not sess.logged_in || sess.user_id == ""
      then (to_login, s, false)
      else if not (has_client sess.user_id)
      then (to_login, Session.delete s sess.user_id, true)
      else if not (is_verified sess.user_id) && not (has_prefix req.path "/verify")
      then (to_verify, s, false)
      else (passes, s, false)

  -- A request that passes and is no websocket comes from a user who is logged in and has a client,
  -- and whose device is verified unless it asks for a page of the verification; it changes nothing.
  pub auth_passes :
      (s : Store) (sess : Session) (req : Request) (has_client is_verified : String → Bool)
      → req.is_ws ≡ false
      → (auth s sess req has_client is_verified).0 ≡ passes
      → (sess.logged_in ≡ true)
        × (sess.user_id ≢ "")
        × (has_client sess.user_id ≡ true)
        × ((is_verified sess.user_id ≡ true) ⊎ (has_prefix req.path "/verify" ≡ true))
        × (auth s sess req has_client is_verified ≡ (passes, s, false))
  unfolding auth
  auth_passes s sess req has_client is_verified w h = ground (arith, eq_iff sess.user_id "")

  -- A request, not of a websocket, of a user who is logged in and has no client goes to the login
  -- page; where the keyring deletes the session, under a key that is not one of the store's own, it
  -- is not found any more, in this process and in the next one, and the cookie is cleared.
  pub auth_no_client :
      (s : Store) (sess : Session) (req : Request) (has_client is_verified : String → Bool)
      (r : k.State)
      → req.is_ws ≡ false
      → sess.logged_in ≡ true
      → sess.user_id ≢ ""
      → IsUserKey sess.user_id
      → has_client sess.user_id ≡ false
      → k.delete s.keyring sess.user_id ≡ some r
      → let (out, t, cleared) = auth s sess req has_client is_verified in
        (out ≡ to_login)
        × (cleared ≡ true)
        × ((Session.get t sess.user_id).0 ≡ not_found)
        × ((Session.get (restarted t) sess.user_id).0 ≡ not_found)
  unfolding auth
  auth_no_client s sess req has_client is_verified r w l ne key c d =
      let p = get-delete s sess.user_id r key d in let e = forgets in rw e (refl, refl, p.0, p.1)
    where
      forgets :
          auth s sess req has_client is_verified ≡ (to_login, Session.delete s sess.user_id, true)
      forgets = ground (arith, eq_iff sess.user_id "")

  -- A request, not of a websocket, whose cookie names nobody gets the session of the first known
  -- user and a cookie for it, where that session is found and logged in; where no user is known it
  -- gets the default session, and goes to the login page.
  pub session_middleware_no_cookie :
      (s : Store) (req : Request) (has_client is_verified : String → Bool)
      → req.cookie_user ≡ ""
      → req.is_ws ≡ false
      → ((user : String) (others : List String) (first : Session)
          → get_known_users s ≡ user ∷ others
          → (Session.get s user).0 ≡ found first
          → first.logged_in ≡ true
          → ((session_middleware s req).0 ≡ first) × ((session_middleware s req).2 ≡ true))
        × (get_known_users s ≡ []
            → (session_middleware s req ≡ (default, s, false))
              × ((auth s (session_middleware s req).0 req has_client is_verified).0 ≡ to_login))
  unfolding session_middleware cookie_session adopt_first adopt default auth
  session_middleware_no_cookie s req has_client is_verified c w = (
    (λ user others first known got l. ground (arith, eq_iff req.cookie_user "")),
    λ none_known. ground (arith, eq_iff req.cookie_user ""),
  )
