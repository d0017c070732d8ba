-- ===== src/Handlers/Login.antt =====
-- internal/handlers/login.go: the pages of login and logout, over the manager of Matrix sessions
-- and the session store. `result` is what `Login` gives, so the stored session is changed once
-- more.
use arko.Base.{
  String, Bool, true, not, ◌&&◌, ◌≡◌, refl, Option, none, some, List, ◌==◌, if◌then◌else◌,
}
use arko.Base.Assoc.{lookup, remove}
use arko.Session
use arko.Session.{Session, GlobalSettings, Store}
use arko.Session.External.{Keyring, Json}
use arko.Matrix.Manager.{
  Manager, LoginAnswers, Ending, ok, failed, panic, login, logout, logout_of, get_current_user_id,
}

-- How a request ends: on a page, with the cookie set to a user or cleared, with an error, or in a
-- panic, which the server catches.
pub data LoginEnding : Type 0 where
  to_home login_page bad_request unauthorized server_error panics : LoginEnding
  logged_in : String → LoginEnding
  logged_out : LoginEnding

unfoldable pub handle_login_page : Session → LoginEnding
handle_login_page sess = if sess.logged_in && not (sess.user_id == "") then to_home else login_page

unfoldable pub confirmed : Session → Session → Session
confirmed result s = record s {
  user_id = result.user_id;
  homeserver = result.homeserver;
  access_token = result.access_token;
  logged_in = true;
}

module _ ⦃k : Keyring⦄ ⦃sessions : Json Session⦄ ⦃settings : Json GlobalSettings⦄
    ⦃users : Json (List String)⦄ where
  unfoldable pub login_confirmed : Manager → Store × Option Session → Manager × LoginEnding
  login_confirmed m (s, none) = (record m { store = s }, server_error)
  login_confirmed m (s, some sess) = (record m { store = s }, logged_in sess.user_id)

  unfoldable pub login_answered : Manager × Ending Session → Manager × LoginEnding
  unfolding login_confirmed confirmed Session.update_and_get
  login_answered (m, panic) = (m, panics)
  login_answered (m, failed) = (m, unauthorized)
  login_answered (m, ok result) =
      login_confirmed m (Session.update_and_get m.store result.user_id (confirmed result))

  -- `parses` is whether the form does, `homeserver` its field.
  unfoldable pub handle_login_submit :
      Manager → Bool → String → LoginAnswers → Manager × LoginEnding
  unfolding login_answered login
  handle_login_submit m parses homeserver a =
      if not parses
      then (m, bad_request)
      else if homeserver == ""
      then (m, bad_request)
      else login_answered (login m a)

  unfoldable pub forget : String → Manager × Ending Bool → Manager × LoginEnding
  unfolding Session.delete
  forget user (m, panic) = (m, panics)
  forget user (m, failed) = (record m { store = Session.delete m.store user }, logged_out)
  forget user (m, ok e) = (record m { store = Session.delete m.store user }, logged_out)

  unfoldable pub handle_logout : Manager → Session → Manager × LoginEnding
  unfolding forget logout get_current_user_id
  handle_logout m sess =
      forget sess.user_id
        (if sess.logged_in then logout m (get_current_user_id m) else (m, ok true))

  logout_unknown-store :
      (m : Manager) (user : String)
      → lookup user m.matrix_sessions ≡ none
      → logout m user
        ≡ (record m { cancelled = true; matrix_sessions = remove user m.matrix_sessions }, panic)
  unfolding logout logout_of
  logout_unknown-store m user h = rw h refl

  -- A request to log out where the manager has no session for its current user, as after a restart
  -- that failed or after another logout, ends in a panic: the cookie is not cleared, and the stored
  -- session stays, so that the user is still logged in.
  pub handle_logout_stuck :
      (m : Manager) (sess : Session)
      → sess.logged_in ≡ true
      → lookup (get_current_user_id m) m.matrix_sessions ≡ none
      → ((handle_logout m sess).1 ≡ panics)
        × ((user : String)
            → Session.get (handle_logout m sess).0.store user ≡ Session.get m.store user)
  unfolding handle_logout forget
  handle_logout_stuck m sess l h =
      rw (l, logout_unknown-store m (get_current_user_id m) h) (refl, λ user. refl)
