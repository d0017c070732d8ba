-- ===== src/Matrix/Manager/Restore.antt =====
-- What a restart does with a stored session, and what a failing keyring does to a login.
use arko.Base.{
  String, true, false, ◌≡◌, refl, ◌⊎◌, inl, inr, Option, none, some, List, arith, eq_iff,
}
use arko.Base.Assoc.{insert}
use arko.Session
use arko.Session.{
  Session, GlobalSettings, Store, Got, found, not_found, broken, zero_session, restarted,
  update_got, update_and_get,
}
use arko.Session.External.{Keyring, Json}
use arko.Session.Laws.{IsUserKey}
use arko.Session.Reads.{get-delete, save_fails}
use arko.Matrix.Manager.{
  Manager, Client, Setup, LoginResponse, RestoreAnswers, failed, panic, restore_session,
  restore_refreshed, client_of, logged_in_as, sso_login, login_stored,
}

module _ ⦃k : Keyring⦄ ⦃sessions : Json Session⦄ ⦃settings : Json GlobalSettings⦄
    ⦃users : Json (List String)⦄ where
  offline_step :
      (m : Manager) (sess : Session) (a : RestoreAnswers)
      → a.client ≡ true
      → a.whoami ≡ false
      → (sess.refresh_token ≡ "") ⊎ (a.refreshed ≡ none)
      → restore_session m sess a
        ≡ (record m { store = Session.delete m.store sess.user_id }, failed)
  unfolding restore_session restore_refreshed
  offline_step m sess a c w (inl e) = rw (c, w, (eq_iff sess.refresh_token "").1 e) refl
  offline_step m sess a c w (inr e) = ground arith

  -- A restart at which the server does not answer, neither to the question who the user is nor,
  -- where there is a refresh token, to the refresh: the session is deleted. No later read finds it,
  -- in this process or in the next one, and the manager has the sessions that it had. The
  -- conditions: the user's key is not one of the store's own, and the keyring deletes the entry.
  pub restore_session-offline :
      (m : Manager) (sess : Session) (a : RestoreAnswers) (r : k.State)
      → a.client ≡ true
      → a.whoami ≡ false
      → (sess.refresh_token ≡ "") ⊎ (a.refreshed ≡ none)
      → IsUserKey sess.user_id
      → k.delete m.store.keyring sess.user_id ≡ some r
      → let n = (restore_session m sess a).0 in
        ((restore_session m sess a).1 ≡ failed)
        × ((Session.get n.store sess.user_id).0 ≡ not_found)
        × ((Session.get (restarted n.store) sess.user_id).0 ≡ not_found)
        × (n.matrix_sessions ≡ m.matrix_sessions)
  restore_session-offline m sess a r c w e key d =
      let p = get-delete m.store sess.user_id r key d in
      rw (offline_step m sess a c w e) (refl, p.0, p.1, refl)

  -- A keyring that takes no write.
  abbrev pub IsLocked : Type 0
  IsLocked = (st : k.State) (key : String) (v : k.Text) → k.set st key v ≡ none

  locked_got :
      IsLocked
      → (user : String) (fn : Session → Session) (r : Got × Store) → (update_got user fn r).1 ≡ none
  unfolding update_got
  locked_got l user fn (broken, s) = refl
  locked_got l user fn (not_found, s) =
      rw (save_fails s (fn (zero_session user)) (l s.keyring _ _)) refl
  locked_got l user fn (found sess, s) =
      let s1 = record s { cache = insert user (fn sess) s.cache } in
      rw (save_fails s1 (fn sess) (l s.keyring _ _)) refl

  locked_update :
      IsLocked
      → (s : Store) (user : String) (fn : Session → Session) → (update_and_get s user fn).1 ≡ none
  unfolding update_and_get
  locked_update l s user fn = locked_got l user fn (Session.get s user)

  unsaved_login :
      (m : Manager) (c : Client) (a : Setup) (r : Store × Option Session)
      → r.1 ≡ none
      → (login_stored m c a r).1 ≡ panic
  unfolding login_stored
  unsaved_login m c a (s, none) e = refl
  unsaved_login m c a (s, some sess) e = ground arith

  -- Where the keyring takes no write, every login through the browser that the server accepts
  -- panics, whatever is stored.
  pub sso_login-locked :
      (m : Manager) (h token : String) (a : Setup) (resp : LoginResponse)
      → IsLocked
      → (sso_login m h a (some token) (some resp)).1 ≡ panic
  unfolding sso_login
  sso_login-locked m h token a resp l =
      unsaved_login m (client_of resp.user_id resp.access_token) a
        (update_and_get m.store resp.user_id (logged_in_as h resp))
        (locked_update l m.store resp.user_id (logged_in_as h resp))
