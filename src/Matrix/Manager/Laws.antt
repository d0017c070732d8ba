-- ===== src/Matrix/Manager/Laws.antt =====
-- The sessions of the process under every sequence of its operations.
use arko.Base.{
  ℕ, ◌+◌, ◌≤◌, ◌<◌, String, Bool, true, false, not, ◌&&◌, ◌||◌, ◌≡◌, refl, ◌⊎◌, inl, Option, none,
  some, List, [], ◌∷◌, ◌==◌, arith, if_intro, eq_iff, eqb,
}
use arko.Base.Assoc.{lookup, insert, lookup-insert}
use arko.Session
use arko.Session.{Session, GlobalSettings, Store, Got, found, not_found, broken}
use arko.Session.External.{Keyring, Json}
use arko.Matrix.Refresh.{RefreshResponse, renewed}
use arko.Matrix.Manager.{
  Manager, MatrixSession, Client, Setup, LoginAnswers, LoginResponse, RestoreAnswers, Ending, ok,
  failed, panic, BackupKey, start_keys, set_up, new_matrix_session, started, start_sync, has_client,
  sync_ended, restore_with, restore_refreshed, restore_session, login_ended, login_stored,
  sso_login, login_at, login_discovered, login_from, login, client_of, with_pickle_key,
  logged_in_as, last_session,
}

abbrev pub is_in : ℕ → List ℕ → Bool
is_in n [] = false
is_in n (k ∷ ks) = eqb n k || is_in n ks

module _ ⦃k : Keyring⦄ ⦃sessions : Json Session⦄ ⦃settings : Json GlobalSettings⦄
    ⦃users : Json (List String)⦄ where
  -- The context of a session is made from the manager's, and the session's own is cancelled by
  -- `Close`.
  abbrev pub is_running : Manager → MatrixSession → Bool
  is_running m s = not m.cancelled && not (is_in s.serial m.closed)

  -- Nothing is closed or cancelled, and the sessions are those of before but for a new one of one
  -- user.
  abbrev pub Extends : Manager → Manager → Type 0
  Extends m n =
      (n.closed ≡ m.closed)
      × (n.cancelled ≡ m.cancelled)
      × (m.next ≤ n.next)
      × ((w : String) × ((u : String) (s : MatrixSession)
            → lookup u n.matrix_sessions ≡ some s
            → (lookup u m.matrix_sessions ≡ some s)
              ⊎ ((u ≡ w) × (m.next ≤ s.serial) × (s.serial < n.next))))

  pub same : (m : Manager) → Extends m m
  same m = (refl, refl, omega arith, ("", λ u s h. inl h))

  -- What a new session is.
  abbrev Made : Manager → Manager × Ending MatrixSession → Type 0
  Made m (n, ok s) =
      (n.closed ≡ m.closed)
      × (n.cancelled ≡ m.cancelled)
      × (n.next ≡ m.next + 1)
      × (s.serial ≡ m.next)
      × (n.matrix_sessions ≡ m.matrix_sessions)
  Made m (n, failed) = Extends m n
  Made m (n, panic) = Extends m n

  start_keys-Made :
      (m : Manager) (c : Client) (sess : Session) (a : Setup) (r : Store × Option BackupKey × Bool)
      → Made m (start_keys m c sess a r)
  unfolding start_keys
  start_keys-Made m c sess a (s, key, false) = same m
  start_keys-Made m c sess a (s, key, true) = (refl, refl, refl, refl, refl)

  set_up-Made :
      (m : Manager) (c : Client) (a : Setup) (r : Store × Option Session) → Made m (set_up m c a r)
  unfolding set_up
  set_up-Made m c a (s, none) = same m
  set_up-Made m c a (s, some sess) =
      if_intro (Made m) (a.helper && a.verification) _ _ (λ _. start_keys-Made m c sess a _)
        λ _. same m

  started-Extends :
      (m : Manager) (user : String) (r : Manager × Ending MatrixSession)
      → Made m r
      → Extends m (started user r).0
  unfolding started
  started-Extends m user (n, panic) e = e
  started-Extends m user (n, failed) e = e
  started-Extends m user (n, ok t) (c, d, x, y, z) = (c, d, rw x (omega arith), (user, fresh))
    where
      fresh :
          (u : String) (s : MatrixSession)
          → lookup u (insert user t n.matrix_sessions) ≡ some s
          → (lookup u m.matrix_sessions ≡ some s)
            ⊎ ((u ≡ user) × (m.next ≤ s.serial) × (s.serial < n.next))
      fresh u s h = ground (arith, lookup-insert user u t n.matrix_sessions, eq_iff user u)

  new_matrix_session-Made :
      (m : Manager) (c : Client) (a : Setup) → Made m (new_matrix_session m c a)
  unfolding new_matrix_session
  new_matrix_session-Made m c a =
      set_up-Made m c a (Session.update_and_get m.store c.user_id (with_pickle_key a.pickle_key))

  pub start_sync-Extends :
      (m : Manager) (sess : Session) (c : Client) (a : Setup) → Extends m (start_sync m sess c a).0
  unfolding start_sync
  start_sync-Extends m sess c a =
      if_intro (λ (r : Manager × Bool). Extends m r.0) (has_client m sess.user_id) (m, false)
        (started sess.user_id (new_matrix_session m c a)) (λ _. same m)
        λ _.
          started-Extends m sess.user_id (new_matrix_session m c a) (new_matrix_session-Made m c a)

  sync_ended-Extends :
      (m : Manager) (r : Manager × Bool) → Extends m r.0 → Extends m (sync_ended r).0
  unfolding sync_ended
  sync_ended-Extends m (n, true) e = e
  sync_ended-Extends m (n, false) e = e

  restore_with-Extends :
      (m : Manager) (sess : Session) (c : Client) (a : Setup) (r : Store × Option Session)
      → Extends m (restore_with m sess c a r).0
  unfolding restore_with
  restore_with-Extends m sess c a (s, none) =
      sync_ended-Extends m (start_sync (record m { store = s }) sess c a)
        (start_sync-Extends (record m { store = s }) sess c a)
  restore_with-Extends m sess c a (s, some new) =
      sync_ended-Extends m (start_sync (record m { store = s }) new c a)
        (start_sync-Extends (record m { store = s }) new c a)

  restore_refreshed-Extends :
      (m : Manager) (sess : Session) (a : RestoreAnswers) (r : Option RefreshResponse)
      → Extends m (restore_refreshed m sess a r).0
  unfolding restore_refreshed
  restore_refreshed-Extends m sess a none = same m
  restore_refreshed-Extends m sess a (some resp) =
      restore_with-Extends m sess (client_of sess.user_id resp.access_token) a.setup
        (Session.update_and_get m.store sess.user_id (renewed resp))

  pub restore_session-Extends :
      (m : Manager) (sess : Session) (a : RestoreAnswers) → Extends m (restore_session m sess a).0
  unfolding restore_session
  restore_session-Extends m sess a =
      if_intro P (not a.client) _ _ (λ _. same m)
        λ _.
          if_intro P a.whoami _ _ (λ _. known)
            λ _.
              if_intro P (sess.refresh_token == "") _ _ (λ _. same m)
                λ _. restore_refreshed-Extends m sess a a.refreshed
    where
      P : Manager × Ending Bool → Type 0
      P r = Extends m r.0

      known : P (sync_ended (start_sync m sess (client_of sess.user_id sess.access_token) a.setup))
      known =
          sync_ended-Extends m
            (start_sync m sess (client_of sess.user_id sess.access_token) a.setup)
            (start_sync-Extends m sess (client_of sess.user_id sess.access_token) a.setup)

  login_ended-Extends :
      (m : Manager) (sess : Session) (r : Manager × Bool)
      → Extends m r.0
      → Extends m (login_ended sess r).0
  unfolding login_ended
  login_ended-Extends m sess (n, true) e = e
  login_ended-Extends m sess (n, false) e = e

  login_stored-Extends :
      (m : Manager) (c : Client) (a : Setup) (r : Store × Option Session)
      → Extends m (login_stored m c a r).0
  unfolding login_stored
  login_stored-Extends m c a (s, none) = same m
  login_stored-Extends m c a (s, some sess) =
      login_ended-Extends m sess (start_sync (record m { store = s }) sess c a)
        (start_sync-Extends (record m { store = s }) sess c a)

  sso_login-Extends :
      (m : Manager) (h : String) (a : Setup) (t : Option String) (r : Option LoginResponse)
      → Extends m (sso_login m h a t r).0
  unfolding sso_login
  sso_login-Extends m h a none r = same m
  sso_login-Extends m h a (some t) none = same m
  sso_login-Extends m h a (some t) (some resp) =
      login_stored-Extends m (client_of resp.user_id resp.access_token) a
        (Session.update_and_get m.store resp.user_id (logged_in_as h resp))

  login_at-Extends :
      (m : Manager) (h : String) (a : LoginAnswers) (last : Option (String × Session))
      → Extends m (login_at m h a last).0
  unfolding login_at
  login_at-Extends m h a none = sso_login-Extends m h a.setup a.sso_token a.response
  login_at-Extends m h a (some (user, sess)) =
      if_intro (λ (r : Manager × Ending Session). Extends m r.0) (sess.access_token == "") _ _
        (λ _. sso_login-Extends m h a.setup a.sso_token a.response)
        λ _.
          login_ended-Extends m sess (start_sync m sess (client_of user sess.access_token) a.setup)
            (start_sync-Extends m sess (client_of user sess.access_token) a.setup)

  login_discovered-Extends :
      (m : Manager) (a : LoginAnswers) (h : Option String) (r : Option (String × Session) × Store)
      → Extends m (login_discovered m a h r).0
  unfolding login_discovered
  login_discovered-Extends m a none (sess, s) = same m
  login_discovered-Extends m a (some h) (sess, s) =
      if_intro (λ (r : Manager × Ending Session). Extends m r.0) a.client _ _
        (λ _. login_at-Extends (record m { store = s }) h a sess) λ _. same m

  login_from-Extends :
      (m : Manager) (a : LoginAnswers) (r : Option GlobalSettings × Store)
      → Extends m (login_from m a r).0
  unfolding login_from
  login_from-Extends m a (none, s) = same m
  login_from-Extends m a (some gs, s) =
      login_discovered-Extends m a a.homeserver (last_session s gs)

  pub login-Extends : (m : Manager) (a : LoginAnswers) → Extends m (login m a).0
  unfolding login
  login-Extends m a = login_from-Extends m a (Session.get_global_settings m.store)
