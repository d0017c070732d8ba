-- ===== src/Matrix/Manager.antt =====
-- internal/matrix/manager.go, and `NewMatrixSession` of internal/matrix/session.go: the Matrix
-- sessions of the process. Whether a call of mautrix or of the crypto library succeeds, and what it
-- returns, are arguments. A Matrix session is known by a number, as a Go pointer is by its address;
-- a stored session is passed as the value that its pointer has at that moment.
pub mod Laws
pub mod Run
pub mod Restore
mod Tests
use arko.Base.{
  ℕ, ◌+◌, String, Bool, true, false, not, ◌&&◌, ◌||◌, Option, none, some, List, [], ◌∷◌, ◌++◌, ◌==◌,
  map, length, eqb, ltb, if◌then◌else◌,
}
use arko.Base.Assoc.{lookup, insert, remove}
use arko.Session
use arko.Session.{Session, GlobalSettings, Store, Got, found, not_found, broken, zero_session}
use arko.Session.External.{Keyring, Json}
use arko.Matrix.Refresh.{RefreshResponse, Refreshing, renewed, start_token_refresh}
use arko.Matrix.KeyBackup.{DefaultKey, BackupAnswers, init}

-- `backup.MegolmBackupKey`, by its bytes.
abbrev pub BackupKey : Type 0
BackupKey = List ℕ

pub record MatrixSession : Type 0 where
  pub serial : ℕ
  pub id : String
  pub access_token : String
  pub refreshing : Option Refreshing
  pub backup_key : Option BackupKey

-- How a call ends: with a result, with an error or in a panic.
pub data Ending (A : Type 0) : Type 0 where
  ok : A → Ending A
  failed : Ending A
  panic : Ending A

-- What `NewMatrixSession` meets: the bytes of a new pickle key, the crypto helper and the
-- verification helper, and the answers to the key backup.
pub record Setup : Type 0 where
  pub pickle_key : Option (List ℕ)
  pub helper : Bool
  pub verification : Bool
  pub recovery_key : Option String
  pub default_key : DefaultKey
  pub backup : BackupAnswers BackupKey

-- `mautrix.Client` of a user with an access token.
pub record Client : Type 0 where
  pub user_id : String
  pub access_token : String

-- The answer to a login.
pub record LoginResponse : Type 0 where
  pub user_id : String
  pub access_token : String
  pub refresh_token : String
  pub identityserver : String
  pub expires_in_ms : ℕ
  pub device_id : String

-- What `Login` meets: the homeserver's address, whether a client is made, the token of the browser
-- and the answer to the login with it.
pub record LoginAnswers : Type 0 where
  pub homeserver : Option String
  pub client : Bool
  pub sso_token : Option String
  pub response : Option LoginResponse
  pub setup : Setup

-- What `restoreSession` meets.
pub record RestoreAnswers : Type 0 where
  pub client : Bool
  pub whoami : Bool
  pub refreshed : Option RefreshResponse
  pub setup : Setup

-- The functions that are passed to `UpdateAndGet`.
unfoldable pub with_pickle_key : Option (List ℕ) → Session → Session
with_pickle_key key s =
    if ltb 0 (length s.pickle_key) && s.logged_in
    then s
    else elim key [ none ↦ s | some bytes ↦ record s { pickle_key = bytes } ]

unfoldable pub logged_in_as : String → LoginResponse → Session → Session
logged_in_as homeserver resp s = record s {
  homeserver = homeserver;
  identityserver = resp.identityserver;
  access_token = resp.access_token;
  refresh_token = resp.refresh_token;
  expires_in_ms = resp.expires_in_ms;
}

abbrev pub client_of : String → String → Client
client_of user_id access_token = record { user_id = user_id; access_token = access_token }

module _ ⦃k : Keyring⦄ ⦃sessions : Json Session⦄ ⦃settings : Json GlobalSettings⦄
    ⦃users : Json (List String)⦄ where
  pub record Manager : Type 0 where
    pub store : Store
    pub cancelled : Bool
    pub matrix_sessions : List (String × MatrixSession)
    pub curr_session : Option MatrixSession
    pub closed : List ℕ
    pub next : ℕ

  abbrev pub with_store : Manager → Store → Manager
  with_store m s = record m { store = s }

  unfoldable pub has_client : Manager → String → Bool
  has_client m user = elim (lookup user m.matrix_sessions) [ none ↦ false | some s ↦ true ]

  unfoldable pub get_matrix_session : Manager → String → Option MatrixSession
  get_matrix_session m user = lookup user m.matrix_sessions

  unfoldable pub get_current_user_id : Manager → String
  get_current_user_id m = elim m.curr_session [ none ↦ "" | some s ↦ s.id ]

  -- `NewMatrixSession` with the session that `UpdateAndGet` returned.
  unfoldable pub start_keys :
      Manager
      → Client
      → Session
      → Setup
      → Store × Option BackupKey × Bool
      → Manager × Ending MatrixSession
  unfolding start_token_refresh
  start_keys m c sess a (s, key, false) = (with_store m s, failed)
  start_keys m c sess a (s, key, true) = (
    record m { store = s; next = m.next + 1 },
    ok (record {
      serial = m.next;
      id = sess.user_id;
      access_token = c.access_token;
      refreshing = start_token_refresh sess;
      backup_key = key;
    }),
  )

  unfoldable pub set_up :
      Manager → Client → Setup → Store × Option Session → Manager × Ending MatrixSession
  unfolding start_keys init
  set_up m c a (s, none) = (with_store m s, panic)
  set_up m c a (s, some sess) =
      if a.helper && a.verification
      then start_keys (with_store m s) c sess a
          (init s sess.user_id a.recovery_key a.default_key a.backup none)
      else (with_store m s, failed)

  unfoldable pub new_matrix_session : Manager → Client → Setup → Manager × Ending MatrixSession
  unfolding set_up with_pickle_key Session.update_and_get
  new_matrix_session m c a =
      set_up m c a (Session.update_and_get m.store c.user_id (with_pickle_key a.pickle_key))

  -- Whether it panics; an error is only logged.
  unfoldable pub started : String → Manager × Ending MatrixSession → Manager × Bool
  started user (m, panic) = (m, true)
  started user (m, failed) = (m, false)
  started user (m, ok s) =
      (record m { matrix_sessions = insert user s m.matrix_sessions; curr_session = some s }, false)

  unfoldable pub start_sync : Manager → Session → Client → Setup → Manager × Bool
  unfolding new_matrix_session started has_client
  start_sync m sess c a =
      if has_client m sess.user_id
      then (m, false)
      else started sess.user_id (new_matrix_session m c a)

  -- `restoreSession`: whether it returns an error, and whether it panics.
  unfoldable pub sync_ended : Manager × Bool → Manager × Ending Bool
  sync_ended (m, true) = (m, panic)
  sync_ended (m, false) = (m, ok true)

  unfoldable pub restore_with :
      Manager → Session → Client → Setup → Store × Option Session → Manager × Ending Bool
  unfolding sync_ended start_sync
  restore_with m sess c a (s, none) = sync_ended (start_sync (with_store m s) sess c a)
  restore_with m sess c a (s, some new_sess) = sync_ended (start_sync (with_store m s) new_sess c a)

  -- The answer to a refresh of the token.
  unfoldable pub restore_refreshed :
      Manager → Session → RestoreAnswers → Option RefreshResponse → Manager × Ending Bool
  unfolding restore_with renewed
  restore_refreshed m sess a none = (with_store m (Session.delete m.store sess.user_id), failed)
  restore_refreshed m sess a (some resp) =
      restore_with m sess (client_of sess.user_id resp.access_token) a.setup
        (Session.update_and_get m.store sess.user_id (renewed resp))

  unfoldable pub restore_session : Manager → Session → RestoreAnswers → Manager × Ending Bool
  unfolding restore_refreshed sync_ended start_sync
  restore_session m sess a =
      if not a.client
      then (m, failed)
      else if a.whoami
      then sync_ended (start_sync m sess (client_of sess.user_id sess.access_token) a.setup)
      else if sess.refresh_token == ""
      then (with_store m (Session.delete m.store sess.user_id), failed)
      else restore_refreshed m sess a a.refreshed

  abbrev pub flag_of : Manager × Ending Bool → Manager × Bool
  flag_of (m, panic) = (m, true)
  flag_of (m, e) = (m, false)

  -- `restoreAllSessions`: the loop over the known users. A panic ends the program; the loop of the
  -- model goes on without it, with the flag set.
  unfoldable pub restore_found : Got → Manager → RestoreAnswers → Manager × Bool
  unfolding restore_session
  restore_found (found sess) m a = flag_of (restore_session m sess a)
  restore_found r m a = (m, false)

  unfoldable pub restore_users : Manager → (String → RestoreAnswers) → List String → Manager × Bool
  unfolding restore_found
  restore_users m answers [] = (m, false)
  restore_users m answers (user ∷ us) =
      let (got, s) = Session.get m.store user in
      let (m1, panicked) = restore_found got (with_store m s) (answers user) in
      let rest = restore_users m1 answers us in if panicked then (m1, true) else rest

  unfoldable pub new_manager : Store → (String → RestoreAnswers) → Manager × Bool
  unfolding restore_users
  new_manager s answers =
      restore_users
        (record {
          store = s;
          cancelled = false;
          matrix_sessions = [];
          curr_session = none;
          closed = [];
          next = 0;
        })
        answers (Session.get_known_users s)

  -- The last user and the session that the keyring has of that user.
  abbrev pub found_of : String → Got × Store → Option (String × Session) × Store
  found_of user (found sess, s) = (some (user, sess), s)
  found_of user (r, s) = (none, s)

  unfoldable pub last_session : Store → GlobalSettings → Option (String × Session) × Store
  unfolding Session.get
  last_session s gs =
      if gs.last_user_id == ""
      then (none, s)
      else found_of gs.last_user_id (Session.get s gs.last_user_id)

  -- The end of `Login`: the session is returned even where `startSync` logged an error.
  unfoldable pub login_ended : Session → Manager × Bool → Manager × Ending Session
  login_ended sess (m, true) = (m, panic)
  login_ended sess (m, false) = (m, ok sess)

  -- A login that the keyring refuses to store: `newSession` is nil where its user is logged.
  unfoldable pub login_stored :
      Manager → Client → Setup → Store × Option Session → Manager × Ending Session
  unfolding login_ended start_sync
  login_stored m c a (s, none) = (with_store m s, panic)
  login_stored m c a (s, some sess) = login_ended sess (start_sync (with_store m s) sess c a)

  -- `Login` where the last user has no token: through the browser.
  unfoldable pub sso_login :
      Manager → String → Setup → Option String → Option LoginResponse → Manager × Ending Session
  unfolding login_stored logged_in_as
  sso_login m homeserver a none r = (m, failed)
  sso_login m homeserver a (some token) none = (m, failed)
  sso_login m homeserver a (some token) (some resp) =
      login_stored m (client_of resp.user_id resp.access_token) a
        (Session.update_and_get m.store resp.user_id (logged_in_as homeserver resp))

  -- `Login` behind the discovery of the homeserver.
  unfoldable pub login_at :
      Manager → String → LoginAnswers → Option (String × Session) → Manager × Ending Session
  unfolding sso_login login_ended start_sync
  login_at m homeserver a none = sso_login m homeserver a.setup a.sso_token a.response
  login_at m homeserver a (some (user, sess)) =
      if sess.access_token == ""
      then sso_login m homeserver a.setup a.sso_token a.response
      else login_ended sess (start_sync m sess (client_of user sess.access_token) a.setup)

  unfoldable pub login_discovered :
      Manager
      → LoginAnswers
      → Option String
      → Option (String × Session) × Store
      → Manager × Ending Session
  unfolding login_at
  login_discovered m a none (sess, s) = (with_store m s, failed)
  login_discovered m a (some homeserver) (sess, s) =
      if a.client then login_at (with_store m s) homeserver a sess else (with_store m s, failed)

  unfoldable pub login_from :
      Manager → LoginAnswers → Option GlobalSettings × Store → Manager × Ending Session
  unfolding login_discovered last_session
  login_from m a (none, s) = (with_store m s, failed)
  login_from m a (some gs, s) = login_discovered m a a.homeserver (last_session s gs)

  unfoldable pub login : Manager → LoginAnswers → Manager × Ending Session
  unfolding login_from Session.get_global_settings
  login m a = login_from m a (Session.get_global_settings m.store)

  -- `Logout`: a method of the nil session that a user without one has is a panic.
  unfoldable pub logout_of : Manager → String → Option MatrixSession → Manager × Ending Bool
  logout_of m user none = (m, panic)
  logout_of m user (some s) =
      (record m { closed = s.serial ∷ m.closed; store = Session.delete m.store user }, ok true)

  unfoldable pub logout : Manager → String → Manager × Ending Bool
  unfolding logout_of
  logout m user =
      logout_of (record m { cancelled = true; matrix_sessions = remove user m.matrix_sessions })
        user (lookup user m.matrix_sessions)

  unfoldable pub shutdown : Manager → Manager
  shutdown m = record m {
    cancelled = true;
    closed = map (λ e. e.1.serial) m.matrix_sessions ++ m.closed;
    matrix_sessions = [];
  }

  unfoldable pub set_recovery_key : Manager → String → String → Manager
  unfolding Session.update
  set_recovery_key m user key =
      with_store m (Session.update m.store user (λ s. record s { recovery_key = key })).0

  unfoldable pub recovery_key_of : Got → String
  recovery_key_of (found sess) = sess.recovery_key
  recovery_key_of r = ""

  unfoldable pub get_recovery_key : Manager → String → String × Manager
  unfolding recovery_key_of Session.get
  get_recovery_key m user =
      let (got, s) = Session.get m.store user in (recovery_key_of got, with_store m s)
