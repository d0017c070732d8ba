-- ===== src/Session.antt =====
-- internal/session/session.go: the sessions in the keyring, with a cache of those that were read. A
-- session that `Get` gives is the one in the cache: `Update` changes it there before it is saved.
-- (No caller changes `UserID`, so no two keys of the cache share a session.)
pub mod External
pub mod Laws
pub mod Reads
pub mod Named
mod Tests
use arko.Base.{
  ℕ, String, Bool, true, false, not, Option, none, some, List, [], ◌∷◌, ◌++◌, ◌==◌, ◌||◌, keep_if,
  zero, suc, length, leb, if◌then◌else◌,
}
use arko.Base.Assoc.{lookup, insert, remove}
use arko.Session.External.{Keyring, Json}

-- `expires_in_ms` is an int64, in two's complement.
pub record Session : Type 0 where
  pub user_id : String
  pub homeserver : String
  pub identityserver : String
  pub access_token : String
  pub refresh_token : String
  pub pickle_key : List ℕ
  pub recovery_key : String
  pub theme : String
  pub sidebar_open : Bool
  pub logged_in : Bool
  pub device_id : String
  pub expires_in_ms : ℕ

abbrev pub zero_session : String → Session
zero_session user_id = record {
  user_id = user_id;
  homeserver = "";
  identityserver = "";
  access_token = "";
  refresh_token = "";
  pickle_key = [];
  recovery_key = "";
  theme = "";
  sidebar_open = false;
  logged_in = false;
  device_id = "";
  expires_in_ms = 0;
}

unfoldable pub default : Session
default = record (zero_session "") { theme = "dark"; sidebar_open = true }

pub record GlobalSettings : Type 0 where
  pub last_user_id : String

-- What `Get` returns: `ErrNotFound` is told apart from other errors.
pub data Got : Type 0 where
  found : Session → Got
  not_found broken : Got

abbrev pub known_users_key : String
known_users_key = "app:known_users"

abbrev pub global_settings_key : String
global_settings_key = "app:global_settings"

abbrev pub cookie_key_keyring_key : String
cookie_key_keyring_key = "app:cookie_key"

unfoldable pub contains : String → List String → Bool
contains u [] = false
contains u (v ∷ vs) = u == v || contains u vs

-- make([]byte, 64) with the key in front
unfoldable pub padded : ℕ → List ℕ → List ℕ
padded zero key = key
padded (suc n) [] = 0 ∷ padded n []
padded (suc n) (b ∷ bs) = b ∷ padded n bs

abbrev pub first_bytes : ℕ → List ℕ → List ℕ
first_bytes zero bs = []
first_bytes (suc n) [] = []
first_bytes (suc n) (b ∷ bs) = b ∷ first_bytes n bs

module _ ⦃k : Keyring⦄ ⦃sessions : Json Session⦄ ⦃settings : Json GlobalSettings⦄
    ⦃users : Json (List String)⦄ where
  pub record Store : Type 0 where
    pub keyring : k.State
    pub cache : List (String × Session)
    pub global_cache : Option GlobalSettings

  -- A write to the keyring whose error is dropped.
  abbrev pub set_or_keep : Store → String → k.Text → Store
  set_or_keep s key v = elim (k.set s.keyring key v) [
    | none ↦ s
    | some r ↦ record s { keyring = r }
  ]

  -- `getOrCreateCookieKey`: `random` is what `rand.Read` gives, `generated` the key that
  -- `GenerateRandomKey` gives.
  unfoldable pub create_cookie_key : Store → List ℕ → List ℕ × Store
  unfolding padded
  create_cookie_key s key = (key, set_or_keep s cookie_key_keyring_key (k.text_of (padded 64 key)))

  unfoldable pub cookie_key_of : Store → Option k.Text → Option (List ℕ) → List ℕ → List ℕ × Store
  unfolding create_cookie_key
  cookie_key_of s none random generated =
      create_cookie_key s (elim random [ some key ↦ key | none ↦ generated ])
  cookie_key_of s (some raw) random generated =
      if leb 64 (length (k.bytes raw))
      then (elim random [ some key ↦ key | none ↦ first_bytes 32 (k.bytes raw) ], s)
      else create_cookie_key s (elim random [ some key ↦ key | none ↦ generated ])

  unfoldable pub get_or_create_cookie_key : Store → Option (List ℕ) → List ℕ → List ℕ × Store
  unfolding cookie_key_of
  get_or_create_cookie_key s random generated =
      cookie_key_of s (k.get s.keyring cookie_key_keyring_key) random generated

  unfoldable pub get_known_users : Store → List String
  get_known_users s = elim (k.get s.keyring known_users_key) [
    | none ↦ []
    | some raw ↦ elim (users.unmarshal raw) [ none ↦ [] | some us ↦ us ]
  ]

  unfoldable pub add_known_user : Store → String → Store
  unfolding get_known_users contains
  add_known_user s user =
      let us = get_known_users s in
      if contains user us
      then s
      else set_or_keep s known_users_key (users.marshal (us ++ user ∷ []))

  unfoldable pub remove_known_user : Store → String → Store
  unfolding get_known_users
  remove_known_user s user =
      set_or_keep s known_users_key
        (users.marshal (keep_if (λ u. not (u == user)) (get_known_users s)))

  unfoldable pub get_global_settings : Store → Option GlobalSettings × Store
  get_global_settings s = elim s.global_cache [
    | some gs ↦ (some gs, s)
    | none ↦ elim (k.get s.keyring global_settings_key) [
      | none ↦ (some (record { last_user_id = "" }), s)
      | some raw ↦ elim (settings.unmarshal raw) [
        | none ↦ (none, s)
        | some gs ↦ (some gs, record s { global_cache = some gs })
      ]
    ]
  ]

  -- The `true` of a result is an error that is nil.
  unfoldable pub put_global_settings : Store → GlobalSettings → Store × Bool
  put_global_settings s gs = elim (k.set s.keyring global_settings_key (settings.marshal gs)) [
    | none ↦ (s, false)
    | some r ↦ (record s { keyring = r; global_cache = some gs }, true)
  ]

  -- The settings in the cache are those that the function changes.
  unfoldable pub update_from :
      (GlobalSettings → GlobalSettings) → Option GlobalSettings × Store → Store × Bool
  unfolding put_global_settings
  update_from fn (none, s) = (s, false)
  update_from fn (some gs, s) =
      put_global_settings
        (record s { global_cache = elim s.global_cache [ none ↦ none | some g ↦ some (fn g) ] })
        (fn gs)

  unfoldable pub update_global_settings : Store → (GlobalSettings → GlobalSettings) → Store × Bool
  unfolding update_from get_global_settings
  update_global_settings s fn = update_from fn (get_global_settings s)

  -- `save` behind the write of the session.
  unfoldable pub saved : Store → Session → Store
  unfolding add_known_user update_global_settings
  saved s sess =
      let s1 = record s { cache = insert sess.user_id sess s.cache } in
      (update_global_settings (add_known_user s1 sess.user_id)
        (λ gs. record { last_user_id = sess.user_id })).0

  unfoldable pub save : Store → Session → Store × Bool
  unfolding saved
  save s sess = elim (k.set s.keyring sess.user_id (sessions.marshal sess)) [
    | none ↦ (s, false)
    | some r ↦ (saved (record s { keyring = r }) sess, true)
  ]

  unfoldable pub get : Store → String → Got × Store
  get s user = elim (lookup user s.cache) [
    | some sess ↦ (found sess, s)
    | none ↦ elim (k.get s.keyring user) [
      | none ↦ (not_found, s)
      | some raw ↦ elim (sessions.unmarshal raw) [
        | none ↦ (broken, s)
        | some sess ↦ (found sess, record s { cache = insert user sess s.cache })
      ]
    ]
  ]

  unfoldable pub put : Store → Session → Store × Bool
  unfolding save
  put s sess = save s sess

  -- `UpdateAndGet`, whose result is the session where it does not fail.
  unfoldable pub update_got : String → (Session → Session) → Got × Store → Store × Option Session
  unfolding save
  update_got user fn (broken, s) = (s, none)
  update_got user fn (not_found, s) =
      let (s1, ok) = save s (fn (zero_session user)) in
      (s1, if ok then some (fn (zero_session user)) else none)
  update_got user fn (found sess, s) =
      let (s1, ok) = save (record s { cache = insert user (fn sess) s.cache }) (fn sess) in
      (s1, if ok then some (fn sess) else none)

  unfoldable pub update_and_get : Store → String → (Session → Session) → Store × Option Session
  unfolding update_got get
  update_and_get s user fn = update_got user fn (get s user)

  unfoldable pub update : Store → String → (Session → Session) → Store × Bool
  unfolding update_and_get
  update s user fn =
      let (s1, r) = update_and_get s user fn in (s1, elim r [ none ↦ false | some sess ↦ true ])

  abbrev pub delete_or_keep : Store → String → Store
  delete_or_keep s key = elim (k.delete s.keyring key) [
    | none ↦ s
    | some r ↦ record s { keyring = r }
  ]

  unfoldable pub delete : Store → String → Store
  unfolding remove_known_user
  delete s user =
      remove_known_user (record (delete_or_keep s user) { cache = remove user s.cache }) user

  -- The state when the process starts anew: only the keyring is left.
  abbrev pub restarted : Store → Store
  restarted s = record { keyring = s.keyring; cache = []; global_cache = none }
