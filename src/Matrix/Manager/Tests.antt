-- ===== src/Matrix/Manager/Tests.antt =====
-- A manager with one session on concrete inputs, over a keyring that lists its entries.
use arko.Base.{
  String, true, false, ◌≡◌, refl, Option, none, some, [], ◌∷◌, inl, List, ◌==◌, if◌then◌else◌,
}
use arko.Base.Assoc.{remove}
use arko.Session
use arko.Session.{Session, GlobalSettings, Store, zero_session, not_found, restarted}
use arko.Session.External.{Keyring, Json}
use arko.Session.Named.{
  Named, session, settings, names, named, session_of, settings_of, names_of, session_json,
  settings_json, names_json,
}
use arko.Matrix.Manager.{
  Manager, MatrixSession, Setup, LoginAnswers, LoginResponse, RestoreAnswers, failed,
  restore_session, logout,
}
use arko.Matrix.Manager.Laws.{is_running}
use arko.Matrix.Manager.Run.{
  logs_in, restores, logs_out, run, logout-stops, Sound, empty_manager, run-Sound,
}
use arko.Matrix.Manager.Restore.{restore_session-offline}

abbrev ann : Session
ann = record (zero_session "@ann") { access_token = "t" }

abbrev store : Store
store = record {
  keyring = (false, ("@ann", session ann) ∷ []);
  cache = ("@ann", ann) ∷ [];
  global_cache = none;
}

abbrev anns : MatrixSession
anns = record { serial = 0; id = "@ann"; access_token = "t"; refreshing = none; backup_key = none }

abbrev manager : Manager
manager = record {
  store = store;
  cancelled = false;
  matrix_sessions = ("@ann", anns) ∷ [];
  curr_session = some anns;
  closed = [];
  next = 1;
}

abbrev setup : Setup
setup = record {
  pickle_key = some (1 ∷ []);
  helper = true;
  verification = true;
  recovery_key = some "key";
  default_key = record { key_data = true; verifies = λ s. true };
  backup = record {
    account = some true;
    new_key = none;
    uploaded = false;
    decrypted = some (7 ∷ []);
    parsed = λ bs. some bs;
  };
}

abbrev response : LoginResponse
response = record {
  user_id = "@ann";
  access_token = "u";
  refresh_token = "";
  identityserver = "";
  expires_in_ms = 0;
  device_id = "d";
}

abbrev again : LoginAnswers
again = record {
  homeserver = some "h";
  client = true;
  sso_token = some "s";
  response = some response;
  setup = setup;
}

abbrev offline : RestoreAnswers
offline = record { client = true; whoami = false; refreshed = none; setup = setup }

logout-stops_example : is_running (run (logout manager "@ann").0 (logs_in again ∷ [])) anns ≡ false
logout-stops_example = logout-stops manager "@ann" (logs_in again ∷ []) anns

run-Sound_example : Sound (
    run
      (empty_manager store)
      (restores ann offline ∷ logs_in again ∷ logs_out "@ann" ∷ logs_in again ∷ []))
run-Sound_example =
    run-Sound store (restores ann offline ∷ logs_in again ∷ logs_out "@ann" ∷ logs_in again ∷ [])

restore_session-offline_example :
    let n = (restore_session manager ann offline).0 in
    ((restore_session manager ann offline).1 ≡ failed)
    × ((Session.get n.store "@ann").0 ≡ not_found)
    × ((Session.get (restarted n.store) "@ann").0 ≡ not_found)
    × (n.matrix_sessions ≡ manager.matrix_sessions)
unfolding remove
restore_session-offline_example =
    restore_session-offline manager ann offline (false, []) refl refl (inl refl) (refl, refl) refl

-- The keyring when it is locked.
set_locked :
    (r : named.State) (v o : Option Named) → ◌≡◌ {A = Option named.State} none (some r) → o ≡ v
set_locked r v o h = absurd (none_ne h)
  where
    none_ne : ◌≡◌ {A = Option named.State} none (some r) → ⊥
    none_ne e = cc

abbrev locked : Keyring
locked = record named {
  set = λ st key v. none;
  get-set =
      λ s r key j v h. set_locked r (if key == j then some v else named.get s j) (named.get r j) h;
}

abbrev locked_session : Json ⦃k = locked⦄ Session
locked_session = record { marshal = session; unmarshal = session_of; unmarshal-marshal = λ a. refl }

abbrev locked_settings : Json ⦃k = locked⦄ GlobalSettings
locked_settings = record {
  marshal = settings;
  unmarshal = settings_of;
  unmarshal-marshal = λ a. refl;
}

abbrev locked_names : Json ⦃k = locked⦄ (List String)
locked_names = record { marshal = names; unmarshal = names_of; unmarshal-marshal = λ a. refl }

abbrev locked_manager :
    Manager ⦃k = locked⦄ ⦃sessions = locked_session⦄ ⦃settings = locked_settings⦄
      ⦃users = locked_names⦄
locked_manager = record {
  store = record { keyring = (true, []); cache = []; global_cache = none };
  cancelled = false;
  matrix_sessions = [];
  curr_session = none;
  closed = [];
  next = 0;
}
