-- ===== src/Handlers/Checks.antt =====
-- The verification pages on concrete states, and requests of a user who is logged in.
use arko.Base.{some, true, false, ◌≡◌, refl, none, [], ◌∷◌, ◌≢◌, ◌⊎◌, has_prefix}
use arko.Matrix.Verification.{VerificationUiState, zero_ui}
use arko.Handlers.Verify.{Facts, sas_page, browse, is_redirect}
use arko.Session.{Session, Store, zero_session}
use arko.Session.Named.{named, session_json, settings_json, names_json, session, names}
use arko.Handlers.Auth.{Request, passes, auth, auth_passes}
use arko.Matrix.Manager.{Manager}
use arko.Handlers.Pages.{browse_ends}

abbrev fresh_device : Facts
fresh_device = record { verified = false; has_keys = true; has_user = true; draws = true }

abbrev cancelled_ui : VerificationUiState
cancelled_ui = record zero_ui { cancelled = true; sas_active = true }

browse_ends_example : is_redirect (browse fresh_device sas_page cancelled_ui).0 ≡ false
browse_ends_example = browse_ends fresh_device sas_page cancelled_ui

abbrev ann : Session
ann = record (zero_session "@ann") { logged_in = true }

abbrev with_ann : Store
with_ann = record {
  keyring = (false, ("@ann", session ann) ∷ ("app:known_users", names ("@ann" ∷ [])) ∷ []);
  cache = [];
  global_cache = none;
}

abbrev to_friends : Request
to_friends = record { cookie_user = ""; is_ws = false; path = "/friends" }

auth_passes_example :
    (ann.logged_in ≡ true)
    × (ann.user_id ≢ "")
    × (true ≡ true)
    × ((true ≡ true) ⊎ (has_prefix to_friends.path "/verify" ≡ true))
    × (auth with_ann ann to_friends (λ u. true) (λ u. true) ≡ (passes, with_ann, false))
unfolding auth
auth_passes_example = auth_passes with_ann ann to_friends (λ u. true) (λ u. true) refl refl

-- A manager that has no session of "@bob", and whose current session was closed.
abbrev closed_manager : Manager
closed_manager = record {
  store = with_ann;
  cancelled = true;
  matrix_sessions = [];
  curr_session = some (record {
    serial = 0;
    id = "@ann";
    access_token = "t";
    refreshing = none;
    backup_key = none;
  });
  closed = 0 ∷ [];
  next = 1;
}
