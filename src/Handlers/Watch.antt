-- ===== src/Handlers/Watch.antt =====
-- The verification events on their way to the browsers: the listeners of
-- internal/matrix/session.go, and the goroutine that internal/service/verify.go starts for each
-- websocket.
pub mod Laws
use arko.Base.{
  ℕ, ◌+◌, String, ◌+s◌, Bool, true, false, Option, none, some, List, [], ◌∷◌, ◌++◌, eqb, ltb,
  length, if◌then◌else◌,
}
use arko.Hub.{Hub, push}
use arko.Matrix.Verification.{
  VerificationEvent, VerificationEventType, VerificationMethod, requested, ready, cancelled_event,
  done_event, show_sas_event, qr_scanned_event, sas, qr, unset,
}

-- The paths have no character that JSON escapes.
unfoldable pub redirect_message : String → String
redirect_message path = "{\"redirect\":\"" +s (path +s "\"}")

abbrev pub ready_path : VerificationMethod → String
ready_path qr = "/verify/qr"
ready_path sas = "/verify/sas/waiting"
ready_path unset = "/verify/sas/waiting"

abbrev to_ws : VerificationEventType → VerificationMethod → Option String
to_ws show_sas_event m = some (redirect_message "/verify/sas")
to_ws cancelled_event m = some (redirect_message "/verify")
to_ws done_event m = some (redirect_message "/")
to_ws ready m = some (redirect_message (ready_path m))
to_ws qr_scanned_event m = some (redirect_message "/verify/qr/scanned")
to_ws requested m = none

unfoldable pub verification_event_to_ws : VerificationEvent → Option String
unfolding redirect_message
verification_event_to_ws ev = to_ws ev.type ev.method

-- A channel of 16 events, of the goroutine that pushes to the browsers of `user_id`.
pub record Watcher : Type 0 where
  pub key : ℕ
  pub user_id : String
  pub queue : List VerificationEvent

pub record Watchers : Type 0 where
  pub open_ones : List Watcher
  pub id_counter : ℕ

-- `ListenVerifyEvents`, where the current user has a session, with `VerificationEvents`.
unfoldable pub listen_verify_events : Watchers → String → Watchers × ℕ
listen_verify_events w user = (
  record {
    open_ones = w.open_ones ++ record { key = w.id_counter + 1; user_id = user; queue = [] } ∷ [];
    id_counter = w.id_counter + 1;
  },
  w.id_counter + 1,
)

abbrev pub without_watcher : ℕ → List Watcher → List Watcher
without_watcher key [] = []
without_watcher key (w ∷ ws) =
    if eqb w.key key then without_watcher key ws else w ∷ without_watcher key ws

-- The function `cancel` of `VerificationEvents`, which the end of the websocket calls.
unfoldable pub cancel : Watchers → ℕ → Watchers
cancel w key = record w { open_ones = without_watcher key w.open_ones }

-- The loop waits at the first channel that is full.
unfoldable pub broadcast_verification_event : VerificationEvent → List Watcher → List Watcher × Bool
broadcast_verification_event ev [] = ([], true)
broadcast_verification_event ev (w ∷ ws) =
    let (rest, done) = broadcast_verification_event ev ws in
    if ltb (length w.queue) 16
    then (record w { queue = w.queue ++ ev ∷ [] } ∷ rest, done)
    else (w ∷ ws, false)

unfoldable pub push_event : Bool → Hub → String → VerificationEvent → Hub
unfolding verification_event_to_ws push
push_event pick h user ev = elim (verification_event_to_ws ev) [
  | none ↦ h
  | some msg ↦ push pick h user msg
]

-- The goroutine of one websocket, until its channel is empty; it waits before an event that is done
-- until the device counts as verified or the websocket ends, and goes on in both cases.
unfoldable pub drain : Bool → Hub → String → List VerificationEvent → Hub
unfolding push_event
drain pick h user [] = h
drain pick h user (ev ∷ evs) = drain pick (push_event pick h user ev) user evs

-- The goroutines of all websockets, one after another.
unfoldable pub drain_all : Bool → Hub → List Watcher → Hub × List Watcher
unfolding drain
drain_all pick h [] = (h, [])
drain_all pick h (w ∷ ws) =
    let (h', rest) = drain_all pick (drain pick h w.user_id w.queue) ws in
    (h', record w { queue = [] } ∷ rest)
