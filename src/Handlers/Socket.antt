-- ===== src/Handlers/Socket.antt =====
-- internal/handlers/ws.go: what a websocket asks for.
pub mod Laws
mod Tests
use arko.Base.{
  ℕ, String, Bool, true, false, not, ◌&&◌, ◌||◌, Option, none, some, List, [], ◌∷◌, ◌++◌, ◌==◌, eqb,
  map, is_blank, if◌then◌else◌,
}
use arko.Base.SyncMap.{SyncMap}
use arko.Hub.{Client, Hub, set_active_room, push}
use arko.Models.{User}
use arko.Matrix.BTree.{BTree}
use arko.Matrix.Event.{Env}
use arko.Matrix.Tree.{MessageTree}
use arko.Matrix.Tree.Load.{send_message}
use arko.Matrix.Trees.{get_message_tree}
use arko.Matrix.Verification.{Sessions}
use arko.Matrix.Verification.Calls.{
  Request, confirm_verification, confirm_qr_verification, cancel_verification,
}
use arko.Handlers.Watch.{redirect_message}

pub record ClientRequest : Type 0 where
  pub action : String
  pub room_id : String
  pub message : String

-- The client with a key, wherever the hub has it: the hub and the connection share it.
unfoldable pub update_client : Hub → ℕ → (Client → Client) → Hub
update_client h key f = map (λ e. (e.0, map (λ c. if eqb c.key key then f c else c) e.1)) h

-- What a message to a room meets: the current user, whether the room is encrypted, the new nonce
-- and the clock.
pub record Sending : Type 0 where
  pub author : Option User
  pub e2ee : Bool
  pub nonce : String
  pub now : ℕ

abbrev pub noted : Option Request → List Request → List Request
noted none rs = rs
noted (some r) rs = rs ++ r ∷ []

module _ ⦃x : SyncMap⦄ ⦃b : BTree⦄ where
  -- What the requests reach: the browsers, the verification of each session, the trees of each
  -- session, the current user, and what was asked of mautrix's verification helper.
  pub record Desk : Type 0 where
    pub hub : Hub
    pub sessions : Sessions
    pub trees : x.Map (x.Map MessageTree)
    pub current_user : String
    pub asked : List Request

module _ ⦃x : SyncMap⦄ ⦃b : BTree⦄ (env : Env) where
  -- The trees of a session after the message was put in the one of its room.
  unfoldable pub sent_in :
      String → String → String → Sending → x.Map MessageTree × MessageTree → x.Map MessageTree
  unfolding send_message
  sent_in user room_id body s (trees, t) =
      x.store trees room_id (send_message env t body s.nonce s.now user)

  -- `SendRoomMessage`; its error is only logged.
  unfoldable pub send_room_message : Desk → User → String → String → Sending → Desk
  unfolding get_message_tree sent_in
  send_room_message d author room_id body s = elim (x.load d.trees author.id) [
    | none ↦ d
    | some trees ↦ record d {
      trees =
          x.store d.trees author.id
            (sent_in author.id room_id body s (get_message_tree trees room_id s.e2ee));
    }
  ]

  -- The function that is passed to `ReadPump`, for the websocket with a key of a user.
  unfoldable pub on_message : Bool → Desk → ℕ → String → Option ClientRequest → Sending → Desk
  unfolding update_client set_active_room push is_blank send_room_message redirect_message
      confirm_verification confirm_qr_verification cancel_verification
  on_message pick d key user none s = d
  on_message pick d key user (some msg) s =
      if msg.action == "SUBSCRIBE_ROOM"
      then record d { hub = update_client d.hub key (λ c. set_active_room c msg.room_id) }
      else if msg.action == "SAS_CONFIRM"
      then record d { asked = noted (confirm_verification d.sessions d.current_user) d.asked }
      else if msg.action == "SAS_CANCEL"
      then record d {
        asked = noted (cancel_verification d.sessions d.current_user) d.asked;
        hub = push pick d.hub user (redirect_message "/verify");
      }
      else if msg.action == "CONFIRM_QR"
      then record d { asked = noted (confirm_qr_verification d.sessions d.current_user) d.asked }
      else if msg.action == "ROOM_MESSAGE" && not (is_blank msg.message)
      then elim s.author [ none ↦ d | some a ↦ send_room_message d a msg.room_id msg.message s ]
      else d
