-- ===== src/Handlers/Socket/Tests.antt =====
-- A user with a browser that shows the room "s", two websockets and an empty room "r".
use arko.Base.{
  ◌+◌, ◌≤◌, ◌<◌, true, false, ◌≡◌, ◌≢◌, refl, String, some, List, [], ◌∷◌, ◌++◌, ◌==◌, length, map,
  if◌then◌else◌,
}
use arko.Base.Assoc.{lookup}
use arko.Base.SyncMap
use arko.Base.SyncMap.{SyncMap}
use arko.Models.{User}
use arko.Hub.{Client, deliver, broadcast_to_room}
use arko.Matrix.BTree.{BTree}
use arko.Matrix.BTree.Listed
use arko.Matrix.BTree.Listed.{no_user}
use arko.Matrix.Event.{Env}
use arko.Matrix.Tree.{MessageTree}
use arko.Matrix.Verification.{VerificationEvent, done_event, unset}
use arko.Handlers.Watch.{
  Watcher, verification_event_to_ws, redirect_message, broadcast_verification_event, drain_all,
}
use arko.Handlers.Watch.Laws.{sends, copies, broadcast-drain_all}
use arko.Handlers.Socket.{Desk, Sending}
use arko.Handlers.Socket.Laws.{with_room, subscribed, broadcast-subscribe}

instance abbrev map_listed : SyncMap
map_listed = SyncMap.listed

instance abbrev tree_listed : BTree
tree_listed = Listed.listed

abbrev env : Env
env = record { profile = λ id. record no_user { id = id }; localpart = λ id. id }

abbrev browser : Client
browser = record { key = 1; user_id = "@ann"; active_room = "s"; queue = []; closed = false }

abbrev rooms : List (String × MessageTree)
rooms = []

abbrev desk : Desk
desk = record {
  hub = ("@ann", browser ∷ []) ∷ [];
  sessions = [];
  trees = ("@ann", rooms) ∷ [];
  current_user = "@ann";
  asked = [];
}

abbrev ann : User
ann = record no_user { id = "@ann" }

abbrev sending : Sending
sending = record { author = some ann; e2ee = false; nonce = "pending-1"; now = 5 }

broadcast-subscribe_example :
    (lookup "@ann"
        (broadcast_to_room true (subscribed env true desk 1 "@ann" "r" "" sending).hub "r" "hi")
      ≡ some (map (deliver true "r" "hi") (map (with_room 1 "r") (browser ∷ []))))
    × ((c : Client)
        → c.key ≡ 1
        → c.closed ≡ false
        → length c.queue < 256
        → deliver true "r" "hi" (with_room 1 "r" c) ≡ (
            if "r" == "r"
            then record c { active_room = "r"; queue = c.queue ++ "hi" ∷ [] }
            else record c { active_room = "r" }))
    × ((c : Client) → c.key ≢ 1 → with_room 1 "r" c ≡ c)
unfolding lookup
broadcast-subscribe_example =
    broadcast-subscribe env true desk 1 "@ann" "r" "" sending "@ann" "r" "hi" (browser ∷ []) refl

abbrev watchers : List Watcher
watchers =
    record { key = 1; user_id = "@ann"; queue = [] }
    ∷ record { key = 2; user_id = "@ann"; queue = [] }
    ∷ []

abbrev finished : VerificationEvent
finished = record { type = done_event; method = unset }

broadcast-drain_all_example :
    ((broadcast_verification_event finished watchers).1 ≡ true)
    × (lookup "@ann" (drain_all true desk.hub (broadcast_verification_event finished watchers).0).0
        ≡ some (map (sends true 2 (redirect_message "/")) (browser ∷ [])))
    × ((c : Client)
        → c.closed ≡ false
        → length c.queue + 2 ≤ 256
        → sends true 2 (redirect_message "/") c
          ≡ record c { queue = c.queue ++ copies 2 (redirect_message "/") })
unfolding verification_event_to_ws lookup
broadcast-drain_all_example =
    broadcast-drain_all true desk.hub "@ann" (redirect_message "/") finished (browser ∷ []) watchers
      refl refl ((refl, refl), ((refl, refl), tt))
