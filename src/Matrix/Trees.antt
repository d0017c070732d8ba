-- ===== src/Matrix/Trees.antt =====
-- internal/matrix/session.go: the trees of a session's rooms and the listeners of its sync. A
-- channel is known by the number that `idCounter` gives. Each step is atomic; `GetMessageTree` is
-- two.
pub mod Race
use arko.Base.{
  ℕ, ◌+◌, String, Bool, true, false, not, ◌&&◌, Option, none, some, List, [], ◌∷◌, ◌++◌, eqb, ltb,
  length, map, if◌then◌else◌,
}
use arko.Base.SyncMap.{SyncMap}
use arko.Matrix.Event.{
  Event, Env, EventType, encrypted, message, redaction, reaction, sticker, other,
}
use arko.Matrix.BTree.{BTree}
use arko.Matrix.Tree.{MessageTree, new_message_tree}
use arko.Matrix.Tree.Listen.{close}
use arko.Matrix.Tree.Load.{Page, initialize}

-- A channel of 16 events.
pub record Listener : Type 0 where
  pub key : ℕ
  pub queue : List Event

pub record Listeners : Type 0 where
  pub open_ones : List Listener
  pub id_counter : ℕ

-- `listenEvents`, with the number of the new channel.
unfoldable pub listen_events : Listeners → Listeners × ℕ
listen_events l = (
  record {
    open_ones = l.open_ones ++ record { key = l.id_counter + 1; queue = [] } ∷ [];
    id_counter = l.id_counter + 1;
  },
  l.id_counter + 1,
)

unfoldable pub without_listener : ℕ → List Listener → List Listener
without_listener key [] = []
without_listener key (l ∷ ls) =
    let rest = without_listener key ls in if eqb l.key key then rest else l ∷ rest

unfoldable pub close_event_listener : Listeners → ℕ → Listeners
unfolding without_listener
close_event_listener l key = record l { open_ones = without_listener key l.open_ones }

-- The loop of a handler of the sync: it waits at the first channel that is full, with the channels
-- before it served.
unfoldable pub send_to_all : Event → List Listener → List Listener × Bool
send_to_all evt [] = ([], true)
send_to_all evt (l ∷ ls) =
    let (rest, done) = send_to_all evt ls in
    if ltb (length l.queue) 16
    then (record l { queue = l.queue ++ evt ∷ [] } ∷ rest, done)
    else (l ∷ ls, false)

unfoldable pub send_event : Event → Listeners → Listeners × Bool
unfolding send_to_all
send_event evt l =
    let (ls, done) = send_to_all evt l.open_ones in (record l { open_ones = ls }, done)

-- The handlers of the events of a room; `decrypted` is what `Decrypt` returns.
unfoldable pub on_event : EventType → Event → Option Event → Listeners → Listeners × Bool
unfolding send_event
on_event encrypted evt none l = (l, true)
on_event encrypted evt (some plain) l = send_event plain l
on_event other evt decrypted l = (l, true)
on_event message evt decrypted l = send_event evt l
on_event redaction evt decrypted l = send_event evt l
on_event reaction evt decrypted l = send_event evt l
on_event sticker evt decrypted l = send_event evt l

module _ ⦃x : SyncMap⦄ ⦃b : BTree⦄ where
  -- The second part of `GetMessageTree`, for a room whose tree the first part did not find: `e2ee`
  -- is whether the server names an algorithm.
  unfoldable pub make_tree : x.Map MessageTree → String → Bool → x.Map MessageTree × MessageTree
  make_tree trees room_id e2ee =
      (x.store trees room_id (new_message_tree room_id e2ee), new_message_tree room_id e2ee)

  unfoldable pub tree_or_new :
      x.Map MessageTree → String → Bool → Option MessageTree → x.Map MessageTree × MessageTree
  unfolding make_tree
  tree_or_new trees room_id e2ee (some t) = (trees, t)
  tree_or_new trees room_id e2ee none = make_tree trees room_id e2ee

  unfoldable pub get_message_tree :
      x.Map MessageTree → String → Bool → x.Map MessageTree × MessageTree
  unfolding tree_or_new
  get_message_tree trees room_id e2ee = tree_or_new trees room_id e2ee (x.load trees room_id)

  -- The goroutine that `getSpaceChildren` starts for each channel and `ListDirectMessages` for the
  -- direct room of each friend, after the list is made: the room's tree asks for its history.
  unfoldable pub warm_tree :
      Env → (String → Option Page) → x.Map MessageTree → String → Bool → x.Map MessageTree
  unfolding get_message_tree initialize
  warm_tree env server trees room_id e2ee =
      let (trees1, t) = get_message_tree trees room_id e2ee in
      x.store trees1 room_id (initialize env t server)
