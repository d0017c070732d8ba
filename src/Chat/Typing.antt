-- ===== src/Chat/Typing.antt =====
-- internal/service/chat.go: the typing indicator of a room. The service is one for the process; the
-- goroutine of a room is known by the number of the session on whose tracker it listens, and hears
-- what is offered to its channel before the next step. `render` is the template.
mod Tests
use arko.Base.{
  ℕ, String, ◌+s◌, Bool, true, sym, Option, none, some, List, [], ◌∷◌, ◌==◌, eqb, map, keep_if,
  if◌then◌else◌, Option-cases,
}
use arko.Base.Assoc.{lookup, insert}
use arko.Hub.{Hub, broadcast_to_room}
use arko.Matrix.Typing.{TypingEvent, TypingUser}

pub record Indicators : Type 0 where
  pub listeners : List (String × ℕ)
  pub current : Option ℕ
  pub stopped : Bool
  pub hub : Hub

-- What happens to the service: another session is the current one or none is, a page subscribes to
-- a room, the context of the manager ends, or the tracker of a session offers an event.
pub data Happens : Type 0 where
  switched : Option ℕ → Happens
  subscribed : String → Happens
  ended : Happens
  notified : ℕ → TypingEvent → Happens

-- The function that is passed to `Compute`, with the current session and the room's entry.
unfoldable pub listener_for : Option ℕ → Option ℕ → String → List (String × ℕ) → List (String × ℕ)
listener_for none entry room_id es = es
listener_for (some session) (some other) room_id es = es
listener_for (some session) none room_id es = insert room_id session es

unfoldable pub subscribe_typing : Indicators → String → Indicators
unfolding listener_for
subscribe_typing i room_id = record i {
  listeners = listener_for i.current (lookup room_id i.listeners) room_id i.listeners;
}

module _ (pick : Bool) (render : List String → Option String) where
  abbrev oob_html : String → String
  oob_html inner = "<div id=\"typing-indicator\" hx-swap-oob=\"innerHTML\">" +s (inner +s "</div>")

  unfoldable pub broadcast_typing_update : Hub → TypingEvent → Hub
  unfolding broadcast_to_room
  broadcast_typing_update h evt = elim (render (map (λ u. u.name) evt.typing_users)) [
    | none ↦ h
    | some inner ↦ broadcast_to_room pick h evt.room_id (oob_html inner)
  ]

  -- The goroutine of a room at an event of its channel.
  unfoldable pub on_typing_event : TypingEvent → String → Hub → Hub
  unfolding broadcast_typing_update
  on_typing_event evt room_id h =
      if evt.room_id == room_id then broadcast_typing_update h evt else h

  -- Every goroutine that listens to the session hears the event.
  unfoldable pub heard : ℕ → TypingEvent → List (String × ℕ) → Hub → Hub
  unfolding on_typing_event
  heard session evt [] h = h
  heard session evt (e ∷ es) h =
      heard session evt es (if eqb e.1 session then on_typing_event evt e.0 h else h)

  unfoldable pub happen : Indicators → Happens → Indicators
  unfolding subscribe_typing heard
  happen i (switched session) = record i { current = session }
  happen i (subscribed room_id) = subscribe_typing i room_id
  happen i ended = record i { stopped = true }
  happen i (notified session evt) = record i {
    hub = if i.stopped then i.hub else heard session evt i.listeners i.hub;
  }

  unfoldable pub run : Indicators → List Happens → Indicators
  unfolding happen
  run i [] = i
  run i (x ∷ xs) = run (happen i x) xs

  -- The goroutines of one room.
  abbrev of_room : String → List (String × ℕ) → List (String × ℕ)
  of_room room es = keep_if (λ e. e.0 == room) es
