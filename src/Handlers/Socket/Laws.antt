-- ===== src/Handlers/Socket/Laws.antt =====
-- What a websocket's requests change.
use arko.Base.{
  ℕ, String, Bool, false, ◌≡◌, ◌≢◌, some, List, [], ◌∷◌, ◌++◌, ◌==◌, eq_iff, eqb, length, map,
  arith, ◌<◌, if◌then◌else◌,
}
use arko.Base.Assoc.{lookup}
use arko.Base.SyncMap.{SyncMap}
use arko.Hub.Laws.{lookup-broadcast}
use arko.Hub.{Client, Hub, send, deliver, set_active_room, broadcast_to_room}
use arko.Matrix.BTree.{BTree}
use arko.Matrix.Event.{Env}
use arko.Matrix.Tree.{MessageTree, items}
use arko.Matrix.Tree.Echo.{written as written_by}
use arko.Models.{User, Message}
use arko.Models.Sorted
use arko.Handlers.Socket.{update_client, Desk, Sending, on_message}

abbrev pub with_room : ℕ → String → Client → Client
with_room key room_id c = if eqb c.key key then record c { active_room = room_id } else c

lookup-update_client :
    (h : Hub) (key : ℕ) (f : Client → Client) (user : String) (b : List Client)
    → lookup user h ≡ some b
    → lookup user (update_client h key f) ≡ some (map (λ c. if eqb c.key key then f c else c) b)
unfolding lookup update_client
lookup-update_client [] key f user b e = ground arith
lookup-update_client (x ∷ h) key f user b e = ground (arith, lookup-update_client h key f user b)

module _ ⦃x : SyncMap⦄ ⦃b : BTree⦄ (env : Env) (pick : Bool) (d : Desk) (key : ℕ)
    (user room_id text : String) (s : Sending) where
  abbrev pub subscribed : Desk
  subscribed =
      on_message env pick d key user
        (some (record { action = "SUBSCRIBE_ROOM"; room_id = room_id; message = text })) s

  abbrev pub written : Desk
  written =
      on_message env pick d key user
        (some (record { action = "ROOM_MESSAGE"; room_id = room_id; message = text })) s

  -- After a websocket asked for a room, what is broadcast to a room reaches its browser, where it
  -- is open and has room, exactly if it is that room, whichever room it showed before; for every
  -- other browser nothing has changed.
  pub broadcast-subscribe :
      (owner room msg : String) (bucket : List Client)
      → lookup owner d.hub ≡ some bucket
      → (lookup owner (broadcast_to_room pick subscribed.hub room msg)
          ≡ some (map (deliver pick room msg) (map (with_room key room_id) bucket)))
        × ((c : Client)
            → c.key ≡ key
            → c.closed ≡ false
            → length c.queue < 256
            → deliver pick room msg (with_room key room_id c) ≡ (
                if room_id == room
                then record c { active_room = room_id; queue = c.queue ++ msg ∷ [] }
                else record c { active_room = room_id }))
        × ((c : Client) → c.key ≢ key → with_room key room_id c ≡ c)
  unfolding on_message set_active_room deliver send
  broadcast-subscribe owner room msg bucket e = (
    lookup-broadcast pick (update_client d.hub key (λ c. record c { active_room = room_id })) room
        msg owner (map (with_room key room_id) bucket)
        (lookup-update_client d.hub key (λ c. record c { active_room = room_id }) owner bucket e),
    (λ c k o l. ground (arith, eq_iff room_id room)),
    λ c n. ground arith,
  )

  -- What the room of a tree shows of a message that was sent.
  abbrev pub ShowsSent : MessageTree → MessageTree → User → Type 0
  ShowsSent t u a =
      (m : Message) × (x.load u.messages_map s.nonce ≡ some m)
      × (items u ≡ Sorted.insert m (items t))
      × (m.id ≡ s.nonce)
      × (m.content ≡ text)
      × (m.author ≡ env.profile a.id)
      × (m.timestamp ≡ s.now)
      × ((waits : Message) × (x.load u.nonces s.nonce ≡ some waits) × (waits.id ≡ s.nonce))
      × ((other : String)
          → (s.nonce == other) ≡ false
          → x.load u.messages_map other ≡ x.load t.messages_map other)
