-- ===== src/Hub.antt =====
-- internal/ws/hub.go and client.go: the websocket clients of each user. The hub knows a client by
-- its pointer, here `key`. `queue` is the channel `send` of 256 places; of a select with two ready
-- cases `pick` says whether it takes the first.
pub mod Laws
mod Tests
use arko.Base.{
  ℕ, String, Bool, true, false, not, ◌&&◌, ◌||◌, Option, none, some, List, [], ◌∷◌, ◌++◌, ◌==◌, eqb,
  ltb, length, keep_if, map, if◌then◌else◌,
}
use arko.Base.Assoc.{lookup, insert, remove}

pub record Client : Type 0 where
  pub key : ℕ
  pub user_id : String
  pub active_room : String
  pub queue : List String
  pub closed : Bool

unfoldable pub send : Bool → Client → String → Client × Bool
send pick c msg =
    if ltb (length c.queue) 256 && (not c.closed || pick)
    then (record c { queue = c.queue ++ msg ∷ [] }, true)
    else (c, false)

-- `SetActiveRoom` and `GetActiveRoom`
unfoldable pub set_active_room : Client → String → Client
set_active_room c room_id = record c { active_room = room_id }

-- The clients of each user.
abbrev pub Hub : Type 0
Hub = List (String × List Client)

abbrev pub bucket_of : Option (List Client) → List Client
bucket_of none = []
bucket_of (some b) = b

abbrev pub is_in : ℕ → List Client → Bool
is_in key [] = false
is_in key (c ∷ cs) = eqb c.key key || is_in key cs

abbrev pub without : ℕ → List Client → List Client
without key [] = []
without key (c ∷ cs) = if eqb c.key key then without key cs else c ∷ without key cs

unfoldable pub register : Hub → Client → Hub
register h c =
    let bucket = bucket_of (lookup c.user_id h) in
    if is_in c.key bucket then h else insert c.user_id (bucket ++ c ∷ []) h

-- What `Unregister` does with a bucket from which the client is deleted.
unfoldable pub put_bucket : Hub → String → List Client → Hub
put_bucket h user [] = remove user h
put_bucket h user (c ∷ cs) = insert user (c ∷ cs) h

unfoldable pub unregister : Hub → Client → Hub
unfolding put_bucket
unregister h c = elim (lookup c.user_id h) [
  | none ↦ h
  | some bucket ↦ if is_in c.key bucket then put_bucket h c.user_id (without c.key bucket) else h
]

unfoldable pub push : Bool → Hub → String → String → Hub
unfolding send
push pick [] user msg = []
push pick (e ∷ es) user msg =
    let rest = push pick es user msg in
    if e.0 == user then (e.0, map (λ c. (send pick c msg).0) e.1) ∷ rest else e ∷ rest

-- One client in the loop of `BroadcastToRoom`.
unfoldable pub deliver : Bool → String → String → Client → Client
unfolding send
deliver pick room_id msg c = if c.active_room == room_id then (send pick c msg).0 else c

unfoldable pub broadcast_to_room : Bool → Hub → String → String → Hub
unfolding deliver
broadcast_to_room pick h room_id msg = map (λ e. (e.0, map (deliver pick room_id msg) e.1)) h
