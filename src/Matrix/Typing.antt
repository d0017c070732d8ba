-- ===== src/Matrix/Typing.antt =====
-- internal/matrix/typing.go, and the handler of typing events in internal/matrix/session.go: who is
-- typing in each room. The tracker's locks make each function a step; `jobs` lists the rooms whose
-- `notifyListeners` has been started and has not run. A channel is known by a number.
pub mod Rooms
pub mod Laws
pub mod Closed
mod Tests
use arko.Base.{
  ℕ, ◌+◌, String, Bool, true, false, not, ◌&&◌, Option, none, some, List, [], ◌∷◌, ◌++◌, ◌==◌, eqb,
  leb, ltb, length, keep_if, map, if◌then◌else◌,
}
use arko.Base.Assoc.{lookup, insert, remove}
use arko.Models.{User, offline}
use arko.Session.{contains}

pub record TypingUser : Type 0 where
  pub user_id : String
  pub name : String
  pub avatar : String
  pub deadline : ℕ

pub record TypingEvent : Type 0 where
  pub room_id : String
  pub typing_users : List TypingUser

-- A channel of 16 places.
pub record Channel : Type 0 where
  pub key : ℕ
  pub queue : List TypingEvent
  pub closed : Bool

abbrev pub Room : Type 0
Room = List (String × TypingUser)

pub record TypingTracker : Type 0 where
  pub rooms : List (String × Room)
  pub listeners : List ℕ
  pub channels : List Channel
  pub current_user : String
  pub jobs : List String

unfoldable pub new_typing_tracker : String → TypingTracker
new_typing_tracker current_user = record {
  rooms = [];
  listeners = [];
  channels = [];
  current_user = current_user;
  jobs = [];
}

abbrev pub room_of : TypingTracker → String → Room
room_of t room_id = elim (lookup room_id t.rooms) [ none ↦ [] | some room ↦ room ]

-- `time.Now()` is `now`.
unfoldable pub set_in_room : Room → User → Bool → ℕ → Room
set_in_room room user false deadline = remove user.id room
set_in_room room user true deadline =
    insert user.id
      (record { user_id = user.id; name = user.name; avatar = user.avatar; deadline = deadline })
      room

unfoldable pub set_typing : TypingTracker → String → User → Bool → ℕ → ℕ → TypingTracker
unfolding set_in_room
set_typing t room_id user typing timeout now = record t {
  rooms = insert room_id (set_in_room (room_of t room_id) user typing (now + timeout)) t.rooms;
  jobs = t.jobs ++ room_id ∷ [];
}

-- not now.After(u.Deadline)
abbrev pub alive : ℕ → TypingUser → Bool
alive now u = leb now u.deadline

unfoldable pub cleanup_expired : TypingTracker → String → ℕ → TypingTracker
cleanup_expired t room_id now = elim (lookup room_id t.rooms) [
  | none ↦ t
  | some room ↦ record t { rooms = insert room_id (keep_if (λ e. alive now e.1) room) t.rooms }
]

abbrev pub others : TypingTracker → String → List TypingUser
others t room_id =
    keep_if (λ u. not (u.user_id == t.current_user)) (map (λ e. e.1) (room_of t room_id))

unfoldable pub get_typing_users_for_room :
    TypingTracker → String → ℕ → List TypingUser × TypingTracker
unfolding cleanup_expired
get_typing_users_for_room t room_id now =
    let t1 = cleanup_expired t room_id now in (others t1 room_id, t1)

unfoldable pub get_typing_users : TypingTracker → String → ℕ → List String × TypingTracker
unfolding cleanup_expired
get_typing_users t room_id now =
    let t1 = cleanup_expired t room_id now in (map (λ u. u.name) (others t1 room_id), t1)

-- `Listen`, where `key` is the new channel.
unfoldable pub listen : TypingTracker → ℕ → TypingTracker
listen t key = record t {
  listeners = t.listeners ++ key ∷ [];
  channels = t.channels ++ record { key = key; queue = []; closed = false } ∷ [];
}

abbrev pub is_listener : ℕ → List ℕ → Bool
is_listener key [] = false
is_listener key (l ∷ ls) = if eqb l key then true else is_listener key ls

unfoldable pub drop_listener : ℕ → List ℕ → List ℕ
drop_listener key [] = []
drop_listener key (l ∷ ls) = let rest = drop_listener key ls in if eqb l key then ls else l ∷ rest

unfoldable pub close_channel : ℕ → List Channel → List Channel
close_channel key [] = []
close_channel key (c ∷ cs) =
    let rest = close_channel key cs in
    if eqb c.key key then record c { closed = true } ∷ cs else c ∷ rest

unfoldable pub close_listener : TypingTracker → ℕ → TypingTracker
unfolding drop_listener close_channel
close_listener t key =
    if is_listener key t.listeners
    then record t {
      listeners = drop_listener key t.listeners;
      channels = close_channel key t.channels;
    }
    else t

-- A send that is dropped where the channel is full; none is the panic of a send on a closed
-- channel.
unfoldable pub offer_channel : TypingEvent → Channel → Option Channel
offer_channel evt c =
    if c.closed
    then none
    else some (if ltb (length c.queue) 16 then record c { queue = c.queue ++ evt ∷ [] } else c)

unfoldable pub offer : TypingEvent → ℕ → List Channel → Option (List Channel)
unfolding offer_channel
offer evt key [] = some []
offer evt key (c ∷ cs) =
    let rest = offer evt key cs in
    if eqb c.key key
    then elim (offer_channel evt c) [ none ↦ none | some d ↦ some (d ∷ cs) ]
    else elim rest [ none ↦ none | some ds ↦ some (c ∷ ds) ]

-- The loop of `notifyListeners` over the listeners that it copied.
unfoldable pub offer_all : TypingEvent → List ℕ → List Channel → Option (List Channel)
unfolding offer
offer_all evt [] cs = some cs
offer_all evt (l ∷ ls) cs = elim (offer evt l cs) [ none ↦ none | some ds ↦ offer_all evt ls ds ]

-- `notifyListeners` from the copy of the listeners on; other steps may come between the two.
unfoldable pub notify : TypingTracker → List ℕ → String → ℕ → Option TypingTracker
unfolding offer_all get_typing_users_for_room
notify t copied room_id now =
    let (users, t1) = get_typing_users_for_room t room_id now in
    elim (offer_all (record { room_id = room_id; typing_users = users }) copied t1.channels) [
      | none ↦ none
      | some cs ↦ some (record t1 { channels = cs })
    ]

-- A user of a typing event, with the profile that `GetUserProfile` gives and the instant at which
-- `SetTyping` reads the clock.
pub record Typist : Type 0 where
  pub user_id : String
  pub profile : User
  pub at : ℕ

abbrev pub typing_timeout : ℕ
typing_timeout = 30_000_000_000

unfoldable pub start_typing : TypingTracker → String → List Typist → TypingTracker
unfolding set_typing
start_typing t room_id [] = t
start_typing t room_id (p ∷ ps) =
    start_typing (set_typing t room_id p.profile true typing_timeout p.at) room_id ps

-- models.User{ID: id}, whose status is not read
abbrev pub bare_user : String → User
bare_user id = record {
  id = id;
  name = "";
  avatar = "";
  status = offline;
  homeserver = "";
  e2ee = false;
}

-- The loop over the users that are in the room, in any order.
unfoldable pub stop_typing : TypingTracker → String → List Typist → List String → TypingTracker
unfolding set_typing
stop_typing t room_id content [] = t
stop_typing t room_id content (id ∷ ids) =
    stop_typing
      (if contains id (map (λ p. p.user_id) content)
        then t
        else set_typing t room_id (bare_user id) false 0 0)
      room_id content ids

unfoldable pub typing_event : TypingTracker → String → Option (List Typist) → TypingTracker
unfolding start_typing stop_typing
typing_event t room_id none = t
typing_event t room_id (some content) =
    let t1 = start_typing t room_id content in
    stop_typing t1 room_id content (map (λ e. e.0) (room_of t1 room_id))
