-- ===== src/Matrix/Direct.antt =====
-- internal/matrix/dm.go, and the direct messages of internal/matrix/rooms.go. The server keeps, as
-- account data, the direct rooms of each user. What the server answers is an argument, and what is
-- written to it is part of the result; `localpart` is mautrix's `id.UserID.Localpart`, and the
-- avatar of a profile is given as the address that the session makes of it.
pub mod Laws
pub mod Friends
mod Tests
use arko.Base.{
  ℕ, String, ◌+s◌, Bool, true, false, not, ◌||◌, Option, none, some, List, [], ◌∷◌, ◌++◌, ◌==◌,
  str_lt, if◌then◌else◌, map,
}
use arko.Base.Assoc.{lookup, insert}
use arko.Base.SyncMap.{SyncMap}
use arko.Cache
use arko.Cache.{Cache, Fetched, ok, err, GetResult}
use arko.Models.{User, offline}
use arko.Session.{contains}

abbrev pub DirectMap : Type 0
DirectMap = List (String × List String)

-- What `GetAccountData` leaves in a map that is nil before: nothing where it fails, and a nil map
-- where the data is null.
pub data AccountData : Type 0 where
  fault : AccountData
  rooms : Option DirectMap → AccountData

-- How `setDMRoomAccountData` ends: without a write, with the map that it writes, or in the panic of
-- a write to a nil map.
pub data Write : Type 0 where
  keeps panics : Write
  puts : DirectMap → Write

abbrev pub rooms_in : DirectMap → String → List String
rooms_in m user = elim (lookup user m) [ none ↦ [] | some rs ↦ rs ]

unfoldable pub put_room : Option DirectMap → String → String → Write
put_room none user room_id = panics
put_room (some m) user room_id =
    if contains room_id (rooms_in m user)
    then keeps
    else puts (insert user (room_id ∷ rooms_in m user) m)

unfoldable pub set_dm_room_account_data : AccountData → String → String → Write
unfolding put_room
set_dm_room_account_data fault user room_id = put_room (some []) user room_id
set_dm_room_account_data (rooms m) user room_id = put_room m user room_id

unfoldable pub first_room : Option (List String) → Option String
first_room none = none
first_room (some []) = none
first_room (some (r ∷ rs)) = some r

unfoldable pub get_dm_room_id : AccountData → String → Option String
unfolding first_room
get_dm_room_id fault user = none
get_dm_room_id (rooms none) user = none
get_dm_room_id (rooms (some m)) user = first_room (lookup user m)

-- A profile: its display name, and its avatar where it has one.
pub record Profile : Type 0 where
  pub display_name : String
  pub avatar_url : Option String

pub record Entry : Type 0 where
  pub user_id : String
  pub display_name : String
  pub avatar_url : Option String

-- `resolveContentURI`, of the address of an avatar.
unfoldable pub resolve_avatar : Option String → String → String → String
resolve_avatar none seed style = "https://api.dicebear.com/7.x/" +s style +s "/svg?seed=" +s seed
resolve_avatar (some url) seed style = url

module _ (localpart : String → String) where
  unfoldable pub user_of : String → String → Option String → User
  unfolding resolve_avatar
  user_of user display_name avatar_url = record {
    id = user;
    name = if not (display_name == "") then display_name else localpart user;
    avatar = resolve_avatar avatar_url (localpart user) "avataaars";
    status = offline;
    homeserver = "";
    e2ee = false;
  }

  -- The user of `CreateDMRoom`.
  unfoldable pub profile_user : String → Option Profile → User
  unfolding user_of
  profile_user user none = user_of user "" none
  profile_user user (some p) = user_of user p.display_name p.avatar_url

  -- The loop of `SearchUsers` over the server's results, where `me` is the session's user.
  unfoldable pub search_results : String → List Entry → List User
  unfolding user_of
  search_results me [] = []
  search_results me (e ∷ es) =
      let rest = search_results me es in
      if e.user_id == me then rest else user_of e.user_id e.display_name e.avatar_url ∷ rest

  unfoldable pub search_users : String → Option (List Entry) → Option (List User)
  unfolding search_results
  search_users me none = none
  search_users me (some es) = some (search_results me es)

-- Lists in the order of names; `slices.SortFunc` leaves the order of equal names open.
module _ {A : Type 0} (name : A → String) where
  unfoldable pub insert_by_name : A → List A → List A
  insert_by_name u [] = u ∷ []
  insert_by_name u (v ∷ vs) =
      if str_lt (name v) (name u) then v ∷ insert_by_name u vs else u ∷ v ∷ vs

  unfoldable pub sort_by_name : List A → List A
  unfolding insert_by_name
  sort_by_name [] = []
  sort_by_name (u ∷ us) = insert_by_name u (sort_by_name us)

-- The loop of `ListDirectMessages` over the users with a direct room, in any order; `profile_of` is
-- what `GetUserProfile` answers. The goroutine that it starts for each friend finds the direct room
-- (`get_dm_room_id`) and is then `warm_tree` of Matrix.Trees.
unfoldable pub friends_from : (String → Option User) → List String → List String → List User
friends_from profile_of seen [] = []
friends_from profile_of seen (u ∷ us) =
    if contains u seen then friends_from profile_of seen us else elim (profile_of u) [
      | none ↦ friends_from profile_of (u ∷ seen) us
      | some p ↦ p ∷ friends_from profile_of (u ∷ seen) us
    ]

unfoldable pub fetch_friends : (String → Option User) → AccountData → Fetched (List User)
unfolding friends_from sort_by_name
fetch_friends profile_of fault = err "get dm list"
fetch_friends profile_of (rooms none) = ok []
fetch_friends profile_of (rooms (some m)) =
    ok (sort_by_name (λ u. u.name) (friends_from profile_of [] (map (λ e. e.0) m)))

-- How `CreateDMRoom` ends, with what it writes to the account data.
pub data Created : Type 0 where
  created : User → String → Write → Created
  failed panicked : Created

module _ ⦃x : SyncMap⦄ (me : String) where
  abbrev pub friends_key : String
  friends_key = "ldm:" +s me

  unfoldable pub list_direct_messages :
      Cache (List User)
      → ℕ
      → (String → Option User)
      → AccountData
      → GetResult (List User) × Cache (List User) × Bool
  unfolding fetch_friends Cache.get
  list_direct_messages c now profile_of data' =
      Cache.get c friends_key now (fetch_friends profile_of data')

  -- `CreateDMRoom` behind the request that creates the room.
  unfoldable pub created_room :
      Cache (List User) → User → String → Write → Cache (List User) × Created
  created_room c u room_id panics = (c, panicked)
  created_room c u room_id keeps = (Cache.invalidate c friends_key, created u room_id keeps)
  created_room c u room_id (puts m) = (Cache.invalidate c friends_key, created u room_id (puts m))

  -- `profile` and `room` are the server's answers.
  unfoldable pub create_dm_room :
      (String → String)
      → Cache (List User)
      → String
      → Option Profile
      → Option String
      → AccountData
      → Cache (List User) × Created
  unfolding profile_user created_room set_dm_room_account_data
  create_dm_room localpart c other profile none account = (c, failed)
  create_dm_room localpart c other profile (some room_id) account =
      created_room c (profile_user localpart other profile) room_id
        (set_dm_room_account_data account other room_id)
