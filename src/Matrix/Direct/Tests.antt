-- ===== src/Matrix/Direct/Tests.antt =====
-- Two users with direct rooms on concrete inputs.
use arko.Base.{
  String, true, not, ◌&&◌, ◌≡◌, refl, Option, none, some, List, [], ◌∷◌, ◌==◌, if◌then◌else◌,
}
use arko.Base.Assoc.{lookup}
use arko.Base.SyncMap
use arko.Base.SyncMap.{SyncMap}
use arko.Cache.{value}
use arko.Models.{User}
use arko.Session.{contains}
use arko.Matrix.BTree.Listed.{no_user}
use arko.Matrix.Direct.{
  DirectMap, rooms, fault, get_dm_room_id, set_dm_room_account_data, rooms_in, create_dm_room,
  list_direct_messages, created, profile_user,
}
use arko.Matrix.Direct.Laws.{written, get_dm_room_id-set, set_dm_room_account_data-fault}
use arko.Matrix.Direct.Friends.{user_ids, ByName, list_direct_messages-create}

instance abbrev map_listed : SyncMap
map_listed = SyncMap.listed

abbrev two : DirectMap
two = ("@bob", "!b" ∷ []) ∷ ("@carl", "!c" ∷ []) ∷ []

get_dm_room_id-set_example :
    get_dm_room_id
      (rooms (some (written two (set_dm_room_account_data (rooms (some two)) "@bob" "!n"))))
      "@carl"
    ≡ (if ("@bob" == "@carl") && not (contains "!n" (rooms_in two "@bob"))
        then some "!n"
        else get_dm_room_id (rooms (some two)) "@carl")
get_dm_room_id-set_example = get_dm_room_id-set two "@bob" "!n" "@carl"

set_dm_room_account_data-fault_example :
    get_dm_room_id (rooms (some (written two (set_dm_room_account_data fault "@bob" "!n")))) "@carl"
    ≡ (if "@bob" == "@carl" then some "!n" else none)
set_dm_room_account_data-fault_example = set_dm_room_account_data-fault two "@bob" "!n" "@carl"

abbrev profiles : String → Option User
profiles id = some (record no_user { id = id; name = id })

list_direct_messages-create_example :
    let r =
      create_dm_room "@me"
        (λ id. id)
        (record { entries = []; ttl = 3; flights = [] })
        "@dan"
        none
        (some "!d")
        (rooms (some two)) in
    let w = set_dm_room_account_data (rooms (some two)) "@dan" "!d" in
    (r.1 ≡ created (profile_user (λ id. id) "@dan" none) "!d" w)
    × ((us : List User) × ((list_direct_messages "@me" r.0 5 profiles
            (rooms (some (written two w)))).0
          ≡ value us)
        × (contains "@dan" (user_ids us) ≡ true)
        × ByName us)
unfolding lookup
list_direct_messages-create_example =
    list_direct_messages-create "@me" (λ id. id) (record { entries = []; ttl = 3; flights = [] })
      "@dan" "!d" none two 5 profiles (record no_user { id = "@dan"; name = "@dan" }) refl refl refl
