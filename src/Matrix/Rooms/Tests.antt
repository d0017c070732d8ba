-- ===== src/Matrix/Rooms/Tests.antt =====
-- A room and a space on concrete inputs, with caches that hold an older answer.
use arko.Base.{
  String, true, ◌≡◌, ◌≢◌, refl, Option, none, some, List, [], ◌∷◌, ◌==◌, map, is_some,
  if◌then◌else◌, arith, eq_refl,
}
use arko.Base.Assoc.{lookup}
use arko.Base.SyncMap
use arko.Base.SyncMap.{SyncMap}
use arko.Cache.{value}
use arko.Models.{Channel}
use arko.Session.{contains}
use arko.Matrix.BTree.Listed.{no_user}
use arko.Matrix.Rooms.{
  Member, Child, Caches, fetch_profile, joined_members, get_user_profile, get_room_members,
  get_space_children, on_member, create_channel, get_channel,
}
use arko.Matrix.Rooms.Laws.{on_member-fresh, names_child, get_space_children-create}

instance abbrev map_listed : SyncMap
map_listed = SyncMap.listed

abbrev caches : Caches
caches = record {
  profile_cache = record {
    entries = ("gup:@bob", record { value = no_user; fetched_at = 0 }) ∷ [];
    ttl = 3;
    flights = [];
  };
  user_cache = record { entries = []; ttl = 3; flights = [] };
  channels_cache = record {
    entries = ("gsc:!s", record { value = []; fetched_at = 0 }) ∷ [];
    ttl = 3;
    flights = [];
  };
  spaces_cache = record { entries = []; ttl = 3; flights = [] };
  dm_cache = record { entries = []; ttl = 3; flights = [] };
  members_cache = record { entries = []; ttl = 3; flights = [] };
}

abbrev bob : Member
bob = record { state_key = "@bob"; joined = true; displayname = "Bob"; avatar_url = none }

on_member-fresh_example :
    let d = on_member caches "@me" "!r" "@bob" in
    ((get_room_members (λ id. id) d "!r" 1 (some (bob ∷ []))).0
      ≡ value (joined_members (λ id. id) (bob ∷ [])))
    × ((get_user_profile (λ id. id) d "@bob" 1 none (some true)).0
        ≡ value (fetch_profile (λ id. id) "@bob" none (some true)))
    × ((j : String)
        → "gup:@bob" ≢ j
        → map_listed.load d.profile_cache.entries j
          ≡ map_listed.load caches.profile_cache.entries j)
unfolding lookup
on_member-fresh_example =
    on_member-fresh (λ id. id) caches "@me" "!r" "@bob" 1 (bob ∷ []) none (some true) refl refl

-- A server that puts each new child of a space first.
abbrev send_state_event : List (String × Child) → String → Child → Option (List (String × Child))
send_state_event server space child = some ((space, child) ∷ server)

abbrev children : List (String × Child) → String → List Child
children [] space = []
children (e ∷ es) space = if e.0 == space then e.1 ∷ children es space else children es space

abbrev empty_server : List (String × Child)
empty_server = []

is_named :
    (before after : List (String × Child)) (space : String) (child : Child)
    → send_state_event before space child ≡ some after
    → child.has_via ≡ true
    → names_child child.state_key (children after space) ≡ true
is_named before after space child e v = ground (arith, eq_refl space, eq_refl child.state_key)

get_space_children-create_example :
    let d = create_channel send_state_event caches empty_server "!s" "news" "" (some "!c") in
    (us : List Channel) × ((get_space_children d.0
        (λ id. id)
        "!s"
        1
        (some (some (children d.1 "!s")))).0
      ≡ value us)
    × (contains "!c" (map (λ u. u.id) us) ≡ (
        if is_some
          (send_state_event empty_server "!s" (record { state_key = "!c"; has_via = true }))
        then true
        else names_child "!c" (children empty_server "!s")))
    × (d.2 ≡ some (get_channel "!s" "!c" "news" ""))
unfolding lookup
get_space_children-create_example =
    get_space_children-create send_state_event children caches empty_server (λ id. id) "!s" "news"
      "" "!c" 1 refl is_named
