-- ===== src/Matrix/Rooms.antt =====
-- internal/matrix/rooms.go and create.go, with `GetUserProfile` and the handlers of
-- internal/matrix/ session.go that invalidate caches: the users, spaces, channels and members that
-- the pages show. What the server answers is an argument, the avatar of a profile or a room as the
-- address that the session makes of it; `localpart` is mautrix's `id.UserID.Localpart`, `escape`
-- Go's `url.PathEscape`.
pub mod Laws
mod Tests
use arko.Base.{
  ℕ, String, ◌+s◌, Bool, true, false, not, ◌&&◌, Option, none, some, List, [], ◌∷◌, ◌==◌,
  if◌then◌else◌, map,
}
use arko.Base.SyncMap.{SyncMap}
use arko.Cache
use arko.Cache.{Cache, Fetched, ok, err, GetResult}
use arko.Models.{User, UserStatus, online, offline, Space, SpaceDetail, Channel, text}
use arko.Matrix.Direct.{Profile, resolve_avatar, sort_by_name, friends_key}

-- A member event of a room: whose it is, whether it says that the user joined, and the profile.
pub record Member : Type 0 where
  pub state_key : String
  pub joined : Bool
  pub displayname : String
  pub avatar_url : Option String

-- A child of a space: whether its content parses and names a server.
pub record Child : Type 0 where
  pub state_key : String
  pub has_via : Bool

abbrev status_of : Option Bool → UserStatus → UserStatus
status_of none default = default
status_of (some active) default = if active then online else offline

abbrev or_else : String → String → String
or_else name default = if name == "" then default else name

module _ (localpart : String → String) where
  abbrev profile_name : String → Option Profile → String
  profile_name user none = localpart user
  profile_name user (some p) = or_else p.display_name (localpart user)

  abbrev profile_avatar : String → Option Profile → String
  profile_avatar user none = resolve_avatar none (localpart user) "avataaars"
  profile_avatar user (some p) = resolve_avatar p.avatar_url (localpart user) "avataaars"

  -- The functions that `GetUserProfile` and `GetCurrentUser` pass to the cache: the profile and the
  -- presence are none where the server does not answer.
  unfoldable pub fetch_profile : String → Option Profile → Option Bool → User
  unfolding resolve_avatar
  fetch_profile user profile presence = record {
    id = user;
    name = profile_name user profile;
    avatar = profile_avatar user profile;
    status = status_of presence offline;
    homeserver = "";
    e2ee = false;
  }

  unfoldable pub fetch_current_user : String → Option Profile → Option Bool → User
  unfolding resolve_avatar
  fetch_current_user user none presence = record {
    id = user;
    name = localpart user;
    avatar = profile_avatar user none;
    status = online;
    homeserver = "";
    e2ee = false;
  }
  fetch_current_user user (some p) presence = record {
    id = user;
    name = profile_name user (some p);
    avatar = profile_avatar user (some p);
    status = status_of presence online;
    homeserver = "";
    e2ee = false;
  }

  -- The loop of `getRoomMembers`.
  unfoldable pub joined_members : List Member → List User
  unfolding resolve_avatar
  joined_members [] = []
  joined_members (e ∷ es) =
      let rest = joined_members es in
      if e.joined
      then record {
        id = e.state_key;
        name = or_else e.displayname e.state_key;
        avatar = resolve_avatar e.avatar_url (localpart e.state_key) "avataaars";
        status = online;
        homeserver = "";
        e2ee = false;
      }
        ∷ rest
      else rest

  unfoldable pub fetch_members : Option (List Member) → Fetched (List User)
  unfolding joined_members
  fetch_members none = err "members"
  fetch_members (some es) = ok (joined_members es)

-- The functions of `getRoomName` and `getRoomAvatar`.
unfoldable pub fetch_room_name : String → Option String → String
fetch_room_name room_id none = room_id
fetch_room_name room_id (some name) = or_else name room_id

unfoldable pub fetch_room_avatar : String → Option String → String
unfolding resolve_avatar
fetch_room_avatar room_id avatar = resolve_avatar avatar room_id "shapes"

-- The loop of `getSpaceChildren`; `names` is what `getRoomName` answers. The goroutine that it
-- starts for each channel is `warm_tree` of Matrix.Trees.
unfoldable pub children_of : (String → String) → String → List Child → List Channel
children_of names space_id [] = []
children_of names space_id (c ∷ cs) =
    let rest = children_of names space_id cs in
    if c.has_via
    then record {
      id = c.state_key;
      name = names c.state_key;
      type = text;
      space_id = space_id;
      topic = "";
      e2ee = false;
    }
      ∷ rest
    else rest

-- The state of a space: an error, or the children where it has any.
unfoldable pub fetch_children :
    (String → String) → String → Option (Option (List Child)) → Fetched (List Channel)
unfolding children_of sort_by_name
fetch_children names space_id none = err "state"
fetch_children names space_id (some none) = ok []
fetch_children names space_id (some (some cs)) =
    ok (sort_by_name (λ c. c.name) (children_of names space_id cs))

-- The loop of `ListSpaces` over the joined rooms.
unfoldable pub spaces_of :
    (String → Bool)
    → (String → String)
    → (String → String)
    → (String → String)
    → List String
    → List Space
spaces_of is_space names avatars escape [] = []
spaces_of is_space names avatars escape (r ∷ rs) =
    let rest = spaces_of is_space names avatars escape rs in
    if is_space r
    then record {
      id = r;
      name = names r;
      avatar = avatars r;
      status = "Online";
      address = escape r;
      nickname = "";
    }
      ∷ rest
    else rest

unfoldable pub fetch_spaces :
    (String → Bool)
    → (String → String)
    → (String → String)
    → (String → String)
    → Option (List String)
    → Fetched (List Space)
unfolding spaces_of sort_by_name
fetch_spaces is_space names avatars escape none = err "joined rooms"
fetch_spaces is_space names avatars escape (some rs) =
    ok (sort_by_name (λ s. s.name) (spaces_of is_space names avatars escape rs))

-- `GetSpaceDetail`, from what the session's other functions answer.
unfoldable pub get_space_detail :
    String
    → String
    → String
    → Option (List Channel)
    → Option (List User)
    → Option (List String)
    → SpaceDetail
get_space_detail space_id name avatar children members urls = record {
  id = space_id;
  name = name;
  avatar = avatar;
  address = "";
  invite_url = elim urls [ none ↦ "" | some us ↦ elim us [ [] ↦ "" | u ∷ rest ↦ u ] ];
  channels = elim children [ none ↦ [] | some cs ↦ cs ];
  users = elim members [ none ↦ [] | some us ↦ us ];
}

unfoldable pub get_channel : String → String → String → String → Channel
get_channel space_id channel_id name topic = record {
  id = channel_id;
  name = name;
  type = text;
  space_id = space_id;
  topic = topic;
  e2ee = false;
}

module _ ⦃x : SyncMap⦄ where
  pub record Caches : Type 0 where
    pub profile_cache : Cache User
    pub user_cache : Cache User
    pub channels_cache : Cache (List Channel)
    pub spaces_cache : Cache (List Space)
    pub dm_cache : Cache (List User)
    pub members_cache : Cache (List User)

  unfoldable pub get_user_profile :
      (String → String)
      → Caches
      → String
      → ℕ
      → Option Profile
      → Option Bool
      → GetResult User × Cache User × Bool
  unfolding fetch_profile Cache.get
  get_user_profile localpart c user now profile presence =
      Cache.get c.profile_cache ("gup:" +s user) now
        (ok (fetch_profile localpart user profile presence))

  unfoldable pub get_current_user :
      (String → String)
      → Caches
      → String
      → ℕ
      → Option Profile
      → Option Bool
      → GetResult User × Cache User × Bool
  unfolding fetch_current_user Cache.get
  get_current_user localpart c me now profile presence =
      Cache.get c.user_cache ("gcu:" +s me) now
        (ok (fetch_current_user localpart me profile presence))

  unfoldable pub get_room_members :
      (String → String)
      → Caches
      → String
      → ℕ
      → Option (List Member)
      → GetResult (List User) × Cache (List User) × Bool
  unfolding fetch_members Cache.get
  get_room_members localpart c room_id now answer =
      Cache.get c.members_cache ("grm:" +s room_id) now (fetch_members localpart answer)

  unfoldable pub get_space_children :
      Caches
      → (String → String)
      → String
      → ℕ
      → Option (Option (List Child))
      → GetResult (List Channel) × Cache (List Channel) × Bool
  unfolding fetch_children Cache.get
  get_space_children c names space_id now answer =
      Cache.get c.channels_cache ("gsc:" +s space_id) now (fetch_children names space_id answer)

  -- The handlers of the sync.
  unfoldable pub on_member : Caches → String → String → String → Caches
  on_member c me room_id state_key = record c {
    members_cache = Cache.invalidate c.members_cache ("grm:" +s room_id);
    profile_cache = Cache.invalidate c.profile_cache ("gup:" +s state_key);
    dm_cache = Cache.invalidate c.dm_cache (friends_key me);
  }

  unfoldable pub on_space_child : Caches → String → Caches
  on_space_child c room_id = record c {
    channels_cache = Cache.invalidate c.channels_cache ("gsc:" +s room_id);
  }

  unfoldable pub on_direct_chats : Caches → String → Caches
  on_direct_chats c me = record c { dm_cache = Cache.invalidate c.dm_cache (friends_key me) }

  unfoldable pub on_presence : Caches → String → String → Caches
  on_presence c me sender =
      if sender == me
      then record c {
        profile_cache = Cache.invalidate c.profile_cache ("gup:" +s sender);
        user_cache = Cache.invalidate c.user_cache ("gcu:" +s me);
      }
      else record c { profile_cache = Cache.invalidate c.profile_cache ("gup:" +s sender) }

  -- `CreateSpace`, where the server answers with the new room.
  unfoldable pub create_space :
      (String → String) → Caches → String → String → String → Option String → Caches × Option Space
  create_space escape c me name avatar_url none = (c, none)
  create_space escape c me name avatar_url (some room_id) = (
    record c { spaces_cache = Cache.invalidate c.spaces_cache ("ls:" +s me) },
    some (record {
      id = room_id;
      name = name;
      avatar = avatar_url;
      status = "Online";
      address = escape room_id;
      nickname = "";
    }),
  )

  -- The state of the server, and `SendStateEvent` with a child of a space, none where it fails.
  module _ {S : Type 0} (send_state_event : S → String → Child → Option S) where
    unfoldable pub add_child_to_space : S → String → String → Option S
    add_child_to_space server space_id child_id =
        send_state_event server space_id (record { state_key = child_id; has_via = true })

    -- An error of it is only logged.
    unfoldable pub linked : S → String → String → S
    unfolding add_child_to_space
    linked server space_id child_id = elim (add_child_to_space server space_id child_id) [
      | none ↦ server
      | some server1 ↦ server1
    ]

    -- `CreateChannel`, where the server answers with the new room or an error.
    unfoldable pub create_channel :
        Caches → S → String → String → String → Option String → Caches × S × Option Channel
    unfolding get_channel linked
    create_channel c server space_id name topic none = (c, server, none)
    create_channel c server space_id name topic (some room_id) = (
      record c { channels_cache = Cache.invalidate c.channels_cache ("gsc:" +s space_id) },
      linked server space_id room_id,
      some (get_channel space_id room_id name topic),
    )
