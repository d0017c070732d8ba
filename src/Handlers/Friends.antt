-- ===== src/Handlers/Friends.antt =====
-- internal/service/friends.go and base.go, over the manager of Matrix sessions, and
-- internal/handlers/dm.go: the friends and the page of a direct message. What a Matrix session
-- answers is an argument; `lower` is Go's `strings.ToLower`.
use Prim.Native.String.{[] as empty, ◌∷◌ as ◌∷s◌}
use arko.Base.{
  String, ◌+s◌, Bool, true, false, not, ◌||◌, ◌≡◌, Option, none, some, List, [], ◌==◌, has_prefix,
  is_some, if◌then◌else◌, arith, keep_if,
}
use arko.Models.{User, UserStatus, online}
use arko.Session.{Session, GlobalSettings}
use arko.Session.External.{Keyring, Json}
use arko.Matrix.Manager.{Manager, MatrixSession, get_matrix_session}

abbrev pub is_online : UserStatus → Bool
is_online online = true
is_online _ = false

-- strings.Contains s p
unfoldable pub has_part : String → String → Bool
unfolding has_prefix
has_part empty p = has_prefix empty p
has_part (c ∷s s) p = has_prefix (c ∷s s) p || has_part s p

-- `FilterFriends`, on what `ListDirectMessages` answers.
unfoldable pub filter_users : String → List User → List User
filter_users filter all =
    if filter == "all"
    then all
    else if filter == "online"
    then keep_if (λ u. is_online u.status) all
    else if filter == "pending" || filter == "blocked"
    then []
    else all

unfoldable pub search_names : (String → String) → String → List User → List User
unfolding has_part
search_names lower query all =
    keep_if (λ u. lower query == "" || has_part (lower u.name) (lower query)) all

-- How a request to the page ends.
pub data DmResponse : Type 0 where
  server_error : DmResponse
  page : String → String → DmResponse

-- What `HandleDM` meets beside the session of the other user: the current user, the spaces, the
-- profile and the direct room of the other user, and the room's tree.
pub record DmFacts : Type 0 where
  pub user : Bool
  pub spaces : Bool
  pub profile : Option User
  pub room : Option String
  pub tree : Bool

module _ ⦃k : Keyring⦄ ⦃sessions : Json Session⦄ ⦃settings : Json GlobalSettings⦄
    ⦃users : Json (List String)⦄ where
  -- `GetCurrentSession`
  unfoldable pub get_current_session : Manager → Option MatrixSession
  get_current_session m = m.curr_session

  unfoldable pub filter_friends : Manager → String → Option (List User) → Option (List User)
  unfolding get_current_session filter_users
  filter_friends m filter none = none
  filter_friends m filter (some all) =
      if is_some (get_current_session m) then some (filter_users filter all) else none

  unfoldable pub search_friends :
      (String → String) → Manager → String → Option (List User) → Option (List User)
  unfolding get_current_session search_names
  search_friends lower m query none = none
  search_friends lower m query (some all) =
      if is_some (get_current_session m) then some (search_names lower query all) else none

  -- `GetFriend` asks the session of the other user.
  unfoldable pub get_friend : Manager → String → Option User → Option User
  unfolding get_matrix_session
  get_friend m user profile = elim (get_matrix_session m user) [ none ↦ none | some s ↦ profile ]

  unfoldable pub dm_room : String → Option String → String
  dm_room user none = "dm-" +s user
  dm_room user (some r) = r

  unfoldable pub handle_dm : Manager → String → DmFacts → DmResponse
  unfolding get_friend dm_room
  handle_dm m user f =
      if not f.user
      then server_error
      else if not f.spaces
      then server_error
      else elim (get_friend m user f.profile) [
        | none ↦ server_error
        | some friend ↦ if f.tree then page friend.name (dm_room user f.room) else server_error
      ]

  -- The page of a direct message with a user who has no session in this process answers with an
  -- error, whatever that user's profile and the room are.
  pub handle_dm_fails :
      (m : Manager) (user : String) (f : DmFacts)
      → get_matrix_session m user ≡ none
      → handle_dm m user f ≡ server_error
  unfolding handle_dm get_friend
  handle_dm_fails m user f h = ground arith
