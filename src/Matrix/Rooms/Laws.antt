-- ===== src/Matrix/Rooms/Laws.antt =====
-- What a page sees after an event of the sync or the creation of a channel.
use arko.Base.{
  ℕ, String, ◌+s◌, Bool, true, false, ◌≡◌, ◌≢◌, refl, ◌∙◌, Option, none, some, List, [], ◌∷◌, ◌==◌,
  arith, map, if◌then◌else◌, is_some, Option-cases, inl, inr,
}
use arko.Base.Assoc.{lookup}
use arko.Base.SyncMap.{SyncMap}
use arko.Cache.{value, invalidate}
use arko.Cache.Laws.{get-invalidate}
use arko.Models.{Channel}
use arko.Session.{contains}
use arko.Matrix.Direct.{Profile, sort_by_name}
use arko.Matrix.Direct.Friends.{contains-sort_by_name}
use arko.Matrix.Rooms.{
  Member, Child, Caches, fetch_profile, joined_members, fetch_members, children_of, fetch_children,
  get_user_profile, get_room_members, get_space_children, on_member, create_channel, get_channel,
  linked, add_child_to_space,
}

module _ ⦃x : SyncMap⦄ where
  -- After a member event of a room, the members of the room and the profile of the event's user are
  -- those that the server answers with next, whatever the caches had, and the profile of every user
  -- under another key is as it was. The condition: nothing is in flight for the two keys.
  pub on_member-fresh :
      (localpart : String → String) (c : Caches) (me room_id user : String) (now : ℕ)
      (es : List Member) (profile : Option Profile) (presence : Option Bool)
      → lookup ("grm:" +s room_id) c.members_cache.flights ≡ none
      → lookup ("gup:" +s user) c.profile_cache.flights ≡ none
      → let d = on_member c me room_id user in
        ((get_room_members localpart d room_id now (some es)).0
          ≡ value (joined_members localpart es))
        × ((get_user_profile localpart d user now profile presence).0
            ≡ value (fetch_profile localpart user profile presence))
        × ((j : String)
            → ("gup:" +s user) ≢ j
            → x.load d.profile_cache.entries j ≡ x.load c.profile_cache.entries j)
  unfolding on_member get_room_members get_user_profile fetch_members
  on_member-fresh localpart c me room_id user now es profile presence f g =
      let p =
        get-invalidate c.profile_cache ("gup:" +s user) now
          (fetch_profile localpart user profile presence) g in
      (
        (get-invalidate c.members_cache ("grm:" +s room_id) now (joined_members localpart es) f).0,
        p.0,
        p.1,
      )

  abbrev pub names_child : String → List Child → Bool
  names_child room_id [] = false
  names_child room_id (c ∷ cs) =
      if c.has_via
      then (if room_id == c.state_key then true else names_child room_id cs)
      else names_child room_id cs

  contains-children_of :
      (names : String → String) (space_id room_id : String) (cs : List Child)
      → contains room_id (map (λ c. c.id) (children_of names space_id cs)) ≡ names_child room_id cs
  unfolding children_of contains
  contains-children_of names space_id room_id [] = refl
  contains-children_of names space_id room_id (c ∷ cs) =
      ground (arith, contains-children_of names space_id room_id cs)

  next_children :
      (c : Caches) (names : String → String) (space_id room_id : String) (now : ℕ) (cs : List Child)
      → lookup ("gsc:" +s space_id) c.channels_cache.flights ≡ none
      → let d = record c { channels_cache = invalidate c.channels_cache ("gsc:" +s space_id) } in
        (us : List Channel) × ((get_space_children d names space_id now (some (some cs))).0
          ≡ value us)
        × (contains room_id (map (λ u. u.id) us) ≡ names_child room_id cs)
  unfolding get_space_children fetch_children
  next_children c names space_id room_id now cs f =
      let us = children_of names space_id cs in
      (
        sort_by_name (λ u. u.name) us,
        (get-invalidate c.channels_cache ("gsc:" +s space_id) now (sort_by_name (λ u. u.name) us)
            f).0,
        contains-sort_by_name (λ u. u.name) (λ u. u.id) us room_id
            ∙ contains-children_of names space_id room_id cs,
      )

  names_child-linked :
      {S : Type 0} (send_state_event : S → String → Child → Option S)
      (children : S → String → List Child) (server : S) (space_id room_id : String)
      → ((before after : S) (space : String) (child : Child)
          → send_state_event before space child ≡ some after
          → child.has_via ≡ true
          → names_child child.state_key (children after space) ≡ true)
      → names_child room_id (children (linked send_state_event server space_id room_id) space_id)
        ≡ (if is_some
              (send_state_event server space_id (record { state_key = room_id; has_via = true }))
            then true
            else names_child room_id (children server space_id))
  unfolding linked add_child_to_space
  names_child-linked send children server space_id room_id law =
      let child : Child = record { state_key = room_id; has_via = true } in
      elim (Option-cases (send server space_id child)) [
        | inl e ↦ rw (linked, add_child_to_space, e) refl
        | inr (server1, e) ↦
            rw (linked, add_child_to_space, e) (law server server1 space_id child e refl)
      ]

  -- A channel that is created in a space is linked to the space where the server accepts the link,
  -- and then it is in the next list of the space's channels, whatever the cache had; where the
  -- server does not accept the link, the channel is returned all the same, and the next list has it
  -- only if the server named it there before. The conditions: nothing is in flight for the list,
  -- and a state event that the server accepts for a child of a space that has a server is named
  -- among the children of the space.
  pub get_space_children-create :
      {S : Type 0} (send_state_event : S → String → Child → Option S)
      (children : S → String → List Child) (c : Caches) (server : S) (names : String → String)
      (space_id name topic room_id : String) (now : ℕ)
      → lookup ("gsc:" +s space_id) c.channels_cache.flights ≡ none
      → ((before after : S) (space : String) (child : Child)
          → send_state_event before space child ≡ some after
          → child.has_via ≡ true
          → names_child child.state_key (children after space) ≡ true)
      → let d = create_channel send_state_event c server space_id name topic (some room_id) in
        (us : List Channel) × ((get_space_children d.0 names space_id now
            (some (some (children d.1 space_id)))).0
          ≡ value us)
        × (contains room_id (map (λ u. u.id) us) ≡ (
            if is_some
              (send_state_event server space_id (record { state_key = room_id; has_via = true }))
            then true
            else names_child room_id (children server space_id)))
        × (d.2 ≡ some (get_channel space_id room_id name topic))
  unfolding create_channel
  get_space_children-create send children c server names space_id name topic room_id now f law =
      let after = linked send server space_id room_id in
      let (us, g, h) = next_children c names space_id room_id now (children after space_id) f in
      (us, g, h ∙ names_child-linked send children server space_id room_id law, refl)
