-- ===== src/Matrix/Typing/Laws.antt =====
-- Who is typing after an event of the server, and a listener that is closed while it is notified.
use arko.Base.{
  ℕ, ◌+◌, ◌≤◌, String, Bool, true, false, not, ◌&&◌, ◌≡◌, refl, ap, ◌∙◌, Option, none, some, List,
  [], ◌∷◌, ◌==◌, eq_iff, eq_refl, arith, All, map, keep_if, if◌then◌else◌, Bool-cases, is_some, inl,
  inr,
}
use arko.Base.Assoc.{lookup, lookup-insert}
use arko.Models.{User}
use arko.Session.{contains}
use arko.Matrix.Typing.{
  TypingUser, TypingTracker, Room, Typist, typing_timeout, set_in_room, set_typing, alive, room_of,
  cleanup_expired, get_typing_users_for_room, start_typing, stop_typing, typing_event, bare_user,
}
use arko.Matrix.Typing.Rooms.{
  IsRoom, set_in_room-IsRoom, lookup-set_in_room, user_ids, is_someone, keep_if-IsRoom,
  lookup-keep_if, contains-keep_if,
}

room_of-set_typing :
    (t : TypingTracker) (room_id : String) (user : User) (typing : Bool) (timeout now : ℕ)
    → room_of (set_typing t room_id user typing timeout now) room_id
      ≡ set_in_room (room_of t room_id) user typing (now + timeout)
unfolding set_typing
room_of-set_typing t room_id user typing timeout now = ground (
  arith,
  lookup-insert room_id room_id (set_in_room (room_of t room_id) user typing (now + timeout))
      t.rooms,
  eq_refl room_id,
)

current-set_typing :
    (t : TypingTracker) (room_id : String) (user : User) (typing : Bool) (timeout now : ℕ)
    → (set_typing t room_id user typing timeout now).current_user ≡ t.current_user
unfolding set_typing
current-set_typing t room_id user typing timeout now = refl

room_of-cleanup_expired :
    (t : TypingTracker) (room_id : String) (now : ℕ)
    → room_of (cleanup_expired t room_id now) room_id
      ≡ keep_if (λ e. alive now e.1) (room_of t room_id)
unfolding cleanup_expired
room_of-cleanup_expired t room_id now = ground (
  arith,
  lookup-insert room_id room_id (keep_if (λ e. alive now e.1) (room_of t room_id)) t.rooms,
  eq_refl room_id,
)

current-cleanup_expired :
    (t : TypingTracker) (room_id : String) (now : ℕ)
    → (cleanup_expired t room_id now).current_user ≡ t.current_user
unfolding cleanup_expired
current-cleanup_expired t room_id now = ground arith

-- Whom a listener or a page sees.
pub shown :
    (t : TypingTracker) (room_id : String) (now : ℕ) (id : String)
    → IsRoom (room_of t room_id)
    → contains id (user_ids (get_typing_users_for_room t room_id now).0)
      ≡ is_someone
          (λ u. not (u.user_id == t.current_user))
          (if is_someone (alive now) (lookup id (room_of t room_id))
            then lookup id (room_of t room_id)
            else none)
unfolding get_typing_users_for_room
shown t room_id now id r =
    rw (room_of-cleanup_expired t room_id now, current-cleanup_expired t room_id now)
      (contains-keep_if (λ u. not (u.user_id == t.current_user))
          (keep_if (λ e. alive now e.1) (room_of t room_id)) id
          (keep_if-IsRoom (alive now) (room_of t room_id) r)
        ∙ ap (is_someone (λ u. not (u.user_id == t.current_user)))
            (lookup-keep_if (alive now) (room_of t room_id) id r))

-- An entry of a user that lasts until an instant.
abbrev Lasting : ℕ → String → Option TypingUser → Type 0
Lasting later id o = (u : TypingUser) × (o ≡ some u) × (u.user_id ≡ id) × (later ≤ u.deadline)

abbrev pub ids_of : List Typist → List String
ids_of = map (λ p. p.user_id)

-- The profile is the user's, and the typing lasts until `later`.
abbrev pub IsTypist : ℕ → Typist → Type 0
IsTypist later p = (p.profile.id ≡ p.user_id) × (later ≤ p.at + typing_timeout)

module _ (room_id : String) (later : ℕ) where
  set_typing-entry :
      (t : TypingTracker) (p : Typist) (id : String)
      → IsTypist later p
      → let o =
          lookup id (room_of (set_typing t room_id p.profile true typing_timeout p.at) room_id) in
        (p.user_id ≡ id → Lasting later id o)
        × ((p.user_id == id) ≡ false → o ≡ lookup id (room_of t room_id))
  set_typing-entry t p id (e, l) =
      let s = room_of-set_typing t room_id p.profile true typing_timeout p.at in
      rw (s, lookup-set_in_room, e)
        (
          (λ q.
              rw (q, eq_refl)
                (
                  record {
                    user_id = p.profile.id;
                    name = p.profile.name;
                    avatar = p.profile.avatar;
                    deadline = p.at + typing_timeout;
                  },
                  rw (e, q) refl,
                  e ∙ q,
                  l,
                )),
          λ n. rw n refl,
        )

  -- An entry that lasts goes on lasting while others, or the same user again, start.
  Lasting-start :
      (t : TypingTracker) (ps : List Typist) (id : String)
      → All (IsTypist later) ps
      → Lasting later id (lookup id (room_of t room_id))
      → Lasting later id (lookup id (room_of (start_typing t room_id ps) room_id))
  unfolding start_typing
  Lasting-start t [] id a l = l
  Lasting-start t (p ∷ ps) id a l =
      Lasting-start (set_typing t room_id p.profile true typing_timeout p.at) ps id a.1 (
        let s = set_typing-entry t p id a.0 in
        elim (Bool-cases (p.user_id == id)) [
          | inl e ↦ s.0 ((eq_iff p.user_id id).0 e)
          | inr n ↦ rw (s.1 n) l
        ])

  start-Lasting :
      (t : TypingTracker) (ps : List Typist) (id : String)
      → All (IsTypist later) ps
      → contains id (ids_of ps) ≡ true
      → Lasting later id (lookup id (room_of (start_typing t room_id ps) room_id))
  unfolding start_typing contains
  start-Lasting t [] id a c = ground arith
  start-Lasting t (p ∷ ps) id a c = elim (Bool-cases (p.user_id == id)) [
    | inl e ↦
        Lasting-start (set_typing t room_id p.profile true typing_timeout p.at) ps id a.1
          ((set_typing-entry t p id a.0).0 ((eq_iff p.user_id id).0 e))
    | inr n ↦
        start-Lasting (set_typing t room_id p.profile true typing_timeout p.at) ps id a.1
          (later_one n)
  ]
    where
      later_one : (p.user_id == id) ≡ false → contains id (ids_of ps) ≡ true
      later_one n = ground (arith, eq_iff p.user_id id, eq_iff id p.user_id)

  start-IsRoom :
      (t : TypingTracker) (ps : List Typist)
      → IsRoom (room_of t room_id)
      → IsRoom (room_of (start_typing t room_id ps) room_id)
  unfolding start_typing
  start-IsRoom t [] r = r
  start-IsRoom t (p ∷ ps) r =
      start-IsRoom (set_typing t room_id p.profile true typing_timeout p.at) ps (
        rw (room_of-set_typing t room_id p.profile true typing_timeout p.at)
          (set_in_room-IsRoom (room_of t room_id) p.profile true (p.at + typing_timeout) r))

  start-current :
      (t : TypingTracker) (ps : List Typist)
      → (start_typing t room_id ps).current_user ≡ t.current_user
  unfolding start_typing
  start-current t [] = refl
  start-current t (p ∷ ps) =
      start-current (set_typing t room_id p.profile true typing_timeout p.at) ps
      ∙ current-set_typing t room_id p.profile true typing_timeout p.at

  abbrev stopped : TypingTracker → List Typist → String → TypingTracker
  stopped t content i =
      if contains i (ids_of content) then t else set_typing t room_id (bare_user i) false 0 0

  stopped-lookup :
      (t : TypingTracker) (content : List Typist) (i id : String)
      → lookup id (room_of (stopped t content i) room_id) ≡ (
          if i == id && not (contains id (ids_of content))
          then none
          else lookup id (room_of t room_id))
  stopped-lookup t content i id = elim (Bool-cases (contains i (ids_of content))) [
    | inl c ↦ ground (arith, eq_iff i id)
    | inr n ↦ gone n
  ]
    where
      gone :
          contains i (ids_of content) ≡ false
          → lookup id (room_of (stopped t content i) room_id) ≡ (
              if i == id && not (contains id (ids_of content))
              then none
              else lookup id (room_of t room_id))
      gone n = rw n (
          ap (lookup id) (room_of-set_typing t room_id (bare_user i) false 0 0)
          ∙ lookup-set_in_room (room_of t room_id) (bare_user i) false 0 id
          ∙ ground (arith, eq_iff i id))

  stop-lookup :
      (t : TypingTracker) (content : List Typist) (is : List String) (id : String)
      → lookup id (room_of (stop_typing t room_id content is) room_id) ≡ (
          if contains id is && not (contains id (ids_of content))
          then none
          else lookup id (room_of t room_id))
  unfolding stop_typing contains
  stop-lookup t content [] id = refl
  stop-lookup t content (i ∷ is) id = ground (
    arith,
    stop-lookup (stopped t content i) content is id,
    stopped-lookup t content i id,
    eq_iff i id,
    eq_iff id i,
  )

  stop-IsRoom :
      (t : TypingTracker) (content : List Typist) (is : List String)
      → IsRoom (room_of t room_id)
      → IsRoom (room_of (stop_typing t room_id content is) room_id)
  unfolding stop_typing
  stop-IsRoom t content [] r = r
  stop-IsRoom t content (i ∷ is) r =
      stop-IsRoom (stopped t content i) content is (one (contains i (ids_of content)))
    where
      one :
          (c : Bool)
          → IsRoom (room_of (if c then t else set_typing t room_id (bare_user i) false 0 0) room_id)
      one true = r
      one false =
          rw (room_of-set_typing t room_id (bare_user i) false 0 0)
            (set_in_room-IsRoom (room_of t room_id) (bare_user i) false 0 r)

  stop-current :
      (t : TypingTracker) (content : List Typist) (is : List String)
      → (stop_typing t room_id content is).current_user ≡ t.current_user
  unfolding stop_typing
  stop-current t content [] = refl
  stop-current t content (i ∷ is) =
      stop-current (stopped t content i) content is
      ∙ ground (arith, current-set_typing t room_id (bare_user i) false 0 0)

  contains-keys :
      (room : Room) (id : String) → contains id (map (λ e. e.0) room) ≡ is_some (lookup id room)
  unfolding contains lookup
  contains-keys [] id = refl
  contains-keys (e ∷ es) id = ground (arith, contains-keys es id)

  seen :
      (me id : String) (o : Option TypingUser) (c : Bool)
      → (c ≡ true → Lasting later id o)
      → let kept = if is_some o && not c then none else o in
        is_someone
          (λ u. not (u.user_id == me))
          (if is_someone (alive later) kept then kept else none)
        ≡ c && not (id == me)
  seen me id none true l = ground (arith, l refl)
  seen me id none false l = refl
  seen me id (some u) false l = refl
  seen me id (some u) true l = ground (arith, l refl)

  -- After a typing event of the server, the users of the room that a listener or a page sees are
  -- those of the event but the current user, whoever was typing before; so it is until the instant
  -- `later`. The conditions: before the event the room has one entry for each user, under the
  -- user's id; each profile is that of its user; and `later` is at most 30 seconds behind every
  -- instant at which the handler sets a user.
  pub typing_event-shown :
      (t : TypingTracker) (content : List Typist) (id : String)
      → IsRoom (room_of t room_id)
      → All (IsTypist later) content
      → contains id (
          user_ids
            (get_typing_users_for_room (typing_event t room_id (some content)) room_id later).0)
        ≡ contains id (ids_of content) && not (id == t.current_user)
  unfolding typing_event
  typing_event-shown t content id r a =
      shown t2 room_id later id (stop-IsRoom t1 content keys (start-IsRoom t content r))
      ∙ rw
          (
            stop-lookup t1 content keys id,
            contains-keys (room_of t1 room_id) id,
            stop-current t1 content keys,
            start-current t content,
          )
          (seen t.current_user id (lookup id (room_of t1 room_id)) (contains id (ids_of content))
            (start-Lasting t content id a))
    where
      t1 : TypingTracker
      t1 = start_typing t room_id content

      keys : List String
      keys = map (λ e. e.0) (room_of t1 room_id)

      t2 : TypingTracker
      t2 = stop_typing t1 room_id content keys
