-- ===== src/Matrix/Typing/Rooms.antt =====
-- The users of one room, as a map from ids.
use arko.Base.{
  ℕ, String, Bool, true, false, ◌≡◌, refl, Option, none, some, List, [], ◌∷◌, ◌==◌, eq_iff, arith,
  map, keep_if, if◌then◌else◌,
}
use arko.Base.Assoc.{lookup, insert, remove, lookup-insert, lookup-remove}
use arko.Models.{User}
use arko.Session.{contains}
use arko.Matrix.Typing.{TypingUser, Room, set_in_room}

-- One entry for each user, under the user's id.
abbrev pub IsRoom : Room → Type 0
IsRoom [] = Unit
IsRoom (e ∷ es) = (e.1.user_id ≡ e.0) × (lookup e.0 es ≡ none) × IsRoom es

pub remove-IsRoom : (id : String) (room : Room) → IsRoom room → IsRoom (remove id room)
unfolding remove
remove-IsRoom id [] r = tt
remove-IsRoom id (e ∷ es) r = ground (arith, remove-IsRoom id es r.2, lookup-remove id e.0 es)

pub insert-IsRoom : (u : TypingUser) (room : Room) → IsRoom room → IsRoom (insert u.user_id u room)
unfolding insert lookup
insert-IsRoom u [] r = (refl, refl, tt)
insert-IsRoom u (e ∷ es) r =
    ground (arith, insert-IsRoom u es r.2, lookup-insert u.user_id e.0 u es, eq_iff u.user_id e.0)

pub set_in_room-IsRoom :
    (room : Room) (user : User) (typing : Bool) (deadline : ℕ)
    → IsRoom room
    → IsRoom (set_in_room room user typing deadline)
unfolding set_in_room
set_in_room-IsRoom room user true deadline r = insert-IsRoom _ room r
set_in_room-IsRoom room user false deadline r = remove-IsRoom user.id room r

pub lookup-set_in_room :
    (room : Room) (user : User) (typing : Bool) (deadline : ℕ) (id : String)
    → lookup id (set_in_room room user typing deadline) ≡ (
        if user.id == id
        then (if typing
            then some (record {
              user_id = user.id;
              name = user.name;
              avatar = user.avatar;
              deadline = deadline;
            })
            else none)
        else lookup id room)
unfolding set_in_room
lookup-set_in_room room user true deadline id = lookup-insert user.id id _ room
lookup-set_in_room room user false deadline id = lookup-remove user.id id room

abbrev pub user_ids : List TypingUser → List String
user_ids = map (λ u. u.user_id)

-- Whether a lookup gives somebody who is_someone a test.
abbrev pub is_someone : (TypingUser → Bool) → Option TypingUser → Bool
is_someone p none = false
is_someone p (some u) = p u

keep_if-fresh :
    (p : TypingUser → Bool) (id : String) (room : Room)
    → lookup id room ≡ none
    → lookup id (keep_if (λ e. p e.1) room) ≡ none
unfolding lookup
keep_if-fresh p id [] h = refl
keep_if-fresh p id (e ∷ es) h = ground (arith, keep_if-fresh p id es)

pub keep_if-IsRoom :
    (p : TypingUser → Bool) (room : Room) → IsRoom room → IsRoom (keep_if (λ e. p e.1) room)
keep_if-IsRoom p [] r = tt
keep_if-IsRoom p (e ∷ es) r = ground (arith, keep_if-IsRoom p es r.2, keep_if-fresh p e.0 es)

pub lookup-keep_if :
    (p : TypingUser → Bool) (room : Room) (id : String)
    → IsRoom room
    → lookup id (keep_if (λ e. p e.1) room)
      ≡ (if is_someone p (lookup id room) then lookup id room else none)
unfolding lookup
lookup-keep_if p [] id r = refl
lookup-keep_if p (e ∷ es) id r =
    ground (arith, lookup-keep_if p es id r.2, keep_if-fresh p e.0 es, eq_iff id e.0)

-- The ids of the users of a room that pass a test.
pub contains-keep_if :
    (p : TypingUser → Bool) (room : Room) (id : String)
    → IsRoom room
    → contains id (user_ids (keep_if p (map (λ e. e.1) room))) ≡ is_someone p (lookup id room)
unfolding contains lookup
contains-keep_if p [] id r = refl
contains-keep_if p (e ∷ es) id r =
    ground (arith, contains-keep_if p es id r.2, eq_iff id e.0, eq_iff id e.1.user_id)
