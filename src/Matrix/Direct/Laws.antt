-- ===== src/Matrix/Direct/Laws.antt =====
-- The direct room of each user, and the list of friends after a room was created.
use arko.Base.{
  String, false, not, ◌&&◌, ◌≡◌, inl, inr, none, some, ◌∷◌, ◌==◌, arith, eq_iff, if◌then◌else◌,
  Bool-cases,
}
use arko.Base.Assoc.{lookup, insert, lookup-insert}
use arko.Session.{contains}
use arko.Matrix.Direct.{
  DirectMap, fault, rooms, Write, keeps, puts, panics, rooms_in, put_room, set_dm_room_account_data,
  first_room, get_dm_room_id,
}

-- The server's map after a write.
abbrev pub written : DirectMap → Write → DirectMap
written m (puts n) = n
written m keeps = m
written m panics = m

-- Where the server's map is read, the direct room of the user is the new room after the write, or
-- stays the first of the user's rooms where the new room is one of them already; the direct room of
-- every other user stays.
pub get_dm_room_id-set :
    (m : DirectMap) (user room_id v : String)
    → get_dm_room_id
        (rooms (some (written m (set_dm_room_account_data (rooms (some m)) user room_id))))
        v
      ≡ (if (user == v) && not (contains room_id (rooms_in m user))
          then some room_id
          else get_dm_room_id (rooms (some m)) v)
unfolding get_dm_room_id set_dm_room_account_data put_room first_room
get_dm_room_id-set m user room_id v = elim (Bool-cases (contains room_id (rooms_in m user))) [
  | inl c ↦ ground arith
  | inr n ↦ put n
]
  where
    put :
        contains room_id (rooms_in m user) ≡ false
        → get_dm_room_id
            (rooms (some (written m (set_dm_room_account_data (rooms (some m)) user room_id))))
            v
          ≡ (if (user == v) && not (contains room_id (rooms_in m user))
              then some room_id
              else get_dm_room_id (rooms (some m)) v)
    put n = ground (arith, lookup-insert user v (room_id ∷ rooms_in m user) m)

-- Where the server's map is not read, whatever the error, a write puts a map in its place in which
-- the user has the new room and no other user has a direct room.
pub set_dm_room_account_data-fault :
    (m : DirectMap) (user room_id v : String)
    → get_dm_room_id (rooms (some (written m (set_dm_room_account_data fault user room_id)))) v
      ≡ (if user == v then some room_id else none)
unfolding get_dm_room_id set_dm_room_account_data put_room first_room contains lookup insert
set_dm_room_account_data-fault m user room_id v = ground (arith, eq_iff user v, eq_iff v user)
