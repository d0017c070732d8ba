-- ===== src/Matrix/Direct/Friends.antt =====
-- The list of friends, and that a new direct room shows in it.
use arko.Base.{
  ℕ, String, Bool, true, false, ◌||◌, ◌≡◌, refl, ap, ◌∙◌, inl, inr, Option, none, some, List, [],
  ◌∷◌, ◌==◌, arith, map, eq_iff, eq_refl, if◌then◌else◌, str_lt, str_lt_asym, Bool-cases,
}
use arko.Base.Assoc.{lookup, insert}
use arko.Base.SyncMap.{SyncMap}
use arko.Cache
use arko.Cache.{Cache, ok, value}
use arko.Cache.Laws.{get-invalidate}
use arko.Models.{User}
use arko.Session.{contains}
use arko.Matrix.Direct.{
  DirectMap, rooms, Write, keeps, puts, panics, rooms_in, put_room, set_dm_room_account_data,
  friends_from, fetch_friends, sort_by_name, insert_by_name, friends_key, list_direct_messages,
  created_room, create_dm_room, Profile, profile_user, created, Created,
}
use arko.Matrix.Direct.Laws.{written}

abbrev pub user_ids : List User → List String
user_ids = map (λ u. u.id)

abbrev user_name : User → String
user_name u = u.name

-- No name comes behind a greater one that stands next to it.
abbrev pub ByName : List User → Type 0
ByName [] = Unit
ByName (u ∷ []) = Unit
ByName (u ∷ v ∷ us) = (str_lt v.name u.name ≡ false) × ByName (v ∷ us)

module _ {A : Type 0} (name id : A → String) where
  contains-insert_by_name :
      (u : A) (us : List A) (i : String)
      → contains i (map id (insert_by_name name u us)) ≡ (i == id u || contains i (map id us))
  unfolding insert_by_name contains
  contains-insert_by_name u [] i = refl
  contains-insert_by_name u (v ∷ vs) i = ground (arith, contains-insert_by_name u vs i)

  pub contains-sort_by_name :
      (us : List A) (i : String)
      → contains i (map id (sort_by_name name us)) ≡ contains i (map id us)
  unfolding sort_by_name contains
  contains-sort_by_name [] i = refl
  contains-sort_by_name (u ∷ us) i =
      ground (arith, contains-insert_by_name u (sort_by_name name us) i, contains-sort_by_name us i)

-- What stands behind a user goes on standing behind.
insert_behind :
    (u v : User) (vs : List User)
    → str_lt u.name v.name ≡ false
    → ByName (v ∷ vs)
    → ByName (insert_by_name user_name u vs)
    → ByName (v ∷ insert_by_name user_name u vs)
unfolding insert_by_name
insert_behind u v [] l s i = (l, tt)
insert_behind u v (w ∷ ws) l s i = elim (Bool-cases (str_lt w.name u.name)) [
  | inl p ↦ behind (str_lt w.name u.name) i
  | inr p ↦ behind (str_lt w.name u.name) i
]
  where
    behind :
        (b : Bool)
        → ByName (if b then w ∷ insert_by_name user_name u ws else u ∷ w ∷ ws)
        → ByName (v ∷ (if b then w ∷ insert_by_name user_name u ws else u ∷ w ∷ ws))
    behind true j = (s.0, j)
    behind false j = (l, j)

insert_by_name-ByName :
    (u : User) (us : List User) → ByName us → ByName (insert_by_name user_name u us)
unfolding insert_by_name
insert_by_name-ByName u [] s = tt
insert_by_name-ByName u (v ∷ vs) s =
    go (str_lt v.name u.name) refl (insert_by_name-ByName u vs (tail v vs s))
  where
    tail : (w : User) (ws : List User) → ByName (w ∷ ws) → ByName ws
    tail w [] t = tt
    tail w (y ∷ ys) t = t.1

    go :
        (b : Bool)
        → str_lt v.name u.name ≡ b
        → ByName (insert_by_name user_name u vs)
        → ByName (if b then v ∷ insert_by_name user_name u vs else u ∷ v ∷ vs)
    go true e i = insert_behind u v vs (str_lt_asym v.name u.name e) s i
    go false e i = (e, s)

sort_by_name-ByName : (us : List User) → ByName (sort_by_name user_name us)
unfolding sort_by_name
sort_by_name-ByName [] = tt
sort_by_name-ByName (u ∷ us) =
    insert_by_name-ByName u (sort_by_name user_name us) (sort_by_name-ByName us)

module _ (profile_of : String → Option User) (other : String) (p : User) where
  contains-friends_from :
      (seen us : List String)
      → profile_of other ≡ some p
      → p.id ≡ other
      → contains other us ≡ true
      → contains other seen ≡ false
      → contains other (user_ids (friends_from profile_of seen us)) ≡ true
  unfolding friends_from contains
  contains-friends_from seen [] h e c n = ground arith
  contains-friends_from seen (u ∷ us) h e c n = elim (Bool-cases (other == u)) [
    | inl q ↦ ground (arith, eq_iff other u, eq_iff other p.id)
    | inr q ↦
        ground (
          arith,
          contains-friends_from seen us,
          contains-friends_from (u ∷ seen) us,
          eq_iff other u,
        )
  ]

contains-keys-insert :
    {V : Type 0} (user : String) (v : V) (m : List (String × V))
    → contains user (map (λ e. e.0) (insert user v m)) ≡ true
unfolding insert contains
contains-keys-insert user v [] = ground (arith, eq_refl user)
contains-keys-insert user v (e ∷ es) =
    ground (arith, contains-keys-insert user v es, eq_iff user e.0)

contains-keys-rooms_in :
    (user room_id : String) (m : DirectMap)
    → contains room_id (rooms_in m user) ≡ true
    → contains user (map (λ e. e.0) m) ≡ true
unfolding contains lookup
contains-keys-rooms_in user room_id [] c = ground arith
contains-keys-rooms_in user room_id (e ∷ es) c =
    ground (arith, contains-keys-rooms_in user room_id es)

contains-keys-written :
    (m : DirectMap) (user room_id : String)
    → contains user
        (map (λ e. e.0) (written m (set_dm_room_account_data (rooms (some m)) user room_id)))
      ≡ true
unfolding set_dm_room_account_data put_room
contains-keys-written m user room_id = elim (Bool-cases (contains room_id (rooms_in m user))) [
  | inl c ↦ rw c (contains-keys-rooms_in user room_id m c)
  | inr n ↦ rw n (contains-keys-insert user (room_id ∷ rooms_in m user) m)
]

readable_write :
    (m : DirectMap) (user room_id : String)
    → set_dm_room_account_data (rooms (some m)) user room_id ≡ panics
    → ⊥
unfolding set_dm_room_account_data put_room
readable_write m user room_id e = ground arith

module _ ⦃x : SyncMap⦄ (me : String) where
  created_room-written :
      (c : Cache (List User)) (u : User) (room_id : String) (w : Write)
      → (w ≡ panics → ⊥)
      → created_room me c u room_id w ≡ (Cache.invalidate c (friends_key me), created u room_id w)
  unfolding created_room
  created_room-written c u room_id panics ne = absurd (ne refl)
  created_room-written c u room_id keeps ne = refl
  created_room-written c u room_id (puts m) ne = refl

  -- A direct room that is created where the server's map is read shows at once: the next list of
  -- friends is fetched anew, whatever the cache had, and with the map that was written it has the
  -- other user, once that user's profile is got, and is in the order of the names. The condition:
  -- nothing is in flight for the list.
  pub list_direct_messages-create :
      (localpart : String → String) (c : Cache (List User)) (other room_id : String)
      (profile : Option Profile) (m : DirectMap) (now : ℕ) (profile_of : String → Option User)
      (p : User)
      → lookup (friends_key me) c.flights ≡ none
      → profile_of other ≡ some p
      → p.id ≡ other
      → let r = create_dm_room me localpart c other profile (some room_id) (rooms (some m)) in
        let w = set_dm_room_account_data (rooms (some m)) other room_id in
        (r.1 ≡ created (profile_user localpart other profile) room_id w)
        × ((us : List User) × ((list_direct_messages me r.0 now profile_of
                (rooms (some (written m w)))).0
              ≡ value us)
            × (contains other (user_ids us) ≡ true)
            × ByName us)
  unfolding create_dm_room list_direct_messages fetch_friends contains
  list_direct_messages-create localpart c other room_id profile m now profile_of p f h e =
      let w = set_dm_room_account_data (rooms (some m)) other room_id in
      let names = map (λ e. e.0) (written m w) in
      let us = friends_from profile_of [] names in
      let step =
        created_room-written c (profile_user localpart other profile) room_id w
          (readable_write m other room_id) in
      (
        ap (λ r. r.1) step,
        (
          sort_by_name user_name us,
          ap
                (λ (r : Cache (List User) × Created).
                  (Cache.get r.0 (friends_key me) now (ok (sort_by_name user_name us))).0)
                step
              ∙ (get-invalidate c (friends_key me) now (sort_by_name user_name us) f).0,
          contains-sort_by_name user_name (λ u. u.id) us other
              ∙ contains-friends_from profile_of other p [] names h e
                  (contains-keys-written m other room_id) refl,
          sort_by_name-ByName us,
        ),
      )
