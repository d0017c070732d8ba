-- ===== src/Hub/Laws.antt =====
-- The hub: leaving undoes joining, and who receives what.
use arko.Base.{
  String, Bool, true, false, ◌≡◌, ◌≢◌, refl, some, List, [], ◌∷◌, ◌++◌, length, arith, map, eq_iff,
  eq_refl, Option-cases, ap, ◌∙◌, ◌<◌, ◌≤◌, length-append,
}
use arko.Base.Assoc.{lookup, insert, lookup-insert, lookup-remove}
use arko.Hub.{
  Client, Hub, send, bucket_of, is_in, without, register, put_bucket, unregister, deliver,
  broadcast_to_room,
}

without-append :
    (c : Client) (cs : List Client)
    → is_in c.key cs ≡ false
    → (without c.key (cs ++ c ∷ []) ≡ cs) × (is_in c.key (cs ++ c ∷ []) ≡ true)
without-append c [] h = ground arith
without-append c (d ∷ cs) h = ground (arith, without-append c cs)

register_new :
    (h : Hub) (c : Client)
    → is_in c.key (bucket_of (lookup c.user_id h)) ≡ false
    → register h c ≡ insert c.user_id (bucket_of (lookup c.user_id h) ++ c ∷ []) h
unfolding register
register_new h c fresh = ground arith

lookup-register :
    (h : Hub) (c : Client)
    → is_in c.key (bucket_of (lookup c.user_id h)) ≡ false
    → lookup c.user_id (register h c) ≡ some (bucket_of (lookup c.user_id h) ++ c ∷ [])
lookup-register h c fresh = rw (register_new h c fresh, lookup-insert, eq_refl) refl

unregister_step :
    (h : Hub) (c : Client) (b : List Client)
    → lookup c.user_id h ≡ some (b ++ c ∷ [])
    → is_in c.key b ≡ false
    → unregister h c ≡ put_bucket h c.user_id b
unfolding unregister
unregister_step h c b found fresh = ground (arith, without-append c b)

-- Putting the old clients of a user back.
lookup-put_bucket :
    (h : Hub) (user j : String) (b new : List Client)
    → b ≡ bucket_of (lookup user h)
    → lookup user h ≢ some []
    → lookup j (put_bucket (insert user new h) user b) ≡ lookup j h
unfolding put_bucket
lookup-put_bucket h user j [] new e full = ground (
  arith,
  eq_iff user j,
  lookup-remove user j (insert user new h),
  lookup-insert user j new h,
  Option-cases (lookup user h),
)
lookup-put_bucket h user j (c ∷ cs) new e full = ground (
  arith,
  eq_iff user j,
  lookup-insert user j (c ∷ cs) (insert user new h),
  lookup-insert user j new h,
  Option-cases (lookup user h),
)

-- A client that joins stands behind the clients of its user, and one that joins and leaves changes
-- the clients of no user, where it was not there before and its user had no empty set of clients.
pub unregister-register :
    (h : Hub) (c : Client) (user : String)
    → is_in c.key (bucket_of (lookup c.user_id h)) ≡ false
    → lookup c.user_id h ≢ some []
    → (lookup c.user_id (register h c) ≡ some (bucket_of (lookup c.user_id h) ++ c ∷ []))
      × (lookup user (unregister (register h c) c) ≡ lookup user h)
unregister-register h c user fresh full =
    let b = bucket_of (lookup c.user_id h) in
    let look = lookup-register h c fresh in
    (
      look,
      ap (lookup user) (unregister_step (register h c) c b look fresh)
          ∙ ap (λ t. lookup user (put_bucket t c.user_id b)) (register_new h c fresh)
          ∙ lookup-put_bucket h c.user_id user b (b ++ c ∷ []) refl full,
    )

pub lookup-broadcast :
    (pick : Bool) (h : Hub) (room_id msg user : String) (b : List Client)
    → lookup user h ≡ some b
    → lookup user (broadcast_to_room pick h room_id msg) ≡ some (map (deliver pick room_id msg) b)
unfolding lookup broadcast_to_room
lookup-broadcast pick [] room_id msg user b e = ground arith
lookup-broadcast pick (x ∷ h) room_id msg user b e =
    ground (arith, lookup-broadcast pick h room_id msg user b)

-- A broadcast reaches the clients of every user: one that shows the room, is not closed and has a
-- free place gets the message behind those it waits for; one that shows another room stays as it
-- is; and no client waits for more than 256 messages.
pub broadcast_to_room_lem :
    (pick : Bool) (h : Hub) (room_id msg user : String) (b : List Client)
    → lookup user h ≡ some b
    → (lookup user (broadcast_to_room pick h room_id msg) ≡ some (map (deliver pick room_id msg) b))
      × ((c : Client)
          → c.active_room ≡ room_id
          → c.closed ≡ false
          → length c.queue < 256
          → deliver pick room_id msg c ≡ record c { queue = c.queue ++ msg ∷ [] })
      × ((c : Client) → c.active_room ≢ room_id → deliver pick room_id msg c ≡ c)
      × ((c : Client) → length c.queue ≤ 256 → length (deliver pick room_id msg c).queue ≤ 256)
unfolding deliver send
broadcast_to_room_lem pick h room_id msg user b e = (
  lookup-broadcast pick h room_id msg user b e,
  (λ c r o l. ground (arith, eq_iff c.active_room room_id)),
  (λ c r. ground (arith, eq_iff c.active_room room_id)),
  λ c l. ground (arith, length-append c.queue (msg ∷ [])),
)
