-- ===== src/Matrix/Typing/Closed.antt =====
-- A listener of typing events that is closed between the copy of the listeners and the sends.
use arko.Base.{
  ℕ, Option-cases, inl, inr, String, Bool, true, false, ◌≡◌, Option, none, some, List, [], ◌∷◌,
  arith, eqb, if◌then◌else◌,
}
use arko.Matrix.Typing.{
  TypingEvent, TypingTracker, Channel, is_listener, close_channel, close_listener, offer, offer_all,
  offer_channel, notify, get_typing_users_for_room, cleanup_expired, others,
}

-- The channel of a number.
abbrev channel_of : ℕ → List Channel → Option Channel
channel_of key [] = none
channel_of key (c ∷ cs) = if eqb c.key key then some c else channel_of key cs

abbrev pub is_open : ℕ → List Channel → Bool
is_open key [] = false
is_open key (c ∷ cs) = if eqb c.key key then (if c.closed then false else true) else is_open key cs

abbrev is_closed : ℕ → List Channel → Bool
is_closed key [] = false
is_closed key (c ∷ cs) = if eqb c.key key then c.closed else is_closed key cs

close_channel-is_closed :
    (key : ℕ) (cs : List Channel)
    → is_open key cs ≡ true
    → is_closed key (close_channel key cs) ≡ true
unfolding close_channel
close_channel-is_closed key [] h = ground arith
close_channel-is_closed key (c ∷ cs) h = ground (arith, close_channel-is_closed key cs)

offer_closed :
    (evt : TypingEvent) (key : ℕ) (cs : List Channel)
    → is_closed key cs ≡ true
    → offer evt key cs ≡ none
unfolding offer offer_channel
offer_closed evt key [] h = ground arith
offer_closed evt key (c ∷ cs) h = ground (arith, offer_closed evt key cs)

offer_keeps :
    (evt : TypingEvent) (key l : ℕ) (cs ds : List Channel)
    → is_closed key cs ≡ true
    → offer evt l cs ≡ some ds
    → is_closed key ds ≡ true
unfolding offer offer_channel
offer_keeps evt key l [] ds h o = ground arith
offer_keeps evt key l (c ∷ cs) ds h o = elim (Option-cases (offer evt l cs)) [
  | inl e ↦ ground arith
  | inr (es, e) ↦ ground (arith, offer_keeps evt key l cs es)
]

offer_all_closed :
    (evt : TypingEvent) (key : ℕ) (ls : List ℕ) (cs : List Channel)
    → is_listener key ls ≡ true
    → is_closed key cs ≡ true
    → offer_all evt ls cs ≡ none
unfolding offer_all
offer_all_closed evt key [] cs i h = ground arith
offer_all_closed evt key (l ∷ ls) cs i h = elim (Option-cases (offer evt l cs)) [
  | inl e ↦ ground arith
  | inr (ds, e) ↦
      ground (arith, offer_all_closed evt key ls ds (still ds e) (offer_keeps evt key l cs ds h e))
]
  where
    still : (ds : List Channel) → offer evt l cs ≡ some ds → is_listener key ls ≡ true
    still ds e = ground (arith, offer_closed evt key cs h)

channels-cleanup :
    (t : TypingTracker) (room_id : String) (now : ℕ)
    → (cleanup_expired t room_id now).channels ≡ t.channels
unfolding cleanup_expired
channels-cleanup t room_id now = ground arith

closed_before_notify :
    (t : TypingTracker) (key : ℕ) (room_id : String) (now : ℕ)
    → is_listener key t.listeners ≡ true
    → is_open key t.channels ≡ true
    → is_closed key (cleanup_expired (close_listener t key) room_id now).channels ≡ true
unfolding close_listener
closed_before_notify t key room_id now i o =
    rw (channels-cleanup (close_listener t key) room_id now, i)
      (close_channel-is_closed key t.channels o)

-- Where a listener of the tracker is closed after `notifyListeners` has copied the listeners and
-- before it sends, the send on its closed channel panics, whatever the room and the instant. The
-- conditions: the listener is one of the tracker's, and its channel was open.
pub notify_closed :
    (t : TypingTracker) (key : ℕ) (room_id : String) (now : ℕ)
    → is_listener key t.listeners ≡ true
    → is_open key t.channels ≡ true
    → notify (close_listener t key) t.listeners room_id now ≡ none
unfolding notify get_typing_users_for_room
notify_closed t key room_id now i o =
    let t2 = cleanup_expired (close_listener t key) room_id now in
    ground (
      arith,
      offer_all_closed (record { room_id = room_id; typing_users = others t2 room_id }) key
          t.listeners t2.channels i (closed_before_notify t key room_id now i o),
    )
