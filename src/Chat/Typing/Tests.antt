-- ===== src/Chat/Typing/Tests.antt =====
-- A room to which a page subscribes in session 1; then session 2 is the current one.
use arko.Base.{String, true, false, ◌≡◌, refl, Option, none, some, List, [], ◌∷◌}
use arko.Base.Assoc.{lookup, insert}
use arko.Hub.{Client}
use arko.Matrix.Typing.{TypingEvent}
use arko.Chat.Typing.{
  Indicators, Happens, switched, subscribed, notified, subscribe_typing, happen, run,
}

abbrev browser : Client
browser = record { key = 1; user_id = "@ann"; active_room = "r"; queue = []; closed = false }

abbrev start : Indicators
start = record {
  listeners = [];
  current = some 1;
  stopped = false;
  hub = ("@ann", browser ∷ []) ∷ [];
}

abbrev names : List String → Option String
names [] = none
names (n ∷ ns) = some n

abbrev later : List Happens
later = switched (some 2) ∷ subscribed "r" ∷ []

abbrev bob_types : TypingEvent
bob_types = record {
  room_id = "r";
  typing_users = record { user_id = "@bob"; name = "Bob"; avatar = ""; deadline = 9 } ∷ [];
}

-- The second session's typing does not reach the browser.
unseen :
    (happen true names
      (run true names (subscribe_typing start "r") later)
      (notified 2 bob_types)).hub
    ≡ start.hub
unfolding happen run subscribe_typing lookup insert
unseen = refl
