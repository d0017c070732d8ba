-- ===== src/Matrix/Typing/Tests.antt =====
-- A room in which "@bob" was typing, seen by "@ann".
use arko.Base.{◌≡◌, refl, none, false, not, ◌&&◌, [], ◌∷◌, arith, ◌==◌, some}
use arko.Base.Assoc.{lookup}
use arko.Session.{contains}
use arko.Matrix.Typing.{
  TypingTracker, TypingUser, Typist, bare_user, get_typing_users_for_room, typing_event, notify,
  close_listener,
}
use arko.Matrix.Typing.Rooms.{user_ids}
use arko.Matrix.Typing.Laws.{ids_of, typing_event-shown}
use arko.Matrix.Typing.Closed.{notify_closed}

abbrev bob : TypingUser
bob = record { user_id = "@bob"; name = "Bob"; avatar = ""; deadline = 9 }

abbrev tracker : TypingTracker
tracker = record {
  rooms = ("r", ("@bob", bob) ∷ []) ∷ [];
  listeners = 1 ∷ [];
  channels = record { key = 1; queue = []; closed = false } ∷ [];
  current_user = "@ann";
  jobs = [];
}

abbrev carl : Typist
carl = record { user_id = "@carl"; profile = bare_user "@carl"; at = 4 }

typing_event-shown_example :
    contains "@carl"
      (user_ids (get_typing_users_for_room (typing_event tracker "r" (some (carl ∷ []))) "r" 7).0)
    ≡ contains "@carl" (ids_of (carl ∷ [])) && not ("@carl" == tracker.current_user)
unfolding lookup
typing_event-shown_example =
    typing_event-shown "r" 7 tracker (carl ∷ []) "@carl" (refl, refl, tt) ((refl, omega arith), tt)

notify_closed_example : notify (close_listener tracker 1) (1 ∷ []) "r" 5 ≡ none
notify_closed_example = notify_closed tracker 1 "r" 5 refl refl
