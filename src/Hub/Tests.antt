-- ===== src/Hub/Tests.antt =====
-- The hub with one client of one user.
use arko.Base.{false, ◌≢◌, Option, some, List, [], ◌∷◌}
use arko.Hub.{Client, Hub}

abbrev page : Client
page = record { key = 1; user_id = "@ann"; active_room = "r"; queue = []; closed = false }

abbrev other_page : Client
other_page = record page { key = 2; active_room = "s" }

abbrev hub : Hub
hub = ("@ann", page ∷ []) ∷ []

some_ne : ◌≢◌ {A = Option (List Client)} (some (page ∷ [])) (some [])
some_ne e = cc
