-- ===== src/Matrix/KeyBackup/Tests.antt =====
-- A backup of two sessions, one of which the crypto store knows already from an earlier index on.
use arko.Base.{true, List, [], ◌∷◌, refl, arith}
use arko.Base.Assoc.{lookup}
use arko.Matrix.KeyBackup.{KnownKeys, BackedUp, restore_loop}
use arko.Matrix.KeyBackup.Laws.{IsNoLater, restore_loop-IsNoLater}

abbrev first_one : BackedUp
first_one = record {
  session_id = "a";
  first_message_index = 4;
  decrypts = true;
  readable = true;
  builds = true;
  stores = true;
  built_id = "a";
  known_index = 4;
}

abbrev backed_up : List BackedUp
backed_up = first_one ∷ record first_one { session_id = "b"; built_id = "b" } ∷ []

abbrev store : KnownKeys
store = ("a", 2) ∷ ("b", 9) ∷ []

restore_loop-IsNoLater_example :
    IsNoLater (lookup "b" store) (lookup "b" (restore_loop store 0 backed_up).0)
restore_loop-IsNoLater_example =
    restore_loop-IsNoLater store 0 backed_up "b"
      ((refl, omega arith, omega arith), ((refl, omega arith, omega arith), tt))
