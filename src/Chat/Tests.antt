-- ===== src/Chat/Tests.antt =====
-- A page of the room with a message at 5 under the id "m".
use arko.Base.{
  ℕ, String, true, false, ◌≡◌, refl, [], ◌∷◌, ◌++◌, List, inl, inr, ne_of-test, ◌==◌, has_prefix,
  if◌then◌else◌,
}
use arko.Base.Assoc.{lookup, insert}
use arko.Models.Order.{by_timestamp}
use arko.Base.SyncMap
use arko.Base.SyncMap.{SyncMap}
use arko.Models.{Message}
use arko.Models.Sorted
use arko.Matrix.BTree.{BTree}
use arko.Matrix.BTree.Listed
use arko.Matrix.BTree.Listed.{no_message, no_user}
use arko.Matrix.Event.{Env}
use arko.Matrix.Tree.Parts.{stored}
use arko.Chat.Echo.{set-show_echo}
use arko.Matrix.Tree.{MessageTree, TreeEvent, items, set, new_message_tree}
use arko.Matrix.Tree.Run.{new-Coherent}
use arko.Matrix.Tree.Invariant.{Coherent, set-Coherent}
use arko.Chat.{Bubble, bubble, show, follows_on, within_minutes}
use arko.Chat.Lists.{ids, message_ids}
use arko.Chat.Regroup.{added_last, show-heading_lost}

instance abbrev map_listed : SyncMap
map_listed = SyncMap.listed

instance abbrev tree_listed : BTree
tree_listed = Listed.listed

abbrev env : Env
env = record { profile = λ id. record no_user { id = id }; localpart = λ id. id }

abbrev at_5 : Message
at_5 = record no_message { id = "m"; timestamp = 5; content = "five"; room_id = "r" }

abbrev at_7 : Message
at_7 = record no_message { id = "n"; timestamp = 7; content = "seven" }

abbrev instant : String → ℕ
instant id = if id == "m" then 5 else 7

abbrev empty_room : MessageTree
unfolding new_message_tree
empty_room = record (new_message_tree "r" false) { listening = true }

empty-Coherent : Coherent instant empty_room
unfolding new_message_tree
empty-Coherent =
    let c = new-Coherent instant "r" false in
    record { agree = c.agree; nonces_dated = c.nonces_dated; raws_dated = c.raws_dated }

abbrev room : MessageTree
room = (set empty_room at_5).0

abbrev page : List Bubble
page = bubble at_5 false ∷ []

show-heading_lost_example :
    show page (added_last at_5 at_7) ≡ bubble at_5 true ∷ bubble at_7 true ∷ []
unfolding follows_on within_minutes
show-heading_lost_example = show-heading_lost [] at_5 at_7 (bubble at_5 false) refl tt refl

-- The room was opened in an earlier session.
abbrev no_trees : List (String × MessageTree)
no_trees = []

abbrev waits : Message
waits = record at_7 { id = "pending-1"; room_id = "r" }

-- The room with a message that waits, and the copy of it that the server sends.
abbrev waiting_room : MessageTree
waiting_room = (set room waits).0

abbrev copy : Message
copy = record at_7 { nonce = "pending-1" }

abbrev waiting_page : List Bubble
waiting_page = bubble at_5 false ∷ bubble waits true ∷ []

set-show_echo_example :
    (before : List Message) × (after : List Message) × (evt : TreeEvent) × (items waiting_room
      ≡ before ++ waits ∷ after)
    × ((set waiting_room copy).0.offered ≡ waiting_room.offered ++ evt ∷ [])
    × (ids (show waiting_page evt) ≡ message_ids before ++ "n" ∷ message_ids after)
    × (items (set waiting_room copy).0 ≡ Sorted.insert (stored waiting_room copy) (before ++ after))
unfolding new_message_tree lookup set has_prefix Sorted.insert insert by_timestamp
set-show_echo_example =
    set-show_echo instant waiting_room copy waits waiting_page
      (set-Coherent instant room waits (set-Coherent instant empty_room at_5 empty-Coherent refl)
        refl)
      (ne_of-test "pending-1" "" refl) refl (inr (inl refl)) (ne_of-test "pending-1" "" refl) refl
      refl refl
