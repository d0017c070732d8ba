-- ===== src/Chat/Live/Tests.antt =====
-- A page of a room with one message, while a second one comes in.
use arko.Base.{
  ℕ, String, true, false, ◌≡◌, refl, List, [], ◌∷◌, ◌++◌, inl, if◌then◌else◌, ◌==◌, has_prefix,
}
use arko.Base.Assoc.{lookup}
use arko.Base.SyncMap
use arko.Base.SyncMap.{SyncMap}
use arko.Models.{Message}
use arko.Models.Sorted
use arko.Matrix.BTree.{BTree}
use arko.Matrix.BTree.Listed
use arko.Matrix.BTree.Listed.{no_message}
use arko.Matrix.Tree.{MessageTree, TreeEvent, set, new_message_tree}
use arko.Matrix.Tree.Listen.{chronological}
use arko.Matrix.Tree.Run.{new-Coherent}
use arko.Matrix.Tree.Invariant.{Coherent, set-Coherent}
use arko.Chat.{Bubble, bubble}
use arko.Chat.Lists.{ids}
use arko.Chat.Page.{message_list, row_ids}
use arko.Chat.Live.{Reach, here, next, sets, show_all, show_all-Reach}

instance abbrev map_listed : SyncMap
map_listed = SyncMap.listed

instance abbrev tree_listed : BTree
tree_listed = Listed.listed

abbrev at_5 : Message
at_5 = record no_message { id = "m"; timestamp = 5; room_id = "r" }

abbrev at_7 : Message
at_7 = record no_message { id = "n"; timestamp = 7 }

abbrev instant : String → ℕ
instant id = if id == "m" then 5 else 7

abbrev empty_room : MessageTree
unfolding new_message_tree
empty_room = record (new_message_tree "r" false) { listening = true }

empty-Coherent : Coherent instant empty_room
unfolding new_message_tree
empty-Coherent =
    let c = new-Coherent instant "r" false in
    record { agree = c.agree; nonces_dated = c.nonces_dated; raws_dated = c.raws_dated }

abbrev room : MessageTree
room = (set empty_room at_5).0

reached : Reach instant room (set room at_7).0
unfolding new_message_tree lookup set has_prefix
reached = next here (sets room at_7 refl refl (inl refl))

abbrev page : List Bubble
page = bubble at_5 false ∷ []

show_all-Reach_example :
    (events : List TreeEvent) × ((set room at_7).0.offered ≡ room.offered ++ events)
    × (ids (show_all page events)
        ≡ row_ids (message_list (λ t. t) (chronological (set room at_7).0)))
unfolding new_message_tree lookup set has_prefix Sorted.insert message_list chronological
show_all-Reach_example =
    show_all-Reach instant (λ t. t) room (set room at_7).0 page
      (set-Coherent instant empty_room at_5 empty-Coherent refl) refl reached refl
