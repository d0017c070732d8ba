-- ===== src/Chat/Page/Tests.antt =====
-- A room with a message on each of two days.
use arko.Base.{ℕ, ◌/◌, false, ◌≡◌, none, [], ◌∷◌}
use arko.Base.SyncMap
use arko.Base.SyncMap.{SyncMap}
use arko.Models.{Message}
use arko.Matrix.BTree.{BTree}
use arko.Matrix.BTree.Listed
use arko.Matrix.BTree.Listed.{no_message}
use arko.Matrix.Tree.{MessageTree, items, new_message_tree}
use arko.Matrix.Tree.Listen.{chronological}
use arko.Chat.Lists.{message_ids}
use arko.Chat.Page.{message_list, row_ids}
use arko.Chat.Page.Listing.{IsListing, message_list-chronological}

instance abbrev map_listed : SyncMap
map_listed = SyncMap.listed

instance abbrev tree_listed : BTree
tree_listed = Listed.listed

abbrev monday : Message
monday = record no_message { id = "m"; timestamp = 5 }

abbrev tuesday : Message
tuesday = record no_message { id = "n"; timestamp = 17 }

abbrev day : ℕ → ℕ
day n = n / 10

abbrev room : MessageTree
unfolding new_message_tree
room = record (new_message_tree "r" false) { btree = monday ∷ tuesday ∷ [] }

message_list-chronological_example :
    IsListing day none (items room) (message_list day (chronological room))
    × (row_ids (message_list day (chronological room)) ≡ message_ids (items room))
message_list-chronological_example = message_list-chronological day room
