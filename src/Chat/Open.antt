-- ===== src/Chat/Open.antt =====
-- internal/service/chat.go, `GetRoomMessageTree`: a page opens a room. The service is one for the
-- process, and a session with its trees is made anew at each login.
use arko.Base.{String, Bool, ◌≡◌, Option, some, List, ◌∷◌, if◌then◌else◌, true, false, All}
use arko.Base.SyncMap.{SyncMap}
use arko.Matrix.Event.{Env}
use arko.Matrix.BTree.{BTree}
use arko.Matrix.Tree.{MessageTree}
use arko.Matrix.Tree.Load.{Page, initialize}
use arko.Matrix.Tree.Scroll.{Has, IsClear, AllHas}
use arko.Matrix.Tree.Listen.{listen}
use arko.Matrix.Trees.{get_message_tree}
use arko.Session.{contains}

module _ ⦃x : SyncMap⦄ ⦃b : BTree⦄ (env : Env) (server : String → Option Page) where
  -- The function that is passed to `initializedTree.Compute`: the rooms that were opened, and the
  -- session's trees.
  unfoldable pub open_tree :
      List String → String → x.Map MessageTree × MessageTree → List String × x.Map MessageTree
  unfolding initialize listen
  open_tree opened room_id (trees, t) =
      if contains room_id opened
      then (opened, trees)
      else (room_id ∷ opened, x.store trees room_id (listen (initialize env t server)))

  unfoldable pub get_room_message_tree :
      List String → x.Map MessageTree → String → Bool → List String × x.Map MessageTree
  unfolding open_tree get_message_tree
  get_room_message_tree opened trees room_id e2ee =
      open_tree opened room_id (get_message_tree trees room_id e2ee)

  -- What the opening does to a tree: it is listened to, and one that has not asked for its history
  -- has the first page of it.
  abbrev pub Opens : MessageTree → MessageTree → Type 0
  Opens t u =
      (u.listening ≡ true)
      × (t.initialized ≡ true → u ≡ listen t)
      × (t.initialized ≡ false
          → t.no_more_history ≡ false
          → (p : Page) → server t.prev_batch ≡ some p
          → All IsClear p.chunk
          → (u.prev_batch ≡ p.end) × AllHas u p.chunk × ((id : String) → Has t id → Has u id))
