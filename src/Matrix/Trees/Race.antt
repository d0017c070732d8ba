-- ===== src/Matrix/Trees/Race.antt =====
-- Two calls of `GetMessageTree` for one room at once.
use arko.Base.{String, Bool, ◌≡◌, refl, ap, ◌∙◌, some, eq_refl}
use arko.Base.SyncMap.{SyncMap}
use arko.Matrix.BTree.{BTree}
use arko.Matrix.Tree.{MessageTree, new_message_tree}
use arko.Matrix.Trees.{make_tree, get_message_tree, tree_or_new}

module _ ⦃x : SyncMap⦄ ⦃b : BTree⦄ where
  load-store_same :
      (trees : x.Map MessageTree) (room_id : String) (t : MessageTree)
      → x.load (x.store trees room_id t) room_id ≡ some t
  load-store_same trees room_id t = x.load-store trees room_id room_id t ∙ rw (eq_refl room_id) refl

  -- Two calls that both find no tree each make one, and the second takes the place of the first:
  -- whatever the first caller has made of its tree in between, a later call of any kind gets the
  -- second tree as it was made, without the first one's messages and listener.
  pub get_message_tree_race :
      (trees : x.Map MessageTree) (room_id : String) (first second later : Bool)
      (used : MessageTree)
      → let one = x.store (make_tree trees room_id first).0 room_id used in
        let two = (make_tree one room_id second).0 in
        get_message_tree two room_id later ≡ (two, new_message_tree room_id second)
  unfolding make_tree get_message_tree tree_or_new
  get_message_tree_race trees room_id first second later used =
      let one = x.store (x.store trees room_id (new_message_tree room_id first)) room_id used in
      let two = x.store one room_id (new_message_tree room_id second) in
      ap (tree_or_new two room_id later)
        (load-store_same one room_id (new_message_tree room_id second))
