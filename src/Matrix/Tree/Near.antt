-- ===== src/Matrix/Tree/Near.antt =====
-- What `getNeighbors` finds: the messages on both sides in the order of the room.
use arko.Base.{◌≡◌, refl, ap, ◌∙◌, Option, none, some, List, [], ◌∷◌, ◌++◌, All, if◌then◌else◌}
use arko.Base.SyncMap.{SyncMap}
use arko.Models.{Message}
use arko.Models.Order.{by_timestamp_irrefl}
use arko.Models.Sorted.{split_onto, Precedes, IsSorted}
use arko.Matrix.BTree.{BTree, is_cons}
use arko.Matrix.Tree.{MessageTree, items, get_neighbors}

-- The first message, and the last one of a list behind another message.
abbrev pub first : List Message → Option Message
first [] = none
first (a ∷ as') = some a

abbrev pub last_or : Option Message → List Message → Option Message
last_or o [] = o
last_or o (a ∷ as') = last_or (some a) as'

back_onto : List Message → List Message → List Message
back_onto acc [] = acc
back_onto acc (a ∷ as') = back_onto (a ∷ acc) as'

first-back_onto :
    (acc before : List Message) → first (back_onto acc before) ≡ last_or (first acc) before
unfolding back_onto
first-back_onto acc [] = refl
first-back_onto acc (a ∷ before) = first-back_onto (a ∷ acc) before

All-middle :
    (p m : Message) (before after : List Message)
    → All (Precedes p) (before ++ m ∷ after)
    → Precedes p m
All-middle p m [] after h = h.0
All-middle p m (a ∷ before) after h = All-middle p m before after h.1

-- `Seek` stops exactly at a message of a sorted list.
split_past :
    (acc before : List Message) (m : Message) (after : List Message)
    → IsSorted (before ++ m ∷ after)
    → split_onto acc m (before ++ m ∷ after) ≡ (back_onto acc before, m ∷ after)
unfolding split_onto back_onto
split_past acc [] m after s = rw by_timestamp_irrefl refl
split_past acc (a ∷ before) m after s =
    rw (All-middle a m before after s.0) (split_past (a ∷ acc) before m after s.1)

module _ ⦃x : SyncMap⦄ ⦃b : BTree⦄ where
  prev_of :
      (c : b.Cursor) (before rest : List Message)
      → b.view c ≡ (before, rest)
      → (if (b.prev c).0 then some (b.item (b.prev c).1) else none) ≡ first before
  prev_of c [] rest h = rw (b.prev_end c rest h) refl
  prev_of c (a ∷ before) rest h =
      let p = b.prev_step c before rest a h in
      rw (p.0, b.item_view (b.prev c).1 before rest a p.1) refl

  next_of :
      (c : b.Cursor) (before after : List Message) (m : Message)
      → b.view c ≡ (before, m ∷ after)
      → (if (b.next c).0 then some (b.item (b.next c).1) else none) ≡ first after
  next_of c before [] m h = rw (b.next_end c before m h) refl
  next_of c before (a ∷ after) m h =
      let p = b.next_step c before after m a h in
      rw (p.0, b.item_view (b.next c).1 (m ∷ before) after a p.1) refl

  -- Of a message in a sorted tree, the neighbors are the message right before it and the one right
  -- behind it in the order of the room, each none at its end of the room.
  pub get_neighbors_lem :
      (t : MessageTree) (before : List Message) (m : Message) (after : List Message)
      → IsSorted (items t)
      → items t ≡ before ++ m ∷ after
      → get_neighbors t m ≡ record { prev = last_or none before; next = first after }
  unfolding get_neighbors
  get_neighbors_lem t before m after s e =
      let v = b.view-seek t.btree m ∙ splits in
      let f = b.seek-found t.btree m ∙ ap (λ p. is_cons p.1) splits in
      rw
        (
          f,
          prev_of (b.seek t.btree m).1 (back_onto [] before) (m ∷ after) v,
          next_of (b.seek t.btree m).1 (back_onto [] before) after m v,
          first-back_onto [] before,
        )
        refl
    where
      splits : split_onto [] m (items t) ≡ (back_onto [] before, m ∷ after)
      splits = rw e (split_past [] before m after (rw e at s))
