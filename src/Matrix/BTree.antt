-- ===== src/Matrix/BTree.antt =====
-- `btree.BTreeG[models.Message]` of a package that is not in the repository: an interface. Its
-- documentation says that it holds its entries in the order of the function it is made with, one
-- for each key, and that a cursor moves along them.
pub mod Listed
use arko.Base.{Bool, true, false, ◌≡◌, List, [], ◌∷◌, Option}
use arko.Models.{Message}
use arko.Models.Sorted
use arko.Models.Sorted.{split_onto}

-- A cursor as a pair: the entries before it, nearest first, and those from it on.
abbrev pub is_cons {ℓ} : {A : Type ℓ} → List A → Bool
is_cons [] = false
is_cons (x ∷ xs) = true

pub record BTree : Type 1 where
  pub Tree : Type 0
  pub Cursor : Type 0
  pub empty : Tree
  -- `Set`, with the entry that it replaced, and `Delete`
  pub set : Tree → Message → Tree × Option Message
  pub delete : Tree → Message → Tree
  -- `Scan`, in ascending order
  pub items : Tree → List Message
  -- `Iter` and `Seek`, `Next`, `Prev`, `Item`
  pub seek : Tree → Message → Bool × Cursor
  pub next : Cursor → Bool × Cursor
  pub prev : Cursor → Bool × Cursor
  pub item : Cursor → Message
  pub view : Cursor → List Message × List Message
  pub items-empty : items empty ≡ []
  pub items-set : (t : Tree) (m : Message) → items (set t m).0 ≡ Sorted.insert m (items t)
  pub replaced-set : (t : Tree) (m : Message) → (set t m).1 ≡ Sorted.find m (items t)
  pub items-delete : (t : Tree) (m : Message) → items (delete t m) ≡ Sorted.delete m (items t)
  pub view-seek : (t : Tree) (m : Message) → view (seek t m).1 ≡ split_onto [] m (items t)
  pub seek-found : (t : Tree) (m : Message) → (seek t m).0 ≡ is_cons (split_onto [] m (items t)).1
  pub next_step :
      (c : Cursor) (before rest : List Message) (a b : Message)
      → view c ≡ (before, a ∷ b ∷ rest)
      → ((next c).0 ≡ true) × (view (next c).1 ≡ (a ∷ before, b ∷ rest))
  pub next_end :
      (c : Cursor) (before : List Message) (a : Message)
      → view c ≡ (before, a ∷ [])
      → (next c).0 ≡ false
  pub prev_step :
      (c : Cursor) (before rest : List Message) (a : Message)
      → view c ≡ (a ∷ before, rest)
      → ((prev c).0 ≡ true) × (view (prev c).1 ≡ (before, a ∷ rest))
  pub prev_end : (c : Cursor) (rest : List Message) → view c ≡ ([], rest) → (prev c).0 ≡ false
  pub item_view :
      (c : Cursor) (before rest : List Message) (a : Message)
      → view c ≡ (before, a ∷ rest)
      → item c ≡ a
