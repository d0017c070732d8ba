-- ===== src/Matrix/Tree/Agree.antt =====
-- The two copies of a room's messages, the sorted tree and the map by id, hold the same messages.
use arko.Base.{ℕ, String, ◌≡◌, some, arith, eq_iff}
use arko.Base.SyncMap.{SyncMap}
use arko.Models.{Message}
use arko.Models.Sorted
use arko.Models.Sorted.{IsSorted, Holds}
use arko.Models.Sorted.Laws.{
  insert-IsSorted, delete-IsSorted, Holds-insert_self, Holds-insert_ne, Holds-of-insert,
  Holds-delete_ne, Holds-of-delete, not-Holds-delete, eq_of-Holds-insert,
}
use arko.Matrix.BTree.{BTree}

module _ ⦃x : SyncMap⦄ ⦃b : BTree⦄ (ts : String → ℕ) where
  -- `ts` gives the instant of each id: two messages of one id have one instant.
  pub record Agree (tr : b.Tree) (mp : x.Map Message) : Type 0 where
    pub sorted : IsSorted (b.items tr)
    pub dated : (a : Message) → Holds a (b.items tr) → a.timestamp ≡ ts a.id
    pub loaded : (a : Message) → Holds a (b.items tr) → x.load mp a.id ≡ some a
    pub held :
        (id : String) (a : Message) → x.load mp id ≡ some a → (a.id ≡ id) × Holds a (b.items tr)

  pub Agree-put :
      (tr : b.Tree) (mp : x.Map Message) (m : Message)
      → m.timestamp ≡ ts m.id
      → Agree tr mp
      → Agree (b.set tr m).0 (x.store mp m.id m)
  Agree-put tr mp m d g = record {
    sorted = rw b.items-set (insert-IsSorted m _ g.sorted);
    dated = λ a h. dated a (rw b.items-set at h);
    loaded = λ a h. loaded a (rw b.items-set at h);
    held = λ id a h. rw b.items-set (held id a h);
  }
    where
      dated : (a : Message) → Holds a (Sorted.insert m (b.items tr)) → a.timestamp ≡ ts a.id
      dated a h = ground (arith, Holds-of-insert a m (b.items tr), g.dated a)

      loaded :
          (a : Message)
          → Holds a (Sorted.insert m (b.items tr))
          → x.load (x.store mp m.id m) a.id ≡ some a
      loaded a h = ground (
        arith,
        x.load-store mp m.id a.id m,
        eq_iff m.id a.id,
        Holds-of-insert a m (b.items tr),
        dated a h,
        eq_of-Holds-insert a m (b.items tr) g.sorted,
        g.loaded a,
      )

      held :
          (id : String) (a : Message)
          → x.load (x.store mp m.id m) id ≡ some a
          → (a.id ≡ id) × Holds a (Sorted.insert m (b.items tr))
      held id a h = ground (
        arith,
        x.load-store mp m.id id m,
        eq_iff m.id id,
        g.held id a,
        Holds-insert_self m (b.items tr),
        Holds-insert_ne a m (b.items tr),
      )

  -- `e` stands for the entry of its instant and id, which goes.
  pub Agree-drop :
      (tr : b.Tree) (mp : x.Map Message) (e : Message)
      → e.timestamp ≡ ts e.id
      → Agree tr mp
      → Agree (b.delete tr e) (x.delete mp e.id)
  Agree-drop tr mp e d g = record {
    sorted = rw b.items-delete (delete-IsSorted e _ g.sorted);
    dated = λ a h. g.dated a (old a (rw b.items-delete at h));
    loaded = λ a h. loaded a (rw b.items-delete at h);
    held = λ id a h. rw b.items-delete (held id a h);
  }
    where
      old : (a : Message) → Holds a (Sorted.delete e (b.items tr)) → Holds a (b.items tr)
      old a h = Holds-of-delete a e (b.items tr) h

      loaded :
          (a : Message)
          → Holds a (Sorted.delete e (b.items tr))
          → x.load (x.delete mp e.id) a.id ≡ some a
      loaded a h = ground (
        arith,
        x.load-delete mp e.id a.id,
        eq_iff e.id a.id,
        old a h,
        g.dated a,
        not-Holds-delete a e (b.items tr) g.sorted,
        g.loaded a,
      )

      held :
          (id : String) (a : Message)
          → x.load (x.delete mp e.id) id ≡ some a
          → (a.id ≡ id) × Holds a (Sorted.delete e (b.items tr))
      held id a h = ground (
        arith,
        x.load-delete mp e.id id,
        eq_iff e.id id,
        g.held id a,
        Holds-delete_ne a e (b.items tr),
      )
