-- ===== src/Models/Sorted/Split.antt =====
-- Where an insertion or a deletion happens in the list.
use arko.Base.{
  ℕ, String, map, true, false, ◌≡◌, ◌≢◌, refl, sym, ap, none, some, List, [], ◌∷◌, ◌++◌, All, arith,
  inl, inr, Bool-cases,
}
use arko.Models.{Message}
use arko.Models.Order.{by_timestamp, by_timestamp_connex, by_timestamp_irrefl, by_timestamp_asym}
use arko.Models.Sorted.{insert, find, delete, Holds, IsSorted, Precedes}
use arko.Models.Sorted.Laws.{Precedes-of-Holds}

-- An insertion between two parts, or in the place of an entry of the same id.
pub data Inserted (m : Message) (xs : List Message) : Type 0 where
  new :
      (before after : List Message)
      → xs ≡ before ++ after
      → insert m xs ≡ before ++ m ∷ after
      → find m xs ≡ none
      → Inserted m xs
  old :
      (before after : List Message) (x : Message)
      → xs ≡ before ++ x ∷ after
      → insert m xs ≡ before ++ m ∷ after
      → find m xs ≡ some x
      → x.id ≡ m.id
      → Inserted m xs

pub Inserted-insert : (m : Message) (xs : List Message) → Inserted m xs
unfolding insert find
Inserted-insert m [] = new [] [] refl refl refl
Inserted-insert m (x ∷ xs) = elim (Bool-cases (by_timestamp m x)) [
  | inl p ↦ new [] (x ∷ xs) refl (rw p refl) (rw p refl)
  | inr p ↦ elim (Bool-cases (by_timestamp x m)) [
    | inl q ↦ behind q p (Inserted-insert m xs)
    | inr q ↦ old [] xs x refl (rw (p, q) refl) (rw (p, q) refl) (tie p q)
  ]
]
  where
    tie : by_timestamp m x ≡ false → by_timestamp x m ≡ false → x.id ≡ m.id
    tie p q = ground (arith, by_timestamp_connex m x)

    behind :
        by_timestamp x m ≡ true → by_timestamp m x ≡ false → Inserted m xs → Inserted m (x ∷ xs)
    behind q p (new before after e f g) =
        new (x ∷ before) after (ap (λ l. x ∷ l) e) (rw (p, q) (ap (λ l. x ∷ l) f)) (rw (p, q) g)
    behind q p (old before after y e f g h) =
        old (x ∷ before) after y (ap (λ l. x ∷ l) e) (rw (p, q) (ap (λ l. x ∷ l) f)) (rw (p, q) g) h

pub Holds-middle :
    (before : List Message) (n : Message) (after : List Message) → Holds n (before ++ n ∷ after)
Holds-middle [] n after = inl refl
Holds-middle (p ∷ before) n after = inr (Holds-middle before n after)

-- A deletion of an entry that the sorted list holds.
pub delete-split :
    (m : Message) (xs : List Message)
    → IsSorted xs
    → Holds m xs
    → (before : List Message) × (after : List Message) × (xs ≡ before ++ m ∷ after)
      × (delete m xs ≡ before ++ after)
unfolding delete
delete-split m [] s h = elim h [ ]
delete-split m (x ∷ xs) s (inl e) =
    ([], xs, ap (λ y. y ∷ xs) (sym e), rw (e, by_timestamp_irrefl) refl)
delete-split m (x ∷ xs) s (inr h) =
    let (before, after, e, f) = delete-split m xs s.1 h in
    let p = Precedes-of-Holds x m xs s.0 h in
    (x ∷ before, after, ap (λ l. x ∷ l) e, rw (by_timestamp_asym x m p, p) (ap (λ l. x ∷ l) f))

module _ (ts : String → ℕ) where
  -- In a sorted list in which an id has one instant, no two entries have one id.
  pub ne_of-Precedes :
      (p n : Message) → p.timestamp ≡ ts p.id → n.timestamp ≡ ts n.id → Precedes p n → p.id ≢ n.id
  unfolding by_timestamp
  ne_of-Precedes p n dp dn h e = ground (arith, by_timestamp_irrefl n)

  pub ids_before :
      (before : List Message) (n : Message) (after : List Message)
      → IsSorted (before ++ n ∷ after)
      → ((a : Message) → Holds a (before ++ n ∷ after) → a.timestamp ≡ ts a.id)
      → All (λ i. i ≢ n.id) (map (λ m. m.id) before)
  ids_before [] n after s d = tt
  ids_before (p ∷ before) n after s d = (
    ne_of-Precedes p n (d p (inl refl)) (d n (inr (Holds-middle before n after)))
        (Precedes-of-Holds p n (before ++ n ∷ after) s.0 (Holds-middle before n after)),
    ids_before before n after s.1 (λ a h. d a (inr h)),
  )
