-- ===== src/Models/Sorted/Laws.antt =====
-- The sorted list stays sorted, and what it holds after an insertion or a deletion.
use arko.Base.{
  ◌+◌, true, false, ◌≡◌, ◌≢◌, refl, List, [], ◌∷◌, All, arith, ◌⊎◌, inl, inr, length, is_some,
  if◌then◌else◌,
}
use arko.Models.{Message}
use arko.Models.Order.{by_timestamp, by_timestamp_trans, by_timestamp_irrefl, by_timestamp_connex}
use arko.Models.Sorted.{insert, find, delete, Precedes, IsSorted, Holds}

All-insert :
    (a m : Message) (xs : List Message)
    → Precedes a m
    → All (Precedes a) xs
    → All (Precedes a) (insert m xs)
unfolding insert
All-insert a m [] p h = (p, tt)
All-insert a m (x ∷ xs) p h = ground (arith, All-insert a m xs p h.1)

All-trans :
    (a b : Message) (xs : List Message) → Precedes a b → All (Precedes b) xs → All (Precedes a) xs
All-trans a b [] p h = tt
All-trans a b (x ∷ xs) p h = (by_timestamp_trans a b x p h.0, All-trans a b xs p h.1)

-- The entry that `m` replaces is equal to it in the order, so what it precedes, `m` precedes.
Precedes-of_tie :
    (m x y : Message)
    → by_timestamp m x ≡ false
    → by_timestamp x m ≡ false
    → Precedes x y
    → Precedes m y
unfolding by_timestamp
Precedes-of_tie m x y p q r = let e = by_timestamp_connex m x p q in ground arith

All-tie :
    (m x : Message) (xs : List Message)
    → by_timestamp m x ≡ false
    → by_timestamp x m ≡ false
    → All (Precedes x) xs
    → All (Precedes m) xs
All-tie m x [] p q h = tt
All-tie m x (y ∷ ys) p q h = (Precedes-of_tie m x y p q h.0, All-tie m x ys p q h.1)

pub insert-IsSorted : (m : Message) (xs : List Message) → IsSorted xs → IsSorted (insert m xs)
unfolding insert
insert-IsSorted m [] h = (tt, tt)
insert-IsSorted m (x ∷ xs) (h, s) =
    ground (arith, insert-IsSorted m xs s, All-insert x m xs, All-trans m x xs, All-tie m x xs)

All-delete :
    (a m : Message) (xs : List Message) → All (Precedes a) xs → All (Precedes a) (delete m xs)
unfolding delete
All-delete a m [] h = tt
All-delete a m (x ∷ xs) h = ground (arith, All-delete a m xs h.1)

pub delete-IsSorted : (m : Message) (xs : List Message) → IsSorted xs → IsSorted (delete m xs)
unfolding delete
delete-IsSorted m [] h = tt
delete-IsSorted m (x ∷ xs) (h, s) = ground (arith, delete-IsSorted m xs s, All-delete x m xs h)

pub Holds-insert_self : (m : Message) (xs : List Message) → Holds m (insert m xs)
unfolding insert
Holds-insert_self m [] = inl refl
Holds-insert_self m (x ∷ xs) = ground (arith, Holds-insert_self m xs)

-- An entry of another key stays.
pub Holds-insert_ne :
    (a m : Message) (xs : List Message) → a.id ≢ m.id → Holds a xs → Holds a (insert m xs)
unfolding insert
Holds-insert_ne a m [] ne h = inr h
Holds-insert_ne a m (x ∷ xs) ne h =
    ground (arith, Holds-insert_ne a m xs ne, by_timestamp_connex m x)

pub Holds-of-insert :
    (a m : Message) (xs : List Message) → Holds a (insert m xs) → (a ≡ m) ⊎ Holds a xs
unfolding insert
Holds-of-insert a m [] h = h
Holds-of-insert a m (x ∷ xs) h = ground (arith, Holds-of-insert a m xs)

pub Holds-delete_ne :
    (a m : Message) (xs : List Message) → a.id ≢ m.id → Holds a xs → Holds a (delete m xs)
unfolding delete
Holds-delete_ne a m [] ne h = h
Holds-delete_ne a m (x ∷ xs) ne h =
    ground (arith, Holds-delete_ne a m xs ne, by_timestamp_connex m x)

pub Holds-of-delete : (a m : Message) (xs : List Message) → Holds a (delete m xs) → Holds a xs
unfolding delete
Holds-of-delete a m [] h = h
Holds-of-delete a m (x ∷ xs) h = ground (arith, Holds-of-delete a m xs)

pub Precedes-of-Holds :
    (x a : Message) (xs : List Message) → All (Precedes x) xs → Holds a xs → Precedes x a
Precedes-of-Holds x a [] h k = elim k [ ]
Precedes-of-Holds x a (y ∷ ys) h k = ground (arith, Precedes-of-Holds x a ys h.1)

-- Of one instant and one id, a sorted list has no entry once it is deleted.
pub not-Holds-delete :
    (a m : Message) (xs : List Message)
    → IsSorted xs
    → a.timestamp ≡ m.timestamp
    → a.id ≡ m.id
    → Holds a (delete m xs)
    → ⊥
unfolding delete by_timestamp
not-Holds-delete a m [] s t i h = h
not-Holds-delete a m (x ∷ xs) s t i h = ground (
  arith,
  not-Holds-delete a m xs s.1 t i,
  Precedes-of-Holds x a xs s.0,
  by_timestamp_irrefl a,
  by_timestamp_irrefl m,
  by_timestamp_trans m x a,
  by_timestamp_connex m x,
  by_timestamp_connex a x,
)

-- And exactly the new entry after an insertion.
pub eq_of-Holds-insert :
    (a m : Message) (xs : List Message)
    → IsSorted xs
    → a.timestamp ≡ m.timestamp
    → a.id ≡ m.id
    → Holds a (insert m xs)
    → a ≡ m
unfolding insert by_timestamp
eq_of-Holds-insert a m [] s t i h = ground arith
eq_of-Holds-insert a m (x ∷ xs) s t i h = ground (
  arith,
  eq_of-Holds-insert a m xs s.1 t i,
  Precedes-of-Holds x a xs s.0,
  by_timestamp_irrefl a,
  by_timestamp_trans m x a,
  by_timestamp_connex m x,
)

-- An insertion adds one entry, unless it replaces one.
pub length-insert :
    (m : Message) (xs : List Message)
    → length (insert m xs) ≡ (if is_some (find m xs) then length xs else length xs + 1)
unfolding insert find
length-insert m [] = omega arith
length-insert m (x ∷ xs) = ground (arith, length-insert m xs)

pub length-delete :
    (m : Message) (xs : List Message)
    → length xs ≡ (if is_some (find m xs) then length (delete m xs) + 1 else length (delete m xs))
unfolding delete find
length-delete m [] = refl
length-delete m (x ∷ xs) = ground (arith, length-delete m xs)

-- An entry that is held is found.
pub find_of-Holds :
    (a m : Message) (xs : List Message)
    → IsSorted xs
    → a.timestamp ≡ m.timestamp
    → a.id ≡ m.id
    → Holds a xs
    → is_some (find m xs) ≡ true
unfolding find by_timestamp
find_of-Holds a m [] s t i h = elim h [ ]
find_of-Holds a m (x ∷ xs) s t i h = ground (
  arith,
  find_of-Holds a m xs s.1 t i,
  Precedes-of-Holds x a xs s.0,
  by_timestamp_irrefl a,
  by_timestamp_trans m x a,
  by_timestamp_irrefl m,
)
