-- ===== src/Models/Sorted.antt =====
-- A sorted list of messages, the abstract view of the container behind `MessageTree`: an entry is
-- known by its instant and id.
pub mod Laws
pub mod Split
use arko.Base.{true, ◌≡◌, List, [], ◌∷◌, Option, none, some, All, if◌then◌else◌, ◌⊎◌}
use arko.Models.{Message}
use arko.Models.Order.{by_timestamp}

-- A new entry, or the one in its place.
unfoldable pub insert : Message → List Message → List Message
insert m [] = m ∷ []
insert m (x ∷ xs) =
    if by_timestamp m x then m ∷ x ∷ xs else if by_timestamp x m then x ∷ insert m xs else m ∷ xs

unfoldable pub find : Message → List Message → Option Message
find m [] = none
find m (x ∷ xs) = if by_timestamp m x then none else if by_timestamp x m then find m xs else some x

unfoldable pub delete : Message → List Message → List Message
delete m [] = []
delete m (x ∷ xs) =
    if by_timestamp m x then x ∷ xs else if by_timestamp x m then x ∷ delete m xs else xs

-- What stands before `m`, nearest first, and what stands from `m` on.
unfoldable pub split_onto : List Message → Message → List Message → List Message × List Message
split_onto before m [] = (before, [])
split_onto before m (x ∷ xs) =
    if by_timestamp x m then split_onto (x ∷ before) m xs else (before, x ∷ xs)

abbrev pub Precedes : Message → Message → Type 0
Precedes a b = by_timestamp a b ≡ true

abbrev pub IsSorted : List Message → Type 0
IsSorted [] = Unit {0}
IsSorted (x ∷ xs) = All (Precedes x) xs × IsSorted xs

-- The value `m` itself stands in the list.
abbrev pub Holds : Message → List Message → Type 0
Holds m [] = ⊥
Holds m (x ∷ xs) = (m ≡ x) ⊎ Holds m xs
