-- ===== src/Chat/Lists.antt =====
-- The patches on lists of ids.
use arko.Base.{
  String, ◌≡◌, ◌≢◌, refl, List, [], ◌∷◌, ◌++◌, ◌==◌, eq_iff, arith, map, All, if◌then◌else◌, ap,
}
use arko.Models.{Message}
use arko.Chat.{Bubble, Patch, put_before, put_after, replace, put_last, remove, apply}

abbrev pub ids : List Bubble → List String
ids = map (λ b. b.id)

abbrev pub message_ids : List Message → List String
message_ids = map (λ m. m.id)

-- The same patch of a list of ids.
unfoldable pub apply_ids : Patch → List String → List String
apply_ids (put_last b) is = is ++ b.id ∷ []
apply_ids (put_before target b) [] = []
apply_ids (put_before target b) (i ∷ is) =
    if i == target then b.id ∷ i ∷ is else i ∷ apply_ids (put_before target b) is
apply_ids (put_after target b) [] = []
apply_ids (put_after target b) (i ∷ is) =
    if i == target then i ∷ b.id ∷ is else i ∷ apply_ids (put_after target b) is
apply_ids (replace target b) [] = []
apply_ids (replace target b) (i ∷ is) =
    if i == target then b.id ∷ is else i ∷ apply_ids (replace target b) is
apply_ids (remove target) [] = []
apply_ids (remove target) (i ∷ is) = if i == target then is else i ∷ apply_ids (remove target) is

pub ids-apply : (p : Patch) (page : List Bubble) → ids (apply p page) ≡ apply_ids p (ids page)
unfolding apply apply_ids
ids-apply (put_last b) [] = refl
ids-apply (put_last b) (c ∷ page) = ap (λ is. c.id ∷ is) (ids-apply (put_last b) page)
ids-apply (put_before target b) [] = refl
ids-apply (put_before target b) (c ∷ page) = ground (arith, ids-apply (put_before target b) page)
ids-apply (put_after target b) [] = refl
ids-apply (put_after target b) (c ∷ page) = ground (arith, ids-apply (put_after target b) page)
ids-apply (replace target b) [] = refl
ids-apply (replace target b) (c ∷ page) = ground (arith, ids-apply (replace target b) page)
ids-apply (remove target) [] = refl
ids-apply (remove target) (c ∷ page) = ground (arith, ids-apply (remove target) page)

abbrev pub Without : String → List String → Type 0
Without target = All (λ i. i ≢ target)

-- Each patch at a target that stands behind `pre`.
pub put_before_at :
    (pre post : List String) (target : String) (b : Bubble)
    → Without target pre
    → apply_ids (put_before target b) (pre ++ target ∷ post) ≡ pre ++ b.id ∷ target ∷ post
unfolding apply_ids
put_before_at [] post target b w = ground (arith, eq_iff target target)
put_before_at (i ∷ pre) post target b w =
    ground (arith, eq_iff i target, put_before_at pre post target b w.1)

pub put_after_at :
    (pre post : List String) (target : String) (b : Bubble)
    → Without target pre
    → apply_ids (put_after target b) (pre ++ target ∷ post) ≡ pre ++ target ∷ b.id ∷ post
unfolding apply_ids
put_after_at [] post target b w = ground (arith, eq_iff target target)
put_after_at (i ∷ pre) post target b w =
    ground (arith, eq_iff i target, put_after_at pre post target b w.1)

pub replace_at :
    (pre post : List String) (target : String) (b : Bubble)
    → Without target pre
    → apply_ids (replace target b) (pre ++ target ∷ post) ≡ pre ++ b.id ∷ post
unfolding apply_ids
replace_at [] post target b w = ground (arith, eq_iff target target)
replace_at (i ∷ pre) post target b w =
    ground (arith, eq_iff i target, replace_at pre post target b w.1)

pub remove_at :
    (pre post : List String) (target : String)
    → Without target pre
    → apply_ids (remove target) (pre ++ target ∷ post) ≡ pre ++ post
unfolding apply_ids
remove_at [] post target w = ground (arith, eq_iff target target)
remove_at (i ∷ pre) post target w = ground (arith, eq_iff i target, remove_at pre post target w.1)

-- A bubble that takes the place of one of its own id leaves the ids as they are.
pub replace_same : (is : List String) (b : Bubble) → apply_ids (replace b.id b) is ≡ is
unfolding apply_ids
replace_same [] b = refl
replace_same (i ∷ is) b = ground (arith, eq_iff i b.id, replace_same is b)
