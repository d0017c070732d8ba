-- ===== src/Base/Assoc.antt =====
-- Go's map with text keys, as a list of entries. A loop over a Go map runs in no fixed order: what
-- is stated of such a loop holds for every order of the entries.
use arko.Base.{String, ◌≡◌, Option, none, some, List, [], ◌∷◌, arith, ◌==◌, eq_iff, if◌then◌else◌}

module _ {ℓ} {V : Type ℓ} where
  -- delete(m, k)
  unfoldable pub remove : String → List (String × V) → List (String × V)
  remove k [] = []
  remove k (e ∷ es) = let rest = remove k es in if k == e.0 then rest else e ∷ rest

  -- m[k], with its `ok`
  unfoldable pub lookup : String → List (String × V) → Option V
  lookup k [] = none
  lookup k (e ∷ es) = if k == e.0 then some e.1 else lookup k es

  pub lookup-remove :
      (k j : String) (es : List (String × V))
      → lookup j (remove k es) ≡ (if k == j then none else lookup j es)
  unfolding lookup remove
  lookup-remove k j [] = ground arith
  lookup-remove k j (e ∷ es) =
      ground (arith, lookup-remove k j es, eq_iff j e.0, eq_iff k e.0, eq_iff k j)

  -- m[k] = v
  unfoldable pub insert : String → V → List (String × V) → List (String × V)
  insert k v [] = (k, v) ∷ []
  insert k v (e ∷ es) = if k == e.0 then (e.0, v) ∷ es else e ∷ insert k v es

  pub lookup-insert :
      (k j : String) (v : V) (es : List (String × V))
      → lookup j (insert k v es) ≡ (if k == j then some v else lookup j es)
  unfolding insert lookup
  lookup-insert k j v [] = ground (arith, eq_iff j k, eq_iff k j)
  lookup-insert k j v (e ∷ es) =
      ground (arith, lookup-insert k j v es, eq_iff j e.0, eq_iff k e.0, eq_iff k j)

pub ruleset assoc_laws = (lookup-insert, lookup-remove)
