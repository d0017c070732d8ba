-- ===== src/Base/SyncMap.antt =====
-- `xsync.Map`, the concurrent map of a package that is not in the repository: an interface. Each
-- operation is atomic; `range` lists the entries as `Range` meets them.
use arko.Base.{String, ◌≡◌, Option, none, some, List, [], ◌==◌, if◌then◌else◌, refl}
use arko.Base.Assoc.{lookup, insert, remove, lookup-insert, lookup-remove}

pub record SyncMap : Type 1 where
  pub Map : Type 0 → Type 0
  pub new : {V : Type 0} → Map V
  pub load : {V : Type 0} → Map V → String → Option V
  pub store : {V : Type 0} → Map V → String → V → Map V
  pub delete : {V : Type 0} → Map V → String → Map V
  pub range : {V : Type 0} → Map V → List (String × V)
  pub load-new : {V : Type 0} (k : String) → load (new {V = V}) k ≡ none
  pub load-store :
      {V : Type 0} (m : Map V) (k j : String) (v : V)
      → load (store m k v) j ≡ (if k == j then some v else load m j)
  pub load-delete :
      {V : Type 0} (m : Map V) (k j : String)
      → load (delete m k) j ≡ (if k == j then none else load m j)
  pub lookup-range : {V : Type 0} (m : Map V) (k : String) → lookup k (range m) ≡ load m k

pub lookup-nil : {V : Type 0} (k : String) → lookup {V = V} k [] ≡ none
unfolding lookup
lookup-nil k = refl

-- An implementation: it shows that the laws can hold, and runs in the tests.
abbrev pub listed : SyncMap
listed = record {
  Map = λ V. List (String × V);
  new = [];
  load = λ m k. lookup k m;
  store = λ m k v. insert k v m;
  delete = λ m k. remove k m;
  range = λ m. m;
  load-new = λ k. lookup-nil k;
  load-store = λ m k j v. lookup-insert k j v m;
  load-delete = λ m k j. lookup-remove k j m;
  lookup-range = λ m k. refl;
}
