-- ===== src/Session/External.antt =====
-- `go-keyring` and `encoding/json`, packages that are not in the repository: interfaces. A value is
-- a Go string, known by its bytes. `set` and `delete` give the new keyring, or fail and change
-- nothing.
use arko.Base.{ℕ, String, ◌≡◌, Option, none, some, List, if◌then◌else◌, ◌==◌}

pub record Keyring : Type 1 where
  pub Text : Type 0
  pub bytes : Text → List ℕ
  pub text_of : List ℕ → Text
  pub bytes-text_of : (bs : List ℕ) → bytes (text_of bs) ≡ bs
  pub State : Type 0
  pub get : State → String → Option Text
  pub set : State → String → Text → Option State
  pub delete : State → String → Option State
  pub get-set :
      (s r : State) (k j : String) (v : Text)
      → set s k v ≡ some r
      → get r j ≡ (if k == j then some v else get s j)
  pub get-delete :
      (s r : State) (k j : String)
      → delete s k ≡ some r
      → get r j ≡ (if k == j then none else get s j)

-- `json.Marshal` and `json.Unmarshal` of one type.
pub record Json ⦃k : Keyring⦄ (A : Type 0) : Type 0 where
  pub marshal : A → k.Text
  pub unmarshal : k.Text → Option A
  pub unmarshal-marshal : (a : A) → unmarshal (marshal a) ≡ some a
