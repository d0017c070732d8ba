-- ===== src/Matrix/KeyBackup/Laws.antt =====
-- What the restoring of keys does to the crypto store, and when `Init` succeeds.
use arko.Base.{
  ℕ, ◌+◌, ◌^◌, ◌<◌, ◌≤◌, String, Bool, false, not, ◌&&◌, ◌≡◌, refl, Option, none, some, List, [],
  ◌∷◌, ◌==◌, arith, All, eq_iff, Bool-cases, inl, inr, if_intro,
}
use arko.Base.Assoc.{lookup, insert, lookup-insert}
use arko.Matrix.KeyBackup.{KnownKeys, BackedUp, already_known, restore_loop}

-- At least as much is known: a session that was there is there, with no later first index.
abbrev pub IsNoLater : Option ℕ → Option ℕ → Type 0
IsNoLater none new = Unit
IsNoLater (some i) none = ⊥
IsNoLater (some i) (some j) = j ≤ i

IsNoLater-refl : (o : Option ℕ) → IsNoLater o o
IsNoLater-refl none = tt
IsNoLater-refl (some i) = omega arith

IsNoLater-trans : (o p q : Option ℕ) → IsNoLater o p → IsNoLater p q → IsNoLater o q
IsNoLater-trans none p q h i = tt
IsNoLater-trans (some a) none q h i = elim h [ ]
IsNoLater-trans (some a) (some b) none h i = elim i [ ]
IsNoLater-trans (some a) (some b) (some c) h i = omega arith

IsNoLater-some : (i j : ℕ) (o : Option ℕ) → o ≡ some j → j ≤ i → IsNoLater (some i) o
IsNoLater-some i j o e l = rw e l

IsNoLater-insert :
    (store : KnownKeys) (b : BackedUp) (id : String)
    → already_known store b ≡ false
    → b.built_id ≡ b.session_id
    → b.first_message_index < 2 ^ 32
    → b.known_index ≤ b.first_message_index
    → (o : Option ℕ) → lookup id store ≡ o
    → IsNoLater o (lookup id (insert b.built_id b.known_index store))
unfolding already_known
IsNoLater-insert store b id h n w l none e = tt
IsNoLater-insert store b id h n w l (some i) e = elim (Bool-cases (b.built_id == id)) [
  | inl q ↦
      IsNoLater-some i b.known_index _
        (ground (arith, lookup-insert b.built_id id b.known_index store))
        (ground (arith, eq_iff b.built_id id))
  | inr other ↦
      IsNoLater-some i i _ (ground (arith, lookup-insert b.built_id id b.known_index store))
        (omega arith)
]

abbrev Grown : KnownKeys → String → KnownKeys × ℕ × Bool → Type 0
Grown store id r = IsNoLater (lookup id store) (lookup id r.0)

restore_step :
    (store : KnownKeys) (n : ℕ) (b : BackedUp) (bs : List BackedUp) (id : String)
    → Grown store id (restore_loop store n bs)
    → (already_known store b ≡ false
        → Grown store id (restore_loop (insert b.built_id b.known_index store) (n + 1) bs))
    → Grown store id (restore_loop store n (b ∷ bs))
unfolding restore_loop
restore_step store n b bs id skipped restored =
    if_intro (Grown store id) (not b.decrypts) _ _ (λ _. skipped)
      λ _.
        if_intro (Grown store id) (not b.readable) _ _ (λ _. IsNoLater-refl (lookup id store))
          λ _.
            if_intro (Grown store id) (already_known store b) _ _ (λ _. skipped)
              λ k.
                if_intro (Grown store id) (b.builds && b.stores) _ _ (λ _. restored k) λ _. skipped

-- Restoring never loses a session of the crypto store and never replaces one by a session that
-- knows fewer messages, whether it goes to its end or stops at an error. The conditions: a session
-- that is built has the id under which it was backed up and knows the messages from the index of
-- its backup on, and this index is below 2^32.
pub restore_loop-IsNoLater :
    (store : KnownKeys) (n : ℕ) (bs : List BackedUp) (id : String)
    → All
        (λ b.
          (b.built_id ≡ b.session_id)
          × (b.first_message_index < 2 ^ 32)
          × (b.known_index ≤ b.first_message_index))
        bs
    → IsNoLater (lookup id store) (lookup id (restore_loop store n bs).0)
unfolding restore_loop
restore_loop-IsNoLater store n [] id a = IsNoLater-refl (lookup id store)
restore_loop-IsNoLater store n (b ∷ bs) id a =
    let more = insert b.built_id b.known_index store in
    restore_step store n b bs id (restore_loop-IsNoLater store n bs id a.1) (λ k.
      IsNoLater-trans (lookup id store) (lookup id more) _
        (IsNoLater-insert store b id k a.0.0 a.0.1 a.0.2 (lookup id store) refl)
        (restore_loop-IsNoLater more (n + 1) bs id a.1))
