-- ===== src/Matrix/Tree/Past/Tests.antt =====
-- A room with a history of two pages.
use mathlib.Core.Path.{subst}
use arko.Base.{
  ℕ, String, true, false, ◌≡◌, ◌≢◌, refl, ap, sym, ◌∙◌, none, some, Option, [], ◌∷◌, ◌==◌, All,
  if◌then◌else◌, Bool-cases, inl, inr,
}
use arko.Base.SyncMap
use arko.Base.SyncMap.{SyncMap}
use arko.Models.{Message}
use arko.Models.Sorted.{Holds}
use arko.Matrix.BTree.{BTree}
use arko.Matrix.BTree.Listed
use arko.Matrix.BTree.Listed.{no_user}
use arko.Matrix.Event.{Event, Env, message, encrypted}
use arko.Matrix.Ids.{safe_hash_class}
use arko.Matrix.Tree.{items, new_message_tree}
use arko.Matrix.Tree.Load.{Attempt, failure, Page, handle_encrypted, load_next_messages}
use arko.Matrix.Tree.History.{IsDatedLoaded, IsDatedAttempt}
use arko.Matrix.Tree.Run.{new-Coherent}
use arko.Matrix.Tree.Scroll.{Shows}
use arko.Matrix.Tree.Past.{scroll, scroll_whole}

instance abbrev map_listed : SyncMap
map_listed = SyncMap.listed

instance abbrev tree_listed : BTree
tree_listed = Listed.listed

abbrev env : Env
env = record { profile = λ id. record no_user { id = id }; localpart = λ id. id }

abbrev instant : String → ℕ
instant id = 2_000_000

abbrev said : Event
said = record {
  id = "$a";
  sender = "@me";
  room_id = "r";
  type = message;
  timestamp = 2;
  body = some "hi";
  reason = "";
  transaction_id = "";
  redacted_because = none;
  redacts = "";
}

abbrev no_attempt : Attempt
no_attempt = record { session = none; first = failure; arrives = false; second = failure }

abbrev newer : Page
newer = record { end = "1"; chunk = record { event = said; nonce = ""; attempt = no_attempt } ∷ [] }

abbrev older : Page
older = record {
  end = "";
  chunk = record { event = record said { id = "$b" }; nonce = ""; attempt = no_attempt } ∷ [];
}

abbrev server : String → Option Page
server token = if token == "" then some newer else some older

no_attempt-dated : IsDatedAttempt instant no_attempt
unfolding handle_encrypted
no_attempt-dated requested evt h = cc

newer-dated : All (IsDatedLoaded instant) newer.chunk
newer-dated = (record { event = refl; nonce = refl; attempt = no_attempt-dated }, tt)

older-dated : All (IsDatedLoaded instant) older.chunk
older-dated = (record { event = refl; nonce = refl; attempt = no_attempt-dated }, tt)

some_inj : {p q : Page} → some p ≡ some q → p ≡ q
some_inj h = cc

server-dated :
    (token : String) (page : Page)
    → server token ≡ some page
    → All (IsDatedLoaded instant) page.chunk
server-dated token page h = elim (Bool-cases (token == "")) [
  | inl e ↦
      let q : newer ≡ page =
        some_inj (ap (λ c. if c then some newer else some older) (sym e) ∙ h) in
      subst (λ (p : Page). All (IsDatedLoaded instant) p.chunk) q newer-dated
  | inr n ↦
      let q : older ≡ page =
        some_inj (ap (λ c. if c then some newer else some older) (sym n) ∙ h) in
      subst (λ (p : Page). All (IsDatedLoaded instant) p.chunk) q older-dated
]

clear : message ≢ encrypted
clear e = cc

scroll_whole_example :
    ((scroll env server 2 (new_message_tree "r" false)).no_more_history ≡ true)
    × ((load_next_messages env (scroll env server 2 (new_message_tree "r" false)) server).1 ≡ false)
    × All
        (λ p.
          All
            (λ l.
              Shows l.event
              → (a : Message) × (a.id ≡ safe_hash_class l.event.id)
                × Holds a (items (scroll env server 2 (new_message_tree "r" false))))
            p.chunk)
        (newer ∷ older ∷ [])
unfolding new_message_tree
scroll_whole_example =
    scroll_whole env server instant (new_message_tree "r" false) (newer ∷ older ∷ [])
      (new-Coherent instant "r" false) server-dated refl (refl, refl, (refl, refl))
      ((clear, tt), ((clear, tt), tt))
