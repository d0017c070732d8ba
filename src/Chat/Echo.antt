-- ===== src/Chat/Echo.antt =====
-- What the page shows when the server's copy of a message comes in for the one that waits.
use mathlib.Core.List.{map-append}
use arko.Base.{
  ℕ, String, true, ◌≡◌, ◌≢◌, refl, ap, ◌∙◌, none, some, List, [], ◌∷◌, ◌++◌, ◌==◌, Bool-cases, inl,
  inr, eq_iff,
}
use arko.Base.SyncMap.{SyncMap}
use arko.Models.{Message}
use arko.Models.Sorted
use arko.Models.Sorted.{Holds}
use arko.Models.Sorted.Split.{delete-split}
use arko.Matrix.BTree.{BTree}
use arko.Matrix.Tree.{MessageTree, TreeEvent, update_event, items, set, get_neighbors}
use arko.Matrix.Tree.Invariant.{Coherent}
use arko.Matrix.Tree.Parts.{stored}
use arko.Matrix.Tree.Echo.{set-replaces}
use arko.Chat.{Bubble, replace, bubble, event_patch, is_continued, show}
use arko.Chat.Lists.{ids, message_ids, apply_ids, replace_at}
use arko.Chat.Follow.{Distinct-items}
use arko.Chat.Moves.{ids-show}

module _ ⦃x : SyncMap⦄ ⦃b : BTree⦄ (ts : String → ℕ) where
  abbrev pub echo_event : MessageTree → Message → Message → TreeEvent
  echo_event t m e = record {
    event_type = update_event;
    update_nonce = e.id;
    message = stored t m;
    neighbors = get_neighbors (set t m).0 (stored t m);
  }

  echo_patch :
      (t : MessageTree) (m e : Message)
      → e.id ≢ ""
      → event_patch update_event (echo_event t m e)
        ≡ replace e.id
            (bubble (stored t m) (is_continued (echo_event t m e).neighbors.prev (stored t m)))
  unfolding event_patch
  echo_patch t m e ne = elim (Bool-cases (e.id == "")) [
    | inl p ↦ absurd (ne ((eq_iff e.id "").0 p))
    | inr p ↦ rw p refl
  ]

  -- Where the server's copy of a message comes in for the one that waits in the room, a page that
  -- shows the room shows the copy in the place of the one that waited, whatever the instants, while
  -- the tree has it where its own instant belongs among the other messages. The conditions: the
  -- tree is coherent and has a listener, the copy carries the nonce of the message that waits, no
  -- redaction waits for it, and the id of the message that waits is not empty.
  pub set-show_echo :
      (t : MessageTree) (m e : Message) (page : List Bubble)
      → Coherent ts t
      → m.nonce ≢ ""
      → x.load t.nonces m.nonce ≡ some e
      → Holds e (items t)
      → e.id ≢ ""
      → x.load t.pending_redactions m.id ≡ none
      → t.listening ≡ true
      → ids page ≡ message_ids (items t)
      → (before : List Message) × (after : List Message) × (evt : TreeEvent) × (items t
          ≡ before ++ e ∷ after)
        × ((set t m).0.offered ≡ t.offered ++ evt ∷ [])
        × (ids (show page evt) ≡ message_ids before ++ m.id ∷ message_ids after)
        × (items (set t m).0 ≡ Sorted.insert (stored t m) (before ++ after))
  set-show_echo t m e page c n l h ne k li p =
      let (before, after, s, d) = delete-split e (items t) c.agree.sorted h in
      let r = set-replaces t m e n l k li in
      let cell =
        bubble (stored t m) (is_continued (echo_event t m e).neighbors.prev (stored t m)) in
      (
        before,
        after,
        echo_event t m e,
        s,
        r.4,
        ids-show page (echo_event t m e)
            ∙ ap (λ q. apply_ids q (ids page)) (echo_patch t m e ne)
            ∙ ap (apply_ids (replace e.id cell))
                (p ∙ ap message_ids s ∙ map-append _ before (e ∷ after))
            ∙ replace_at (message_ids before) (message_ids after) e.id cell
                (Distinct-items ts t c before after e s),
        r.0 ∙ ap (Sorted.insert (stored t m)) d,
      )
