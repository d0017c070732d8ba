-- ===== src/Chat/Live.antt =====
-- A page that stays open while its room changes.
mod Tests
use mathlib.Core.List.{append_assoc, append-nil}
use arko.Base.{
  ℕ, String, Bool, true, false, ◌≡◌, refl, sym, ap, ◌∙◌, Option, none, some, List, [], ◌∷◌, ◌++◌,
  inl,
}
use arko.Base.SyncMap.{SyncMap}
use arko.Models.{Message}
use arko.Models.Sorted.{Holds}
use arko.Matrix.BTree.{BTree}
use arko.Matrix.Event.{Event}
use arko.Matrix.Ids.{safe_hash_class}
use arko.Matrix.Tree.{
  MessageTree, TreeEvent, items, set, delete_message, redacted_message_from,
  send_event_to_listeners,
}
use arko.Matrix.Tree.Listen.{redact, chronological}
use arko.Matrix.Tree.Invariant.{Coherent, Dated, set-Coherent, dropped-Coherent}
use arko.Chat.{Bubble, show}
use arko.Chat.Lists.{ids, message_ids}
use arko.Chat.Follow.{IsFresh, set-show, delete_message-show, listening-set}
use arko.Chat.Page.{message_list, row_ids, ids-message_list}

-- The page after the patches of a list of events.
unfoldable pub show_all : List Bubble → List TreeEvent → List Bubble
unfolding show
show_all page [] = page
show_all page (evt ∷ evts) = show_all (show page evt) evts

show_all-append :
    (page : List Bubble) (es fs : List TreeEvent)
    → show_all page (es ++ fs) ≡ show_all (show_all page es) fs
unfolding show_all
show_all-append page [] fs = refl
show_all-append page (e ∷ es) fs = show_all-append (show page e) es fs

module _ ⦃x : SyncMap⦄ ⦃b : BTree⦄ (ts : String → ℕ) where
  -- What happens to the room while the page is open: `sets` is `Set` of a message with the instant
  -- of its id, which no redaction waits for and which takes the place of no message that waits;
  -- `redacts` is a redaction of a message that the map has and that carries no nonce.
  pub data Step : MessageTree → MessageTree → Type 0 where
    sets :
        (t : MessageTree) (m : Message)
        → Dated ts m
        → x.load t.pending_redactions m.id ≡ none
        → IsFresh ts t m
        → Step t (set t m).0
    redacts :
        (t : MessageTree) (id : String) (evt : Event) (m : Message)
        → x.load t.messages_map id ≡ some m
        → m.nonce ≡ ""
        → x.load t.pending_redactions m.id ≡ none
        → Step t (redact t id evt (some m))

  pub data Reach (s : MessageTree) : MessageTree → Type 0 where
    here : Reach s s
    next : {t u : MessageTree} → Reach s t → Step t u → Reach s u

  -- A tree with its page.
  record Live (s : MessageTree) (page : List Bubble) (t : MessageTree) : Type 0 where
    coherent : Coherent ts t
    listened : t.listening ≡ true
    events : List TreeEvent
    sent : t.offered ≡ s.offered ++ events
    shown : ids (show_all page events) ≡ message_ids (items t)

  abbrev dropped : MessageTree → String → Message → MessageTree
  dropped t id m = delete_message (record t { messages_map = x.delete t.messages_map id }) m

  dropped_parts :
      (t : MessageTree) (id : String) (m : Message)
      → t.listening ≡ true
      → ((dropped t id m).offered ≡ (delete_message t m).offered)
        × (items (dropped t id m) ≡ items (delete_message t m))
        × ((dropped t id m).listening ≡ true)
        × ((dropped t id m).pending_redactions ≡ t.pending_redactions)
  unfolding delete_message send_event_to_listeners
  dropped_parts t id m l = rw l (refl, refl, refl, refl)

  -- One more event.
  shown_next :
      (page : List Bubble) (es : List TreeEvent) (evt : TreeEvent) (is : List String)
      → ids (show (show_all page es) evt) ≡ is
      → ids (show_all page (es ++ evt ∷ [])) ≡ is
  unfolding show_all
  shown_next page es evt is h = ap ids (show_all-append page es (evt ∷ [])) ∙ h

  sent_next :
      (s t : MessageTree) (es : List TreeEvent) (evt : TreeEvent) (out : List TreeEvent)
      → t.offered ≡ s.offered ++ es
      → out ≡ t.offered ++ evt ∷ []
      → out ≡ s.offered ++ (es ++ evt ∷ [])
  sent_next s t es evt out e o =
      o ∙ ap (λ q. q ++ evt ∷ []) e ∙ append_assoc s.offered es (evt ∷ [])

  Live-set :
      (s : MessageTree) (page : List Bubble) (t : MessageTree) (m : Message)
      → Dated ts m
      → x.load t.pending_redactions m.id ≡ none
      → IsFresh ts t m
      → Live s page t
      → Live s page (set t m).0
  Live-set s page t m d h f l =
      let (evt, o, a) =
        set-show ts t m (show_all page l.events) l.coherent d l.listened h f l.shown in
      record {
        coherent = set-Coherent ts t m l.coherent d;
        listened = listening-set ts t m h f ∙ l.listened;
        events = l.events ++ evt ∷ [];
        sent = sent_next s t l.events evt (set t m).0.offered l.sent o;
        shown = shown_next page l.events evt (message_ids (items (set t m).0)) a;
      }

  Live-dropped :
      (s : MessageTree) (page : List Bubble) (t : MessageTree) (id : String) (m : Message)
      → x.load t.messages_map id ≡ some m
      → Live s page t
      → Live s page (dropped t id m)
  Live-dropped s page t id m h l =
      let p = dropped_parts t id m l.listened in
      let (evt, o, a) =
        delete_message-show ts t m (show_all page l.events) l.coherent
          (l.coherent.agree.held id m h).1 l.listened l.shown in
      record {
        coherent = dropped-Coherent ts t id m l.coherent h;
        listened = p.2;
        events = l.events ++ evt ∷ [];
        sent = sent_next s t l.events evt (dropped t id m).offered l.sent (p.0 ∙ o);
        shown =
            shown_next page l.events evt (message_ids (items (dropped t id m)))
              (a ∙ ap message_ids (sym p.1));
      }

  Live-Step : {s t u : MessageTree} (page : List Bubble) → Step t u → Live s page t → Live s page u
  unfolding redact redacted_message_from
  Live-Step {s} page (sets t m d h f) l = Live-set s page t m d h f l
  Live-Step {s} page (redacts t id evt m h n r) l =
      Live-set s page (dropped t id m) (redacted_message_from m evt)
        (l.coherent.agree.dated m (l.coherent.agree.held id m h).1)
        (ap (λ p. x.load p m.id) (dropped_parts t id m l.listened).3 ∙ r) (inl n)
        (Live-dropped s page t id m h l)

  Live-Reach : {s t : MessageTree} (page : List Bubble) → Live s page s → Reach s t → Live s page t
  Live-Reach page l here = l
  Live-Reach page l (next r st) = Live-Step page st (Live-Reach page l r)

  -- A page that is opened on a room and stays open while messages come in at any place of the room
  -- and are redacted, in any order and number, shows after the patches of all events the messages
  -- that a page shows which is opened then: the same, each once and in the same order. The
  -- conditions: the tree is coherent and has a listener, and the steps are those of `Step`; a
  -- message that takes the place of one that waits is none of them.
  pub show_all-Reach :
      (day : ℕ → ℕ) (s t : MessageTree) (page : List Bubble)
      → Coherent ts s
      → s.listening ≡ true
      → Reach s t
      → ids page ≡ row_ids (message_list day (chronological s))
      → (events : List TreeEvent) × (t.offered ≡ s.offered ++ events)
        × (ids (show_all page events) ≡ row_ids (message_list day (chronological t)))
  unfolding show_all
  show_all-Reach day s t page c l r p =
      let start : Live s page s = record {
        coherent = c;
        listened = l;
        events = [];
        sent = sym (append-nil s.offered);
        shown = p ∙ ids-message_list day s;
      } in
      let e = Live-Reach page start r in (e.events, e.sent, e.shown ∙ sym (ids-message_list day t))
