-- ===== src/Chat/Follow.antt =====
-- The page follows the tree: after each event the browser has the messages in the order of the
-- room.
use arko.Base.{
  ◌==◌, ℕ, String, Bool, true, false, ◌≡◌, refl, sym, ap, ◌∙◌, Option, none, some, List, [], ◌∷◌,
  ◌++◌, ◌⊎◌, inl, inr, arith, eq_iff, is_some, Bool-cases, has_prefix, ◌||◌,
}
use arko.Base.SyncMap.{SyncMap}
use arko.Models.{Message}
use arko.Models.Sorted
use arko.Models.Sorted.{IsSorted, Holds}
use arko.Models.Sorted.Split.{Inserted, new, old, Inserted-insert, delete-split, ids_before}
use arko.Matrix.BTree.{BTree}
use arko.Matrix.Tree.{
  MessageTree, TreeEvent, Neighbors, Claim, add_event, remove_event, update_event, items, claim,
  set, set_event, delete_message, get_neighbors, send_event_to_listeners, no_neighbors,
}
use arko.Matrix.Tree.Invariant.{Coherent, Dated, set-Coherent}
use arko.Matrix.Tree.Near.{get_neighbors_lem}
use arko.Matrix.Tree.Parts.{
  unclaimed, waiting, claim_unknown, claim_pending, claim_plain, set_parts, stored,
}
use arko.Chat.{Bubble, replace, remove, bubble, event_patch, insert_patch, show, is_continued}
use arko.Chat.Lists.{ids, message_ids, apply_ids, Without, replace_at, remove_at}
use arko.Chat.Moves.{ids-show, message_ids-append, Distinct, insert_between}

abbrev removal : Message → TreeEvent
removal m = record {
  event_type = remove_event;
  update_nonce = "";
  message = m;
  neighbors = no_neighbors;
}

module _ ⦃x : SyncMap⦄ ⦃b : BTree⦄ (ts : String → ℕ) where
  -- A message that does not take the place of one that waits for its nonce.
  abbrev pub IsFresh : MessageTree → Message → Type 0
  IsFresh t m = (m.nonce ≡ "") ⊎ (x.load t.nonces m.nonce ≡ none)

  abbrev Unclaimed : MessageTree → Message → Type 0
  Unclaimed t m =
      (t1 : MessageTree) × (k : Claim) × (claim t (record m { room_id = t.room_id }) ≡ (t1, k))
      × (k.replaced_nonce ≡ "")
      × (k.replaced_pending ≡ false)
      × (t1.btree ≡ t.btree)
      × (t1.pending_redactions ≡ t.pending_redactions)
      × (t1.listening ≡ t.listening)
      × (t1.offered ≡ t.offered)
      × (t1.room_id ≡ t.room_id)

  claim_fresh : (t : MessageTree) (m : Message) → IsFresh t m → Unclaimed t m
  claim_fresh t m f = elim (Bool-cases (m.nonce == "")) [
    | inl p ↦ no_nonce ((eq_iff m.nonce "").0 p)
    | inr p ↦ elim f [
      | inl e ↦ absurd (absurd_nonce e p)
      | inr h ↦ (
        t,
        unclaimed,
        claim_unknown t (record m { room_id = t.room_id }) (λ e. absurd_nonce e p) h,
        refl,
        refl,
        refl,
        refl,
        refl,
        refl,
        refl,
      )
    ]
  ]
    where
      absurd_nonce : m.nonce ≡ "" → (m.nonce == "") ≡ false → ⊥
      absurd_nonce e p = ground (arith, eq_iff m.nonce "")

      no_nonce : m.nonce ≡ "" → Unclaimed t m
      no_nonce e = elim (Bool-cases (has_prefix m.id "pending-" || has_prefix m.id "decrypting-")) [
        | inl p ↦ (
          record t { nonces = x.store t.nonces m.id (record m { room_id = t.room_id }) },
          waiting,
          claim_pending t (record m { room_id = t.room_id }) e p,
          refl,
          refl,
          refl,
          refl,
          refl,
          refl,
          refl,
        )
        | inr p ↦ (
          t,
          unclaimed,
          claim_plain t (record m { room_id = t.room_id }) e p,
          refl,
          refl,
          refl,
          refl,
          refl,
          refl,
          refl,
        )
      ]

  pub Distinct-items : (t : MessageTree) → Coherent ts t → Distinct (items t)
  Distinct-items t c pre post n e =
      ids_before ts pre n post (rw e at c.agree.sorted) (λ a h. c.agree.dated a (rw e h))

  replace_middle :
      (before after : List Message) (o m : Message) (c : Bool)
      → o.id ≡ m.id
      → Without o.id (message_ids before)
      → apply_ids (replace m.id (bubble m c)) (message_ids (before ++ o ∷ after))
        ≡ message_ids (before ++ m ∷ after)
  replace_middle before after o m c e w =
      ap (apply_ids (replace m.id (bubble m c))) (
        message_ids-append before (o ∷ after)
        ∙ ap (λ i. message_ids before ++ i ∷ message_ids after) e)
      ∙ replace_at (message_ids before) (message_ids after) m.id (bubble m c) (rw e at w)
      ∙ sym (message_ids-append before (m ∷ after))

  set_event_new :
      (m : Message) (found : Option Message) (k : Claim) (near : Neighbors)
      → found ≡ none
      → k.replaced_pending ≡ false
      → set_event m (is_some found) k near
        ≡ record { event_type = add_event; update_nonce = ""; message = m; neighbors = near }
  unfolding set_event
  set_event_new m found k near g kp = rw (g, kp) refl

  set_event_old :
      (m o : Message) (found : Option Message) (k : Claim) (near : Neighbors)
      → found ≡ some o
      → k.replaced_nonce ≡ ""
      → set_event m (is_some found) k near
        ≡ record { event_type = update_event; update_nonce = ""; message = m; neighbors = near }
  unfolding set_event
  set_event_old m o found k near g kn = rw (g, kn) refl

  -- The event of a message that was stored: added between two parts of the room, or in the place of
  -- the message of its id.
  stored_event :
      (xs : List Message) (m : Message) (t : MessageTree)
      → Distinct xs
      → items t ≡ Sorted.insert m xs
      → IsSorted (items t)
      → (k : Claim) → k.replaced_nonce ≡ ""
      → k.replaced_pending ≡ false
      → Inserted m xs
      → let evt = set_event m (is_some (Sorted.find m xs)) k (get_neighbors t m) in
        apply_ids (event_patch evt.event_type evt) (message_ids xs) ≡ message_ids (items t)
  unfolding event_patch
  stored_event xs m t w i s k kn kp (new before after e f g) =
      let near = get_neighbors_lem t before m after s (i ∙ f) in
      patch_of (set_event_new m (Sorted.find m xs) k (get_neighbors t m) g kp)
      ∙ ap (λ n. apply_ids (insert_patch n (bubble m (is_continued n.prev m))) (message_ids xs))
          near
      ∙ rw e (insert_between before after m (bubble m _) refl (rw e at w))
      ∙ ap message_ids (sym (i ∙ f))
    where
      patch_of :
          {v u : TreeEvent}
          → v ≡ u
          → apply_ids (event_patch v.event_type v) (message_ids xs)
            ≡ apply_ids (event_patch u.event_type u) (message_ids xs)
      patch_of q = ap (λ evt. apply_ids (event_patch evt.event_type evt) (message_ids xs)) q
  stored_event xs m t w i s k kn kp (old before after o e f g h) =
      ap (λ evt. apply_ids (event_patch evt.event_type evt) (message_ids xs))
        (set_event_old m o (Sorted.find m xs) k (get_neighbors t m) g kn)
      ∙ rw e (replace_middle before after o m _ h (w before after o e))
      ∙ ap message_ids (sym (i ∙ f))

  -- The event of `Set`, where the message takes the place of no other id.
  fresh_event :
      (t : MessageTree) (m : Message)
      → Coherent ts t
      → Dated ts m
      → t.listening ≡ true
      → x.load t.pending_redactions m.id ≡ none
      → Unclaimed t m
      → (evt : TreeEvent) × ((set t m).0.offered ≡ t.offered ++ evt ∷ [])
        × (apply_ids (event_patch evt.event_type evt) (message_ids (items t))
            ≡ message_ids (items (set t m).0))
  fresh_event t m c d l h (t1, k, q, kn, kp, bt, pr, li, off, rm) =
      let p = set_parts t t1 m k q (rw pr h) in
      let r = (set t m).0 in
      let i =
        ap (λ tr. b.items tr) (p.0 ∙ ap (λ tr. (b.set tr (stored t m)).0) bt)
        ∙ b.items-set t.btree (stored t m) in
      let f = ap (λ tr. (b.set tr (stored t m)).1) bt ∙ b.replaced-set t.btree (stored t m) in
      let o = p.7 in
      (
        set_event (stored t m) (is_some (Sorted.find (stored t m) (items t))) k
            (get_neighbors r (stored t m)),
        rw (li ∙ l, off, f) at o,
        stored_event (items t) (stored t m) r (Distinct-items t c) i
            (set-Coherent ts t m c d).agree.sorted k kn kp (Inserted-insert (stored t m) (items t)),
      )

  -- A page that shows the messages of a room shows them again after `Set` and the patches of its
  -- one event: all of them, in the order of the tree, each at its id. The conditions: the tree is
  -- coherent and has a listener, the message has the instant of its id, no redaction waits for it,
  -- and its nonce is empty or waits for no message.
  pub set-show :
      (t : MessageTree) (m : Message) (page : List Bubble)
      → Coherent ts t
      → Dated ts m
      → t.listening ≡ true
      → x.load t.pending_redactions m.id ≡ none
      → IsFresh t m
      → ids page ≡ message_ids (items t)
      → (evt : TreeEvent) × ((set t m).0.offered ≡ t.offered ++ evt ∷ [])
        × (ids (show page evt) ≡ message_ids (items (set t m).0))
  set-show t m page c d l h f e =
      let (evt, o, a) = fresh_event t m c d l h (claim_fresh t m f) in
      (evt, o, ids-show page evt ∙ ap (apply_ids (event_patch evt.event_type evt)) e ∙ a)

  pub listening-set :
      (t : MessageTree) (m : Message)
      → x.load t.pending_redactions m.id ≡ none
      → IsFresh t m
      → (set t m).0.listening ≡ t.listening
  listening-set t m h f =
      let (t1, k, q, kn, kp, bt, pr, li, off, rm) = claim_fresh t m f in
      (set_parts t t1 m k q (rw pr h)).5 ∙ li

  -- The same of a message that is deleted, where the room holds it.
  pub delete_message-show :
      (t : MessageTree) (m : Message) (page : List Bubble)
      → Coherent ts t
      → Holds m (items t)
      → t.listening ≡ true
      → ids page ≡ message_ids (items t)
      → (evt : TreeEvent) × ((delete_message t m).offered ≡ t.offered ++ evt ∷ [])
        × (ids (show page evt) ≡ message_ids (items (delete_message t m)))
  unfolding delete_message send_event_to_listeners event_patch
  delete_message-show t m page c h l e =
      let (before, after, s, d) = delete-split m (items t) c.agree.sorted h in
      (
        removal m,
        rw l refl,
        ids-show page (removal m)
            ∙ ap (apply_ids (remove m.id))
                (e ∙ ap message_ids s ∙ message_ids-append before (m ∷ after))
            ∙ remove_at (message_ids before) (message_ids after) m.id
                (Distinct-items t c before after m s)
            ∙ sym (message_ids-append before after)
            ∙ ap message_ids (sym (rw l (b.items-delete t.btree m ∙ d))),
      )
