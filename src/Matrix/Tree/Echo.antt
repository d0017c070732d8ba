-- ===== src/Matrix/Tree/Echo.antt =====
-- A message that the user writes, and the event by which the server sends it back.
use arko.Base.{
  ℕ, String, true, ◌≡◌, ◌≢◌, refl, none, some, [], ◌∷◌, ◌++◌, arith, eq_iff, eq_refl, has_prefix,
  ap, ◌∙◌, ◌==◌, if◌then◌else◌,
}
use arko.Base.SyncMap.{SyncMap}
use arko.Models.{Message}
use arko.Models.Sorted
use arko.Models.Sorted.{Holds}
use arko.Matrix.Event.{Event, Env, message}
use arko.Matrix.BTree.{BTree}
use arko.Matrix.Ids.{safe_hash_class, plain-safe_hash_class}
use arko.Matrix.Tree.{MessageTree, update_event, items, set, set_event, get_neighbors}
use arko.Matrix.Tree.Invariant.{Coherent, IsDatedEvent, set-Coherent, receive-Coherent}
use arko.Matrix.Tree.Parts.{claim_found, claim_pending, set_parts, stored}
use arko.Matrix.Tree.Convert.{bare, unix_milli, event_to_message, default_message}
use arko.Matrix.Tree.Listen.{receive, dispatch, set_some}
use arko.Matrix.Tree.Load.{send_message}

module _ ⦃x : SyncMap⦄ ⦃b : BTree⦄ where
  -- In a tree with a listener, a message that carries the nonce of one that waits, and for whose id
  -- no redaction waits, takes its place: the waiting one is deleted from the tree and, under
  -- another id, from the map, the nonce is used up, and one event tells the listener which message
  -- on the page to replace.
  pub set-replaces :
      (t : MessageTree) (m e : Message)
      → m.nonce ≢ ""
      → x.load t.nonces m.nonce ≡ some e
      → x.load t.pending_redactions m.id ≡ none
      → t.listening ≡ true
      → let n = record m { room_id = t.room_id; nonce = "" } in
        let r = (set t m).0 in
        (items r ≡ Sorted.insert n (Sorted.delete e (items t)))
        × (x.load r.messages_map m.id ≡ some n)
        × (e.id ≢ m.id → x.load r.messages_map e.id ≡ none)
        × (x.load r.nonces m.nonce ≡ none)
        × (r.offered
            ≡ t.offered
              ++ (record {
                event_type = update_event;
                update_nonce = e.id;
                message = n;
                neighbors = get_neighbors r n;
              })
                ∷ [])
  unfolding set_event
  set-replaces t m e ne h k l =
      let p = set_parts t _ m _ (claim_found t (record m { room_id = t.room_id }) e ne h) k in
      (
        ap b.items p.0 ∙ b.items-set _ _ ∙ ap (Sorted.insert (stored t m)) (b.items-delete _ _),
        rw (p.1, x.load-store, eq_refl) refl,
        (λ other.
            rw (p.1, x.load-store)
              (ground
                (arith, eq_iff m.id e.id, x.load-delete t.messages_map e.id e.id, eq_refl e.id))),
        rw (p.2, x.load-delete, eq_refl) refl,
        ground (arith, p.7),
      )

  module _ (ts : String → ℕ) (env : Env) (t : MessageTree) (body nonce : String) (now : ℕ)
      (user : String) where
    abbrev pub sent : MessageTree
    sent = send_message env t body nonce now user

    abbrev pub written : Message
    written = default_message env t.room_id body nonce now user

    -- `SendMessage` shows the message at once, and it waits under its nonce.
    sent_parts :
        has_prefix nonce "pending-" ≡ true
        → x.load t.pending_redactions nonce ≡ none
        → (sent.nonces ≡ x.store t.nonces nonce written)
          × (sent.pending_redactions ≡ t.pending_redactions)
          × (sent.room_id ≡ t.room_id)
    unfolding send_message default_message
    sent_parts h k =
        let p = set_parts t _ written _ (claim_pending t written refl (rw h refl)) k in
        (p.2, p.3, p.4)

    -- What `SendMessage` puts into the room.
    pub sent_shown :
        has_prefix nonce "pending-" ≡ true
        → x.load t.pending_redactions nonce ≡ none
        → ((other : String)
            → x.load sent.messages_map other
              ≡ (if nonce == other then some (stored t written) else x.load t.messages_map other))
          × (items sent ≡ Sorted.insert (stored t written) (items t))
          × (x.load sent.nonces nonce ≡ some written)
    unfolding send_message default_message
    sent_shown h k =
        let p = set_parts t _ written _ (claim_pending t written refl (rw h refl)) k in
        (
          (λ other. rw (p.1, x.load-store) refl),
          ap b.items p.0 ∙ b.items-set _ _,
          rw (p.2, x.load-store, eq_refl) refl,
        )

    -- The message of the event that the server sends.
    abbrev pub echo : Event → String → Message
    echo evt text =
        record (bare (safe_hash_class evt.id) (env.profile evt.sender) (unix_milli evt.timestamp)
          t.room_id) { content = text; nonce = evt.transaction_id }

    receive-echo :
        (u : MessageTree) (evt : Event) (text : String)
        → u.room_id ≡ t.room_id
        → evt.room_id ≡ t.room_id
        → evt.type ≡ message
        → evt.body ≡ some text
        → receive env u evt ≡ (set u (echo evt text)).0
    unfolding receive dispatch set_some event_to_message
    receive-echo u evt text e room ty bo = rw (ty, bo, room, e, eq_refl) refl

    nonempty : has_prefix nonce "pending-" ≡ true → nonce ≢ ""
    unfolding has_prefix
    nonempty h e = cc (rw e at h)

    echoed_ne : (id : String) → has_prefix nonce "pending-" ≡ true → safe_hash_class id ≢ nonce
    echoed_ne id h e = let f = (plain-safe_hash_class id).0 in cc

    -- In a coherent tree without waiting redactions, when the server's event for a message that was
    -- sent under a `pending-` nonce comes back with that nonce, the message that was shown in its
    -- place is gone from the tree and the map, its nonce is free, and a read by the event's id
    -- finds a message with the event's text and author.
    pub receive-send_message :
        (evt : Event) (text : String)
        → Coherent ts t
        → now ≡ ts nonce
        → IsDatedEvent ts evt
        → has_prefix nonce "pending-" ≡ true
        → evt.room_id ≡ t.room_id
        → evt.type ≡ message
        → evt.body ≡ some text
        → evt.transaction_id ≡ nonce
        → ((id : String) → x.load t.pending_redactions id ≡ none)
        → let r = receive env sent evt in
          (x.load r.messages_map nonce ≡ none)
          × ((m : Message) → Holds m (items r) → m.id ≢ nonce)
          × (x.load r.nonces nonce ≡ none)
          × ((m : Message) × (x.load r.messages_map (safe_hash_class evt.id) ≡ some m)
              × (m.content ≡ text)
              × (m.author ≡ env.profile evt.sender))
    unfolding send_message default_message
    receive-send_message evt text c d de h room ty bo tr pr =
        let s = sent_parts h (pr nonce) in
        let same = receive-echo sent evt text s.2 room ty bo in
        let waits =
          claim_found sent (record (echo evt text) { room_id = sent.room_id }) written
            (λ e. nonempty h (rw tr at e)) (rw (s.0, tr, x.load-store, eq_refl) refl) in
        let p = set_parts sent _ (echo evt text) _ waits (rw s.1 (pr _)) in
        let gone : x.load (receive env sent evt).messages_map nonce ≡ none =
          rw (same, p.1)
            (ground (
              arith,
              x.load-store (x.delete sent.messages_map nonce) (safe_hash_class evt.id) nonce
                  (stored sent (echo evt text)),
              x.load-delete sent.messages_map nonce nonce,
              eq_refl nonce,
              eq_iff (safe_hash_class evt.id) nonce,
              echoed_ne evt.id h,
            )) in
        let after = receive-Coherent ts env sent evt (set-Coherent ts t written c d) de in
        (
          gone,
          (λ m held e. cc (after.agree.loaded m held, gone)),
          rw (same, p.2, tr, x.load-delete, eq_refl) refl,
          (stored sent (echo evt text), rw (same, p.1, x.load-store, eq_refl) refl, refl, refl),
        )
