-- ===== src/Matrix/Tree/Parts.antt =====
-- What `Set` does to each part of the tree's state.
use arko.Base.{
  String, Bool, true, false, ◌≡◌, ◌≢◌, none, some, [], ◌∷◌, ◌++◌, arith, eq_iff, ◌==◌, has_prefix,
  ◌||◌, is_some, if◌then◌else◌, Bool-cases, inl, inr,
}
use arko.Base.SyncMap.{SyncMap}
use arko.Models.{Message}
use arko.Matrix.BTree.{BTree}
use arko.Matrix.Tree.{
  MessageTree, Claim, TreeEvent, claim, replace_pending, store_message, apply_redaction, set,
  get_neighbors, send_event_to_listeners, start_embeds, set_event,
}

module _ ⦃x : SyncMap⦄ ⦃b : BTree⦄ where
  abbrev pub claimed : String → Claim
  claimed id = record { replaced_nonce = id; replaced_pending = true; is_pending = false }

  abbrev pub waiting : Claim
  waiting = record { replaced_nonce = ""; replaced_pending = false; is_pending = true }

  abbrev pub unclaimed : Claim
  unclaimed = record { replaced_nonce = ""; replaced_pending = false; is_pending = false }

  pub claim_found :
      (t : MessageTree) (m e : Message)
      → m.nonce ≢ ""
      → x.load t.nonces m.nonce ≡ some e
      → claim t m ≡ (
        record t {
          btree = b.delete t.btree e;
          messages_map = x.delete t.messages_map e.id;
          nonces = x.delete t.nonces m.nonce;
        },
        claimed e.id,
      )
  unfolding claim
  claim_found t m e ne h = elim (Bool-cases (m.nonce == "")) [
    | inl p ↦ absurd (ne ((eq_iff m.nonce "").0 p))
    | inr p ↦ rw (p, h, replace_pending)
  ]

  pub claim_unknown :
      (t : MessageTree) (m : Message)
      → m.nonce ≢ ""
      → x.load t.nonces m.nonce ≡ none
      → claim t m ≡ (t, unclaimed)
  unfolding claim
  claim_unknown t m ne h = elim (Bool-cases (m.nonce == "")) [
    | inl p ↦ absurd (ne ((eq_iff m.nonce "").0 p))
    | inr p ↦ rw (p, h, replace_pending)
  ]

  pub claim_pending :
      (t : MessageTree) (m : Message)
      → m.nonce ≡ ""
      → (has_prefix m.id "pending-" || has_prefix m.id "decrypting-") ≡ true
      → claim t m ≡ (record t { nonces = x.store t.nonces m.id m }, waiting)
  unfolding claim
  claim_pending t m e h = rw ((eq_iff m.nonce "").1 e, h)

  pub claim_plain :
      (t : MessageTree) (m : Message)
      → m.nonce ≡ ""
      → (has_prefix m.id "pending-" || has_prefix m.id "decrypting-") ≡ false
      → claim t m ≡ (t, unclaimed)
  unfolding claim
  claim_plain t m e h = rw ((eq_iff m.nonce "").1 e, h)

  -- `Set` behind the part on nonces, where no redaction waits for the message.
  pub store_message_plain :
      (t : MessageTree) (m : Message) (k : Claim)
      → x.load t.pending_redactions m.id ≡ none
      → let t1 = record t {
        btree = (b.set t.btree m).0;
        messages_map = x.store t.messages_map m.id m;
      } in
        store_message t m k ≡ (
          start_embeds
              (send_event_to_listeners t1
                (set_event m (is_some (b.set t.btree m).1) k (get_neighbors t1 m)))
              m
              k.is_pending,
          m,
          is_some (b.set t.btree m).1,
        )
  unfolding store_message
  store_message_plain t m k h = rw (h, apply_redaction)

  announced :
      (t : MessageTree) (evt : TreeEvent) (m : Message) (pending : Bool)
      → let r = start_embeds (send_event_to_listeners t evt) m pending in
        (r.btree ≡ t.btree)
        × (r.messages_map ≡ t.messages_map)
        × (r.nonces ≡ t.nonces)
        × (r.pending_redactions ≡ t.pending_redactions)
        × (r.room_id ≡ t.room_id)
        × (r.listening ≡ t.listening)
        × (r.embed_cache ≡ t.embed_cache)
        × (r.offered ≡ (if t.listening then t.offered ++ evt ∷ [] else t.offered))
  unfolding start_embeds send_event_to_listeners
  announced t evt m pending = ground arith

  get_neighbors_of-btree :
      (t u : MessageTree) (m : Message) → t.btree ≡ u.btree → get_neighbors t m ≡ get_neighbors u m
  unfolding get_neighbors
  get_neighbors_of-btree t u m h = rw h

  announced_near :
      (t : MessageTree) (m : Message) (replaced : Bool) (k : Claim)
      → let r =
          start_embeds
            (send_event_to_listeners t (set_event m replaced k (get_neighbors t m)))
            m
            k.is_pending in
        (r.btree ≡ t.btree)
        × (r.messages_map ≡ t.messages_map)
        × (r.nonces ≡ t.nonces)
        × (r.pending_redactions ≡ t.pending_redactions)
        × (r.room_id ≡ t.room_id)
        × (r.listening ≡ t.listening)
        × (r.embed_cache ≡ t.embed_cache)
        × (r.offered ≡ (
            if t.listening
            then t.offered ++ set_event m replaced k (get_neighbors r m) ∷ []
            else t.offered))
  announced_near t m replaced k =
      let evt = set_event m replaced k (get_neighbors t m) in
      let r = start_embeds (send_event_to_listeners t evt) m k.is_pending in
      let a = announced t evt m k.is_pending in
      (a.0, a.1, a.2, a.3, a.4, a.5, a.6, rw (get_neighbors_of-btree r t m a.0) a.7)

  -- Together: the parts of the state after `Set`, where no redaction waits.
  pub store_message_parts :
      (t : MessageTree) (m : Message) (k : Claim)
      → x.load t.pending_redactions m.id ≡ none
      → let r = (store_message t m k).0 in
        (r.btree ≡ (b.set t.btree m).0)
        × (r.messages_map ≡ x.store t.messages_map m.id m)
        × (r.nonces ≡ t.nonces)
        × (r.pending_redactions ≡ t.pending_redactions)
        × (r.room_id ≡ t.room_id)
        × (r.listening ≡ t.listening)
        × (r.embed_cache ≡ t.embed_cache)
        × (r.offered ≡ (
            if t.listening
            then t.offered ++ set_event m (is_some (b.set t.btree m).1) k (get_neighbors r m) ∷ []
            else t.offered))
  store_message_parts t m k h =
      rw (store_message_plain t m k h) (announced_near t1 m (is_some (b.set t.btree m).1) k)
    where
      t1 : MessageTree
      t1 = record t { btree = (b.set t.btree m).0; messages_map = x.store t.messages_map m.id m }

  -- The message that `Set` stores.
  abbrev pub stored : MessageTree → Message → Message
  stored t m = record m { room_id = t.room_id; nonce = "" }

  pub set_of-claim :
      (t t1 : MessageTree) (m : Message) (k : Claim)
      → claim t (record m { room_id = t.room_id }) ≡ (t1, k)
      → set t m ≡ store_message t1 (stored t m) k
  unfolding set
  set_of-claim t t1 m k h = rw h

  pub set_parts :
      (t t1 : MessageTree) (m : Message) (k : Claim)
      → claim t (record m { room_id = t.room_id }) ≡ (t1, k)
      → x.load t1.pending_redactions m.id ≡ none
      → let r = (set t m).0 in
        (r.btree ≡ (b.set t1.btree (stored t m)).0)
        × (r.messages_map ≡ x.store t1.messages_map m.id (stored t m))
        × (r.nonces ≡ t1.nonces)
        × (r.pending_redactions ≡ t1.pending_redactions)
        × (r.room_id ≡ t1.room_id)
        × (r.listening ≡ t1.listening)
        × (r.embed_cache ≡ t1.embed_cache)
        × (r.offered ≡ (
            if t1.listening
            then t1.offered
              ++ set_event
                  (stored t m)
                  (is_some (b.set t1.btree (stored t m)).1)
                  k
                  (get_neighbors r (stored t m))
                ∷ []
            else t1.offered))
  set_parts t t1 m k h p = rw (set_of-claim t t1 m k h) (store_message_parts t1 (stored t m) k p)
