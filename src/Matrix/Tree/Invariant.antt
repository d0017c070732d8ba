-- ===== src/Matrix/Tree/Invariant.antt =====
-- The invariant of a room's messages, and that `Set`, the receiver goroutine and the embeds keep
-- it.
use arko.Base.{
  ℕ, String, Bool, true, false, not, ◌≡◌, refl, Option, none, some, List, [], ◌∷◌, arith, ◌==◌,
  has_prefix, ◌||◌, if◌then◌else◌, if_intro,
}
use arko.Base.SyncMap.{SyncMap}
use arko.Models.{Message, Embed}
use arko.Matrix.Event.{Event, Env, EventType, message, redaction}
use arko.Matrix.BTree.{BTree}
use arko.Matrix.Tree.{
  MessageTree, Claim, TreeEvent, claim, replace_pending, apply_redaction, redacted_message_from,
  send_event_to_listeners, start_embeds, store_message, set, delete_message,
}
use arko.Matrix.Tree.Listen.{set_some, redact, dispatch, receive, store_embeds}
use arko.Matrix.Ids.{safe_hash_class}
use arko.Matrix.Tree.Convert.{event_to_message, unix_milli}
use arko.Models.Sorted.{Holds}
use arko.Matrix.Tree.Agree.{Agree, Agree-put, Agree-drop}

module _ ⦃x : SyncMap⦄ ⦃b : BTree⦄ (ts : String → ℕ) where
  abbrev pub Dated : Message → Type 0
  Dated m = m.timestamp ≡ ts m.id

  -- The instant of an event is that of its message's id.
  abbrev pub IsDatedEvent : Event → Type 0
  IsDatedEvent evt = unix_milli evt.timestamp ≡ ts (safe_hash_class evt.id)

  -- The tree is sorted without two messages of one key, it and the map hold the same messages, and
  -- every message that waits to be replaced, and every event that waits for its key, has the
  -- instant of its id.
  pub record Coherent (t : MessageTree) : Type 0 where
    pub agree : Agree ts t.btree t.messages_map
    pub nonces_dated : (n : String) (e : Message) → x.load t.nonces n ≡ some e → Dated e
    pub raws_dated :
        (id : String) (enc : Event) → x.load t.raw_encrypted_events id ≡ some enc → IsDatedEvent enc

  replace_pending-Coherent :
      (t : MessageTree) (m : Message) (found : Option Message)
      → Coherent t
      → ((e : Message) → found ≡ some e → Dated e)
      → Coherent (replace_pending t m found).0
  unfolding replace_pending
  replace_pending-Coherent t m none c d = c
  replace_pending-Coherent t m (some e) c d = record {
    agree = Agree-drop ts t.btree t.messages_map e (d e refl) c.agree;
    nonces_dated = λ n a h. ground (arith, x.load-delete t.nonces m.nonce n, c.nonces_dated n a);
    raws_dated = c.raws_dated;
  }

  claim-Coherent : (t : MessageTree) (m : Message) → Coherent t → Dated m → Coherent (claim t m).0
  unfolding claim
  claim-Coherent t m c d =
      if_intro (λ (r : MessageTree × Claim). Coherent r.0) (not (m.nonce == "")) _ _
        (λ _. replace_pending-Coherent t m _ c (c.nonces_dated m.nonce))
        λ _.
          if_intro (λ (r : MessageTree × Claim). Coherent r.0)
            (has_prefix m.id "pending-" || has_prefix m.id "decrypting-") _ _ (λ _. pending) λ _. c
    where
      pending : Coherent (record t { nonces = x.store t.nonces m.id m })
      pending = record {
        agree = c.agree;
        nonces_dated = λ n a h. ground (arith, x.load-store t.nonces m.id n m, c.nonces_dated n a);
        raws_dated = c.raws_dated;
      }

  send-Coherent :
      (t : MessageTree) (evt : TreeEvent) → Coherent t → Coherent (send_event_to_listeners t evt)
  unfolding send_event_to_listeners
  send-Coherent t evt c =
      if_intro Coherent t.listening _ _
        (λ _. record { agree = c.agree; nonces_dated = c.nonces_dated; raws_dated = c.raws_dated })
        λ _. c

  redaction-Coherent :
      (t : MessageTree) (m : Message) (pending : Bool) (found : Option Event)
      → Coherent t
      → Dated m
      → Coherent (apply_redaction t m pending found).0 × Dated (apply_redaction t m pending found).1
  unfolding apply_redaction
  redaction-Coherent t m pending none c d = (c, d)
  redaction-Coherent t m pending (some evt) c d = (
    record {
      agree = Agree-put ts t.btree t.messages_map (redacted_message_from m evt) d c.agree;
      nonces_dated = λ n a h. later n a pending h;
      raws_dated = c.raws_dated;
    },
    d,
  )
    where
      later :
          (n : String) (a : Message) (p : Bool)
          → x.load (if p then x.store t.nonces m.id (redacted_message_from m evt) else t.nonces) n
            ≡ some a
          → Dated a
      later n a true h =
          ground
            (arith, x.load-store t.nonces m.id n (redacted_message_from m evt), c.nonces_dated n a)
      later n a false h = c.nonces_dated n a h

  start-Coherent :
      (t : MessageTree) (m : Message) (pending : Bool)
      → Coherent t
      → Coherent (start_embeds t m pending)
  unfolding start_embeds
  start-Coherent t m true c = c
  start-Coherent t m false c = record {
    agree = c.agree;
    nonces_dated = c.nonces_dated;
    raws_dated = c.raws_dated;
  }

  store-Coherent :
      (t : MessageTree) (m : Message) (k : Claim)
      → Coherent t
      → Dated m
      → Coherent (store_message t m k).0
  unfolding store_message
  store-Coherent t m k c d = start-Coherent _ _ k.is_pending (send-Coherent _ _ redacted.0)
    where
      t1 : MessageTree
      t1 = record t { btree = (b.set t.btree m).0; messages_map = x.store t.messages_map m.id m }

      put : Coherent t1
      put = record {
        agree = Agree-put ts t.btree t.messages_map m d c.agree;
        nonces_dated = c.nonces_dated;
        raws_dated = c.raws_dated;
      }

      redacted :
          Coherent (apply_redaction t1 m k.is_pending (x.load t.pending_redactions m.id)).0
          × Dated (apply_redaction t1 m k.is_pending (x.load t.pending_redactions m.id)).1
      redacted = redaction-Coherent t1 m k.is_pending (x.load t.pending_redactions m.id) put d

  -- `Set` keeps the invariant.
  pub set-Coherent : (t : MessageTree) (m : Message) → Coherent t → Dated m → Coherent (set t m).0
  unfolding set
  set-Coherent t m c d =
      store-Coherent _ _ _ (claim-Coherent t (record m { room_id = t.room_id }) c d) d

  pub set_some-Coherent :
      (t : MessageTree) (o : Option Message)
      → Coherent t
      → ((m : Message) → o ≡ some m → Dated m)
      → Coherent (set_some t o)
  unfolding set_some
  set_some-Coherent t none c d = c
  set_some-Coherent t (some m) c d = set-Coherent t m c (d m refl)

  -- A message that is taken out of the map and the tree.
  pub dropped-Coherent :
      (t : MessageTree) (id : String) (m : Message)
      → Coherent t
      → x.load t.messages_map id ≡ some m
      → Coherent (delete_message (record t { messages_map = x.delete t.messages_map id }) m)
  unfolding delete_message
  dropped-Coherent t id m c h = send-Coherent _ _ dropped
    where
      same : (m.id ≡ id) × Holds m (b.items t.btree)
      same = c.agree.held id m h

      dropped :
          Coherent
            (record t { messages_map = x.delete t.messages_map id; btree = b.delete t.btree m })
      dropped = record {
        agree =
            rw (← same.0) (Agree-drop ts t.btree t.messages_map m (c.agree.dated m same.1) c.agree);
        nonces_dated = c.nonces_dated;
        raws_dated = c.raws_dated;
      }

  redact-Coherent :
      (t : MessageTree) (id : String) (evt : Event) (found : Option Message)
      → Coherent t
      → x.load t.messages_map id ≡ found
      → Coherent (redact t id evt found)
  unfolding redact redacted_message_from
  redact-Coherent t id evt none c h = c
  redact-Coherent t id evt (some m) c h =
      set-Coherent _ (redacted_message_from m evt) (dropped-Coherent t id m c h)
        (c.agree.dated m (c.agree.held id m h).1)

  pub event_to_message-Dated :
      (env : Env) (room_id : String) (evt : Event) (m : Message)
      → IsDatedEvent evt
      → event_to_message env room_id evt ≡ some m
      → Dated m
  unfolding event_to_message
  event_to_message-Dated env room_id evt m d h = ground arith

  dispatch-Coherent :
      (env : Env) (t : MessageTree) (evt : Event) (k : EventType)
      → Coherent t
      → IsDatedEvent evt
      → Coherent (dispatch env t evt k)
  unfolding dispatch
  dispatch-Coherent env t evt message c d =
      set_some-Coherent t _ c λ m. event_to_message-Dated env t.room_id evt m d
  dispatch-Coherent env t evt redaction c d = redact-Coherent t _ evt _ c refl
  dispatch-Coherent env t evt _ c d = c

  -- So does every round of the receiver goroutine.
  pub receive-Coherent :
      (env : Env) (t : MessageTree) (evt : Event)
      → Coherent t
      → IsDatedEvent evt
      → Coherent (receive env t evt)
  unfolding receive
  receive-Coherent env t evt c d =
      if_intro Coherent (evt.room_id == t.room_id) _ _
        (λ _. dispatch-Coherent env t evt evt.type c d) λ _. c

  -- And the embeds of any message, whenever they arrive.
  pub embeds-Coherent :
      (t : MessageTree) (m : Message) (es : List Embed)
      → Coherent t
      → Dated m
      → Coherent (store_embeds t m es)
  unfolding store_embeds
  embeds-Coherent t m [] c d = c
  embeds-Coherent t m (e ∷ es) c d = send-Coherent _ _ put
    where
      m' : Message
      m' = record m { embeds = e ∷ es }

      put :
          Coherent (record t {
            btree = (b.set t.btree m').0;
            messages_map = x.store t.messages_map m.id m';
          })
      put = record {
        agree = Agree-put ts t.btree t.messages_map m' d c.agree;
        nonces_dated = c.nonces_dated;
        raws_dated = c.raws_dated;
      }
