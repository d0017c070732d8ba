-- ===== src/Matrix/Tree/History.antt =====
-- Pages of history, decryption and retries keep the invariant of the tree.
use arko.Base.{
  ℕ, String, ◌≡◌, refl, Option, none, some, List, [], ◌∷◌, arith, All, if_intro, false, Bool,
  Option-cases, inl, inr, keep_if, true,
}
use arko.Base.SyncMap.{SyncMap}
use arko.Models.{Message}
use arko.Matrix.Event.{Event, Env, EventType, encrypted, message}
use arko.Matrix.BTree.{BTree}
use arko.Matrix.Tree.{MessageTree, items}
use arko.Matrix.Tree.Convert.{
  event_to_message, decrypting_message, undecryptable_message, redacted_message, unix_milli,
}
use arko.Matrix.Tree.Invariant.{Coherent, set-Coherent, IsDatedEvent, event_to_message-Dated}
use arko.Matrix.Tree.Load.{
  Attempt, Loaded, Page, handle_encrypted, load_clear, load_failed, load_decrypted, load_encrypted,
  load_event, load_chunk, populate_tree, load_next_messages, retry_clear, retry_with,
  retry_decrypt_message, retry_each, retry_decrypt_all, initialize,
}

module _ ⦃x : SyncMap⦄ ⦃b : BTree⦄ (ts : String → ℕ) where
  -- Whatever an attempt decrypts has the instant of its id.
  abbrev pub IsDatedAttempt : Attempt → Type 0
  IsDatedAttempt a =
      (requested : List String) (evt : Event)
      → (handle_encrypted requested a).result ≡ some evt
      → IsDatedEvent ts evt

  -- And so do an event of a page, its placeholder and its decryption.
  pub record IsDatedLoaded (l : Loaded) : Type 0 where
    pub event : IsDatedEvent ts l.event
    pub nonce : unix_milli l.event.timestamp ≡ ts l.nonce
    pub attempt : IsDatedAttempt l.attempt

  module _ (env : Env) where
    clear-Coherent :
        (t : MessageTree) (evt : Event) (nonce : String) (k : EventType)
        → Coherent ts t
        → IsDatedEvent ts evt
        → Coherent ts (load_clear env t evt nonce k)
    unfolding load_clear redacted_message
    clear-Coherent t evt nonce message c d = elim (Option-cases evt.redacted_because) [
      | inl e ↦ elim (Option-cases (event_to_message env t.room_id evt)) [
        | inl f ↦ rw (e, f, load_clear) c
        | inr (m, f) ↦
            rw (e, f, load_clear)
              (set-Coherent ts t _ c (event_to_message-Dated ts env t.room_id evt m d f))
      ]
      | inr (because, e) ↦ rw (e, load_clear) (set-Coherent ts t _ c d)
    ]
    clear-Coherent t evt nonce _ c d = c

    failed-Coherent :
        (t : MessageTree) (evt : Event) (nonce : String)
        → Coherent ts t
        → IsDatedEvent ts evt
        → Coherent ts (load_failed env t evt nonce)
    unfolding load_failed undecryptable_message
    failed-Coherent t evt nonce c d = set-Coherent ts _ m kept d
      where
        m : Message
        m = record (undecryptable_message env t.room_id evt) { nonce = nonce }

        kept : Coherent ts (record t {
          raw_encrypted_events = x.store t.raw_encrypted_events m.id evt;
          nonces = x.store t.nonces m.id m;
        })
        kept = record {
          agree = c.agree;
          nonces_dated =
              λ n a h. ground (arith, x.load-store t.nonces m.id n m, c.nonces_dated n a);
          raws_dated = λ id enc h.
              ground
                (arith, x.load-store t.raw_encrypted_events m.id id evt, c.raws_dated id enc, d);
        }

    decrypted-Coherent :
        (t : MessageTree) (l : Loaded) (o : Option Event)
        → Coherent ts t
        → IsDatedEvent ts l.event
        → ((evt : Event) → o ≡ some evt → IsDatedEvent ts evt)
        → Coherent ts (load_decrypted env t l o)
    unfolding load_decrypted
    decrypted-Coherent t l none c d e = failed-Coherent t l.event l.nonce c d
    decrypted-Coherent t l (some evt) c d e = clear-Coherent t evt l.nonce evt.type c (e evt refl)

    encrypted-Coherent :
        (t : MessageTree) (requested : List String) (l : Loaded)
        → Coherent ts t
        → IsDatedLoaded l
        → Coherent ts (load_encrypted env t requested l).0
    unfolding load_encrypted redacted_message decrypting_message
    encrypted-Coherent t requested l c d = elim (Option-cases l.event.redacted_because) [
      | inl e ↦
          rw (e, load_encrypted)
            (decrypted-Coherent _ l _ (set-Coherent ts t _ c d.nonce) d.event (d.attempt requested))
      | inr (because, e) ↦ rw (e, load_encrypted) (set-Coherent ts t _ c d.event)
    ]

    event-Coherent :
        (t : MessageTree) (requested : List String) (l : Loaded) (k : EventType)
        → Coherent ts t
        → IsDatedLoaded l
        → Coherent ts (load_event env t requested l k).0
    unfolding load_event
    event-Coherent t requested l encrypted c d = encrypted-Coherent t requested l c d
    event-Coherent t requested l message c d = clear-Coherent t l.event "" message c d.event
    event-Coherent t requested l k c d = clear-Coherent t l.event "" k c d.event

    pub chunk-Coherent :
        (t : MessageTree) (requested : List String) (ls : List Loaded)
        → Coherent ts t
        → All IsDatedLoaded ls
        → Coherent ts (load_chunk env t requested ls)
    unfolding load_chunk
    chunk-Coherent t requested [] c d = c
    chunk-Coherent t requested (l ∷ ls) c d =
        chunk-Coherent (load_event env t requested l l.event.type).0
          (load_event env t requested l l.event.type).1 ls
          (event-Coherent t requested l l.event.type c d.0) d.1

    populate-Coherent :
        (t : MessageTree) (from : String) (answer : Option Page)
        → Coherent ts t
        → ((page : Page) → answer ≡ some page → All IsDatedLoaded page.chunk)
        → Coherent ts (populate_tree env t from answer)
    unfolding populate_tree
    populate-Coherent t from none c d = c
    populate-Coherent t from (some page) c d =
        chunk-Coherent _ [] page.chunk
          (record { agree = c.agree; nonces_dated = c.nonces_dated; raws_dated = c.raws_dated })
          (d page refl)

    pub load_next_messages-Coherent :
        (t : MessageTree) (server : String → Option Page)
        → Coherent ts t
        → ((token : String) (page : Page) → server token ≡ some page → All IsDatedLoaded page.chunk)
        → Coherent ts (load_next_messages env t server).0
    unfolding load_next_messages
    load_next_messages-Coherent t server c d =
        if_intro (λ (r : MessageTree × Bool). Coherent ts r.0) t.no_more_history _ _ (λ _. c)
          λ _. populate-Coherent t t.prev_batch (server t.prev_batch) c (d t.prev_batch)

    retry_clear-Coherent :
        (t : MessageTree) (msg : Message) (enc evt : Event) (k : EventType)
        → Coherent ts t
        → IsDatedEvent ts enc
        → IsDatedEvent ts evt
        → Coherent ts (retry_clear env t msg enc evt k).0
    unfolding retry_clear redacted_message
    retry_clear-Coherent t msg enc evt message c d e = elim (Option-cases evt.redacted_because) [
      | inl g ↦ elim (Option-cases (event_to_message env t.room_id evt)) [
        | inl f ↦ rw (g, f, retry_clear) c
        | inr (m, f) ↦
            rw (g, f, retry_clear)
              (set-Coherent ts _ _ dropped (event_to_message-Dated ts env t.room_id evt m e f))
      ]
      | inr (because, g) ↦ rw (g, retry_clear) (set-Coherent ts _ _ dropped d)
    ]
      where
        dropped :
            Coherent ts (record t { raw_encrypted_events = x.delete t.raw_encrypted_events msg.id })
        dropped = record {
          agree = c.agree;
          nonces_dated = c.nonces_dated;
          raws_dated = λ id e h.
              ground (arith, x.load-delete t.raw_encrypted_events msg.id id, c.raws_dated id e);
        }
    retry_clear-Coherent t msg enc evt _ c d e = c

    retry_with-Coherent :
        (t : MessageTree) (msg : Message) (enc : Event) (o : Option Event)
        → Coherent ts t
        → IsDatedEvent ts enc
        → ((evt : Event) → o ≡ some evt → IsDatedEvent ts evt)
        → Coherent ts (retry_with env t msg enc o).0
    unfolding retry_with
    retry_with-Coherent t msg enc none c d e = c
    retry_with-Coherent t msg enc (some evt) c d e =
        retry_clear-Coherent t msg enc evt evt.type c d (e evt refl)

    pub retry_decrypt_message-Coherent :
        (t : MessageTree) (msg : Message) (a : Attempt)
        → Coherent ts t
        → IsDatedAttempt a
        → Coherent ts (retry_decrypt_message env t msg a).0
    unfolding retry_decrypt_message
    retry_decrypt_message-Coherent t msg a c e =
        if_intro (λ (r : MessageTree × Bool). Coherent ts r.0) msg.undecryptable _ _
          (λ _. found (x.load t.raw_encrypted_events msg.id) (c.raws_dated msg.id)) λ _. c
      where
        found :
            (o : Option Event)
            → ((enc : Event) → o ≡ some enc → IsDatedEvent ts enc)
            → Coherent ts
                (elim o as (λ _. MessageTree × Bool) [
                  | none ↦ (t, false)
                  | some enc ↦ retry_with env t msg enc (handle_encrypted [] a).result
                ]).0
        found none h = c
        found (some enc) h = retry_with-Coherent t msg enc _ c (h enc refl) (e [])

    retry_each-Coherent :
        (t : MessageTree) (attempt : Message → Attempt) (ms : List Message)
        → Coherent ts t
        → ((m : Message) → IsDatedAttempt (attempt m))
        → Coherent ts (retry_each env t attempt ms)
    unfolding retry_each
    retry_each-Coherent t attempt [] c d = c
    retry_each-Coherent t attempt (m ∷ ms) c d =
        retry_each-Coherent (retry_decrypt_message env t m (attempt m)).0 attempt ms
          (retry_decrypt_message-Coherent t m (attempt m) c (d m)) d

    pub retry_decrypt_all-Coherent :
        (t : MessageTree) (attempt : Message → Attempt)
        → Coherent ts t
        → ((m : Message) → IsDatedAttempt (attempt m))
        → Coherent ts (retry_decrypt_all env t attempt)
    unfolding retry_decrypt_all
    retry_decrypt_all-Coherent t attempt c d =
        retry_each-Coherent t attempt (keep_if (λ m. m.undecryptable) (items t)) c d

    pub initialize-Coherent :
        (t : MessageTree) (server : String → Option Page)
        → Coherent ts t
        → ((token : String) (page : Page) → server token ≡ some page → All IsDatedLoaded page.chunk)
        → Coherent ts (initialize env t server)
    unfolding initialize
    initialize-Coherent t server c d =
        if_intro (Coherent ts) t.initialized _ _ (λ _. c)
          λ _.
            load_next_messages-Coherent (record t { initialized = true }) server
              (record { agree = c.agree; nonces_dated = c.nonces_dated; raws_dated = c.raws_dated })
              d
