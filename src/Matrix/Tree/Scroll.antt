-- ===== src/Matrix/Tree/Scroll.antt =====
-- The pages of history of a room without encryption, one after another.
use arko.Base.{
  String, Bool, true, false, not, ◌≡◌, ◌≢◌, refl, ◌∙◌, Option, none, some, List, [], ◌∷◌, ◌==◌,
  ◌||◌, eq_iff, All, has_prefix, if_intro, arith, Bool-cases, Option-cases, inl, inr, ◌⊎◌, is_some,
}
use arko.Base.SyncMap.{SyncMap}
use arko.Models.{Message}
use arko.Matrix.BTree.{BTree}
use arko.Matrix.Event.{
  Event, Env, EventType, encrypted, message, reaction, sticker, redaction, other,
}
use arko.Matrix.Ids.{safe_hash_class}
use arko.Matrix.Tree.{
  MessageTree, TreeEvent, Claim, claim, apply_redaction, redacted_message_from,
  send_event_to_listeners, start_embeds, store_message, set,
}
use arko.Matrix.Tree.Convert.{event_to_message, redacted_message}
use arko.Matrix.Tree.Load.{Loaded, load_clear, load_event, load_chunk}

module _ ⦃x : SyncMap⦄ ⦃b : BTree⦄ where
  -- The map has a message under an id.
  abbrev pub Has : MessageTree → String → Type 0
  Has t id = (a : Message) × (x.load t.messages_map id ≡ some a)

  -- No message is lost, and the place in the history stays.
  pub record Grows (t u : MessageTree) : Type 0 where
    pub batch : u.prev_batch ≡ t.prev_batch
    pub more : u.no_more_history ≡ t.no_more_history
    pub kept : (id : String) → Has t id → Has u id

  Grows-refl : (t : MessageTree) → Grows t t
  Grows-refl t = record { batch = refl; more = refl; kept = λ id h. h }

  Grows-trans : {t u v : MessageTree} → Grows t u → Grows u v → Grows t v
  Grows-trans g h = record {
    batch = h.batch ∙ g.batch;
    more = h.more ∙ g.more;
    kept = λ id a. h.kept id (g.kept id a);
  }

  -- A message that is stored in the map.
  Has-store :
      (t : MessageTree) (m : Message) (id : String)
      → Has t id ⊎ (m.id ≡ id)
      → (a : Message) × (x.load (x.store t.messages_map m.id m) id ≡ some a)
  Has-store t m id h = elim (Bool-cases (m.id == id)) [
    | inl e ↦ (m, x.load-store t.messages_map m.id id m ∙ rw e refl)
    | inr n ↦ elim h [
      | inl (a, k) ↦ (a, x.load-store t.messages_map m.id id m ∙ rw n k)
      | inr e ↦ absurd (ground (arith, eq_iff m.id id))
    ]
  ]

  claim-Grows : (t : MessageTree) (m : Message) → m.nonce ≡ "" → Grows t (claim t m).0
  unfolding claim
  claim-Grows t m e =
      if_intro (λ (r : MessageTree × Claim). Grows t r.0) (not (m.nonce == "")) _ _
        (λ h. absurd (ground (arith, eq_iff m.nonce "")))
        λ _.
          if_intro (λ (r : MessageTree × Claim). Grows t r.0)
            (has_prefix m.id "pending-" || has_prefix m.id "decrypting-") _ _
            (λ _. record { batch = refl; more = refl; kept = λ id h. h }) λ _. Grows-refl t

  redaction-Grows :
      (t : MessageTree) (m : Message) (pending : Bool) (found : Option Event)
      → Grows t (apply_redaction t m pending found).0
  unfolding apply_redaction redacted_message_from
  redaction-Grows t m pending none = Grows-refl t
  redaction-Grows t m pending (some evt) = record {
    batch = refl;
    more = refl;
    kept = λ id h. Has-store t (redacted_message_from m evt) id (inl h);
  }

  send-Grows : (t : MessageTree) (evt : TreeEvent) → Grows t (send_event_to_listeners t evt)
  unfolding send_event_to_listeners
  send-Grows t evt =
      if_intro (Grows t) t.listening _ _
        (λ _. record { batch = refl; more = refl; kept = λ id h. h }) λ _. Grows-refl t

  start-Grows :
      (t : MessageTree) (m : Message) (pending : Bool) → Grows t (start_embeds t m pending)
  unfolding start_embeds
  start-Grows t m true = Grows-refl t
  start-Grows t m false = record { batch = refl; more = refl; kept = λ id h. h }

  store-Grows :
      (t : MessageTree) (m : Message) (k : Claim)
      → Grows t (store_message t m k).0 × Has (store_message t m k).0 m.id
  unfolding store_message
  store-Grows t m k =
      let t1 : MessageTree = record t {
        btree = (b.set t.btree m).0;
        messages_map = x.store t.messages_map m.id m;
      } in
      let put : Grows t t1 = record {
        batch = refl;
        more = refl;
        kept = λ id h. Has-store t m id (inl h);
      } in
      let rest =
        Grows-trans (redaction-Grows t1 m k.is_pending (x.load t.pending_redactions m.id))
          (Grows-trans (send-Grows _ _) (start-Grows _ _ k.is_pending)) in
      (Grows-trans put rest, rest.kept m.id (Has-store t m m.id (inr refl)))

  set-Grows :
      (t : MessageTree) (m : Message) → m.nonce ≡ "" → Grows t (set t m).0 × Has (set t m).0 m.id
  unfolding set
  set-Grows t m e =
      let start = claim-Grows t (record m { room_id = t.room_id }) e in
      let stored =
        store-Grows (claim t (record m { room_id = t.room_id })).0
          (record m { room_id = t.room_id; nonce = "" })
          (claim t (record m { room_id = t.room_id })).1 in
      (Grows-trans start stored.0, stored.1)

  -- An event that shows: a message whose content parses, or that was redacted.
  abbrev pub Shows : Event → Type 0
  Shows evt = (evt.type ≡ message) × ((is_some evt.body || is_some evt.redacted_because) ≡ true)

  -- A page of a room without encryption.
  abbrev pub IsClear : Loaded → Type 0
  IsClear l = l.event.type ≢ encrypted

  -- Every event of a list that shows has its message.
  abbrev pub AllHas : MessageTree → List Loaded → Type 0
  AllHas t ls = All (λ l. Shows l.event → Has t (safe_hash_class l.event.id)) ls

  AllHas-Grows : {t u : MessageTree} (ls : List Loaded) → Grows t u → AllHas t ls → AllHas u ls
  AllHas-Grows [] g h = tt
  AllHas-Grows (l ∷ ls) g h = (λ s. g.kept _ (h.0 s), AllHas-Grows ls g h.1)

  module _ (env : Env) where
    clear-Grows :
        (t : MessageTree) (evt : Event) (k : EventType) → Grows t (load_clear env t evt "" k)
    unfolding load_clear redacted_message
    clear-Grows t evt message = elim (Option-cases evt.redacted_because) [
      | inl e ↦ elim (Option-cases (event_to_message env t.room_id evt)) [
        | inl f ↦ rw (e, f, load_clear) (Grows-refl t)
        | inr (m, f) ↦ rw (e, f, load_clear) (set-Grows t (record m { nonce = "" }) refl).0
      ]
      | inr (because, e) ↦
          rw (e, load_clear) (set-Grows t (redacted_message env t.room_id evt because) refl).0
    ]
    clear-Grows t evt encrypted = Grows-refl t
    clear-Grows t evt reaction = Grows-refl t
    clear-Grows t evt sticker = Grows-refl t
    clear-Grows t evt redaction = Grows-refl t
    clear-Grows t evt other = Grows-refl t

    shown_message :
        (room_id : String) (evt : Event) (body : String)
        → evt.body ≡ some body
        → (m : Message) × (event_to_message env room_id evt ≡ some m)
          × (m.id ≡ safe_hash_class evt.id)
    unfolding event_to_message
    shown_message room_id evt body f = elim (Option-cases (event_to_message env room_id evt)) [
      | inl n ↦ absurd (ground arith)
      | inr (m, g) ↦ (m, g, ground arith)
    ]

    clear-Has :
        (t : MessageTree) (evt : Event)
        → (is_some evt.body || is_some evt.redacted_because) ≡ true
        → Has (load_clear env t evt "" message) (safe_hash_class evt.id)
    unfolding load_clear redacted_message
    clear-Has t evt h = elim (Option-cases evt.redacted_because) [
      | inl e ↦ elim (Option-cases evt.body) [
        | inl f ↦ absurd (ground arith)
        | inr (body, f) ↦
            let (m, g, id) = shown_message t.room_id evt body f in
            rw (e, g, load_clear) (rw (← id) (set-Grows t (record m { nonce = "" }) refl).1)
      ]
      | inr (because, e) ↦
          rw (e, load_clear) (set-Grows t (redacted_message env t.room_id evt because) refl).1
    ]

    event-Grows :
        (t : MessageTree) (requested : List String) (l : Loaded) (k : EventType)
        → k ≢ encrypted
        → Grows t (load_event env t requested l k).0
    unfolding load_event
    event-Grows t requested l encrypted n = absurd (n refl)
    event-Grows t requested l message n = clear-Grows t l.event message
    event-Grows t requested l reaction n = clear-Grows t l.event reaction
    event-Grows t requested l sticker n = clear-Grows t l.event sticker
    event-Grows t requested l redaction n = clear-Grows t l.event redaction
    event-Grows t requested l other n = clear-Grows t l.event other

    event-Has :
        (t : MessageTree) (requested : List String) (l : Loaded) (k : EventType)
        → k ≡ message
        → (is_some l.event.body || is_some l.event.redacted_because) ≡ true
        → Has (load_event env t requested l k).0 (safe_hash_class l.event.id)
    unfolding load_event
    event-Has t requested l message e h = clear-Has t l.event h
    event-Has t requested l encrypted e h = cc
    event-Has t requested l reaction e h = cc
    event-Has t requested l sticker e h = cc
    event-Has t requested l redaction e h = cc
    event-Has t requested l other e h = cc

    pub chunk-Grows :
        (t : MessageTree) (requested : List String) (ls : List Loaded)
        → All IsClear ls
        → Grows t (load_chunk env t requested ls) × AllHas (load_chunk env t requested ls) ls
    unfolding load_chunk
    chunk-Grows t requested [] c = (Grows-refl t, tt)
    chunk-Grows t requested (l ∷ ls) c =
        let one = load_event env t requested l l.event.type in
        let rest = chunk-Grows one.0 one.1 ls c.1 in
        (
          Grows-trans (event-Grows t requested l l.event.type c.0) rest.0,
          ((λ s. rest.0.kept _ (event-Has t requested l l.event.type s.0 s.1)), rest.1),
        )
