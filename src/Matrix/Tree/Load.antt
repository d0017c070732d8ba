-- ===== src/Matrix/Tree/Load.antt =====
-- internal/matrix/message_tree.go: pages of history, decryption and its retries. What mautrix and
-- the server answer is an argument: an `Attempt` for each encrypted event, a `Page` for each
-- request. The goroutines of one page run one after another, in the order of the list, which is
-- any.
use arko.Base.{
  ℕ, String, Bool, true, false, ◌||◌, Option, none, some, List, [], ◌∷◌, ◌==◌, if◌then◌else◌,
  keep_if,
}
use arko.Base.SyncMap.{SyncMap}
use arko.Models.{Message}
use arko.Matrix.Event.{Event, Env, EventType, encrypted, message}
use arko.Matrix.BTree.{BTree}
use arko.Matrix.Tree.{MessageTree, items, set}
use arko.Matrix.Tree.Convert.{
  event_to_message, default_message, decrypting_message, undecryptable_message, redacted_message,
}

-- What `Decrypt` returns: `ErrNoSessionFound` is told apart from other errors.
pub data Decrypted : Type 0 where
  plain : Event → Decrypted
  no_session failure : Decrypted

-- The outcomes that one call of `handleEncrypted` may meet: the session that the content names,
-- where it parses as encrypted content, the first `Decrypt`, whether `WaitForSession` sees the
-- session arrive, and the second `Decrypt`.
pub record Attempt : Type 0 where
  pub session : Option String
  pub first : Decrypted
  pub arrives : Bool
  pub second : Decrypted

-- What it does: the event, if it is decrypted, the sessions requested so far, whether it requests
-- one, and whether it backs the room's keys up.
pub record Handled : Type 0 where
  pub result : Option Event
  pub requested : List String
  pub asks : Bool
  pub backs_up : Bool

unfoldable pub contains : List String → String → Bool
contains [] k = false
contains (j ∷ js) k = j == k || contains js k

unfoldable pub retried : List String → Decrypted → Bool → Handled
retried requested (plain evt) true = record {
  result = some evt;
  requested = requested;
  asks = true;
  backs_up = true;
}
retried requested _ _ = record {
  result = none;
  requested = requested;
  asks = true;
  backs_up = false;
}

unfoldable pub decrypt_with : List String → Attempt → String → Decrypted → Handled
unfolding contains retried
decrypt_with requested a session (plain evt) = record {
  result = some evt;
  requested = requested;
  asks = false;
  backs_up = false;
}
decrypt_with requested a session no_session =
    if contains requested session
    then record { result = none; requested = requested; asks = false; backs_up = false }
    else retried (session ∷ requested) a.second a.arrives
decrypt_with requested a session failure = record {
  result = none;
  requested = requested;
  asks = false;
  backs_up = false;
}

unfoldable pub handle_encrypted : List String → Attempt → Handled
unfolding decrypt_with
handle_encrypted requested a = elim a.session [
  | none ↦ record { result = none; requested = requested; asks = false; backs_up = false }
  | some session ↦ decrypt_with requested a session a.first
]

-- One answer of `Messages`: its `End`, and each event with the nonce drawn for it and what its
-- decryption meets.
pub record Loaded : Type 0 where
  pub event : Event
  pub nonce : String
  pub attempt : Attempt

pub record Page : Type 0 where
  pub end : String
  pub chunk : List Loaded

module _ ⦃x : SyncMap⦄ ⦃b : BTree⦄ (env : Env) where
  -- The last part of a goroutine of `populateTree`, on an event in clear.
  unfoldable pub load_clear : MessageTree → Event → String → EventType → MessageTree
  load_clear t evt nonce message = elim evt.redacted_because [
    | some because ↦ (set t (redacted_message env t.room_id evt because)).0
    | none ↦ elim (event_to_message env t.room_id evt) [
      | none ↦ t
      | some m ↦ (set t (record m { nonce = nonce })).0
    ]
  ]
  load_clear t evt nonce _ = t

  -- An event that could not be decrypted takes the placeholder's place, and is kept for a retry.
  unfoldable pub load_failed : MessageTree → Event → String → MessageTree
  load_failed t evt nonce =
      let m = record (undecryptable_message env t.room_id evt) { nonce = nonce } in
      (set
        (record t {
          raw_encrypted_events = x.store t.raw_encrypted_events m.id evt;
          nonces = x.store t.nonces m.id m;
        })
        m).0

  unfoldable pub load_decrypted : MessageTree → Loaded → Option Event → MessageTree
  unfolding load_clear load_failed
  load_decrypted t l none = load_failed t l.event l.nonce
  load_decrypted t l (some evt) = load_clear t evt l.nonce evt.type

  -- An encrypted event: a placeholder first.
  unfoldable pub load_encrypted : MessageTree → List String → Loaded → MessageTree × List String
  unfolding load_decrypted handle_encrypted
  load_encrypted t requested l = elim l.event.redacted_because [
    | some because ↦ ((set t (redacted_message env t.room_id l.event because)).0, requested)
    | none ↦
        let t1 = (set t (decrypting_message env t.room_id l.event l.nonce)).0 in
        let h = handle_encrypted requested l.attempt in (load_decrypted t1 l h.result, h.requested)
  ]

  unfoldable pub load_event :
      MessageTree → List String → Loaded → EventType → MessageTree × List String
  unfolding load_encrypted load_clear
  load_event t requested l encrypted = load_encrypted t requested l
  load_event t requested l k = (load_clear t l.event "" k, requested)

  unfoldable pub load_chunk : MessageTree → List String → List Loaded → MessageTree
  unfolding load_event
  load_chunk t requested [] = t
  load_chunk t requested (l ∷ ls) =
      let (t1, requested1) = load_event t requested l l.event.type in load_chunk t1 requested1 ls

  -- `populateTree`; `none` is an error of the request.
  unfoldable pub populate_tree : MessageTree → String → Option Page → MessageTree
  unfolding load_chunk
  populate_tree t from none = t
  populate_tree t from (some page) =
      load_chunk
        (record t {
          no_more_history = if page.end == "" || page.end == from then true else t.no_more_history;
          prev_batch = page.end;
        })
        [] page.chunk

  -- The server answers a request from a token.
  unfoldable pub load_next_messages : MessageTree → (String → Option Page) → MessageTree × Bool
  unfolding populate_tree
  load_next_messages t server =
      if t.no_more_history
      then (t, false)
      else (let t1 = populate_tree t t.prev_batch (server t.prev_batch) in
          (t1, if t1.no_more_history then false else true))

  unfoldable pub initialize : MessageTree → (String → Option Page) → MessageTree
  unfolding load_next_messages
  initialize t server =
      if t.initialized then t else (load_next_messages (record t { initialized = true }) server).0

  -- `RetryDecryptMessage`, on the event in clear, whose `Unsigned` mautrix copies from `enc`.
  unfoldable pub retry_clear :
      MessageTree → Message → Event → Event → EventType → MessageTree × Bool
  retry_clear t msg enc evt message = elim evt.redacted_because [
    | some because ↦ (
      (set (record t { raw_encrypted_events = x.delete t.raw_encrypted_events msg.id })
          (redacted_message env t.room_id enc because)).0,
      true,
    )
    | none ↦ elim (event_to_message env t.room_id evt) [
      | none ↦ (t, false)
      | some m ↦ (
        (set (record t { raw_encrypted_events = x.delete t.raw_encrypted_events msg.id })
            (record m { nonce = msg.id })).0,
        true,
      )
    ]
  ]
  retry_clear t msg enc evt _ = (t, false)

  unfoldable pub retry_with : MessageTree → Message → Event → Option Event → MessageTree × Bool
  unfolding retry_clear
  retry_with t msg enc none = (t, false)
  retry_with t msg enc (some evt) = retry_clear t msg enc evt evt.type

  unfoldable pub retry_decrypt_message : MessageTree → Message → Attempt → MessageTree × Bool
  unfolding retry_with handle_encrypted
  retry_decrypt_message t msg a =
      if msg.undecryptable
      then elim (x.load t.raw_encrypted_events msg.id) [
        | none ↦ (t, false)
        | some enc ↦ retry_with t msg enc (handle_encrypted [] a).result
      ]
      else (t, false)

  unfoldable pub retry_each : MessageTree → (Message → Attempt) → List Message → MessageTree
  unfolding retry_decrypt_message
  retry_each t attempt [] = t
  retry_each t attempt (m ∷ ms) = retry_each (retry_decrypt_message t m (attempt m)).0 attempt ms

  unfoldable pub retry_decrypt_all : MessageTree → (Message → Attempt) → MessageTree
  unfolding retry_each
  retry_decrypt_all t attempt = retry_each t attempt (keep_if (λ m. m.undecryptable) (items t))

  -- The message that `SendMessage` shows before the server has it.
  unfoldable pub send_message : MessageTree → String → String → ℕ → String → MessageTree
  send_message t body nonce now user = (set t (default_message env t.room_id body nonce now user)).0
