-- ===== src/Matrix/Tree/Convert.antt =====
-- internal/matrix/message_tree.go: the messages made from events and from what the user writes.
use arko.Base.{ℕ, ◌*◌, String, ◌+s◌, true, false, Option, none, some, []}
use arko.Models.{User, Message, online}
use arko.Matrix.Event.{Event, Env}
use arko.Matrix.Ids.{safe_hash_class}

-- A message with no more than an id, an author, an instant and a room.
abbrev pub bare : String → User → ℕ → String → Message
bare id author timestamp room_id = record {
  id = id;
  content = "";
  author = author;
  timestamp = timestamp;
  nonce = "";
  room_id = room_id;
  reactions = [];
  thread_count = 0;
  thread_participants = [];
  last_thread_reply = 0;
  attachments = [];
  embeds = [];
  undecryptable = false;
  redacted = false;
  is_pinned = false;
  is_system = false;
  system_icon = "";
}

-- time.UnixMilli
abbrev pub unix_milli : ℕ → ℕ
unix_milli ms = ms * 1_000_000

module _ (env : Env) (room_id : String) where
  -- The id of an event's message.
  abbrev pub event_id : Event → String
  event_id evt = safe_hash_class evt.id

  unfoldable pub event_to_message : Event → Option Message
  event_to_message evt = elim evt.body [
    | none ↦ none
    | some body ↦
        some
          (record (bare (event_id evt) (env.profile evt.sender) (unix_milli evt.timestamp)
            room_id) { content = body; nonce = evt.transaction_id })
  ]

  unfoldable pub default_message : String → String → ℕ → String → Message
  default_message content nonce now user = record (bare nonce (env.profile user) now room_id) {
    content = content;
  }

  unfoldable pub decrypting_message : Event → String → Message
  decrypting_message evt nonce =
      bare nonce
        (record {
          id = evt.sender;
          name = env.localpart evt.sender;
          avatar = "https://api.dicebear.com/7.x/avataaars/svg?seed=" +s env.localpart evt.sender;
          status = online;
          homeserver = "";
          e2ee = false;
        })
        (unix_milli evt.timestamp) room_id

  unfoldable pub undecryptable_message : Event → Message
  undecryptable_message evt =
      record (bare (event_id evt) (env.profile evt.sender) (unix_milli evt.timestamp) room_id) {
        undecryptable = true;
      }

  -- `because` is the reason of the redaction, read where the event has been redacted.
  unfoldable pub redacted_message : Event → String → Message
  redacted_message evt because =
      record (bare (event_id evt) (env.profile evt.sender) (unix_milli evt.timestamp) room_id) {
        content = because;
        redacted = true;
      }
