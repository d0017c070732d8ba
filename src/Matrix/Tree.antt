-- ===== src/Matrix/Tree.antt =====
-- internal/matrix/message_tree.go: the messages of a room. Every function below runs under the
-- tree's lock, so a state is what other goroutines can see between two of them. `offered` lists the
-- events handed to `sendEventToListeners` while somebody listens, and `embed_jobs` the messages
-- whose `fetchAndApplyEmbeds` has been started and has not run yet.
pub mod Convert
pub mod Listen
pub mod Load
pub mod Agree
pub mod Invariant
pub mod History
pub mod Run
pub mod Parts
pub mod Echo
pub mod Redaction
pub mod Near
pub mod Scroll
pub mod Past
use arko.Base.{
  ℕ, ◌*◌, String, Bool, true, false, not, ◌&&◌, ◌||◌, Option, none, some, List, [], ◌∷◌, ◌++◌, ◌==◌,
  has_prefix, is_some, if◌then◌else◌,
}
use arko.Base.SyncMap.{SyncMap}
use arko.Cache
use arko.Cache.{Cache}
use arko.Models.{Message, Embed}
use arko.Matrix.Event.{Event}
use arko.Matrix.BTree.{BTree}

pub data TreeEventType : Type 0 where
  add_event remove_event update_event : TreeEventType

pub record Neighbors : Type 0 where
  pub prev : Option Message
  pub next : Option Message

pub record TreeEvent : Type 0 where
  pub event_type : TreeEventType
  pub update_nonce : String
  pub message : Message
  pub neighbors : Neighbors

abbrev pub no_neighbors : Neighbors
no_neighbors = record { prev = none; next = none }

-- What the first part of `Set` finds out about a message.
pub record Claim : Type 0 where
  pub replaced_nonce : String
  pub replaced_pending : Bool
  pub is_pending : Bool

unfoldable pub redacted_message_from : Message → Event → Message
redacted_message_from original evt = record original { content = evt.reason; redacted = true }

module _ ⦃x : SyncMap⦄ ⦃b : BTree⦄ where
  pub record MessageTree : Type 0 where
    pub btree : b.Tree
    pub messages_map : x.Map Message
    pub nonces : x.Map Message
    pub pending_redactions : x.Map Event
    pub raw_encrypted_events : x.Map Event
    pub room_id : String
    pub is_encrypted : Bool
    pub embed_cache : Cache (List Embed)
    pub listening : Bool
    pub initialized : Bool
    pub prev_batch : String
    pub no_more_history : Bool
    pub offered : List TreeEvent
    pub embed_jobs : List Message

  -- The messages in order.
  abbrev pub items : MessageTree → List Message
  items t = b.items t.btree

  unfoldable pub new_message_tree : String → Bool → MessageTree
  unfolding Cache.new
  new_message_tree room_id is_encrypted = record {
    btree = b.empty;
    messages_map = x.new;
    nonces = x.new;
    pending_redactions = x.new;
    raw_encrypted_events = x.new;
    room_id = room_id;
    is_encrypted = is_encrypted;
    embed_cache = Cache.new 86_400_000_000_000;
    listening = false;
    initialized = false;
    prev_batch = "";
    no_more_history = false;
    offered = [];
    embed_jobs = [];
  }

  unfoldable pub send_event_to_listeners : MessageTree → TreeEvent → MessageTree
  send_event_to_listeners t evt =
      if t.listening then record t { offered = t.offered ++ evt ∷ [] } else t

  unfoldable pub delete_message : MessageTree → Message → MessageTree
  unfolding send_event_to_listeners
  delete_message t msg =
      send_event_to_listeners (record t { btree = b.delete t.btree msg })
        (record {
          event_type = remove_event;
          update_nonce = "";
          message = msg;
          neighbors = no_neighbors;
        })

  -- `Prev`, then `Seek` again and `Next`.
  unfoldable pub get_neighbors : MessageTree → Message → Neighbors
  get_neighbors t m =
      let (found, at) = b.seek t.btree m in
      let (has_prev, before) = b.prev at in
      let (has_next, after) = b.next at in
      if found
      then record {
        prev = if has_prev then some (b.item before) else none;
        next = if has_next then some (b.item after) else none;
      }
      else no_neighbors

  -- `Set`, the part on `m.Nonce`.
  unfoldable pub replace_pending : MessageTree → Message → Option Message → MessageTree × Claim
  replace_pending t m none =
      (t, record { replaced_nonce = ""; replaced_pending = false; is_pending = false })
  replace_pending t m (some existing) = (
    record t {
      btree = b.delete t.btree existing;
      messages_map = x.delete t.messages_map existing.id;
      nonces = x.delete t.nonces m.nonce;
    },
    record { replaced_nonce = existing.id; replaced_pending = true; is_pending = false },
  )

  unfoldable pub claim : MessageTree → Message → MessageTree × Claim
  unfolding replace_pending
  claim t m =
      if not (m.nonce == "")
      then replace_pending t m (x.load t.nonces m.nonce)
      else if has_prefix m.id "pending-" || has_prefix m.id "decrypting-"
      then (
        record t { nonces = x.store t.nonces m.id m },
        record { replaced_nonce = ""; replaced_pending = false; is_pending = true },
      )
      else (t, record { replaced_nonce = ""; replaced_pending = false; is_pending = false })

  -- `Set`, the part on `pendingRedactions`. The pointer that `nonces` holds for a pending message
  -- points to the variable that is assigned here.
  unfoldable pub apply_redaction :
      MessageTree → Message → Bool → Option Event → MessageTree × Message
  unfolding redacted_message_from
  apply_redaction t m pending none = (t, m)
  apply_redaction t m pending (some evt) =
      let r = redacted_message_from m evt in
      (
        record t {
          btree = (b.set t.btree r).0;
          messages_map = x.store t.messages_map r.id r;
          pending_redactions = x.delete t.pending_redactions m.id;
          nonces = if pending then x.store t.nonces m.id r else t.nonces;
        },
        r,
      )

  -- The event that `Set` sends.
  unfoldable pub set_event : Message → Bool → Claim → Neighbors → TreeEvent
  set_event m replaced c near =
      if not replaced && not c.replaced_pending
      then record { event_type = add_event; update_nonce = ""; message = m; neighbors = near }
      else record {
        event_type = update_event;
        update_nonce = c.replaced_nonce;
        message = m;
        neighbors = near;
      }

  unfoldable pub start_embeds : MessageTree → Message → Bool → MessageTree
  start_embeds t m pending = if pending then t else record t { embed_jobs = m ∷ t.embed_jobs }

  -- `Set` behind the part on nonces.
  unfoldable pub store_message : MessageTree → Message → Claim → MessageTree × Message × Bool
  unfolding apply_redaction get_neighbors set_event send_event_to_listeners start_embeds
  store_message t m c =
      let (tree, old) = b.set t.btree m in
      let replaced = is_some old in
      let t1 = record t { btree = tree; messages_map = x.store t.messages_map m.id m } in
      let (t2, m2) = apply_redaction t1 m c.is_pending (x.load t1.pending_redactions m.id) in
      let t3 = send_event_to_listeners t2 (set_event m2 replaced c (get_neighbors t2 m2)) in
      (start_embeds t3 m2 c.is_pending, m2, replaced)

  unfoldable pub set : MessageTree → Message → MessageTree × Message × Bool
  unfolding claim store_message
  set t msg =
      let m = record msg { room_id = t.room_id } in
      let (t1, c) = claim t m in store_message t1 (record m { nonce = "" }) c
