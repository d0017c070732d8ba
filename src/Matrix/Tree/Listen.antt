-- ===== src/Matrix/Tree/Listen.antt =====
-- internal/matrix/message_tree.go: the goroutine that `Listen` starts, the embeds that are fetched
-- beside it, and what a page reads.
use arko.Base.{ℕ, String, ◌+s◌, true, false, Option, none, some, List, [], ◌∷◌, ◌==◌, if◌then◌else◌}
use mathlib.Core.List.{reverse}
use arko.Base.SyncMap.{SyncMap}
use arko.Cache
use arko.Cache.{Cache, Fetched, GetResult}
use arko.Models.{Message, Embed}
use arko.Matrix.Event.{Event, Env, EventType, message, redaction}
use arko.Matrix.BTree.{BTree, is_cons}
use arko.Matrix.Ids.{safe_hash_class}
use arko.Matrix.Tree.{
  MessageTree, update_event, no_neighbors, items, set, delete_message, redacted_message_from,
  send_event_to_listeners,
}
use arko.Matrix.Tree.Convert.{event_to_message}

module _ ⦃x : SyncMap⦄ ⦃b : BTree⦄ where
  unfoldable pub set_some : MessageTree → Option Message → MessageTree
  set_some t none = t
  set_some t (some m) = (set t m).0

  -- `messagesMap.LoadAndDelete`, `DeleteMessage` and `Set` of the redacted message.
  unfoldable pub redact : MessageTree → String → Event → Option Message → MessageTree
  redact t id evt none = t
  redact t id evt (some msg) =
      let t1 = delete_message (record t { messages_map = x.delete t.messages_map id }) msg in
      (set t1 (redacted_message_from msg evt)).0

  -- One round of the receiver goroutine.
  unfoldable pub dispatch : Env → MessageTree → Event → EventType → MessageTree
  unfolding set_some redact
  dispatch env t evt message = set_some t (event_to_message env t.room_id evt)
  dispatch env t evt redaction =
      let id = safe_hash_class evt.redacts in redact t id evt (x.load t.messages_map id)
  dispatch env t evt _ = t

  unfoldable pub receive : Env → MessageTree → Event → MessageTree
  unfolding dispatch
  receive env t evt = if evt.room_id == t.room_id then dispatch env t evt evt.type else t

  unfoldable pub receive_all : Env → MessageTree → List Event → MessageTree
  unfolding receive
  receive_all env t [] = t
  receive_all env t (evt ∷ evts) = receive_all env (receive env t evt) evts

  -- The value that `Get` gives, where the function never fails.
  abbrev embeds_of : GetResult (List Embed) → List Embed
  embeds_of (GetResult.value es) = es
  embeds_of _ = []

  unfoldable pub store_embeds : MessageTree → Message → List Embed → MessageTree
  store_embeds t msg es =
      let m = record msg { embeds = es } in
      if is_cons es
      then send_event_to_listeners
          (record t { btree = (b.set t.btree m).0; messages_map = x.store t.messages_map m.id m })
          (record {
            event_type = update_event;
            update_nonce = "";
            message = m;
            neighbors = no_neighbors;
          })
      else t

  unfoldable pub embed_key : String → String → String
  embed_key room_id id = "embed:" +s room_id +s ":" +s id

  -- `fetchAndApplyEmbeds`, with what `populateEmbed` gets from the network.
  unfoldable pub fetch_and_apply_embeds : MessageTree → Message → ℕ → List Embed → MessageTree
  unfolding store_embeds embed_key
  fetch_and_apply_embeds t msg now fetched =
      let (r, cache, stale) =
        Cache.get t.embed_cache (embed_key t.room_id msg.id) now (Fetched.ok fetched) in
      store_embeds (record t { embed_cache = cache }) msg (embeds_of r)

  -- `Chronological`, the list that it returns.
  unfoldable pub chronological : MessageTree → List Message
  chronological t = reverse (items t)

  -- `Listen` and `Close`, the flag that `Set` reads. A second `Listen` does nothing.
  unfoldable pub listen : MessageTree → MessageTree
  listen t = if t.listening then t else record t { listening = true; offered = [] }

  unfoldable pub close : MessageTree → MessageTree
  close t = if t.listening then record t { listening = false } else t
