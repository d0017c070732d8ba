-- ===== src/Matrix/Tests.antt =====
-- A room's tree on concrete inputs: a message at 5 under the id "m", and one that waits at 7.
use arko.Base.{
  ℕ, String, true, false, ◌≡◌, ◌≢◌, ◌↔◌, refl, none, some, [], ◌∷◌, ◌==◌, if◌then◌else◌, has_prefix,
}
use arko.Base.Assoc.{lookup}
use arko.Base.SyncMap
use arko.Base.SyncMap.{SyncMap}
use arko.Models.{Message, Embed}
use arko.Models.Order.{by_timestamp}
use arko.Models.Sorted
use arko.Models.Sorted.{IsSorted, Holds}
use arko.Matrix.Event.{Event, Env, message, redaction}
use arko.Matrix.BTree.{BTree}
use arko.Matrix.BTree.Listed
use arko.Matrix.BTree.Listed.{no_user, no_message}
use arko.Matrix.Ids.{safe_hash_class}
use arko.Matrix.Tree.{MessageTree, items, new_message_tree, get_neighbors, redacted_message_from}
use arko.Matrix.Tree.Listen.{receive, fetch_and_apply_embeds}
use arko.Matrix.Tree.Run.{new-Coherent, listens, writes, receives, run, run-Agree}
use arko.Matrix.Tree.Echo.{sent, receive-send_message}
use arko.Matrix.Tree.Redaction.{receive_redaction, embeds_undo_redaction}
use arko.Matrix.Tree.Near.{get_neighbors_lem}

instance abbrev map_listed : SyncMap
map_listed = SyncMap.listed

instance abbrev tree_listed : BTree
tree_listed = Listed.listed

abbrev env : Env
env = record { profile = λ id. record no_user { id = id }; localpart = λ id. id }

abbrev at_5 : Message
at_5 = record no_message { id = "m"; timestamp = 5; content = "five"; room_id = "r" }

abbrev pending : Message
pending = record no_message { id = "pending-1"; timestamp = 7; content = "hi"; room_id = "r" }

abbrev room : MessageTree
room = record {
  btree = at_5 ∷ pending ∷ [];
  messages_map = ("m", at_5) ∷ ("pending-1", pending) ∷ [];
  nonces = ("pending-1", pending) ∷ [];
  pending_redactions = [];
  raw_encrypted_events = [];
  room_id = "r";
  is_encrypted = false;
  embed_cache = record { entries = []; ttl = 9; flights = [] };
  listening = true;
  initialized = true;
  prev_batch = "";
  no_more_history = false;
  offered = [];
  embed_jobs = [];
}

-- The event of the message that waits.
abbrev sent_back : Event
sent_back = record {
  id = "$a";
  sender = "@me";
  room_id = "r";
  type = message;
  timestamp = 2;
  body = some "hi";
  reason = "";
  transaction_id = "pending-1";
  redacted_because = none;
  redacts = "";
}

abbrev instant : String → ℕ
instant id = if id == "pending-1" then 7 else 2_000_000

run-Agree_example :
    let t =
      run env
        (new_message_tree "r" false)
        (listens ∷ writes "hi" "pending-1" 7 "@me" ∷ receives sent_back ∷ []) in
    IsSorted (items t)
    × ((id : String) (m : Message)
        → (SyncMap.listed.load t.messages_map id ≡ some m) ↔ ((m.id ≡ id) × Holds m (items t)))
    × ((m n : Message) → Holds m (items t) → Holds n (items t) → m.id ≡ n.id → m ≡ n)
unfolding safe_hash_class
run-Agree_example =
    run-Agree instant env "r" false
      (listens ∷ writes "hi" "pending-1" 7 "@me" ∷ receives sent_back ∷ []) (tt, (refl, (refl, tt)))

receive-send_message_example :
    let r =
      receive env
        (sent instant env (new_message_tree "r" false) "hi" "pending-1" 7 "@me")
        sent_back in
    (map_listed.load r.messages_map "pending-1" ≡ none)
    × ((m : Message) → Holds m (items r) → m.id ≢ "pending-1")
    × (map_listed.load r.nonces "pending-1" ≡ none)
    × ((m : Message) × (map_listed.load r.messages_map (safe_hash_class "$a") ≡ some m)
        × (m.content ≡ "hi")
        × (m.author ≡ env.profile "@me"))
unfolding safe_hash_class new_message_tree has_prefix lookup
receive-send_message_example =
    receive-send_message instant env (new_message_tree "r" false) "hi" "pending-1" 7 "@me" sent_back
      "hi" (new-Coherent instant "r" false) refl refl refl refl refl refl refl (λ id. refl)

-- The redaction of the message at 5, whose id is what "$m" becomes.
abbrev redacts_m : Event
redacts_m = record sent_back { type = redaction; redacts = "$m"; reason = "spam" }

abbrev m_id : String
m_id = "c64bc3efa"

abbrev target : Message
target = record at_5 { id = m_id }

abbrev room_with_target : MessageTree
room_with_target = record room { btree = target ∷ pending ∷ []; messages_map = (m_id, target) ∷ [] }

abbrev hidden_target : Message
hidden_target = record target { content = "spam"; redacted = true }

receive_redaction_example :
    let r = receive env room_with_target redacts_m in
    (items r ≡ Sorted.insert hidden_target (Sorted.delete target (items room_with_target)))
    × ((j : String)
        → map_listed.load r.messages_map j ≡ (
            if safe_hash_class "$m" == j
            then some hidden_target
            else map_listed.load room_with_target.messages_map j))
    × (hidden_target.redacted ≡ true)
    × (hidden_target.content ≡ redacts_m.reason)
    × (r.embed_cache ≡ room_with_target.embed_cache)
    × (r.room_id ≡ room_with_target.room_id)
unfolding safe_hash_class lookup redacted_message_from
receive_redaction_example =
    receive_redaction env room_with_target redacts_m target refl refl refl refl refl refl

abbrev card : Embed
card = record { title = "t"; description = ""; url = "u"; image_url = ""; site_name = "" }

embeds_undo_redaction_example :
    let r = receive env room_with_target redacts_m in
    ((n : Message) × (map_listed.load r.messages_map m_id ≡ some n) × (n.redacted ≡ true))
    × ((n : Message) × (map_listed.load
            (fetch_and_apply_embeds r target 9 (card ∷ [])).messages_map
            m_id
          ≡ some n)
        × (n.redacted ≡ false)
        × (n.content ≡ "five"))
unfolding safe_hash_class lookup
embeds_undo_redaction_example =
    embeds_undo_redaction env room_with_target redacts_m target 9 card [] refl refl refl refl refl
      refl refl refl refl

get_neighbors_lem_example : get_neighbors room pending ≡ record { prev = some at_5; next = none }
unfolding by_timestamp
get_neighbors_lem_example =
    get_neighbors_lem room (at_5 ∷ []) pending [] ((refl, tt), (tt, tt)) refl
