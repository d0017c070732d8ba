-- ===== src/Matrix/Tree/Redaction.antt =====
-- Redactions: what a reader finds after one, and two ways in which the text comes back.
use arko.Base.{
  ℕ, String, true, false, ◌≡◌, refl, none, some, List, [], ◌∷◌, arith, eq_refl, ◌==◌, ap, ◌∙◌,
  if◌then◌else◌,
}
use arko.Base.Assoc.{lookup}
use arko.Base.SyncMap.{SyncMap}
use arko.Cache
use arko.Cache.{Fetched, GetResult}
use arko.Cache.Laws.{get_miss-ok, get_hit}
use arko.Models.{Message, Embed}
use arko.Models.Sorted
use arko.Models.Sorted.{Holds}
use arko.Matrix.Event.{Event, Env, redaction}
use arko.Matrix.BTree.{BTree}
use arko.Matrix.Ids.{safe_hash_class, plain-safe_hash_class}
use arko.Matrix.Tree.{
  MessageTree, items, set, delete_message, redacted_message_from, send_event_to_listeners,
}
use arko.Matrix.Tree.Parts.{claim_plain, set_parts}
use arko.Matrix.Tree.Listen.{
  receive, dispatch, redact, fetch_and_apply_embeds, store_embeds, embed_key,
}

module _ ⦃x : SyncMap⦄ ⦃b : BTree⦄ (env : Env) (t : MessageTree) (evt : Event) where
  -- A redaction in the room of an event that the map does not hold changes nothing: not even
  -- `pendingRedactions`, from which `Set` would apply it later.
  pub receive_unknown :
      evt.room_id ≡ t.room_id
      → evt.type ≡ redaction
      → x.load t.messages_map (safe_hash_class evt.redacts) ≡ none
      → receive env t evt ≡ t
  unfolding receive dispatch redact
  receive_unknown room ty none' = rw (ty, room, none', eq_refl) refl

  -- The message that the redaction names.
  abbrev redacted_id : String
  redacted_id = safe_hash_class evt.redacts

  module _ (m : Message) where
    abbrev hidden : Message
    hidden = record (redacted_message_from m evt) { room_id = t.room_id; nonce = "" }

    abbrev without : MessageTree
    without = delete_message (record t { messages_map = x.delete t.messages_map redacted_id }) m

    receive_known :
        evt.room_id ≡ t.room_id
        → evt.type ≡ redaction
        → x.load t.messages_map redacted_id ≡ some m
        → receive env t evt ≡ (set without (redacted_message_from m evt)).0
    unfolding receive dispatch redact
    receive_known room ty found = rw (ty, room, found, eq_refl) refl

    without_parts :
        (without.btree ≡ b.delete t.btree m)
        × (without.messages_map ≡ x.delete t.messages_map redacted_id)
        × (without.pending_redactions ≡ t.pending_redactions)
        × (without.room_id ≡ t.room_id)
        × (without.embed_cache ≡ t.embed_cache)
    unfolding delete_message send_event_to_listeners
    without_parts = ground arith

    -- A redaction of a message that the map holds under its event's id, that carries no nonce and
    -- for which no redaction waits puts the redacted message in its place in the tree and the map,
    -- with the reason for its text; all other reads, the embed cache and the room stay.
    pub receive_redaction :
        evt.room_id ≡ t.room_id
        → evt.type ≡ redaction
        → x.load t.messages_map redacted_id ≡ some m
        → m.id ≡ redacted_id
        → m.nonce ≡ ""
        → x.load t.pending_redactions m.id ≡ none
        → let r = receive env t evt in
          (items r ≡ Sorted.insert hidden (Sorted.delete m (items t)))
          × ((j : String)
              → x.load r.messages_map j
                ≡ (if redacted_id == j then some hidden else x.load t.messages_map j))
          × (hidden.redacted ≡ true)
          × (hidden.content ≡ evt.reason)
          × (r.embed_cache ≡ t.embed_cache)
          × (r.room_id ≡ t.room_id)
    unfolding redacted_message_from
    receive_redaction room ty found same plain wait =
        let w = without_parts in
        let p =
          set_parts without _ (redacted_message_from m evt) _
            (claim_plain without
              (record (redacted_message_from m evt) { room_id = without.room_id }) plain
              (let e = plain-safe_hash_class evt.redacts in rw (same, e.0, e.1) refl))
            (rw w.2 wait) in
        rw (receive_known room ty found) (
          ap b.items p.0 ∙ b.items-set _ _ ∙ rw (w.3, w.0, b.items-delete) refl,
          (λ j.
              rw (p.1, w.1, x.load-store)
                (ground (arith, same, x.load-delete t.messages_map redacted_id j))),
          refl,
          refl,
          p.6 ∙ w.4,
          p.4 ∙ w.3,
        )

module _ ⦃x : SyncMap⦄ ⦃b : BTree⦄ where
  -- What a fetch that finds embeds leaves: the message as it was when the fetch was started.
  fetch_puts :
      (t : MessageTree) (m : Message) (now : ℕ) (e : Embed) (es : List Embed)
      → x.load t.embed_cache.entries (embed_key t.room_id m.id) ≡ none
      → lookup (embed_key t.room_id m.id) t.embed_cache.flights ≡ none
      → x.load (fetch_and_apply_embeds t m now (e ∷ es)).messages_map m.id
        ≡ some (record m { embeds = e ∷ es })
  unfolding fetch_and_apply_embeds store_embeds send_event_to_listeners
  fetch_puts t m now e es h k =
      let got =
        get_miss-ok t.embed_cache (embed_key t.room_id m.id) (embed_key t.room_id m.id) now (e ∷ es)
          h k in
      rw got.0 (
        ground (
          arith,
          x.load-store t.messages_map m.id m.id (record m { embeds = e ∷ es }),
          eq_refl m.id,
        ))

  -- A message that is redacted while a fetch of its embeds runs, where the cache has none and
  -- nothing is in flight for them, is read as redacted; once the fetch ends with an embed, a read
  -- gives its old text again, not redacted.
  pub embeds_undo_redaction :
      (env : Env) (t : MessageTree) (evt : Event) (m : Message) (now : ℕ) (e : Embed)
      (es : List Embed)
      → evt.room_id ≡ t.room_id
      → evt.type ≡ redaction
      → x.load t.messages_map (safe_hash_class evt.redacts) ≡ some m
      → m.id ≡ safe_hash_class evt.redacts
      → m.nonce ≡ ""
      → x.load t.pending_redactions m.id ≡ none
      → x.load t.embed_cache.entries (embed_key t.room_id m.id) ≡ none
      → lookup (embed_key t.room_id m.id) t.embed_cache.flights ≡ none
      → m.redacted ≡ false
      → let r = receive env t evt in
        ((n : Message) × (x.load r.messages_map m.id ≡ some n) × (n.redacted ≡ true))
        × ((n : Message) × (x.load (fetch_and_apply_embeds r m now (e ∷ es)).messages_map m.id
              ≡ some n)
            × (n.redacted ≡ false)
            × (n.content ≡ m.content))
  embeds_undo_redaction env t evt m now e es room ty found same plain wait h k fresh =
      let p = receive_redaction env t evt m room ty found same plain wait in
      (
        (hidden env t evt m, p.1 m.id ∙ rw (same, eq_refl) refl, p.2),
        (
          record m { embeds = e ∷ es },
          fetch_puts (receive env t evt) m now e es (rw (p.4, p.5) h) (rw (p.4, p.5) k),
          fresh,
          refl,
        ),
      )

  fetch_none :
      (t : MessageTree) (m : Message) (now : ℕ) (fetched : List Embed)
      → (Cache.get t.embed_cache (embed_key t.room_id m.id) now (Fetched.ok fetched)).0
        ≡ GetResult.value []
      → fetch_and_apply_embeds t m now fetched ≡ record t {
        embed_cache =
            (Cache.get t.embed_cache (embed_key t.room_id m.id) now (Fetched.ok fetched)).1;
      }
  unfolding fetch_and_apply_embeds store_embeds
  fetch_none t m now fetched h = rw h refl

  fetch_cached :
      (t : MessageTree) (m : Message) (now at : ℕ) (fetched : List Embed)
      → x.load t.embed_cache.entries (embed_key t.room_id m.id)
        ≡ some (record { value = []; fetched_at = at })
      → fetch_and_apply_embeds t m now fetched ≡ t
  fetch_cached t m now at fetched h =
      let key = embed_key t.room_id m.id in
      let hit = get_hit t.embed_cache key now (Fetched.ok fetched) _ h in
      fetch_none t m now fetched (rw hit refl) ∙ rw hit refl

  -- Once a message got no embeds, with none cached and nothing in flight before, a later fetch for
  -- a message of the same id changes nothing, whatever embeds it would find.
  pub embeds_missed :
      (t : MessageTree) (m n : Message) (now later : ℕ) (es : List Embed)
      → x.load t.embed_cache.entries (embed_key t.room_id m.id) ≡ none
      → lookup (embed_key t.room_id m.id) t.embed_cache.flights ≡ none
      → n.id ≡ m.id
      → let u = fetch_and_apply_embeds t m now [] in fetch_and_apply_embeds u n later es ≡ u
  embeds_missed t m n now later es h k same =
      let key = embed_key t.room_id m.id in
      let got = get_miss-ok t.embed_cache key key now [] h k in
      rw (fetch_none t m now [] got.0)
        (fetch_cached _ n later now es (rw same (got.1 ∙ rw eq_refl refl)))
