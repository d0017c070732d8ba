-- ===== src/Matrix/Tree/Run.antt =====
-- Histories of one room's tree: the calls of other parts and the goroutines, in any order.
use arko.Base.{ℕ, String, ◌≡◌, ◌↔◌, Option, none, some, List, [], ◌∷◌, All, Bool, if_intro, arith}
use arko.Base.SyncMap.{SyncMap}
use arko.Models.{Message, Embed}
use arko.Matrix.Event.{Event, Env}
use arko.Matrix.BTree.{BTree}
use arko.Matrix.Tree.{MessageTree, new_message_tree, items}
use arko.Matrix.Tree.Convert.{default_message}
use arko.Models.Sorted.{IsSorted, Holds}
use arko.Matrix.Tree.Agree.{Agree}
use arko.Matrix.Tree.Listen.{receive, fetch_and_apply_embeds, listen, close}
use arko.Matrix.Tree.Load.{
  Attempt, Page, load_next_messages, send_message, initialize, retry_decrypt_message,
  retry_decrypt_all,
}
use arko.Matrix.Tree.Invariant.{
  Dated, Coherent, IsDatedEvent, set-Coherent, receive-Coherent, embeds-Coherent,
}
use arko.Matrix.Tree.History.{
  IsDatedLoaded, IsDatedAttempt, load_next_messages-Coherent, initialize-Coherent,
  retry_decrypt_message-Coherent, retry_decrypt_all-Coherent,
}

-- `writes` is `SendMessage` with its nonce, `loads` a page of history with the server's answers,
-- `initializes` the first one, `retries` one message and `retries_all` all with what each attempt
-- meets, `receives` an event of the sync, `embeds` the end of a fetch of embeds for a message.
pub data Action : Type 0 where
  writes : String → String → ℕ → String → Action
  loads : (String → Option Page) → Action
  receives : Event → Action
  embeds : Message → ℕ → List Embed → Action
  initializes : (String → Option Page) → Action
  retries : Message → Attempt → Action
  retries_all : (Message → Attempt) → Action
  listens closes : Action

module _ ⦃x : SyncMap⦄ ⦃b : BTree⦄ where
  unfoldable pub act : Env → MessageTree → Action → MessageTree
  act env t (writes body nonce now user) = send_message env t body nonce now user
  act env t (loads server) = (load_next_messages env t server).0
  act env t (initializes server) = initialize env t server
  act env t (retries m a) = (retry_decrypt_message env t m a).0
  act env t (retries_all attempt) = retry_decrypt_all env t attempt
  act env t (receives evt) = receive env t evt
  act env t (embeds m now es) = fetch_and_apply_embeds t m now es
  act env t listens = listen t
  act env t closes = close t

  unfoldable pub run : Env → MessageTree → List Action → MessageTree
  unfolding act
  run env t [] = t
  run env t (a ∷ as') = run env (act env t a) as'

  module _ (ts : String → ℕ) where
    -- `ts` is the instant of each id that an action brings in.
    abbrev pub IsDatedAction : Action → Type 0
    IsDatedAction (writes body nonce now user) = now ≡ ts nonce
    IsDatedAction (loads server) =
        (token : String) (page : Page)
        → server token ≡ some page
        → All (IsDatedLoaded ts) page.chunk
    IsDatedAction (initializes server) =
        (token : String) (page : Page)
        → server token ≡ some page
        → All (IsDatedLoaded ts) page.chunk
    IsDatedAction (retries m a) = IsDatedAttempt ts a
    IsDatedAction (retries_all attempt) = (m : Message) → IsDatedAttempt ts (attempt m)
    IsDatedAction (receives evt) = IsDatedEvent ts evt
    IsDatedAction (embeds m now es) = Dated ts m
    IsDatedAction listens = Unit {0}
    IsDatedAction closes = Unit {0}

    act-Coherent :
        (env : Env) (t : MessageTree) (a : Action)
        → Coherent ts t
        → IsDatedAction a
        → Coherent ts (act env t a)
    unfolding act send_message default_message fetch_and_apply_embeds listen close
    act-Coherent env t (writes body nonce now user) c d = set-Coherent ts t _ c d
    act-Coherent env t (loads server) c d = load_next_messages-Coherent ts env t server c d
    act-Coherent env t (initializes server) c d = initialize-Coherent ts env t server c d
    act-Coherent env t (retries m a) c d = retry_decrypt_message-Coherent ts env t m a c d
    act-Coherent env t (retries_all attempt) c d = retry_decrypt_all-Coherent ts env t attempt c d
    act-Coherent env t (receives evt) c d = receive-Coherent ts env t evt c d
    act-Coherent env t (embeds m now es) c d =
        embeds-Coherent ts _ m _
          (record { agree = c.agree; nonces_dated = c.nonces_dated; raws_dated = c.raws_dated }) d
    act-Coherent env t listens c d =
        if_intro (Coherent ts) t.listening _ _ (λ _. c)
          λ _. record { agree = c.agree; nonces_dated = c.nonces_dated; raws_dated = c.raws_dated }
    act-Coherent env t closes c d =
        if_intro (Coherent ts) t.listening _ _
          (λ _. record {
            agree = c.agree;
            nonces_dated = c.nonces_dated;
            raws_dated = c.raws_dated;
          })
          λ _. c

    run-Coherent :
        (env : Env) (t : MessageTree) (as' : List Action)
        → Coherent ts t
        → All IsDatedAction as'
        → Coherent ts (run env t as')
    unfolding run
    run-Coherent env t [] c d = c
    run-Coherent env t (a ∷ as') c d =
        run-Coherent env (act env t a) as' (act-Coherent env t a c d.0) d.1

    pub new-Coherent :
        (room_id : String) (e2ee : Bool) → Coherent ts (new_message_tree room_id e2ee)
    unfolding new_message_tree
    new-Coherent room_id e2ee = record {
      agree = record {
        sorted = rw b.items-empty tt;
        dated = λ a h. absurd (rw b.items-empty at h);
        loaded = λ a h. absurd (rw b.items-empty at h);
        held = λ id a h. absurd (none_ne (rw x.load-new at h));
      };
      nonces_dated = λ n e h. absurd (none_ne (rw x.load-new at h));
      raws_dated = λ id e h. absurd (none_ne (rw x.load-new at h));
    }
      where
        none_ne : {A : Type 0} {a : A} → ◌≡◌ {A = Option A} none (some a) → ⊥
        none_ne h = cc

    -- After any history in which an id has one instant, whatever the order in which the user's
    -- messages, pages of history, retries of decryption, events of the sync and embeds come in: the
    -- tree is strictly sorted by instant and id, a read by id finds a message exactly when the tree
    -- holds it, and the tree holds one message of an id at most.
    pub run-Agree :
        (env : Env) (room_id : String) (e2ee : Bool) (as' : List Action)
        → All IsDatedAction as'
        → let t = run env (new_message_tree room_id e2ee) as' in
          IsSorted (items t)
          × ((id : String) (m : Message)
              → (x.load t.messages_map id ≡ some m) ↔ ((m.id ≡ id) × Holds m (items t)))
          × ((m n : Message) → Holds m (items t) → Holds n (items t) → m.id ≡ n.id → m ≡ n)
    run-Agree env room_id e2ee as' d = (g.sorted, both, one)
      where
        g :
            Agree ts
              (run env (new_message_tree room_id e2ee) as').btree
              (run env (new_message_tree room_id e2ee) as').messages_map
        g =
            (run-Coherent env (new_message_tree room_id e2ee) as' (new-Coherent room_id e2ee)
              d).agree

        t : MessageTree
        t = run env (new_message_tree room_id e2ee) as'

        both :
            (id : String) (m : Message)
            → (x.load t.messages_map id ≡ some m) ↔ ((m.id ≡ id) × Holds m (items t))
        both id m = (g.held id m, λ h. rw (← h.0) (g.loaded m h.1))

        one : (m n : Message) → Holds m (items t) → Holds n (items t) → m.id ≡ n.id → m ≡ n
        one m n h k e = ground (arith, g.loaded m h, g.loaded n k)
