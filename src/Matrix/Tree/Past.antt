-- ===== src/Matrix/Tree/Past.antt =====
-- The whole history of a room without encryption.
mod Tests
use mathlib.Core.Path.{subst}
use arko.Base.{
  ℕ, zero, suc, String, Bool, true, false, ◌≡◌, refl, ap, ◌∙◌, sym, some, Option, List, [], ◌∷◌,
  ◌==◌, ◌||◌, length, All, if◌then◌else◌, arith,
}
use arko.Base.SyncMap.{SyncMap}
use arko.Models.{Message}
use arko.Models.Sorted.{Holds}
use arko.Matrix.BTree.{BTree}
use arko.Matrix.Event.{Event, Env}
use arko.Matrix.Ids.{safe_hash_class}
use arko.Matrix.Tree.{MessageTree, items}
use arko.Matrix.Tree.Load.{Loaded, Page, populate_tree, load_chunk, load_next_messages}
use arko.Matrix.Tree.Invariant.{Coherent}
use arko.Matrix.Tree.History.{IsDatedLoaded, load_next_messages-Coherent}
use arko.Matrix.Tree.Scroll.{Has, Grows, Shows, IsClear, AllHas, chunk-Grows}

-- The test of `populateTree` for the last page.
abbrev pub is_last : String → Page → Bool
is_last token p = p.end == "" || p.end == token

-- The pages that the server gives from a token on, each under the end of the one before it.
abbrev pub Chain : (String → Option Page) → String → List Page → Type 0
Chain server token [] = ⊥
Chain server token (p ∷ []) = (server token ≡ some p) × (is_last token p ≡ true)
Chain server token (p ∷ q ∷ ps) =
    (server token ≡ some p) × (is_last token p ≡ false) × Chain server p.end (q ∷ ps)

module _ ⦃x : SyncMap⦄ ⦃b : BTree⦄ (env : Env) (server : String → Option Page) where
  -- As many calls of `LoadNextMessages` as the number says.
  abbrev pub scroll : ℕ → MessageTree → MessageTree
  scroll zero t = t
  scroll (suc n) t = scroll n (load_next_messages env t server).0

  -- What one call does where there is more history.
  pub record Advances (t : MessageTree) (p : Page) (u : MessageTree) : Type 0 where
    pub batch : u.prev_batch ≡ p.end
    pub more : u.no_more_history ≡ is_last t.prev_batch p
    pub kept : (id : String) → Has t id → Has u id
    pub fresh : AllHas u p.chunk

  if_true : (c n : Bool) → n ≡ false → (if c then true else n) ≡ c
  if_true true n h = refl
  if_true false n h = h

  populate-Advances :
      (t : MessageTree) (p : Page)
      → t.no_more_history ≡ false
      → All IsClear p.chunk
      → Advances t p (populate_tree env t t.prev_batch (some p))
  unfolding populate_tree
  populate-Advances t p n c =
      let t1 : MessageTree = record t {
        no_more_history = if is_last t.prev_batch p then true else t.no_more_history;
        prev_batch = p.end;
      } in
      let g = chunk-Grows env t1 [] p.chunk c in
      record {
        batch = g.0.batch;
        more = g.0.more ∙ if_true (is_last t.prev_batch p) t.no_more_history n;
        kept = λ id h. g.0.kept id h;
        fresh = g.1;
      }

  abbrev branch : MessageTree → Bool → Option Page → MessageTree × Bool
  branch t c answer =
      if c
      then (t, false)
      else (let t1 = populate_tree env t t.prev_batch answer in
          (t1, if t1.no_more_history then false else true))

  next_page :
      (t : MessageTree) (p : Page)
      → t.no_more_history ≡ false
      → server t.prev_batch ≡ some p
      → (load_next_messages env t server).0 ≡ populate_tree env t t.prev_batch (some p)
  unfolding load_next_messages
  next_page t p n s =
      ap (λ c. (branch t c (server t.prev_batch)).0) n ∙ ap (populate_tree env t t.prev_batch) s

  pub load-Advances :
      (t : MessageTree) (p : Page)
      → t.no_more_history ≡ false
      → server t.prev_batch ≡ some p
      → All IsClear p.chunk
      → Advances t p (load_next_messages env t server).0
  load-Advances t p n s c =
      subst (Advances t p) (sym (next_page t p n s)) (populate-Advances t p n c)

  abbrev AllIn : MessageTree → List Page → Type 0
  AllIn u ps = All (λ p. AllHas u p.chunk) ps

  -- What a scroll through a chain of pages does.
  record Arrives (t : MessageTree) (ps : List Page) (u : MessageTree) : Type 0 where
    ended : u.no_more_history ≡ true
    kept : (id : String) → Has t id → Has u id
    whole : AllIn u ps

  AllHas-kept :
      (t u : MessageTree) (ls : List Loaded)
      → ((id : String) → Has t id → Has u id)
      → AllHas t ls
      → AllHas u ls
  AllHas-kept t u [] k h = tt
  AllHas-kept t u (l ∷ ls) k h = (λ s. k _ (h.0 s), AllHas-kept t u ls k h.1)

  scroll-Arrives :
      (t : MessageTree) (ps : List Page)
      → t.no_more_history ≡ false
      → Chain server t.prev_batch ps
      → All (λ p. All IsClear p.chunk) ps
      → Arrives t ps (scroll (length ps) t)
  scroll-Arrives t [] n c d = absurd c
  scroll-Arrives t (p ∷ []) n c d =
      let a = load-Advances t p n c.0 d.0 in
      record { ended = a.more ∙ c.1; kept = a.kept; whole = (a.fresh, tt) }
  scroll-Arrives t (p ∷ q ∷ ps) n c d =
      let u = (load_next_messages env t server).0 in
      let a = load-Advances t p n c.0 d.0 in
      let r = scroll-Arrives u (q ∷ ps) (a.more ∙ c.1) (rw a.batch c.2) d.1 in
      record {
        ended = r.ended;
        kept = λ id h. r.kept id (a.kept id h);
        whole = (AllHas-kept u (scroll (length (q ∷ ps)) u) p.chunk r.kept a.fresh, r.whole);
      }

  scroll-Coherent :
      (ts : String → ℕ) (n : ℕ) (t : MessageTree)
      → Coherent ts t
      → ((token : String) (page : Page)
          → server token ≡ some page
          → All (IsDatedLoaded ts) page.chunk)
      → Coherent ts (scroll n t)
  scroll-Coherent ts zero t c d = c
  scroll-Coherent ts (suc n) t c d =
      scroll-Coherent ts n (load_next_messages env t server).0
        (load_next_messages-Coherent ts env t server c d) d

  abbrev InTree : MessageTree → Loaded → Type 0
  InTree u l =
      Shows l.event → (a : Message) × (a.id ≡ safe_hash_class l.event.id) × Holds a (items u)

  held_chunk :
      (ts : String → ℕ) (u : MessageTree) (ls : List Loaded)
      → Coherent ts u
      → AllHas u ls
      → All (InTree u) ls
  held_chunk ts u [] c h = tt
  held_chunk ts u (l ∷ ls) c h = (
    (λ s.
        let (a, e) = h.0 s in
        let k = c.agree.held (safe_hash_class l.event.id) a e in (a, k.0, k.1)),
    held_chunk ts u ls c h.1,
  )

  held_pages :
      (ts : String → ℕ) (u : MessageTree) (ps : List Page)
      → Coherent ts u
      → AllIn u ps
      → All (λ p. All (InTree u) p.chunk) ps
  held_pages ts u [] c h = tt
  held_pages ts u (p ∷ ps) c h = (held_chunk ts u p.chunk c h.0, held_pages ts u ps c h.1)

  -- A room without encryption whose tree has more history to ask for: where the server gives the
  -- history in pages, as many calls of `LoadNextMessages` as there are pages read it to its end,
  -- the next call says that there is no more, and every message of every page that parses or was
  -- redacted is in the tree. The conditions: the tree is coherent, and an event has the instant of
  -- its id.
  pub scroll_whole :
      (ts : String → ℕ) (t : MessageTree) (ps : List Page)
      → Coherent ts t
      → ((token : String) (page : Page)
          → server token ≡ some page
          → All (IsDatedLoaded ts) page.chunk)
      → t.no_more_history ≡ false
      → Chain server t.prev_batch ps
      → All (λ p. All IsClear p.chunk) ps
      → let u = scroll (length ps) t in
        (u.no_more_history ≡ true)
        × ((load_next_messages env u server).1 ≡ false)
        × All
            (λ p.
              All
                (λ l.
                  Shows l.event
                  → (a : Message) × (a.id ≡ safe_hash_class l.event.id) × Holds a (items u))
                p.chunk)
            ps
  unfolding load_next_messages
  scroll_whole ts t ps c dated n chain clear =
      let r = scroll-Arrives t ps n chain clear in
      let u = scroll (length ps) t in
      (
        r.ended,
        ap (λ e. (branch u e (server u.prev_batch)).1) r.ended,
        held_pages ts u ps (scroll-Coherent ts (length ps) t c dated) r.whole,
      )
