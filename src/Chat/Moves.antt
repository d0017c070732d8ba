-- ===== src/Chat/Moves.antt =====
-- How the patches of the chat page move the ids of its list: a new message between two others, and
-- the regrouping, which moves none.
use mathlib.Core.List.{append_assoc, map-append, append-nil}
use arko.Base.{Bool, ◌≡◌, refl, sym, ap, ◌∙◌, Option, none, some, List, [], ◌∷◌, ◌++◌}
use arko.Models.{Message}
use arko.Matrix.Tree.{TreeEvent}
use arko.Matrix.Tree.Near.{first, last_or}
use arko.Chat.{
  Bubble, put_before, put_after, replace, bubble, patches, event_patch, insert_patch,
  check_regrouping, regroup_patches, apply, apply_all, show,
}
use arko.Chat.Lists.{
  ids, message_ids, apply_ids, ids-apply, Without, put_before_at, put_after_at, replace_same,
}

-- The patches of the regrouping do not move a message.
ids-regroup :
    (r : Option (Message × Bool)) (page : List Bubble)
    → ids (apply_all (regroup_patches r) page) ≡ ids page
unfolding regroup_patches apply_all
ids-regroup none page = refl
ids-regroup (some (prev, c)) page =
    ids-apply (replace prev.id (bubble prev c)) page ∙ replace_same (ids page) (bubble prev c)

pub ids-show :
    (page : List Bubble) (evt : TreeEvent)
    → ids (show page evt) ≡ apply_ids (event_patch evt.event_type evt) (ids page)
unfolding show patches apply_all
ids-show page evt =
    ids-regroup (check_regrouping evt.message evt.neighbors)
      (apply (event_patch evt.event_type evt) page)
    ∙ ids-apply (event_patch evt.event_type evt) page

pub message_ids-append :
    (xs ys : List Message) → message_ids (xs ++ ys) ≡ message_ids xs ++ message_ids ys
message_ids-append xs ys = map-append _ xs ys

unsnoc :
    (p : Message) (before : List Message)
    → (pre : List Message) × (q : Message) × (p ∷ before ≡ pre ++ q ∷ [])
      × (last_or none (p ∷ before) ≡ some q)
unsnoc p [] = ([], p, refl, refl)
unsnoc p (r ∷ before) = let (pre, q, e, f) = unsnoc r before in (p ∷ pre, q, ap (λ l. p ∷ l) e, f)

-- No message of a room has the id of one that stands behind it.
abbrev pub Distinct : List Message → Type 0
Distinct xs =
    (pre post : List Message) (n : Message) → xs ≡ pre ++ n ∷ post → Without n.id (message_ids pre)

insert_last :
    (pre : List Message) (q m : Message) (b : Bubble)
    → b.id ≡ m.id
    → Without q.id (message_ids pre)
    → apply_ids (put_after q.id b) (message_ids ((pre ++ q ∷ []) ++ []))
      ≡ message_ids ((pre ++ q ∷ []) ++ m ∷ [])
insert_last pre q m b e w =
    ap (apply_ids (put_after q.id b))
      (ap message_ids (append-nil (pre ++ q ∷ [])) ∙ message_ids-append pre (q ∷ []))
    ∙ put_after_at (message_ids pre) [] q.id b w
    ∙ ap (λ i. message_ids pre ++ q.id ∷ i ∷ []) e
    ∙ sym
        (ap message_ids (append_assoc pre (q ∷ []) (m ∷ [])) ∙ message_ids-append pre (q ∷ m ∷ []))

insert_end :
    (xs : List Message) (o : Option Message) (pre : List Message) (q m : Message) (b : Bubble)
    → b.id ≡ m.id
    → xs ≡ pre ++ q ∷ []
    → o ≡ some q
    → Without q.id (message_ids pre)
    → apply_ids (insert_patch (record { prev = o; next = none }) b) (message_ids (xs ++ []))
      ≡ message_ids (xs ++ m ∷ [])
unfolding insert_patch
insert_end xs o pre q m b e f l w = rw (l, f) (insert_last pre q m b e w)

-- A new message goes before the next one, behind the last one, or first into an empty room.
pub insert_between :
    (before after : List Message) (m : Message) (b : Bubble)
    → b.id ≡ m.id
    → Distinct (before ++ after)
    → apply_ids
        (insert_patch (record { prev = last_or none before; next = first after }) b)
        (message_ids (before ++ after))
      ≡ message_ids (before ++ m ∷ after)
unfolding insert_patch apply_ids
insert_between before (n ∷ after) m b e w =
    ap (apply_ids (put_before n.id b)) (message_ids-append before (n ∷ after))
    ∙ put_before_at (message_ids before) (message_ids after) n.id b (w before after n refl)
    ∙ ap (λ i. message_ids before ++ i ∷ n.id ∷ message_ids after) e
    ∙ sym (message_ids-append before (m ∷ n ∷ after))
insert_between [] [] m b e w = ap (λ i. i ∷ []) e
insert_between (p ∷ before) [] m b e w =
    let (pre, q, f, l) = unsnoc p before in
    insert_end (p ∷ before) (last_or none (p ∷ before)) pre q m b e f l
      (w pre [] q (append-nil (p ∷ before) ∙ f))
