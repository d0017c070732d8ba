-- ===== src/Chat/Regroup.antt =====
-- `checkRegrouping`: which message the listener renders again beside a new one.
use arko.Base.{
  String, true, ◌≡◌, ◌≢◌, refl, ◌∙◌, ap, none, some, List, [], ◌∷◌, ◌++◌, All, eq_iff, arith,
}
use arko.Models.{Message}
use arko.Matrix.Tree.{TreeEvent, add_event}
use arko.Chat.{
  Bubble, put_after, replace, bubble, follows_on, patches, event_patch, insert_patch, is_continued,
  is_followed, check_regrouping, check_regrouping_with, regroup_patches, apply, apply_all, show,
}

-- A message at the end of the room, behind another one.
abbrev pub added_last : Message → Message → TreeEvent
added_last p m = record {
  event_type = add_event;
  update_nonce = "";
  message = m;
  neighbors = record { prev = some p; next = none };
}

abbrev pub Unused : String → List Bubble → Type 0
Unused target = All (λ c. c.id ≢ target)

put_after_end :
    (page : List Bubble) (target : String) (c m : Bubble)
    → c.id ≡ target
    → Unused target page
    → apply (put_after target m) (page ++ c ∷ []) ≡ page ++ c ∷ m ∷ []
unfolding apply
put_after_end [] target c m e w = ground (arith, eq_iff c.id target)
put_after_end (d ∷ page) target c m e w =
    ground (arith, eq_iff d.id target, put_after_end page target c m e w.1)

replace_end :
    (page : List Bubble) (c d m : Bubble)
    → c.id ≡ d.id
    → Unused d.id page
    → apply (replace d.id d) (page ++ c ∷ m ∷ []) ≡ page ++ d ∷ m ∷ []
unfolding apply
replace_end [] c d m e w = ground (arith, eq_iff c.id d.id)
replace_end (a ∷ page) c d m e w = ground (arith, eq_iff a.id d.id, replace_end page c d m e w.1)

patches_last :
    (p m : Message)
    → follows_on p m ≡ true
    → patches (added_last p m) ≡ put_after p.id (bubble m true) ∷ replace p.id (bubble p true) ∷ []
unfolding patches event_patch insert_patch is_continued check_regrouping check_regrouping_with
    is_followed regroup_patches
patches_last p m f = rw f refl

-- A message that follows on the last one of the page takes the heading from that one: whether the
-- last one had a heading or not, both are shown without. The condition: no other bubble of the page
-- has the id of the last one.
pub show-heading_lost :
    (page : List Bubble) (p m : Message) (headed : Bubble)
    → headed.id ≡ p.id
    → Unused p.id page
    → follows_on p m ≡ true
    → show (page ++ headed ∷ []) (added_last p m) ≡ page ++ bubble p true ∷ bubble m true ∷ []
unfolding show apply_all
show-heading_lost page p m headed e w f =
    ap (λ ps. apply_all ps (page ++ headed ∷ [])) (patches_last p m f)
    ∙ ap (apply (replace p.id (bubble p true))) (put_after_end page p.id headed (bubble m true) e w)
    ∙ replace_end page headed (bubble p true) (bubble m true) e w
