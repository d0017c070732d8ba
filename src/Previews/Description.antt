-- ===== src/Previews/Description.antt =====
-- What the description of a preview shows: the last meta of the property `og:description`, or the
-- first that is named `description`.
use arko.Base.{
  String, Bool, true, false, not, ◌&&◌, ◌||◌, ◌≡◌, inl, inr, refl, ap, ◌∙◌, none, some, List, [],
  ◌∷◌, ◌==◌, if◌then◌else◌, arith, eq_iff, Bool-cases, Option-cases,
}
use arko.Models.{Embed}
use arko.Previews.Embed.{Attr, Node, Libraries, meta_content, apply_attr, apply_meta, apply_metas}
use arko.Previews.Meta.{says, has, declared, apply_meta_property-fields}

or-false : (b : Bool) → b ≡ (b || false)
or-false true = refl
or-false false = refl

described_twice :
    (s s' n n' : Bool) (c d : String)
    → (if s' || (n' && (if s || (n && d == "") then c else d) == "")
        then c
        else if s || (n && d == "")
        then c
        else d)
      ≡ (if (s || s') || ((n || n') && d == "") then c else d)
described_twice true true n n' c d = refl
described_twice true false n true c d = ground arith
described_twice true false n false c d = refl
described_twice false true n n' c d = refl
described_twice false false true n' c d = ground arith
described_twice false false false n' c d = refl

module _ (lib : Libraries) where
  open lib use {to_lower}

  -- An attribute that names the description.
  abbrev names_description : Attr → Bool
  names_description a = to_lower a.key == "name" && to_lower a.val == "description"

  apply_attr-description :
      (node : Node) (a : Attr) (e : Embed)
      → (apply_attr lib node a e).description ≡ (
          if says lib "og:description" a || (names_description a && e.description == "")
          then meta_content lib node
          else e.description)
  unfolding apply_attr
  apply_attr-description node a e = elim (Bool-cases (to_lower a.key == "property")) [
    | inl p ↦
        rw (p, (eq_iff (to_lower a.key) "property").0 p)
          ((apply_meta_property-fields lib (to_lower a.val) node e).1
            ∙ ap (λ b. if b then meta_content lib node else e.description)
                (or-false (to_lower a.val == "og:description")))
    | inr q ↦ rw q (ground arith)
  ]

  apply_meta-description :
      (node n : Node) (e : Embed)
      → (apply_meta lib node n e).description ≡ (
          if has lib (says lib "og:description") n
            || (has lib names_description n && e.description == "")
          then meta_content lib node
          else e.description)
  unfolding apply_meta
  apply_meta-description node [] e = refl
  apply_meta-description node (a ∷ n) e =
      apply_meta-description node n (apply_attr lib node a e)
      ∙ rw (apply_attr-description node a e) (
          described_twice (says lib "og:description" a) (has lib (says lib "og:description") n)
            (names_description a) (has lib names_description n) (meta_content lib node)
            e.description)

  -- The first content, not empty, of a meta that is named so.
  abbrev pub first_named : List Node → String
  first_named [] = ""
  first_named (n ∷ ns) =
      if has lib names_description n && not (meta_content lib n == "")
      then meta_content lib n
      else first_named ns

  pub description_named :
      (ns : List Node) (e : Embed)
      → declared lib "og:description" ns ≡ none
      → (apply_metas lib ns e).description
        ≡ (if e.description == "" then first_named ns else e.description)
  unfolding apply_metas
  description_named [] e h = ground (arith, eq_iff e.description "")
  description_named (n ∷ ns) e h = ground (
    arith,
    description_named ns (apply_meta lib n n e),
    apply_meta-description n n e,
    Option-cases (declared lib "og:description" ns),
    eq_iff (meta_content lib n) "",
    eq_iff e.description "",
  )

  pub description_declared :
      (ns : List Node) (e : Embed) (c : String)
      → declared lib "og:description" ns ≡ some c
      → (c == "") ≡ false
      → (apply_metas lib ns e).description ≡ c
  unfolding apply_metas
  description_declared [] e c h k = ground arith
  description_declared (n ∷ ns) e c h k = ground (
    arith,
    description_declared ns (apply_meta lib n n e) c,
    apply_meta-description n n e,
    Option-cases (declared lib "og:description" ns),
    description_named ns (apply_meta lib n n e),
  )
