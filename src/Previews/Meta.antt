-- ===== src/Previews/Meta.antt =====
-- What the title, the image and the site name of a preview show of the metas of a page.
use Prim.Native.String.{[] as empty, ◌∷◌ as ◌∷s◌}
use Prim.Native.Char.{code}
use text.Mathlib.TextLemmas.{nil-append, cons-append}
use text.Mathlib.TextEquality.{Char-path}
use arko.Base.{
  ◌+s◌, String, Bool, true, false, ◌&&◌, ◌||◌, ◌≡◌, ◌⊎◌, inl, inr, refl, ap, sym, ◌∙◌, Option, none,
  some, List, [], ◌∷◌, ◌==◌, eqb, has_prefix, if◌then◌else◌, arith, eq_iff, Bool-cases,
  Option-cases,
}
use arko.Models.{Embed}
use arko.Previews.Embed.{
  Attr, Node, Libraries, meta_content, set_property, apply_meta_property, apply_attr, apply_meta,
  apply_metas,
}

abbrev og : String → String
og s = "o" ∷s ("g" ∷s (":" ∷s s))

prefix_cases : (s p : String) → (has_prefix s p ≡ false) ⊎ ((r : String) × (s ≡ p +s r))
unfolding has_prefix
prefix_cases s empty = inr (s, sym (nil-append s))
prefix_cases empty (d ∷s p) = inl refl
prefix_cases (c ∷s s) (d ∷s p) = elim (Bool-cases (eqb (code c) (code d))) [
  | inr n ↦ inl (rw n refl)
  | inl e ↦ elim (prefix_cases s p) [
    | inl n ↦ inl (rw e n)
    | inr (r, q) ↦ inr (r, rw cons-append (ground (arith, Char-path c d (ground arith))))
  ]
]

og_cases : (v : String) → (has_prefix v "og:" ≡ false) ⊎ ((r : String) × (v ≡ og r))
og_cases v = elim (prefix_cases v "og:") [
  | inl n ↦ inl n
  | inr (r, e) ↦ inr (r, e ∙ rw (cons-append, cons-append, cons-append, nil-append) refl)
]

og_eq : (r s : String) → (og r == og s) ≡ (r == s)
og_eq r s = ground (arith, eq_iff (og r) (og s), eq_iff r s)

og_other : (v s : String) → has_prefix v "og:" ≡ false → (v == og s) ≡ false
unfolding has_prefix
og_other v s h = elim (Bool-cases (v == og s)) [
  | inr n ↦ n
  | inl e ↦
      let q : has_prefix v "og:" ≡ true = ap (λ t. has_prefix t "og:") ((eq_iff v (og s)).0 e) in
      cc (h, q)
]

abbrev pub either : Option String → String → String
either none s = s
either (some t) s = t

module _ (lib : Libraries) where
  open lib use {to_lower}

  -- An attribute that names a property.
  abbrev pub says : String → Attr → Bool
  says name a = to_lower a.key == "property" && to_lower a.val == name

  abbrev pub has : (Attr → Bool) → Node → Bool
  has p [] = false
  has p (a ∷ n) = p a || has p n

  -- The content of the last meta of a property.
  abbrev pub declared : String → List Node → Option String
  declared name [] = none
  declared name (n ∷ ns) = elim (declared name ns) [
    | some c ↦ some c
    | none ↦ if has (says name) n then some (meta_content lib n) else none
  ]

  apply_meta_property_lem :
      (v : String) (node : Node) (e : Embed)
      → apply_meta_property lib v node e ≡ (
          if v == "og:title"
          then record e { title = meta_content lib node }
          else if v == "og:description"
          then record e { description = meta_content lib node }
          else if v == "og:image"
          then record e { image_url = meta_content lib node }
          else if v == "og:site_name"
          then record e { site_name = meta_content lib node }
          else e)
  unfolding apply_meta_property set_property
  apply_meta_property_lem v node e = elim (og_cases v) [
    | inl n ↦
        rw
          (
            n,
            og_other v "title" n,
            og_other v "description" n,
            og_other v "image" n,
            og_other v "site_name" n,
          )
          refl
    | inr (r, q) ↦
        rw (q, og_eq r "title", og_eq r "description", og_eq r "image", og_eq r "site_name") refl
  ]

  -- A field that the metas of one property write.
  module _ (get : Embed → String) (name : String)
      (step : (node : Node) (a : Attr) (e : Embed)
        → get (apply_attr lib node a e)
          ≡ (if says name a then meta_content lib node else get e)) where
    apply_meta-get :
        (node n : Node) (e : Embed)
        → get (apply_meta lib node n e)
          ≡ (if has (says name) n then meta_content lib node else get e)
    unfolding apply_meta
    apply_meta-get node [] e = refl
    apply_meta-get node (a ∷ n) e =
        ground (arith, apply_meta-get node n (apply_attr lib node a e), step node a e)

    -- The last meta that declares the property gives the field.
    pub apply_metas-get :
        (ns : List Node) (e : Embed)
        → get (apply_metas lib ns e) ≡ either (declared name ns) (get e)
    unfolding apply_metas
    apply_metas-get [] e = refl
    apply_metas-get (n ∷ ns) e = ground (
      arith,
      apply_metas-get ns (apply_meta lib n n e),
      apply_meta-get n n e,
      Option-cases (declared name ns),
    )

  -- What one property writes.
  pub apply_meta_property-fields :
      (v : String) (node : Node) (e : Embed)
      → ((apply_meta_property lib v node e).title
          ≡ (if v == "og:title" then meta_content lib node else e.title))
        × ((apply_meta_property lib v node e).description
            ≡ (if v == "og:description" then meta_content lib node else e.description))
        × ((apply_meta_property lib v node e).image_url
            ≡ (if v == "og:image" then meta_content lib node else e.image_url))
        × ((apply_meta_property lib v node e).site_name
            ≡ (if v == "og:site_name" then meta_content lib node else e.site_name))
  unfolding apply_meta_property
  apply_meta_property-fields v node e = elim (Bool-cases (v == "og:title")) [
    | inl t ↦ rw ((eq_iff v "og:title").0 t) (refl, refl, refl, refl)
    | inr t ↦ elim (Bool-cases (v == "og:description")) [
      | inl d ↦ rw ((eq_iff v "og:description").0 d) (refl, refl, refl, refl)
      | inr d ↦ elim (Bool-cases (v == "og:image")) [
        | inl i ↦ rw ((eq_iff v "og:image").0 i) (refl, refl, refl, refl)
        | inr i ↦ elim (Bool-cases (v == "og:site_name")) [
          | inl s ↦ rw ((eq_iff v "og:site_name").0 s) (refl, refl, refl, refl)
          | inr s ↦ rw (apply_meta_property_lem v node e, t, d, i, s) (refl, refl, refl, refl)
        ]
      ]
    ]
  ]

  pub apply_attr-title :
      (node : Node) (a : Attr) (e : Embed)
      → (apply_attr lib node a e).title
        ≡ (if says "og:title" a then meta_content lib node else e.title)
  unfolding apply_attr
  apply_attr-title node a e = elim (Bool-cases (to_lower a.key == "property")) [
    | inl p ↦ rw p ((apply_meta_property-fields (to_lower a.val) node e).0)
    | inr q ↦ rw q (ground arith)
  ]

  pub apply_attr-image_url :
      (node : Node) (a : Attr) (e : Embed)
      → (apply_attr lib node a e).image_url
        ≡ (if says "og:image" a then meta_content lib node else e.image_url)
  unfolding apply_attr
  apply_attr-image_url node a e = elim (Bool-cases (to_lower a.key == "property")) [
    | inl p ↦ rw p ((apply_meta_property-fields (to_lower a.val) node e).2)
    | inr q ↦ rw q (ground arith)
  ]

  pub apply_attr-site_name :
      (node : Node) (a : Attr) (e : Embed)
      → (apply_attr lib node a e).site_name
        ≡ (if says "og:site_name" a then meta_content lib node else e.site_name)
  unfolding apply_attr
  apply_attr-site_name node a e = elim (Bool-cases (to_lower a.key == "property")) [
    | inl p ↦ rw p ((apply_meta_property-fields (to_lower a.val) node e).3)
    | inr q ↦ rw q (ground arith)
  ]
