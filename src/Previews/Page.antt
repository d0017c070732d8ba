-- ===== src/Previews/Page.antt =====
-- What a preview shows of a page.
use arko.Base.{
  String, Bool, true, false, ◌&&◌, ◌||◌, ◌≡◌, refl, ap, ◌∙◌, Option, none, some, List, [], ◌∷◌,
  ◌==◌, if◌then◌else◌, arith, Option-cases,
}
use arko.Cache.{ok}
use arko.Models.{Embed}
use arko.Previews.Embed.{
  Attr, Node, Document, Response, Libraries, joined, resolve_favicon, apply_link, apply_links,
  apply_metas, read_body, empty_embed, embed_of, fetch_html_embed,
}
use arko.Previews.Meta.{
  either, has, declared, apply_metas-get, apply_attr-title, apply_attr-image_url,
  apply_attr-site_name,
}
use arko.Previews.Description.{first_named, description_named, description_declared}

linked_twice :
    (i i' : Bool) (r : String) (e : Embed)
    → (if i' then r else (if i then record e { image_url = r } else e).image_url)
      ≡ (if i || i' then r else e.image_url)
linked_twice true true r e = refl
linked_twice true false r e = refl
linked_twice false i' r e = refl

module _ (lib : Libraries) where
  open lib use {to_lower}

  -- The last icon among the links.
  abbrev is_icon : Attr → Bool
  is_icon a = to_lower a.key == "rel" && a.val == "icon"

  abbrev pub favicon : String → List Node → Option String
  favicon raw_url [] = none
  favicon raw_url (n ∷ ns) = elim (favicon raw_url ns) [
    | some c ↦ some c
    | none ↦ if has lib is_icon n then some (resolve_favicon lib raw_url n) else none
  ]

  apply_link-image :
      (raw_url : String) (node n : Node) (e : Embed)
      → (apply_link lib raw_url node n e).image_url
        ≡ (if has lib is_icon n then resolve_favicon lib raw_url node else e.image_url)
  unfolding apply_link
  apply_link-image raw_url node [] e = refl
  apply_link-image raw_url node (a ∷ n) e =
      apply_link-image raw_url node n
        (if is_icon a then record e { image_url = resolve_favicon lib raw_url node } else e)
      ∙ linked_twice (is_icon a) (has lib is_icon n) (resolve_favicon lib raw_url node) e

  apply_links-image :
      (raw_url : String) (ns : List Node) (e : Embed)
      → (apply_links lib raw_url ns e).image_url ≡ either (favicon raw_url ns) e.image_url
  unfolding apply_links
  apply_links-image raw_url [] e = refl
  apply_links-image raw_url (n ∷ ns) e = ground (
    arith,
    apply_links-image raw_url ns (apply_link lib raw_url n n e),
    apply_link-image raw_url n n e,
    Option-cases (favicon raw_url ns),
  )

  apply_link-rest :
      (raw_url : String) (node n : Node) (e : Embed)
      → ((apply_link lib raw_url node n e).title ≡ e.title)
        × ((apply_link lib raw_url node n e).description ≡ e.description)
        × ((apply_link lib raw_url node n e).site_name ≡ e.site_name)
  unfolding apply_link
  apply_link-rest raw_url node [] e = (refl, refl, refl)
  apply_link-rest raw_url node (a ∷ n) e =
      let new = record e { image_url = resolve_favicon lib raw_url node } in
      let h = apply_link-rest raw_url node n (if is_icon a then new else e) in ground (arith, h)

  apply_links-rest :
      (raw_url : String) (ns : List Node) (e : Embed)
      → ((apply_links lib raw_url ns e).title ≡ e.title)
        × ((apply_links lib raw_url ns e).description ≡ e.description)
        × ((apply_links lib raw_url ns e).site_name ≡ e.site_name)
  unfolding apply_links
  apply_links-rest raw_url [] e = (refl, refl, refl)
  apply_links-rest raw_url (n ∷ ns) e = ground (
    arith,
    apply_links-rest raw_url ns (apply_link lib raw_url n n e),
    apply_link-rest raw_url n n e,
  )

  -- A page that is answered with status 200, can be read and has a title gives a preview: its
  -- title, image and site are those of the last meta of the Open Graph property, or else the
  -- titles, the last icon among the links, and nothing; its description is that of the last such
  -- meta where this is not empty, and where there is no such meta the first description, not empty,
  -- of another meta.
  pub fetch_html_embed_lem :
      (raw_url body title : String) (titles : List String) (res : Response) (doc : Document)
      → res.status_code ≡ 200
      → read_body lib res ≡ some body
      → lib.new_document body ≡ some doc
      → doc.titles ≡ title ∷ titles
      → (e : Embed) × (fetch_html_embed lib raw_url (some res) ≡ ok e)
        × (e.title ≡ either (declared lib "og:title" doc.metas) (joined (title ∷ titles)))
        × (e.image_url
            ≡ either (declared lib "og:image" doc.metas) (either (favicon raw_url doc.links) ""))
        × (e.site_name ≡ either (declared lib "og:site_name" doc.metas) "")
        × ((c : String)
            → declared lib "og:description" doc.metas ≡ some c
            → (c == "") ≡ false
            → e.description ≡ c)
        × (declared lib "og:description" doc.metas ≡ none
            → e.description ≡ first_named lib doc.metas)
  unfolding fetch_html_embed embed_of
  fetch_html_embed_lem raw_url body title titles res doc s b d t =
      let start = empty_embed raw_url (joined (title ∷ titles)) in
      let linked = apply_links lib raw_url doc.links start in
      let rest = apply_links-rest raw_url doc.links start in
      (
        apply_metas lib doc.metas linked,
        rw (s, b, d, t) refl,
        apply_metas-get lib (λ e. e.title) "og:title" (apply_attr-title lib) doc.metas linked
            ∙ ap (either (declared lib "og:title" doc.metas)) rest.0,
        apply_metas-get lib (λ e. e.image_url) "og:image" (apply_attr-image_url lib) doc.metas
              linked
            ∙ ap (either (declared lib "og:image" doc.metas))
                (apply_links-image raw_url doc.links start),
        apply_metas-get lib (λ e. e.site_name) "og:site_name" (apply_attr-site_name lib) doc.metas
              linked
            ∙ ap (either (declared lib "og:site_name" doc.metas)) rest.2,
        (λ c h k. description_declared lib doc.metas linked c h k),
        λ h. description_named lib doc.metas linked h ∙ rw rest.1 refl,
      )
