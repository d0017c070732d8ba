-- ===== src/Previews/Embed.antt =====
-- internal/url_previews/embed.go: a preview from the head of a page. The HTML parser, `net/url`,
-- gzip and Go's `strings.ToLower` are parameters, and so is what the request gets back.
use Prim.Native.Char.{code}
use Prim.Native.String.{[] as empty, ◌∷◌ as ◌∷s◌}
use arko.Base.{
  ℕ, ◌+◌, String, ◌+s◌, Bool, not, ◌&&◌, ◌||◌, Option, none, some, List, [], ◌∷◌, ◌==◌, eqb,
  has_prefix, if◌then◌else◌,
}
use arko.Base.Assoc.{lookup, insert}
use arko.Cache.{Fetched, ok, err}
use arko.Models.{Embed}

-- The limiters of the hosts, each known by a number: one token in two seconds.
pub record Limiters : Type 0 where
  pub by_host : List (String × ℕ)
  pub made : ℕ

unfoldable pub limiter_for_host : Limiters → String → Limiters × ℕ
limiter_for_host l host = elim (lookup host l.by_host) [
  | some n ↦ (l, n)
  | none ↦ (record { by_host = insert host l.made l.by_host; made = l.made + 1 }, l.made)
]

pub record Attr : Type 0 where
  pub key : String
  pub val : String

abbrev pub Node : Type 0
Node = List Attr

-- `goquery`'s view of `html > head`: the texts of the titles, the links and the metas.
pub record Document : Type 0 where
  pub titles : List String
  pub links : List Node
  pub metas : List Node

pub record Response : Type 0 where
  pub status_code : ℕ
  pub content_encoding : String
  pub body : String

-- What is used of a `url.URL`, and its `String` from a scheme, a host and a path.
pub record Url : Type 0 where
  pub scheme : String
  pub host : String

pub record Libraries : Type 0 where
  pub to_lower : String → String
  pub parse_url : String → Option Url
  pub url_string : String → String → String → String
  pub new_document : String → Option Document
  pub gunzip : String → Option String

-- The text behind the first colon: the second of the two parts of `SplitN`.
unfoldable pub behind_colon : String → Option String
behind_colon empty = none
behind_colon (c ∷s s) = let rest = behind_colon s in if eqb (code c) b':' then some s else rest

abbrev pub joined : List String → String
joined [] = ""
joined (s ∷ ss) = s +s joined ss

unfoldable pub set_property : Option String → String → Embed → Embed
set_property none content embed = embed
set_property (some part) content embed =
    if part == "title"
    then record embed { title = content }
    else if part == "description"
    then record embed { description = content }
    else if part == "image"
    then record embed { image_url = content }
    else if part == "site_name"
    then record embed { site_name = content }
    else embed

abbrev pub empty_embed : String → String → Embed
empty_embed raw_url title = record {
  title = title;
  description = "";
  url = raw_url;
  image_url = "";
  site_name = "";
}

module _ (lib : Libraries) where
  open lib use {to_lower, parse_url, url_string, new_document, gunzip}

  unfoldable pub meta_content : Node → String
  meta_content [] = ""
  meta_content (a ∷ n) = if to_lower a.key == "content" then a.val else meta_content n

  unfoldable pub href : Node → String
  href [] = ""
  href (a ∷ n) = if to_lower a.key == "href" then a.val else href n

  abbrev from_root : String → Option Url → String
  from_root link none = ""
  from_root link (some u) = url_string u.scheme u.host link

  unfoldable pub resolve_favicon : String → Node → String
  unfolding href has_prefix
  resolve_favicon raw_url node =
      let link = href node in
      if link == ""
      then ""
      else if has_prefix link "http://" || has_prefix link "https://"
      then link
      else from_root link (parse_url raw_url)

  unfoldable pub apply_meta_property : String → Node → Embed → Embed
  unfolding has_prefix behind_colon meta_content set_property
  apply_meta_property node_type node embed =
      if has_prefix node_type "og:"
      then set_property (behind_colon node_type) (meta_content node) embed
      else embed

  -- The loops over the links and their attributes.
  unfoldable pub apply_link : String → Node → Node → Embed → Embed
  unfolding resolve_favicon
  apply_link raw_url node [] embed = embed
  apply_link raw_url node (a ∷ rest) embed = apply_link raw_url node rest (
      if to_lower a.key == "rel" && a.val == "icon"
      then record embed { image_url = resolve_favicon raw_url node }
      else embed)

  unfoldable pub apply_links : String → List Node → Embed → Embed
  unfolding apply_link
  apply_links raw_url [] embed = embed
  apply_links raw_url (n ∷ ns) embed = apply_links raw_url ns (apply_link raw_url n n embed)

  -- The loops over the metas and their attributes.
  unfoldable pub apply_attr : Node → Attr → Embed → Embed
  unfolding apply_meta_property meta_content
  apply_attr node a embed =
      if to_lower a.key == "property"
      then apply_meta_property (to_lower a.val) node embed
      else if to_lower a.key == "name" && to_lower a.val == "description" && embed.description == ""
      then record embed { description = meta_content node }
      else embed

  unfoldable pub apply_meta : Node → Node → Embed → Embed
  unfolding apply_attr
  apply_meta node [] embed = embed
  apply_meta node (a ∷ rest) embed = apply_meta node rest (apply_attr node a embed)

  unfoldable pub apply_metas : List Node → Embed → Embed
  unfolding apply_meta
  apply_metas [] embed = embed
  apply_metas (n ∷ ns) embed = apply_metas ns (apply_meta n n embed)

  unfoldable pub read_body : Response → Option String
  read_body res = if res.content_encoding == "gzip" then gunzip res.body else some res.body

  -- The part of `fetchHTMLEmbed` behind the parser.
  unfoldable pub embed_of : String → Document → Fetched Embed
  unfolding apply_links apply_metas
  embed_of raw_url doc = elim doc.titles [
    | [] ↦ err "title not found"
    | t ∷ ts ↦ ok (
        apply_metas doc.metas
          (apply_links raw_url doc.links (empty_embed raw_url (joined (t ∷ ts)))))
  ]

  abbrev parsed : String → Option Document → Fetched Embed
  parsed raw_url none = err "parse"
  parsed raw_url (some doc) = embed_of raw_url doc

  abbrev parsed_body : String → Option String → Fetched Embed
  parsed_body raw_url none = err "gzip"
  parsed_body raw_url (some body) = parsed raw_url (new_document body)

  -- `fetchHTMLEmbed`: the response is none where the request cannot be made or fails.
  unfoldable pub fetch_html_embed : String → Option Response → Fetched Embed
  unfolding read_body embed_of
  fetch_html_embed raw_url none = err "request"
  fetch_html_embed raw_url (some res) =
      if eqb res.status_code 429
      then err "rate limited"
      else if not (eqb res.status_code 200)
      then err "unexpected status"
      else parsed_body raw_url (read_body res)

  -- `FetchEmbed`: `waited` is whether the wait for the host's limiter ends without an error.
  unfoldable pub fetch_embed : Limiters → String → Bool → Option Response → Limiters × Fetched Embed
  unfolding limiter_for_host fetch_html_embed
  fetch_embed l raw_url waited res = elim (parse_url raw_url) [
    | none ↦ (l, err "url")
    | some u ↦ (
      (limiter_for_host l u.host).0,
      if waited then fetch_html_embed raw_url res else err "limiter",
    )
  ]
