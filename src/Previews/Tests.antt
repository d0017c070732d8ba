-- ===== src/Previews/Tests.antt =====
-- Runs of the previews.
use arko.Base.{◌≡◌, refl, ◌+s◌, ◌==◌, none, some, false, String, [], ◌∷◌}
use arko.Previews.Extract.{extract_urls}
use arko.Cache.{ok}
use arko.Models.{Embed}
use arko.Previews.Embed.{Libraries, Document, Response, joined, read_body, fetch_html_embed}
use arko.Previews.Meta.{either, declared}
use arko.Previews.Description.{first_named}
use arko.Previews.Page.{favicon, fetch_html_embed_lem}
use arko.Previews.Links.{links}

extract_urls_run :
    extract_urls "see http://a.b/c?d=e, <https://x.y> (http:// and https://x.y)"
    ≡ "http://a.b/c?d=e," ∷ "https://x.y" ∷ "https://x.y)" ∷ []
unfolding extract_urls
extract_urls_run = refl

extract_urls_twice : extract_urls "httphttps://a http://b https://a" ≡ "https://a" ∷ "http://b" ∷ []
unfolding extract_urls
extract_urls_twice = refl

abbrev page : Document
page = record {
  titles = "Page" ∷ [];
  links =
      (record { key = "rel"; val = "icon" } ∷ record { key = "href"; val = "/i.png" } ∷ []) ∷ [];
  metas =
      (record { key = "property"; val = "og:title" }
        ∷ record { key = "content"; val = "Graph" }
        ∷ [])
      ∷ (record { key = "name"; val = "description" }
          ∷ record { key = "content"; val = "text" }
          ∷ [])
      ∷ [];
}

-- A parser that knows one page, in a world without capitals.
abbrev plain : Libraries
plain = record {
  to_lower = λ s. s;
  parse_url = λ s. some (record { scheme = "https"; host = "a.b" });
  url_string = λ scheme host path. scheme +s ("://" +s (host +s path));
  new_document = λ s. some page;
  gunzip = λ s. none;
}

abbrev answer : Response
answer = record { status_code = 200; content_encoding = ""; body = "<html>" }

fetch_html_embed_run :
    fetch_html_embed plain "https://a.b/c" (some answer)
    ≡ ok (record {
      title = "Graph";
      description = "text";
      url = "https://a.b/c";
      image_url = "https://a.b/i.png";
      site_name = "";
    })
unfolding fetch_html_embed
fetch_html_embed_run = refl

fetch_html_embed_lem_example :
    (e : Embed) × (fetch_html_embed plain "https://a.b/c" (some answer) ≡ ok e)
    × (e.title ≡ either (declared plain "og:title" page.metas) (joined ("Page" ∷ [])))
    × (e.image_url
        ≡ either
            (declared plain "og:image" page.metas)
            (either (favicon plain "https://a.b/c" page.links) ""))
    × (e.site_name ≡ either (declared plain "og:site_name" page.metas) "")
    × ((c : String)
        → declared plain "og:description" page.metas ≡ some c
        → (c == "") ≡ false
        → e.description ≡ c)
    × (declared plain "og:description" page.metas ≡ none
        → e.description ≡ first_named plain page.metas)
unfolding read_body
fetch_html_embed_lem_example =
    fetch_html_embed_lem plain "https://a.b/c" "<html>" "Page" [] answer page refl refl refl refl
