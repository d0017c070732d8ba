-- ===== src/Handlers/Media.antt =====
-- internal/handlers/media.go: the proxy of media, over the cache of Cache. `Server` is what a
-- request to an address with an access token gets back.
mod Tests
use Prim.Native.Char.{code}
use Prim.Native.String.{[] as empty, ◌∷◌ as ◌∷s◌}
use text.Mathlib.TextLemmas.{nil-append, cons-append}
use arko.Base.{
  ℕ, ◌*◌, String, ◌+s◌, Bool, true, false, not, ◌&&◌, ◌||◌, ◌≡◌, refl, ap, ◌∙◌, Option, none, some,
  List, [], ◌∷◌, ◌==◌, eqb, ltb, length, has_prefix, if◌then◌else◌, arith, eq_iff, eq_refl,
  Bool-cases, inl, inr, ◌≢◌, All, if_intro, sym,
}
use arko.Base.Assoc.{lookup}
use arko.Base.SyncMap.{SyncMap}
use arko.Cache
use arko.Cache.{Cache, Fetched, ok, err, GetResult, value, failed, panic, blocked, refresh}
use arko.Cache.Laws.{get_hit, get_miss-ok, get_keeps, enter-entries, land_keeps}
use arko.Session.{Session}

pub record MediaResponse : Type 0 where
  pub content_type : String
  pub body : List ℕ
  pub status_code : ℕ

-- The answer of the homeserver; its length is none where the header does not tell it.
pub record Upstream : Type 0 where
  pub content_length : Option ℕ
  pub media : MediaResponse

abbrev pub Server : Type 0
Server = String → String → Option Upstream

abbrev pub max_cacheable_media_size : ℕ
max_cacheable_media_size = 3145728

-- strings.TrimRight s "/"
unfoldable pub trim_slashes : String → String
trim_slashes empty = empty
trim_slashes (c ∷s s) =
    let rest = trim_slashes s in if eqb (code c) b'/' && rest == "" then "" else c ∷s rest

abbrev pub ask_server : Server → Session → String → Option Upstream
ask_server server sess path = server (trim_slashes sess.homeserver +s path) sess.access_token

abbrev is_long : Option ℕ → Bool
is_long none = false
is_long (some n) = ltb max_cacheable_media_size n

abbrev pub is_too_large : Upstream → Bool
is_too_large u = is_long u.content_length || ltb max_cacheable_media_size (length u.media.body)

-- The function that is passed to the cache.
unfoldable pub fetch_media : Option Upstream → Fetched MediaResponse
fetch_media none = err "upstream"
fetch_media (some u) = if is_too_large u then err "media too large for cache" else ok u.media

-- The response: an error, a body with the header that lets the browser keep it, a body that is
-- passed through, or a panic of the cache; `waits` is a request that waits for another one.
pub data MediaReply : Type 0 where
  unauthorized bad_request forbidden bad_gateway crashed waits : MediaReply
  kept : MediaResponse → MediaReply
  streamed : MediaResponse → MediaReply

unfoldable pub proxy_large_media : Option Upstream → MediaReply
proxy_large_media none = bad_gateway
proxy_large_media (some u) = streamed u.media

unfoldable pub reply_of : GetResult MediaResponse → Option Upstream → MediaReply
unfolding proxy_large_media
reply_of (value m) again = kept m
reply_of (failed e) again =
    if e == "media too large for cache" then proxy_large_media again else bad_gateway
reply_of panic again = crashed
reply_of blocked again = waits

-- A request, and two parts of the goroutine that looks anew at a path: it enters the flight, and it
-- lands with what the homeserver answers.
pub data Step : Type 0 where
  asks : Option Session → String → ℕ → Server → Step
  starts : String → Step
  lands : String → ℕ → Option Upstream → Step

-- A text behind its first four characters.
abbrev rest_of : String → String
rest_of (a ∷s (b ∷s (c ∷s (d ∷s s)))) = s
rest_of s = s

module _ ⦃x : SyncMap⦄ where
  unfoldable pub serve_media :
      Cache MediaResponse → Session → String → ℕ → Server → MediaReply × Cache MediaResponse × Bool
  unfolding reply_of fetch_media trim_slashes
  serve_media c sess path now server =
      let (r, c', stale) =
        Cache.get c ("hpm:" +s path) now (fetch_media (ask_server server sess path)) in
      (reply_of r (ask_server server sess path), c', stale)

  -- A request of a session with a path, and whether it starts a refresh of the entry.
  unfoldable pub handle_proxy_media :
      Cache MediaResponse
      → Option Session
      → String
      → ℕ
      → Server
      → MediaReply × Cache MediaResponse × Bool
  unfolding serve_media has_prefix
  handle_proxy_media c none path now server = (unauthorized, c, false)
  handle_proxy_media c (some sess) path now server =
      if path == ""
      then (bad_request, c, false)
      else if not (has_prefix path "/_matrix/client/v1/media/")
      then (forbidden, c, false)
      else serve_media c sess path now server

  unfoldable pub step : Cache MediaResponse → Step → Cache MediaResponse
  unfolding handle_proxy_media fetch_media
  step c (asks who path now server) = (handle_proxy_media c who path now server).1
  step c (starts path) = (Cache.enter c ("hpm:" +s path) refresh).0
  step c (lands path now found) = (Cache.land c ("hpm:" +s path) now refresh (fetch_media found)).0

  unfoldable pub run : Cache MediaResponse → List Step → Cache MediaResponse
  unfolding step
  run c [] = c
  run c (s ∷ ss) = run (step c s) ss

  -- A request for media goes on to the cache.
  handle_step :
      (c : Cache MediaResponse) (sess : Session) (path : String) (now : ℕ) (server : Server)
      → has_prefix path "/_matrix/client/v1/media/" ≡ true
      → handle_proxy_media c (some sess) path now server ≡ serve_media c sess path now server
  unfolding handle_proxy_media
  handle_step c sess path now server h = elim (Bool-cases (path == "")) [
    | inl e ↦
        let q : has_prefix path "/_matrix/client/v1/media/" ≡ false =
          ap (λ p. has_prefix p "/_matrix/client/v1/media/") ((eq_iff path "").0 e) in
        cc (h, q)
    | inr n ↦ rw (n, h) refl
  ]

  fetch_small :
      (u : Upstream) (found : Option Upstream)
      → found ≡ some u
      → is_too_large u ≡ false
      → fetch_media found ≡ ok u.media
  unfolding fetch_media
  fetch_small u found e f = rw (e, f) refl

  abbrev after : Cache MediaResponse → String → ℕ → MediaResponse → Cache MediaResponse
  after c path now m = (Cache.get c ("hpm:" +s path) now (ok m)).1

  serve_first :
      (c : Cache MediaResponse) (sess : Session) (path : String) (now : ℕ) (server : Server)
      (u : Upstream)
      → fetch_media (ask_server server sess path) ≡ ok u.media
      → (Cache.get c ("hpm:" +s path) now (ok u.media)).0 ≡ value u.media
      → serve_media c sess path now server ≡ (
        kept u.media,
        after c path now u.media,
        (Cache.get c ("hpm:" +s path) now (ok u.media)).2,
      )
  unfolding serve_media reply_of
  serve_first c sess path now server u f g = rw (f, g) refl

  serve_hit :
      (c : Cache MediaResponse) (sess : Session) (path : String) (now : ℕ) (server : Server)
      (m : MediaResponse) (since : ℕ)
      → x.load c.entries ("hpm:" +s path) ≡ some (record { value = m; fetched_at = since })
      → (serve_media c sess path now server).0 ≡ kept m
  unfolding serve_media reply_of
  serve_hit c sess path now server m since h =
      rw
        (get_hit c ("hpm:" +s path) now (fetch_media (ask_server server sess path))
          (record { value = m; fetched_at = since }) h)
        refl

  -- The cache keeps a first answer.
  abbrev Keeps : String → MediaResponse → ℕ → Cache MediaResponse → Type 0
  Keeps path m since c =
      x.load c.entries ("hpm:" +s path) ≡ some (record { value = m; fetched_at = since })

  serve-Keeps :
      (c : Cache MediaResponse) (sess : Session) (p : String) (now : ℕ) (server : Server)
      (path : String) (m : MediaResponse) (since : ℕ)
      → Keeps path m since c
      → Keeps path m since (serve_media c sess p now server).1
  unfolding serve_media
  serve-Keeps c sess p now server path m since h =
      get_keeps c ("hpm:" +s p) ("hpm:" +s path) now (fetch_media (ask_server server sess p))
        (record { value = m; fetched_at = since }) h

  handle-Keeps :
      (c : Cache MediaResponse) (who : Option Session) (p : String) (now : ℕ) (server : Server)
      (path : String) (m : MediaResponse) (since : ℕ)
      → Keeps path m since c
      → Keeps path m since (handle_proxy_media c who p now server).1
  unfolding handle_proxy_media
  handle-Keeps c none p now server path m since h = h
  handle-Keeps c (some sess) p now server path m since h =
      if_intro (λ (r : MediaReply × Cache MediaResponse × Bool). Keeps path m since r.1) (p == "") _
        _ (λ _. h)
        λ _.
          if_intro (λ (r : MediaReply × Cache MediaResponse × Bool). Keeps path m since r.1)
            (not (has_prefix p "/_matrix/client/v1/media/")) _ _ (λ _. h)
            λ _. serve-Keeps c sess p now server path m since h

  key_parts : (p : String) → "hpm:" +s p ≡ "h" ∷s ("p" ∷s ("m" ∷s (":" ∷s p)))
  key_parts p = rw (cons-append, cons-append, cons-append, cons-append, nil-append) refl

  key_inj : (p q : String) → "hpm:" +s p ≡ "hpm:" +s q → p ≡ q
  key_inj p q e = ap rest_of (sym (key_parts p) ∙ e ∙ key_parts q)

  -- A step that leaves the entry of a path: no refresh of it brings an answer that is kept.
  abbrev pub Leaves : String → Step → Type 0
  Leaves path (asks who p now server) = Unit
  Leaves path (starts p) = Unit
  Leaves path (lands p now found) = p ≡ path → (m : MediaResponse) → fetch_media found ≢ ok m

  step-Keeps :
      (c : Cache MediaResponse) (s : Step) (path : String) (m : MediaResponse) (since : ℕ)
      → Leaves path s
      → Keeps path m since c
      → Keeps path m since (step c s)
  unfolding step
  step-Keeps c (asks who p now server) path m since l h =
      handle-Keeps c who p now server path m since h
  step-Keeps c (starts p) path m since l h = rw (enter-entries c ("hpm:" +s p) refresh) h
  step-Keeps c (lands p now found) path m since l h =
      land_keeps c ("hpm:" +s p) ("hpm:" +s path) now (fetch_media found)
        (record { value = m; fetched_at = since }) (λ e. l (key_inj p path e)) h

  run-Keeps :
      (c : Cache MediaResponse) (ss : List Step) (path : String) (m : MediaResponse) (since : ℕ)
      → All (Leaves path) ss
      → Keeps path m since c
      → Keeps path m since (run c ss)
  unfolding run
  run-Keeps c [] path m since l h = h
  run-Keeps c (s ∷ ss) path m since l h =
      run-Keeps (step c s) ss path m since l.1 (step-Keeps c s path m since l.0 h)

  -- What the homeserver answers to the first request for a path, whatever its status is, an error
  -- included, is the answer to every later request for that path, of whatever session with whatever
  -- homeserver, at whatever instant and whatever the servers say by then, after any requests for
  -- this and other paths and any refreshes, as long as no refresh of this path brings an answer
  -- that is kept. The conditions: the answer is not too large, and the cache has nothing for the
  -- path and nothing in flight.
  pub handle_proxy_media-kept :
      (c : Cache MediaResponse) (sess : Session) (path : String) (now : ℕ) (server : Server)
      (u : Upstream)
      → has_prefix path "/_matrix/client/v1/media/" ≡ true
      → x.load c.entries ("hpm:" +s path) ≡ none
      → lookup ("hpm:" +s path) c.flights ≡ none
      → ask_server server sess path ≡ some u
      → is_too_large u ≡ false
      → ((handle_proxy_media c (some sess) path now server).0 ≡ kept u.media)
        × ((ss : List Step) (other : Session) (later : ℕ) (servers : Server)
            → All (Leaves path) ss
            → (handle_proxy_media
                (run (handle_proxy_media c (some sess) path now server).1 ss)
                (some other)
                path
                later
                servers).0
              ≡ kept u.media)
  handle_proxy_media-kept c sess path now server u h missing free e f =
      let key = "hpm:" +s path in
      let got = get_miss-ok c key key now u.media missing free in
      let first =
        handle_step c sess path now server h
        ∙ serve_first c sess path now server u (fetch_small u (ask_server server sess path) e f)
            got.0 in
      (
        ap (λ r. r.0) first,
        λ ss other later servers l.
            let held : Keeps path u.media now (run (after c path now u.media) ss) =
              run-Keeps (after c path now u.media) ss path u.media now l
                (got.1 ∙ rw (eq_refl key) refl) in
            ap (λ r. (handle_proxy_media (run r.1 ss) (some other) path later servers).0) first
            ∙ ap (λ r. r.0)
                (handle_step (run (after c path now u.media) ss) other path later servers h)
            ∙ serve_hit (run (after c path now u.media) ss) other path later servers u.media now
                held,
      )
