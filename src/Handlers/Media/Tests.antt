-- ===== src/Handlers/Media/Tests.antt =====
-- A picture that the homeserver does not find.
use arko.Base.{ℕ, String, ◌≡◌, refl, some, List, [], ◌∷◌, All, has_prefix}
use arko.Base.Assoc.{lookup}
use arko.Base.SyncMap
use arko.Base.SyncMap.{SyncMap}
use arko.Cache.{Cache}
use arko.Session.{Session, zero_session}
use arko.Handlers.Media.{
  MediaResponse, Upstream, Server, Step, kept, handle_proxy_media, run, Leaves,
  handle_proxy_media-kept,
}

instance abbrev map_listed : SyncMap
map_listed = SyncMap.listed

abbrev cold : Cache MediaResponse
cold = record { entries = []; ttl = 86_400_000_000_000; flights = [] }

abbrev missing : Upstream
missing = record {
  content_length = some 2;
  media = record { content_type = "application/json"; body = 123 ∷ 125 ∷ []; status_code = 404 };
}

abbrev server : Server
server = λ url token. some missing

abbrev path : String
path = "/_matrix/client/v1/media/download/a/b"

handle_proxy_media-kept_example :
    ((handle_proxy_media cold (some (zero_session "@ann")) path 5 server).0 ≡ kept missing.media)
    × ((ss : List Step) (other : Session) (later : ℕ) (servers : Server)
        → All (Leaves path) ss
        → (handle_proxy_media
            (run (handle_proxy_media cold (some (zero_session "@ann")) path 5 server).1 ss)
            (some other)
            path
            later
            servers).0
          ≡ kept missing.media)
unfolding lookup has_prefix
handle_proxy_media-kept_example =
    handle_proxy_media-kept cold (zero_session "@ann") path 5 server missing refl refl refl refl
      refl
