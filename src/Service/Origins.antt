-- ===== src/Service/Origins.antt =====
-- server/src/service.rs: which answers another origin may read.
use spa_server.Base.{
  ℕ, ◌≡◌, refl, true, false, Option, none, some, arith, nat_eq, list_eq, option_eq,
}
use spa_server.Base.Dict
use spa_server.Base.Text.{Text, codes}
use spa_server.Crates.{Crates}
use spa_server.FilePath.{FilePath}
use spa_server.FileSystem.{FileSystem}
use spa_server.FileCache.{CacheItem, DataBlock, file_block, cache_block}
use spa_server.Storage.{DomainStorage}
use spa_server.Http.StatusCode
use spa_server.Http.{
  Response, ok, err, Request, Range, Conditionals, no_body, with_body, HttpCrates, Cond, HttpResult,
  resp,
}
use spa_server.Cors.{resp_cors_request, preflight}
use spa_server.StaticFile.{file_reply, cache_reply, body_reply, cache_or_file_reply, get_cache_file}
use spa_server.Service.{
  ServiceConfig, get_domain_service_config, authority_of, static_file, create_service,
}

-- The origin that a request names.
abbrev pub origin_of : Request → Option Text
unfolding Dict.lookup nat_eq list_eq
origin_of req = Dict.lookup (codes "origin") req.headers

-- The reply of `Conditionals::check` that needs no body says nothing of origins.
abbrev pub ChecksNoOrigin : HttpCrates → Type 0
ChecksNoOrigin http =
    (c : Conditionals) (modified : Option ℕ) (r : Response)
    → http.check c modified ≡ no_body r
    → r.allow_origin ≡ none

cache_reply-origin :
    (item : CacheItem) (content : Text) (range : Option Range) (modified : Option ℕ)
    → (cache_reply item content range modified).allow_origin ≡ none
unfolding cache_reply
cache_reply-origin item content range modified = ground arith

file_reply-origin :
    (http : HttpCrates) (fs : FileSystem) (item : CacheItem) (path : FilePath)
    (range : Option Range) (modified : Option ℕ)
    → (file_reply http fs item path range modified).allow_origin ≡ none
unfolding file_reply
file_reply-origin http fs item path range modified = ground arith

body_reply-origin :
    (http : HttpCrates) (fs : FileSystem) (item : CacheItem) (block : DataBlock)
    (range : Option Range) (accept : Option Text) (modified : Option ℕ)
    → (body_reply http fs item block range accept modified).allow_origin ≡ none
unfolding body_reply
body_reply-origin http fs item (file_block path) range accept modified =
    file_reply-origin http fs item path range modified
body_reply-origin http fs item (cache_block content z path) range accept modified = ground (
  arith,
  file_reply-origin http fs item path range modified,
  cache_reply-origin item content range modified,
)

cache_or_file_reply-origin :
    (http : HttpCrates) (fs : FileSystem) (item : CacheItem) (c : Conditionals)
    (accept : Option Text)
    → ChecksNoOrigin http
    → (cache_or_file_reply http fs item c accept).allow_origin ≡ none
unfolding cache_or_file_reply
cache_or_file_reply-origin http fs item c accept checks =
    go (http.check c (some item.meta.modified)) refl
  where
    go :
        (answer : Cond)
        → http.check c (some item.meta.modified) ≡ answer
        → (cache_or_file_reply http fs item c accept).allow_origin ≡ none
    go (no_body r) e = rw (e, cache_or_file_reply) (checks c (some item.meta.modified) r e)
    go (with_body range) e =
        rw (e, cache_or_file_reply) (body_reply-origin http fs item item.block range accept _)

get_cache_file-origin :
    (crates : Crates) (tail host : Text) (storage : DomainStorage) (r : Response)
    → get_cache_file crates tail host storage ≡ err r
    → r.allow_origin ≡ none
unfolding get_cache_file
get_cache_file-origin crates tail host storage r h = ground arith

module _ (crates : Crates) (http : HttpCrates) where
  static_file-origin :
      (fs : FileSystem) (storage : DomainStorage) (host : Text) (req : Request)
      → ChecksNoOrigin http
      → (static_file crates http fs storage host req).allow_origin ≡ none
  unfolding static_file
  static_file-origin fs storage host req checks =
      go (get_cache_file crates req.uri.path host storage) refl
    where
      go :
          (found : HttpResult CacheItem)
          → get_cache_file crates req.uri.path host storage ≡ found
          → (static_file crates http fs storage host req).allow_origin ≡ none
      go (err r) e = rw (e, static_file) (get_cache_file-origin crates _ host storage r e)
      go (ok item) e = rw (e, static_file) (cache_or_file_reply-origin http fs item _ _ checks)

  -- An answer that allows an origin to read it allows the one that the request names, and is given
  -- only for a domain whose settings allow other origins.
  pub create_service-allow_origin :
      (fs : FileSystem) (storage : DomainStorage) (c : ServiceConfig) (req : Request)
      (authority origin : Text)
      → ChecksNoOrigin http
      → authority_of http req ≡ some authority
      → (create_service crates http fs storage c req).allow_origin ≡ some origin
      → (origin_of req ≡ some origin)
        × ((get_domain_service_config c (http.host authority)).cors ≡ true)
  unfolding create_service resp_cors_request preflight
  create_service-allow_origin fs storage c req authority origin checks at h =
      ground (arith, at, static_file-origin fs storage (http.host authority) req checks)

  -- A request of another origin to a domain that allows none is refused with 403, whatever its
  -- method and its path, and whatever is stored and cached.
  pub create_service-forbids :
      (fs : FileSystem) (storage : DomainStorage) (c : ServiceConfig) (req : Request)
      (authority origin : Text)
      → authority_of http req ≡ some authority
      → origin_of req ≡ some origin
      → (get_domain_service_config c (http.host authority)).cors ≡ false
      → create_service crates http fs storage c req
        ≡ resp StatusCode.forbidden (codes "origin not allowed")
  unfolding create_service resp_cors_request preflight
  create_service-forbids fs storage c req authority origin at named off = ground (arith, at)
