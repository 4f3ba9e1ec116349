-- ===== src/Tests/Files.antt =====
-- What a client of the small site gets.
use mathlib.Core.List.{flatten}
use spa_server.Base.{
  ◌≡◌, ◌++◌, refl, true, false, ◌-◌, none, some, [], ◌∷◌, arith, nat_eq, list_eq, option_eq,
}
use spa_server.Base.Dict
use spa_server.Base.Text.{Text, codes}
use spa_server.Base.Text.Decimal.{to_string, digits}
use spa_server.FilePath.{FilePath, join, to_str, is_under}
use spa_server.FileSystem.{File, read}
use spa_server.FileCache.{CacheItem, cache_block, cache_dir}
use spa_server.FileCache.Entries.{entry_of}
use spa_server.Storage.{ok, version_path}
use spa_server.Storage.Release.{release}
use spa_server.Http.{HttpResult, Request, Conditionals, included, unbounded, resp}
use spa_server.Http.StatusCode
use spa_server.StaticFile.{cache_reply, get_cache_file, cache_or_file_reply, cache_key}
use spa_server.StaticFile.Bodies.{IsHonest, cache_reply-IsHonest, cache_reply_split}
use spa_server.Service.{ServiceConfig, create_service, authority_of, get_domain_service_config}
use spa_server.Service.Origins.{
  create_service-allow_origin, create_service-forbids, origin_of, ChecksNoOrigin,
}
use spa_server.Service.Files.{Delivers, release_serves}
use spa_server.Tests.Fixtures.{
  crates, crates-IsWalk, http, http-Streams, site, storage, disk, domain, prefix, index, page,
  cache, version_dir,
}

abbrev page_item : CacheItem
page_item = record {
  meta = record { len = 5; modified = 7 };
  block = cache_block (codes "hello") false index;
  mime = codes "text/html";
  expire = none;
}

cache_reply-IsHonest_example :
    IsHonest
      (codes "hello")
      (cache_reply page_item (codes "hello") (some ((included 1, included 3) ∷ [])) none)
cache_reply-IsHonest_example =
    cache_reply-IsHonest page_item (codes "hello") (some ((included 1, included 3) ∷ [])) none

cache_reply_split_example :
    (cache_reply page_item (codes "hello") (some ((included 0, included (2 - 1)) ∷ [])) none).body
      ++ (cache_reply page_item (codes "hello") (some ((included 2, unbounded) ∷ [])) none).body
    ≡ codes "hello"
cache_reply_split_example =
    cache_reply_split page_item (codes "hello") 2 none none (omega arith) (omega arith)
      (omega arith)

read-index : read disk index ≡ some page
unfolding read Dict.lookup list_eq nat_eq
read-index = refl

index_under : is_under (version_dir b'1') index ≡ true
unfolding is_under list_eq nat_eq
index_under = refl

index_cached :
    Dict.lookup (codes "index.html") (cache_dir crates cache disk domain (version_dir b'1'))
    ≡ some page_item
unfolding cache_dir crates Dict.lookup to_str read flatten
index_cached = refl

release_one : (release crates site domain 1).0 ≡ ok 1
unfolding release crates Dict.lookup join to_string digits
release_one = refl

index_found :
    get_cache_file crates (codes "/") domain (release crates site domain 1).1.storage
    ≡ HttpResult.ok page_item
unfolding get_cache_file release crates Dict.lookup Dict.insert to_str join to_string digits read
    flatten
index_found = refl

abbrev pub no_conditions : Conditionals
no_conditions = record {
  if_modified_since = none;
  if_unmodified_since = none;
  if_range = none;
  range = none;
}

release_serves_example :
    (decoded : Text) × (path : FilePath) × (f : File) × (crates.percent_decode (codes "/")
      ≡ some decoded)
    × ((entry_of crates cache domain (version_path prefix domain 1) path f).0 ≡ cache_key decoded)
    × (is_under (version_path prefix domain 1) path ≡ true)
    × (read disk path ≡ some f)
    × Delivers crates f.content (some (codes "gzip")) none (
        cache_or_file_reply http
          (release crates site domain 1).1.fs
          page_item
          no_conditions
          (some (codes "gzip")))
unfolding http
release_serves_example =
    release_serves crates http crates-IsWalk http-Streams site domain 1 (codes "/") page_item
      no_conditions none (some (codes "gzip")) release_one index_found refl

abbrev request : Text → Request
request method = record {
  method = method;
  uri = record {
    scheme = some (codes "http");
    authority = some domain;
    path = codes "/";
    text = codes "http://a.b/";
  };
  headers = (codes "origin", codes "http://c.d") ∷ [];
}

abbrev settings : ServiceConfig
settings = record { default = record { cors = false; http_redirect_to_https = true }; inner = [] }

abbrev open_settings : ServiceConfig
open_settings = record {
  default = record { cors = true; http_redirect_to_https = false };
  inner = [];
}

authority_is_domain : (method : Text) → authority_of http (request method) ≡ some domain
unfolding authority_of
authority_is_domain method = refl

request_origin : (method : Text) → origin_of (request method) ≡ some (codes "http://c.d")
unfolding Dict.lookup nat_eq list_eq
request_origin method = refl

http-ChecksNoOrigin : ChecksNoOrigin http
unfolding http
http-ChecksNoOrigin c modified r e = cc

get_allowed :
    (create_service crates http disk
      (release crates site domain 1).1.storage
      open_settings
      (request (codes "GET"))).allow_origin
    ≡ some (codes "http://c.d")
unfolding create_service http crates
get_allowed = refl

create_service-allow_origin_example :
    (origin_of (request (codes "GET")) ≡ some (codes "http://c.d"))
    × ((get_domain_service_config open_settings (http.host domain)).cors ≡ true)
create_service-allow_origin_example =
    create_service-allow_origin crates http disk (release crates site domain 1).1.storage
      open_settings (request (codes "GET")) domain (codes "http://c.d") http-ChecksNoOrigin
      (authority_is_domain (codes "GET")) get_allowed

create_service-forbids_example :
    create_service crates http disk storage settings (request (codes "GET"))
    ≡ resp StatusCode.forbidden (codes "origin not allowed")
unfolding http get_domain_service_config Dict.lookup
create_service-forbids_example =
    create_service-forbids crates http disk storage settings (request (codes "GET")) domain
      (codes "http://c.d") (authority_is_domain (codes "GET")) (request_origin (codes "GET")) refl
