-- ===== src/Tests/Found.antt =====
-- A client asks for the page of the small site by its path.
use spa_server.Base.{◌≡◌, refl, none, some, [], ◌∷◌, ◌++◌, nat_eq, list_eq, option_eq, inl, All}
use spa_server.Base.Dict
use spa_server.Base.Text.{codes, starts_with}
use spa_server.FilePath.{slash, to_str, join}
use spa_server.FileSystem.{read}
use spa_server.FileCache.Entries.{entry_of}
use spa_server.FileCache.Keys.{IsPlainName, OccursOnce}
use spa_server.Storage.{ok, Site, version_path}
use spa_server.Storage.Release.{release}
use spa_server.Http.{HttpResult, with_body}
use spa_server.StaticFile.{get_cache_file, cache_or_file_reply, contains_str}
use spa_server.Service.Files.{Delivers}
use spa_server.Service.Found.{release_finds}
use spa_server.Base.Text.Decimal.{to_string, digits}
use spa_server.Tests.Fixtures.{
  crates, crates-IsWalk, http, http-Streams, storage, domain, prefix, index, page, cache,
  version_dir, list_walk,
}
use spa_server.Tests.Files.{no_conditions}
use spa_server.Tests.Listing.{stored, stored-IsDisk, index_name}

abbrev stored_site : Site
stored_site = record { storage = storage; fs = stored }

release_one : (release crates stored_site domain 1).0 ≡ ok 1
unfolding release crates Dict.lookup join to_string digits
release_one = refl

version_one : version_path prefix domain 1 ≡ version_dir b'1'
unfolding version_path join to_string digits
version_one = refl

walk_once :
    All
      (OccursOnce (to_str (version_dir b'1') ++ slash))
      (crates.walk stored (version_dir b'1') none)
unfolding crates list_walk to_str contains_str starts_with
walk_once = (refl, (refl, tt))

index_plain : All IsPlainName (codes "index.html" ∷ [])
unfolding starts_with nat_eq
index_plain = ((index_name, refl, refl), tt)

read-stored : read stored index ≡ some page
unfolding read Dict.lookup list_eq nat_eq
read-stored = refl

decoded : crates.percent_decode (codes "/index.html") ≡ some (codes "/index.html")
unfolding crates
decoded = refl

wanted : http.check no_conditions (some page.modified) ≡ with_body none
unfolding http
wanted = refl

release_finds_example :
    let item = (entry_of crates cache domain (version_dir b'1') index page).1 in
    (get_cache_file crates
        (codes "/index.html")
        domain
        (release crates stored_site domain 1).1.storage
      ≡ HttpResult.ok item)
    × Delivers crates page.content (some (codes "gzip")) none (
        cache_or_file_reply http
          (release crates stored_site domain 1).1.fs
          item
          no_conditions
          (some (codes "gzip")))
release_finds_example =
    release_finds crates http crates-IsWalk http-Streams stored_site domain 1 (codes "w")
      (domain ∷ codes "1" ∷ []) (codes "index.html" ∷ []) page (codes "/index.html")
      (codes "/index.html") no_conditions none (some (codes "gzip")) release_one version_one
      stored-IsDisk walk_once index_plain read-stored decoded (inl refl) wanted
