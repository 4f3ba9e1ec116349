-- ===== src/Tests/Fixtures.antt =====
-- A site with one domain, and functions in place of other crates.
use spa_server.Base.{ℕ, ◌≡◌, refl, ◌&&◌, none, some, List, [], ◌∷◌, ◌++◌, map, arith}
use spa_server.Base.{filter, contains, contains-filter, nat_eq, list_eq}
use spa_server.Base.Dict
use spa_server.Base.Text.{Text, codes}
use spa_server.FilePath.{FilePath, slash, components, is_under, depth_below}
use spa_server.FileSystem.{File, dir, file, FileSystem, exists}
use spa_server.FileSystem.WalkDir.{Walk, IsWalk, fits_depth}
use spa_server.FileCache.{FileCache}
use spa_server.Config.{default_cache}
use spa_server.Crates.{Crates}
use spa_server.Storage.{Site, DomainStorage, uploading_file_name}
use spa_server.Http.{HttpCrates, with_body}
use spa_server.StaticFile.{slice}
use spa_server.StaticFile.Bodies.{Streams}

-- A walk over an explicit file system.
abbrev keys : FileSystem → List FilePath
keys fs = map (λ e. e.0) fs

unfoldable pub list_walk : Walk
unfolding is_under nat_eq list_eq
list_walk fs root depth =
    filter (λ q. is_under root q && fits_depth depth (depth_below root q)) (keys fs)

contains-keys : (fs : FileSystem) (q : FilePath) → contains (keys fs) q ≡ exists fs q
unfolding exists Dict.lookup
contains-keys [] q = refl
contains-keys ((p, n) ∷ fs) q = ground (arith, contains-keys fs q)

pub list_walk-IsWalk : IsWalk list_walk
unfolding list_walk
list_walk-IsWalk = record {
  contains-walk = λ fs root q depth. ground (
    arith,
    contains-filter (λ p. is_under root p && fits_depth depth (depth_below root p)) (keys fs) q,
    contains-keys fs q,
  );
}

unfoldable pub crates : Crates
unfolding list_walk components nat_eq
crates = record {
  walk = list_walk;
  is_uri = λ s. contains s b'.';
  guess_mime = λ p. codes "text/html";
  gzip = λ s. b'z' ∷ s;
  md5 = λ s. b'm' ∷ s;
  sanitize_path = λ base s. some (base ++ components s);
  percent_decode = some;
}

pub crates-IsWalk : IsWalk crates.walk
unfolding crates
crates-IsWalk = list_walk-IsWalk

unfoldable pub http : HttpCrates
http = record {
  typed_if_modified_since = λ h. none;
  typed_if_unmodified_since = λ h. none;
  typed_if_range = λ h. none;
  typed_range = λ h. none;
  check = λ c modified. with_body c.range;
  file_stream = λ s start stop. slice start stop s;
  header_to_str = some;
  authority_from_str = some;
  host = λ s. s;
  method_from_bytes = some;
}

pub http-Streams : Streams http
unfolding http
http-Streams content start stop = refl

abbrev pub prefix : FilePath
prefix = slash ∷ codes "w" ∷ []

abbrev pub domain : Text
domain = codes "a.b"

abbrev pub version_dir : ℕ → FilePath
version_dir digit = prefix ++ domain ∷ (digit ∷ []) ∷ []

abbrev pub index : FilePath
index = version_dir b'1' ++ codes "index.html" ∷ []

abbrev pub page : File
page = record { content = codes "hello"; modified = 7 }

-- Version 1 is complete, version 2 is being uploaded.
abbrev pub disk : FileSystem
disk =
    (slash ∷ [], dir)
    ∷ (prefix, dir)
    ∷ (prefix ++ domain ∷ [], dir)
    ∷ (version_dir b'1', dir)
    ∷ (index, file page)
    ∷ (version_dir b'2', dir)
    ∷ (version_dir b'2' ++ uploading_file_name ∷ [], file (record { content = []; modified = 8 }))
    ∷ []

abbrev pub cache : FileCache
cache = record { conf = record { default = default_cache; inner = [] }; items = [] }

abbrev pub storage : DomainStorage
storage = record { meta = []; prefix = prefix; cache = cache; uploading_status = (domain, 2) ∷ [] }

abbrev pub site : Site
site = record { storage = storage; fs = disk }

-- The site with version 1 served.
abbrev pub served_site : Site
served_site = record site { storage = record storage { meta = (domain, (prefix, 1)) ∷ [] } }
