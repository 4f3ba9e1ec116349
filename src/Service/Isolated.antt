-- ===== src/Service/Isolated.antt =====
-- server/src/service.rs: the replies of a domain, whatever is asked for the others.
use spa_server.Base.{
  ℕ, ◌≡◌, refl, sym, ap, ◌∙◌, true, inl, inr, Option, some, arith, nat_eq, list_eq, option_eq,
}
use spa_server.Base.{and_then, Option-cases}
use spa_server.Base.Dict
use spa_server.Base.Text.{Text, codes}
use spa_server.FilePath.{FilePath, is_under}
use spa_server.FileSystem.{File, FileSystem, read}
use spa_server.FileSystem.Frames.{is_under_trans}
use spa_server.FileSystem.WalkDir.{IsWalk}
use spa_server.FileCache.{
  FileCache, DataBlock, file_block, cache_block, CacheItem, get_item, cache_file, data_block,
}
use spa_server.FileCache.Entries.{entry_of, lookup-cache_dir}
use spa_server.Cors.{Checked, left, right, resp_cors_request}
use spa_server.Crates.{Crates}
use spa_server.Http.{
  HttpCrates, Request, Range, Conditionals, Response, HttpResult, ok, err, Cond, with_body, no_body,
}
use spa_server.Storage.{Site, DomainStorage, Result, version_path, get_file}
use spa_server.Storage.Frames.{IsSanitizer}
use spa_server.Storage.Isolation.{root, IsPlain, IsOther, Untouched, Reach-Untouched}
use spa_server.Storage.Paths.{version_path-below}
use spa_server.Storage.Reachable.{Reach, Each}
use spa_server.Storage.Release.{release}
use spa_server.StaticFile.{
  file_reply, body_reply, cache_or_file_reply, get_cache_file, sanitize_path, cache_key,
}
use spa_server.Service.{
  get_domain_service_config, conditionals_of, ServiceConfig, authority_of, static_file, answer,
  create_service,
}
use spa_server.Service.Files.{get_file-release, get_file-cache_key}

-- The file behind an item of the cache.
abbrev block_path : DataBlock → FilePath
block_path (file_block path) = path
block_path (cache_block content compressed path) = path

entry_of-path :
    (crates : Crates) (cache : FileCache) (d : Text) (dir path : FilePath) (f : File)
    → block_path (entry_of crates cache d dir path f).1.block ≡ path
unfolding entry_of cache_file data_block
entry_of-path crates cache d dir path f = ground arith

module _ (crates : Crates) (http : HttpCrates) where
  file_reply-same :
      (fs gs : FileSystem) (item : CacheItem) (path : FilePath) (range : Option Range)
      (modified : Option ℕ)
      → read gs path ≡ read fs path
      → file_reply http gs item path range modified ≡ file_reply http fs item path range modified
  unfolding file_reply
  file_reply-same fs gs item path range modified h = rw (h, file_reply)

  body_reply-same :
      (fs gs : FileSystem) (item : CacheItem) (block : DataBlock) (range : Option Range)
      (accept : Option Text) (modified : Option ℕ)
      → read gs (block_path block) ≡ read fs (block_path block)
      → body_reply http gs item block range accept modified
        ≡ body_reply http fs item block range accept modified
  unfolding body_reply
  body_reply-same fs gs item (file_block path) range accept modified h =
      file_reply-same fs gs item path range modified h
  body_reply-same fs gs item (cache_block content compressed path) range accept modified h =
      rw (file_reply-same fs gs item path range modified h)

  cache_or_file_reply-same :
      (fs gs : FileSystem) (item : CacheItem) (conditionals : Conditionals) (accept : Option Text)
      → read gs (block_path item.block) ≡ read fs (block_path item.block)
      → cache_or_file_reply http gs item conditionals accept
        ≡ cache_or_file_reply http fs item conditionals accept
  unfolding cache_or_file_reply
  cache_or_file_reply-same fs gs item conditionals accept h =
      checked_reply (http.check conditionals (some item.meta.modified))
    where
      -- The reply, once the conditions are checked.
      reply : FileSystem → Cond → Response
      reply disk (no_body r) = r
      reply disk (with_body range) =
          body_reply http disk item item.block range accept (some item.meta.modified)

      checked_reply : (x : Cond) → reply gs x ≡ reply fs x
      checked_reply (no_body r) = refl
      checked_reply (with_body range) =
          body_reply-same fs gs item item.block range accept (some item.meta.modified) h

  get_file-same :
      (d key : Text) (s t : DomainStorage)
      → Dict.lookup d t.cache.items ≡ Dict.lookup d s.cache.items
      → get_file t d key ≡ get_file s d key
  unfolding get_file
  get_file-same d key s t h = rw (h, get_item)

  get_cache_file-same :
      (tail d : Text) (s t : DomainStorage)
      → Dict.lookup d t.cache.items ≡ Dict.lookup d s.cache.items
      → get_cache_file crates tail d t ≡ get_cache_file crates tail d s
  unfolding get_cache_file sanitize_path
  get_cache_file-same tail d s t h = elim (Option-cases (crates.percent_decode tail)) [
    | inl undecoded ↦ ground (arith, undecoded)
    | inr (key, decoded) ↦ ground (arith, decoded, get_file-same d (cache_key key) s t h)
  ]

  static_file-same :
      (fs gs : FileSystem) (s t : DomainStorage) (d : Text) (req : Request)
      → Dict.lookup d t.cache.items ≡ Dict.lookup d s.cache.items
      → ((key : Text) (item : CacheItem)
          → get_file s d key ≡ some item
          → read gs (block_path item.block) ≡ read fs (block_path item.block))
      → static_file crates http gs t d req ≡ static_file crates http fs s d req
  unfolding static_file
  static_file-same fs gs s t d req same kept =
      rw (get_cache_file-same req.uri.path d s t same, static_file)
        (found (get_cache_file crates req.uri.path d s) refl)
    where
      -- The reply with what is found.
      reply : FileSystem → HttpResult CacheItem → Response
      reply disk (err r) = r
      reply disk (ok item) =
          cache_or_file_reply http disk item (conditionals_of http req.headers)
            (and_then (Dict.lookup (codes "accept-encoding") req.headers) http.header_to_str)

      found :
          (x : HttpResult CacheItem)
          → get_cache_file crates req.uri.path d s ≡ x
          → reply gs x ≡ reply fs x
      found (err r) e = refl
      found (ok item) e =
          let (key, decoded, there) = get_file-cache_key crates req.uri.path d s item e in
          cache_or_file_reply-same fs gs item _ _ (kept (cache_key key) item there)

  create_service-same :
      (fs gs : FileSystem) (s t : DomainStorage) (conf : ServiceConfig) (req : Request)
      (authority : Text)
      → authority_of http req ≡ some authority
      → static_file crates http gs t (http.host authority) req
        ≡ static_file crates http fs s (http.host authority) req
      → create_service crates http gs t conf req ≡ create_service crates http fs s conf req
  unfolding create_service answer
  create_service-same fs gs s t conf req authority named same =
      let host = http.host authority in
      let config = get_domain_service_config conf host in
      rw (named, create_service)
        (checked (resp_cors_request http req.method req.headers config.cors))
    where
      -- The reply behind the check of the origin.
      reply : FileSystem → DomainStorage → Checked → Response
      reply disk storage (right r) = r
      reply disk storage (left origin) =
          answer crates http disk storage (get_domain_service_config conf (http.host authority))
            (http.host authority) req origin

      checked : (x : Checked) → reply gs t x ≡ reply fs s x
      checked (right r) = refl
      checked (left origin) = rw (same, answer) refl

  -- What is released lies below the directory of its domain.
  released_below :
      (walks : IsWalk crates.walk) (a : Site) (d : Text) (v : ℕ) (key : Text) (item : CacheItem)
      → IsPlain d
      → (release crates a d v).0 ≡ Result.ok v
      → get_file (release crates a d v).1.storage d key ≡ some item
      → is_under (root a.storage d) (block_path item.block) ≡ true
  released_below walks a d v key item (named, plain) done there =
      let dir = version_path a.storage.prefix d v in
      let (path, f, under, found, made) =
        lookup-cache_dir crates walks a.storage.cache a.fs d dir key item
          (get_file-release crates a d v key item done there) in
      let at : block_path item.block ≡ path =
        sym (ap (λ (e : Text × CacheItem). block_path e.1.block) made)
        ∙ entry_of-path crates a.storage.cache d dir path f in
      rw at (
        is_under_trans (root a.storage d) dir path (version_path-below a.storage.prefix d v named)
          under)

  release-prefix :
      (a : Site) (d : Text) (v : ℕ) → (release crates a d v).1.storage.prefix ≡ a.storage.prefix
  unfolding release
  release-prefix a d v = ground arith

  read-same :
      (fs gs : FileSystem) (p : FilePath)
      → Dict.lookup p gs ≡ Dict.lookup p fs
      → read gs p ≡ read fs p
  unfolding read
  read-same fs gs p h = rw (h, read)

  -- Once a version of a domain has been released, every request to the domain is answered in the same
  -- way before and after any requests to the administration for other domains, carried out one after
  -- another and whether or not they fail: with the same status, headers and bytes. The names of all
  -- these domains are one component of a path and not "..". It is given that a walk yields what lies
  -- below its root and `sanitize_path` paths below its base.
  pub create_service-isolated :
      (walks : IsWalk crates.walk) (clean : IsSanitizer crates) (a b : Site) (d : Text) (v : ℕ)
      (r : Reach crates (release crates a d v).1 b) (conf : ServiceConfig) (req : Request)
      (authority : Text)
      → (release crates a d v).0 ≡ Result.ok v
      → IsPlain d
      → Each crates (IsOther crates d) r
      → authority_of http req ≡ some authority
      → http.host authority ≡ d
      → create_service crates http b.fs b.storage conf req
        ≡ create_service crates http
            (release crates a d v).1.fs
            (release crates a d v).1.storage
            conf
            req
  create_service-isolated walks clean a b d v r conf req authority done plain others named host =
      let site : Site = (release crates a d v).1 in
      let u : Untouched d site b = Reach-Untouched crates clean d site b r plain others in
      create_service-same site.fs b.fs site.storage b.storage conf req authority named (
        rw host (
          static_file-same site.fs b.fs site.storage b.storage d req u.entry.items
            (λ key item there. read-same site.fs b.fs (block_path item.block) (
              u.files (block_path item.block) (
                rw (release-prefix a d v)
                  (released_below walks a d v key item plain done there))))))
