-- ===== src/Service/Files.antt =====
-- From a release to the bytes that a client gets: server/src/domain_storage.rs,
-- server/src/file_cache.rs and server/src/static_file_filter.rs together.
use spa_server.Base.{
  ℕ, ◌≡◌, refl, ap, subst, ◌⊎◌, inl, inr, true, false, Option, none, some, [], ◌∷◌, ◌++◌, arith,
  nat_eq, list_eq, option_eq, length,
}
use spa_server.Base.{Option-cases, Bool-cases, ltb, contains, ◌&&◌}
use spa_server.Base.Dict
use spa_server.Base.Dict.{Dict}
use spa_server.Base.Text.{Text, codes, last_piece, replace}
use spa_server.FilePath.{FilePath, is_under, to_str}
use spa_server.FileSystem.{File, FileSystem, read}
use spa_server.FileSystem.WalkDir.{IsWalk}
use spa_server.Config.{CacheConfig}
use spa_server.FileCache.{
  CacheItem, FileCache, cache_block, cache_file, cache_dir, data_block, get_domain_cache_config,
  compression_file_type,
}
use spa_server.FileCache.Entries.{entry_of, lookup-cache_dir}
use spa_server.Crates.{Crates}
use spa_server.Storage.{Site, DomainStorage, Result, version_path, get_file}
use spa_server.Storage.Release.{release}
use spa_server.Http.{Response, Range, Conditionals, with_body, HttpCrates, HttpResult}
use spa_server.StaticFile.{
  file_reply, cache_reply, body_reply, cache_or_file_reply, get_cache_file, sanitize_path,
  accepts_gzip, cache_key,
}
use spa_server.StaticFile.Bodies.{Streams}
use spa_server.StaticFile.Answers.{Answers, cache_reply-Answers, file_reply-Answers}

-- The reply carries the content, or where the client accepts it what `gzip` makes of the content.
-- What it carries is what the range asks for, of the one or of the other.
abbrev pub Delivers : Crates → Text → Option Text → Option Range → Response → Type 0
Delivers crates content accept range r =
    ((r.content_encoding ≡ none) × Answers content range r)
    ⊎ ((r.content_encoding ≡ some (codes "gzip"))
        × (accepts_gzip accept ≡ true)
        × Answers (crates.gzip content) range r)

module _ (crates : Crates) (http : HttpCrates) (streams : Streams http) where
  cache_reply-encoding :
      (item : CacheItem) (content : Text) (range : Option Range) (modified : Option ℕ)
      → (cache_reply item content range modified).content_encoding ≡ none
  unfolding cache_reply
  cache_reply-encoding item content range modified = ground arith

  file_reply-encoding :
      (fs : FileSystem) (item : CacheItem) (path : FilePath) (range : Option Range)
      (modified : Option ℕ)
      → (file_reply http fs item path range modified).content_encoding ≡ none
  unfolding file_reply
  file_reply-encoding fs item path range modified = ground arith

  from_disk :
      (fs : FileSystem) (item : CacheItem) (path : FilePath) (f : File) (range : Option Range)
      (accept : Option Text) (modified : Option ℕ)
      → read fs path ≡ some f
      → item.meta.len ≡ length f.content
      → Delivers crates f.content accept range (file_reply http fs item path range modified)
  from_disk fs item path f range accept modified found same = inl (
    file_reply-encoding fs item path range modified,
    file_reply-Answers http fs item path range modified f streams found same,
  )

  gzip-Answers :
      (content : Text) (range : Option Range) (r : Response)
      → Answers content range r
      → Answers content range (record r { content_encoding = some (codes "gzip") })
  gzip-Answers content range r v = record {
    honest = record { whole = v.honest.whole; part = v.honest.part; sized = v.honest.sized };
    whole = v.whole;
    between = λ from to rest e h k b.
        let s = v.between from to rest e h k b in
        record { sent = s.sent; sent_status = s.sent_status };
    onward = λ from rest e h.
        let s = v.onward from rest e h in record { sent = s.sent; sent_status = s.sent_status };
  }

  from_memory :
      (fs : FileSystem) (item : CacheItem) (path : FilePath) (content : Text) (range : Option Range)
      (accept : Option Text) (modified : Option ℕ)
      → Delivers crates content accept range
          (body_reply http fs item (cache_block content false path) range accept modified)
  unfolding body_reply
  from_memory fs item path content range accept modified = elim (Bool-cases (accepts_gzip accept)) [
    | inl gzips ↦
        rw (gzips, body_reply)
          (inl (
            cache_reply-encoding item content range modified,
            cache_reply-Answers item content range modified,
          ))
    | inr plain ↦
        rw (plain, body_reply)
          (inl (
            cache_reply-encoding item content range modified,
            cache_reply-Answers item content range modified,
          ))
  ]

  body_reply-unzipped :
      (fs : FileSystem) (item : CacheItem) (path : FilePath) (content : Text) (range : Option Range)
      (accept : Option Text) (modified : Option ℕ)
      → accepts_gzip accept ≡ false
      → body_reply http fs item (cache_block content true path) range accept modified
        ≡ file_reply http fs item path range modified
  unfolding body_reply
  body_reply-unzipped fs item path content range accept modified plain = rw (plain, body_reply)

  from_compressed :
      (fs : FileSystem) (item : CacheItem) (path : FilePath) (f : File) (range : Option Range)
      (accept : Option Text) (modified : Option ℕ)
      → read fs path ≡ some f
      → item.meta.len ≡ length f.content
      → Delivers crates f.content accept range (
          body_reply http fs item
            (cache_block (crates.gzip f.content) true path)
            range
            accept
            modified)
  from_compressed fs item path f range accept modified found same =
      elim (Bool-cases (accepts_gzip accept)) [
        | inl gzips ↦ inr (
          unfold body_reply in ground (arith, gzips),
          gzips,
          unfold body_reply in
              rw (gzips, body_reply)
                (gzip-Answers _ range _
                  (cache_reply-Answers item (crates.gzip f.content) range modified)),
        )
        | inr plain ↦
            rw (body_reply-unzipped fs item path _ range accept modified plain)
              (from_disk fs item path f range accept modified found same)
      ]

  -- The block that the cache makes of a file is delivered as that file.
  data_block-Delivers :
      (conf : CacheConfig) (extension : Text) (fs : FileSystem) (item : CacheItem) (path : FilePath)
      (f : File) (range : Option Range) (accept : Option Text) (modified : Option ℕ)
      → read fs path ≡ some f
      → item.meta.len ≡ length f.content
      → Delivers crates f.content accept range
          (body_reply http fs item (data_block crates conf extension path f) range accept modified)
  unfolding data_block
  data_block-Delivers conf extension fs item path f range accept modified found same =
      elim (Bool-cases (ltb conf.max_size (length f.content))) [
        | inl large ↦
            rw (large, data_block)
              (unfold body_reply in from_disk fs item path f range accept modified found same)
        | inr small ↦
            elim (Bool-cases (conf.compression && contains compression_file_type extension)) [
              | inl packed ↦
                  rw (small, packed, data_block)
                    (from_compressed fs item path f range accept modified found same)
              | inr plain ↦
                  rw (small, plain, data_block)
                    (from_memory fs item path f.content range accept modified)
            ]
      ]

module _ (crates : Crates) where
  pub get_file-release :
      (a : Site) (d : Text) (v : ℕ) (k : Text) (item : CacheItem)
      → (release crates a d v).0 ≡ Result.ok v
      → get_file (release crates a d v).1.storage d k ≡ some item
      → Dict.lookup k (cache_dir crates a.storage.cache a.fs d (version_path a.storage.prefix d v))
        ≡ some item
  unfolding release get_file
  get_file-release a d v k item done h = ground (
    arith,
    Dict.lookup-insert d d
        (cache_dir crates a.storage.cache a.fs d (version_path a.storage.prefix d v))
        a.storage.cache.items,
  )

  pub get_file-cache_key :
      (tail host : Text) (storage : DomainStorage) (item : CacheItem)
      → get_cache_file crates tail host storage ≡ HttpResult.ok item
      → (s : Text) × (crates.percent_decode tail ≡ some s)
        × (get_file storage host (cache_key s) ≡ some item)
  unfolding get_cache_file sanitize_path
  get_file-cache_key tail host storage item h = elim (Option-cases (crates.percent_decode tail)) [
    | inl undecoded ↦ ground (arith, undecoded)
    | inr (s, decoded) ↦ (s, decoded, ground (arith, decoded))
  ]

module _ (crates : Crates) (http : HttpCrates) (walks : IsWalk crates.walk)
    (streams : Streams http) where
  pub entry_of-Delivers :
      (cache : FileCache) (d : Text) (dir path : FilePath) (f : File) (fs : FileSystem)
      (range : Option Range) (accept : Option Text) (modified : Option ℕ)
      → read fs path ≡ some f
      → let item = (entry_of crates cache d dir path f).1 in
        Delivers crates f.content accept range
          (body_reply http fs item item.block range accept modified)
  unfolding entry_of cache_file
  entry_of-Delivers cache d dir path f fs range accept modified found =
      data_block-Delivers crates http streams (get_domain_cache_config cache.conf d)
        (last_piece b'.' (replace (to_str path) (to_str dir ++ b'/' ∷ []) [])) fs _ path f range
        accept modified found refl

  pub release-fs : (a : Site) (d : Text) (v : ℕ) → (release crates a d v).1.fs ≡ a.fs
  unfolding release
  release-fs a d v = ground arith

  -- Once a version of a domain is released, and a path of the domain finds a file in the cache, a
  -- request that wants a body gets the content of a file on disk that lies below that version's own
  -- directory and whose key is that of the decoded path: the bytes themselves, or compressed for a
  -- client that accepts it. Without a range the reply has status 200 and the whole as its body. For
  -- a first range that names its first byte and, inside the length, its last byte or no last byte,
  -- where the length is below 2 ^ 64, the body is the bytes so named, with status 206, or 200 where
  -- they are as many as the whole. Whatever range is asked for, the reply is honest as
  -- `cache_reply-IsHonest` has it. It is given that a walk yields what lies below its root and that
  -- a stream sends the bytes asked for.
  pub release_serves :
      (a : Site) (d : Text) (v : ℕ) (tail : Text) (item : CacheItem) (c : Conditionals)
      (range : Option Range) (accept : Option Text)
      → (release crates a d v).0 ≡ Result.ok v
      → get_cache_file crates tail d (release crates a d v).1.storage ≡ HttpResult.ok item
      → http.check c (some item.meta.modified) ≡ with_body range
      → (decoded : Text) × (path : FilePath) × (f : File) × (crates.percent_decode tail
          ≡ some decoded)
        × ((entry_of crates a.storage.cache d (version_path a.storage.prefix d v) path f).0
            ≡ cache_key decoded)
        × (is_under (version_path a.storage.prefix d v) path ≡ true)
        × (read a.fs path ≡ some f)
        × Delivers crates f.content accept range
            (cache_or_file_reply http (release crates a d v).1.fs item c accept)
  release_serves a d v tail item c range accept done found wants =
      let dir = version_path a.storage.prefix d v in
      let (s, decoded, got) = get_file-cache_key crates tail d _ item found in
      let (path, f, under, there, made) =
        lookup-cache_dir crates walks a.storage.cache a.fs d dir (cache_key s) item
          (get_file-release crates a d v (cache_key s) item done got) in
      (
        s,
        path,
        f,
        decoded,
        ap (λ (e : Text × CacheItem). e.0) made,
        under,
        there,
        unfold cache_or_file_reply in
            rw (wants, cache_or_file_reply, release-fs a d v)
              (subst
                (λ (e : CacheItem).
                  Delivers crates f.content accept range
                    (body_reply http a.fs e e.block range accept (some item.meta.modified)))
                (ap (λ (e : Text × CacheItem). e.1) made)
                (entry_of-Delivers a.storage.cache d dir path f a.fs range accept _ there)),
      )
