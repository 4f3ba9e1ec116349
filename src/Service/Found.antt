-- ===== src/Service/Found.antt =====
-- From the path that a client asks for to the file on disk: server/src/domain_storage.rs,
-- server/src/file_cache.rs and server/src/static_file_filter.rs together.
use mathlib.Core.List.{append-nil}
use spa_server.Base.{
  ℕ, ◌≡◌, refl, sym, ◌∙◌, ap, subst, true, false, Option, none, some, List, [], ◌∷◌, ◌++◌, arith,
  inl, inr, nat_eq, list_eq,
}
use spa_server.Base.{All, Eq, contains, Option-cases, Bool-cases, ◌==◌, eq_of_==, some-injective}
use spa_server.Base.Dict
use spa_server.Base.Text.{Text, split}
use spa_server.FilePath.{FilePath, slash, is_under, to_str}
use spa_server.FilePath.Names.{is_under-append}
use spa_server.FileSystem.{File, FileSystem, read, is_dir}
use spa_server.FileSystem.Laws.{exists_of_read}
use spa_server.FileSystem.WalkDir.{IsWalk}
use spa_server.FileCache.{FileCache, CacheItem, cache_dir, cache_file}
use spa_server.FileCache.Entries.{entry_of, cache_dir-lookup, lookup-cache_dir}
use spa_server.FileCache.Keys.{
  IsPlainName, OccursOnce, Asks, Asks-has_bad_piece, Asks-cache_key, below_once, entry_of-key,
  names_of_behind_slashes,
}
use spa_server.Crates.{Crates}
use spa_server.Storage.{Site, DomainStorage, Result, version_path, get_file}
use spa_server.Storage.Release.{release}
use spa_server.Http.{HttpResult, HttpCrates, Range, Conditionals, with_body}
use spa_server.StaticFile.{
  get_cache_file, sanitize_path, cache_key, has_bad_piece, cache_or_file_reply,
}
use spa_server.StaticFile.Bodies.{Streams}
use spa_server.Service.Files.{Delivers, entry_of-Delivers, release-fs}
use spa_server.FilePath.Slashes.{
  behind_slashes, IsFileName, split_under, All-back, All-front, tail_of,
}
use spa_server.FileSystem.Disk.{IsDisk}

All-contains {ℓ κ} :
    {A : Type ℓ} ⦃e : Eq A⦄ (P : A → Type κ) (xs : List A) (x : A)
    → All P xs
    → contains xs x ≡ true
    → P x
All-contains P [] x h m = cc
All-contains P (y ∷ xs) x (h, hs) m = elim (Bool-cases (x == y)) [
  | inl same ↦ subst P (sym (eq_of_== x y same)) h
  | inr other ↦ All-contains P xs x hs (ground arith)
]

names_below :
    (fs : FileSystem) (p r : List Text) (f : File)
    → IsDisk fs
    → read fs (slash ∷ p ++ r) ≡ some f
    → All IsFileName (p ++ r)
names_below fs p r f disk there =
    let (t, at, all) = disk.names (slash ∷ p ++ r) (exists_of_read fs (slash ∷ p ++ r) f there) in
    subst (All IsFileName) (tail_of slash t (p ++ r) (sym at)) all

read-is_dir :
    (fs : FileSystem) (p : FilePath) (f : File) → is_dir fs p ≡ true → read fs p ≡ some f → ⊥
unfolding is_dir read
read-is_dir fs p f h k = ground arith

module _ (crates : Crates) (walks : IsWalk crates.walk) (fs : FileSystem) (b : Text)
    (base : List Text) (disk : IsDisk fs) (there : is_dir fs (slash ∷ b ∷ base) ≡ true)
    (once : All
      (OccursOnce (to_str (slash ∷ b ∷ base) ++ slash))
      (crates.walk fs (slash ∷ b ∷ base) none)) where
  -- The key of a file below the directory is what its path has behind the directory's.
  key_below :
      (cache : FileCache) (d name : Text) (names : List Text) (f : File)
      → read fs (slash ∷ (b ∷ base) ++ name ∷ names) ≡ some f
      → (entry_of crates cache d (slash ∷ b ∷ base) (slash ∷ (b ∷ base) ++ name ∷ names) f).0
        ≡ name ++ behind_slashes names
  key_below cache d name names f found =
      let path : FilePath = slash ∷ (b ∷ base) ++ name ∷ names in
      let all = names_below fs (b ∷ base) (name ∷ names) f disk found in
      let walked = walks.contains-walk fs (slash ∷ b ∷ base) path none in
      let under = is_under-append (slash ∷ b ∷ base) (name ∷ names) in
      let known = exists_of_read fs path f found in
      entry_of-key crates cache d b base name names f (All-front (b ∷ base) (name ∷ names) all) all
        (below_once b base (name ∷ names) (to_str (slash ∷ b ∷ base) ++ slash) all (
          All-contains _ (crates.walk fs (slash ∷ b ∷ base) none) path once
            (ground (arith, walked, under, known))))

  same_names :
      (cache : FileCache) (d name : Text) (names : List Text) (f : File) (r : List Text) (g : File)
      → read fs (slash ∷ (b ∷ base) ++ name ∷ names) ≡ some f
      → read fs (slash ∷ (b ∷ base) ++ r) ≡ some g
      → (entry_of crates cache d (slash ∷ b ∷ base) (slash ∷ (b ∷ base) ++ r) g).0
        ≡ name ++ behind_slashes names
      → r ≡ name ∷ names
  same_names cache d name names f [] g found other key = absurd (
      read-is_dir fs (slash ∷ b ∷ base) g there
        (subst (λ (p : FilePath). read fs p ≡ some g) (append-nil (slash ∷ b ∷ base)) other))
  same_names cache d name names f (m ∷ ms) g found other key =
      names_of_behind_slashes (m ∷ ms) (name ∷ names)
        (All-back (b ∷ base) (m ∷ ms) (names_below fs (b ∷ base) (m ∷ ms) g disk other))
        (All-back (b ∷ base) (name ∷ names) (names_below fs (b ∷ base) (name ∷ names) f disk found))
        (ap (λ (t : Text). b'/' ∷ t) (sym (key_below cache d m ms g other) ∙ key))

  -- No other file below the directory has the key.
  same_entry :
      (cache : FileCache) (d name : Text) (names : List Text) (f : File) (q : FilePath) (g : File)
      → read fs (slash ∷ (b ∷ base) ++ name ∷ names) ≡ some f
      → is_under (slash ∷ b ∷ base) q ≡ true
      → read fs q ≡ some g
      → (entry_of crates cache d (slash ∷ b ∷ base) q g).0 ≡ name ++ behind_slashes names
      → entry_of crates cache d (slash ∷ b ∷ base) q g
        ≡ entry_of crates cache d (slash ∷ b ∷ base) (slash ∷ (b ∷ base) ++ name ∷ names) f
  same_entry cache d name names f q g found under other key =
      let dir : FilePath = slash ∷ b ∷ base in
      let (r, e) = split_under dir q under in
      let at : read fs (dir ++ r) ≡ some g = subst (λ (p : FilePath). read fs p ≡ some g) e other in
      let same : r ≡ name ∷ names = same_names cache d name names f r g found at (
        subst (λ (p : FilePath). (entry_of crates cache d dir p g).0 ≡ name ++ behind_slashes names)
          e key) in
      let path : q ≡ dir ++ name ∷ names = e ∙ ap (λ (t : List Text). dir ++ t) same in
      let content : g ≡ f =
        some-injective g f (sym other ∙ ap (λ (p : FilePath). read fs p) path ∙ found) in
      rw (path, content) refl

  -- The cache has the file's item under its key.
  cached_below :
      (cache : FileCache) (d name : Text) (names : List Text) (f : File)
      → read fs (slash ∷ (b ∷ base) ++ name ∷ names) ≡ some f
      → Dict.lookup (name ++ behind_slashes names) (cache_dir crates cache fs d (slash ∷ b ∷ base))
        ≡ some (entry_of crates cache d (slash ∷ b ∷ base) (slash ∷ (b ∷ base) ++ name ∷ names) f).1
  cached_below cache d name names f found =
      let dir : FilePath = slash ∷ b ∷ base in
      let k : Text = name ++ behind_slashes names in
      let cached =
        cache_dir-lookup crates walks cache fs d dir (dir ++ name ∷ names) f
          (is_under-append dir (name ∷ names)) found in
      elim (Option-cases (Dict.lookup k (cache_dir crates cache fs d dir))) [
        | inl missing ↦ ground (arith, missing, rw (key_below cache d name names f found) at cached)
        | inr (item, is) ↦
            let (q, g, under, other, made) =
              lookup-cache_dir crates walks cache fs d dir k item is in
            is
            ∙ ap (λ (e : Text × CacheItem). some e.1)
                (sym made
                  ∙ same_entry cache d name names f q g found under other
                      (ap (λ (e : Text × CacheItem). e.0) made))
      ]

module _ (crates : Crates) where
  get_file_released :
      (a : Site) (d : Text) (v : ℕ) (k : Text)
      → (release crates a d v).0 ≡ Result.ok v
      → get_file (release crates a d v).1.storage d k
        ≡ Dict.lookup k
            (cache_dir crates a.storage.cache a.fs d (version_path a.storage.prefix d v))
  unfolding release get_file
  get_file_released a d v k done = ground (
    arith,
    Dict.lookup-insert d d
        (cache_dir crates a.storage.cache a.fs d (version_path a.storage.prefix d v))
        a.storage.cache.items,
  )

  release-is_dir :
      (a : Site) (d : Text) (v : ℕ)
      → (release crates a d v).0 ≡ Result.ok v
      → is_dir a.fs (version_path a.storage.prefix d v) ≡ true
  unfolding release
  release-is_dir a d v done = ground arith

  get_cache_file_of_key :
      (tail decoded d : Text) (storage : DomainStorage) (item : CacheItem)
      → crates.percent_decode tail ≡ some decoded
      → has_bad_piece (split b'/' decoded) ≡ false
      → get_file storage d (cache_key decoded) ≡ some item
      → get_cache_file crates tail d storage ≡ HttpResult.ok item
  unfolding get_cache_file sanitize_path
  get_cache_file_of_key tail decoded d storage item decodes plain found =
      ground (arith, decodes, plain, found)

  -- The request for a file below the directory finds the file's item.
  finds :
      (walks : IsWalk crates.walk) (a : Site) (d : Text) (v : ℕ) (b : Text) (base names : List Text)
      (f : File) (tail decoded : Text)
      → (release crates a d v).0 ≡ Result.ok v
      → version_path a.storage.prefix d v ≡ slash ∷ b ∷ base
      → IsDisk a.fs
      → All
          (OccursOnce (to_str (slash ∷ b ∷ base) ++ slash))
          (crates.walk a.fs (slash ∷ b ∷ base) none)
      → All IsPlainName names
      → read a.fs (slash ∷ (b ∷ base) ++ names) ≡ some f
      → crates.percent_decode tail ≡ some decoded
      → Asks decoded names
      → get_cache_file crates tail d (release crates a d v).1.storage
        ≡ HttpResult.ok
            (entry_of crates a.storage.cache d (slash ∷ b ∷ base) (slash ∷ (b ∷ base) ++ names) f).1
  finds walks a d v b base [] f tail decoded done at disk once plain found decodes asks =
      let there = subst (λ (p : FilePath). is_dir a.fs p ≡ true) at (release-is_dir a d v done) in
      absurd (
        read-is_dir a.fs (slash ∷ b ∷ base) f there
          (subst (λ (p : FilePath). read a.fs p ≡ some f) (append-nil (slash ∷ b ∷ base)) found))
  finds walks a d v b base (name ∷ names) f tail decoded done at disk once plain found decodes
        asks =
      let dir : FilePath = slash ∷ b ∷ base in
      let there = subst (λ (p : FilePath). is_dir a.fs p ≡ true) at (release-is_dir a d v done) in
      get_cache_file_of_key tail decoded d (release crates a d v).1.storage
        (entry_of crates a.storage.cache d dir (dir ++ name ∷ names) f).1 decodes
        (Asks-has_bad_piece decoded (name ∷ names) plain asks)
        (rw (Asks-cache_key decoded name names plain asks) (
          get_file_released a d v (name ++ behind_slashes names) done
          ∙ ap
              (λ (p : FilePath).
                Dict.lookup (name ++ behind_slashes names)
                  (cache_dir crates a.storage.cache a.fs d p))
              at
          ∙ cached_below crates walks a.fs b base disk there once a.storage.cache d name names f
              found))

module _ (crates : Crates) (http : HttpCrates) (walks : IsWalk crates.walk)
    (streams : Streams http) where
  entry_of-modified :
      (cache : FileCache) (d : Text) (dir path : FilePath) (f : File)
      → (entry_of crates cache d dir path f).1.meta.modified ≡ f.modified
  unfolding entry_of cache_file
  entry_of-modified cache d dir path f = refl

  reply-Delivers :
      (cache : FileCache) (d : Text) (dir path : FilePath) (f : File) (fs : FileSystem)
      (c : Conditionals) (range : Option Range) (accept : Option Text)
      → read fs path ≡ some f
      → http.check c (some f.modified) ≡ with_body range
      → Delivers crates f.content accept range
          (cache_or_file_reply http fs (entry_of crates cache d dir path f).1 c accept)
  unfolding cache_or_file_reply entry_of cache_file
  reply-Delivers cache d dir path f fs c range accept found wants =
      rw (entry_of-modified cache d dir path f, wants, cache_or_file_reply)
        (entry_of-Delivers crates http walks streams cache d dir path f fs range accept
          (some f.modified) found)

  -- A version of a domain is released whose directory has an absolute path with a name or more, on a
  -- disk whose paths are absolute and made of names, and in each path that a walk of the directory
  -- yields, the directory's path with a slash behind it occurs nowhere but at the beginning. Below
  -- the directory there is a file, and no name of its path from there on begins with ".." or has a
  -- backslash. Then a request to the domain whose path decodes to these names, each behind a slash,
  -- finds the item that the cache makes of this very file, and so does one for "/" where the only
  -- name is index.html. If the request wants a body, the reply has the file's content: the bytes
  -- themselves, or compressed for a client that accepts it; the whole with status 200 where no range
  -- is asked for, and just the bytes of a first range that names its first byte and, inside a length
  -- below 2 ^ 64, its last byte or no last byte. It is given that a walk yields what lies below its
  -- root and that a stream sends the bytes asked for.
  pub release_finds :
      (a : Site) (d : Text) (v : ℕ) (b : Text) (base names : List Text) (f : File)
      (tail decoded : Text) (c : Conditionals) (range : Option Range) (accept : Option Text)
      → (release crates a d v).0 ≡ Result.ok v
      → version_path a.storage.prefix d v ≡ slash ∷ b ∷ base
      → IsDisk a.fs
      → All
          (OccursOnce (to_str (slash ∷ b ∷ base) ++ slash))
          (crates.walk a.fs (slash ∷ b ∷ base) none)
      → All IsPlainName names
      → read a.fs (slash ∷ (b ∷ base) ++ names) ≡ some f
      → crates.percent_decode tail ≡ some decoded
      → Asks decoded names
      → http.check c (some f.modified) ≡ with_body range
      → let path = slash ∷ (b ∷ base) ++ names in
        let item = (entry_of crates a.storage.cache d (slash ∷ b ∷ base) path f).1 in
        (get_cache_file crates tail d (release crates a d v).1.storage ≡ HttpResult.ok item)
        × Delivers crates f.content accept range
            (cache_or_file_reply http (release crates a d v).1.fs item c accept)
  release_finds a d v b base names f tail decoded c range accept done at disk once plain found
        decodes asks wants =
      (
        finds crates walks a d v b base names f tail decoded done at disk once plain found decodes
            asks,
        rw (release-fs crates http walks streams a d v) (
            reply-Delivers a.storage.cache d (slash ∷ b ∷ base) (slash ∷ (b ∷ base) ++ names) f a.fs
              c range accept found wants),
      )
