-- ===== src/FileCache/Entries.antt =====
-- server/src/file_cache.rs: which items `cache_dir` makes of the files below a directory.
use spa_server.Base.{◌≡◌, true, inl, inr, ◌⊎◌, Option, none, some, List, [], ◌∷◌, ◌++◌, arith}
use spa_server.Base.{
  ◌==◌, Eq, is_some, contains, filter_map, Bool-cases, Option-cases, nat_eq, list_eq,
}
use spa_server.Base.Dict
use spa_server.Base.Dict.{Dict}
use spa_server.Base.Text.{Text}
use spa_server.FilePath.{FilePath, to_str, is_under}
use spa_server.FileSystem.{File, FileSystem, exists, read}
use spa_server.FileSystem.Laws.{exists_of_read}
use spa_server.FileSystem.WalkDir.{IsWalk}
use spa_server.FileCache.{
  CacheItem, FileCache, cache_file, cache_entry, cache_dir, get_domain_cache_config,
  get_domain_expire_config,
}
use spa_server.Crates.{Crates}

module _ {ℓ κ ι} {A : Type ℓ} {K : Type κ} {V : Type ι} ⦃d : Eq A⦄ ⦃e : Eq K⦄ where
  -- What is collected was made of an element, or was there before.
  collect-filter_map :
      (f : A → Option (K × V)) (xs : List A) (start : Dict K V) (k : K) (v : V)
      → Dict.lookup k (Dict.collect (filter_map f xs) start) ≡ some v
      → ((x : A) × (contains xs x ≡ true) × (f x ≡ some (k, v))) ⊎ (Dict.lookup k start ≡ some v)
  unfolding Dict.collect
  collect-filter_map f [] start k v h = inr h
  collect-filter_map f (x ∷ xs) start k v h = elim (Option-cases (f x)) [
    | inl skipped ↦ further (collect-filter_map f xs start k v (rw skipped at h))
    | inr (entry, made) ↦
        elim (collect-filter_map f xs (Dict.insert entry.0 entry.1 start) k v (rw made at h)) [
          | inl found ↦ further (inl found)
          | inr old ↦ elim (Bool-cases (k == entry.0)) [
            | inl same ↦
                inl (x, ground arith, ground (arith, Dict.lookup-insert k entry.0 entry.1 start))
            | inr other ↦ inr (ground (arith, Dict.lookup-insert k entry.0 entry.1 start))
          ]
        ]
  ]
    where
      further :
          ((a : A) × (contains xs a ≡ true) × (f a ≡ some (k, v))) ⊎ (Dict.lookup k start ≡ some v)
          → ((a : A) × (contains (x ∷ xs) a ≡ true) × (f a ≡ some (k, v)))
            ⊎ (Dict.lookup k start ≡ some v)
      further (inl (a, m, e)) = inl (a, ground arith, e)
      further (inr old) = inr old

  collect-grows :
      (f : A → Option (K × V)) (xs : List A) (start : Dict K V) (k : K)
      → is_some (Dict.lookup k start) ≡ true
      → is_some (Dict.lookup k (Dict.collect (filter_map f xs) start)) ≡ true
  unfolding Dict.collect
  collect-grows f [] start k h = h
  collect-grows f (x ∷ xs) start k h = elim (Option-cases (f x)) [
    | inl skipped ↦ rw skipped (collect-grows f xs start k h)
    | inr ((j, w), made) ↦
        rw made
          (collect-grows f xs (Dict.insert j w start) k (rw Dict.lookup-insert (ground arith)))
  ]

  -- Each element's key is there.
  filter_map-collect :
      (f : A → Option (K × V)) (xs : List A) (start : Dict K V) (x : A) (k : K) (v : V)
      → contains xs x ≡ true
      → f x ≡ some (k, v)
      → is_some (Dict.lookup k (Dict.collect (filter_map f xs) start)) ≡ true
  unfolding Dict.collect
  filter_map-collect f [] start x k v m h = cc
  filter_map-collect f (y ∷ xs) start x k v m h = elim (Bool-cases (x == y)) [
    | inl same ↦
        let made : f y ≡ some (k, v) = ground arith in
        rw made
          (collect-grows f xs (Dict.insert k v start) k (rw Dict.lookup-insert (ground arith)))
    | inr other ↦ elim (Option-cases (f y)) [
      | inl skipped ↦ rw skipped (filter_map-collect f xs start x k v (ground arith) h)
      | inr ((j, w), made) ↦
          rw made (filter_map-collect f xs (Dict.insert j w start) x k v (ground arith) h)
    ]
  ]

module _ (crates : Crates) where
  -- The entry that `cache_dir` makes of a file.
  unfoldable pub entry_of : FileCache → Text → FilePath → FilePath → File → Text × CacheItem
  unfolding get_domain_cache_config get_domain_expire_config cache_file
  entry_of cache domain dir path f =
      cache_file crates (get_domain_cache_config cache.conf domain)
        (get_domain_expire_config cache.conf domain) (to_str dir ++ b'/' ∷ []) path f

  cached_entry : FileCache → FileSystem → Text → FilePath → FilePath → Option (Text × CacheItem)
  unfolding get_domain_cache_config get_domain_expire_config cache_entry
  cached_entry cache fs domain dir =
      cache_entry crates fs (get_domain_cache_config cache.conf domain)
        (get_domain_expire_config cache.conf domain) (to_str dir ++ b'/' ∷ [])

  module _ (walks : IsWalk crates.walk) where
    -- Everything that `cache_dir` puts in the cache is the entry of a file below the directory.
    pub lookup-cache_dir :
        (cache : FileCache) (fs : FileSystem) (domain : Text) (dir : FilePath) (k : Text)
        (item : CacheItem)
        → Dict.lookup k (cache_dir crates cache fs domain dir) ≡ some item
        → (path : FilePath) × (f : File) × (is_under dir path ≡ true)
          × (read fs path ≡ some f)
          × (entry_of cache domain dir path f ≡ (k, item))
    unfolding cache_dir cached_entry entry_of
    lookup-cache_dir cache fs domain dir k item h =
        elim (collect-filter_map (cached_entry cache fs domain dir) (crates.walk fs dir none) [] k
          item h) [
            | inl (path, m, e) ↦ elim (Option-cases (read fs path)) [
              | inl gone ↦ ground (arith, gone)
              | inr (f, found) ↦ (
                path,
                f,
                ground (arith, walks.contains-walk fs dir path none),
                found,
                ground (arith, found),
              )
            ]
            | inr e ↦ ground (arith, Dict.lookup-nil {V = CacheItem} k)
          ]

    -- Every file below the directory has its key in the cache.
    pub cache_dir-lookup :
        (cache : FileCache) (fs : FileSystem) (domain : Text) (dir path : FilePath) (f : File)
        → is_under dir path ≡ true
        → read fs path ≡ some f
        → is_some (
            Dict.lookup (entry_of cache domain dir path f).0 (cache_dir crates cache fs domain dir))
          ≡ true
    unfolding cache_dir cached_entry entry_of
    cache_dir-lookup cache fs domain dir path f under found =
        let there : exists fs path ≡ true = exists_of_read fs path f found in
        filter_map-collect (cached_entry cache fs domain dir) (crates.walk fs dir none) [] path
          (entry_of cache domain dir path f).0 (entry_of cache domain dir path f).1
          (ground (arith, walks.contains-walk fs dir path none)) (ground (arith, found))
