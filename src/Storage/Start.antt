-- ===== src/Storage/Start.antt =====
-- server/src/domain_storage.rs: what `DomainStorage::init` starts with.
use spa_server.Base.{some-injective, none-ne-some}
use spa_server.Base.{
  ℕ, ◌≡◌, refl, sym, ap, ◌∙◌, subst, inl, inr, some, List, [], ◌∷◌, arith, nat_eq, list_eq,
}
use spa_server.Base.{ltb, Bool-cases, Option-cases, ◌&&◌}
use spa_server.Base.Dict
use spa_server.Base.Text.{Text}
use spa_server.FilePath.{FilePath, file_name}
use spa_server.FileSystem.{FileSystem, exists, is_dir, read_dir}
use spa_server.FileCache.{FileCache, cache_dir, update}
use spa_server.Crates.{Crates}
use spa_server.Storage.{Error, io_error, path_not_exist, ok, err, Site, DomainStorage, version_path}
use spa_server.Storage.Init
use spa_server.Storage.Reachable.{Reach}
use spa_server.Storage.Served.{IsServed, Reach-IsServed}

contrary {ℓ} : {A : Type ℓ} {e : Error} {a : A} → err e ≡ ok a → ⊥
contrary e = cc

same_ok {ℓ} : {A : Type ℓ} (a b : A) → ok a ≡ ok b → a ≡ b
same_ok a b e = cc

-- The uploads do not matter for what is served.
with_status-IsServed :
    (s : DomainStorage) (status : Dict.Dict Text ℕ)
    → IsServed s
    → IsServed (record s { uploading_status = status })
with_status-IsServed s status h = record { path = h.path; cached = h.cached }

module _ (crates : Crates) where
  fresh-IsServed :
      (prefix : FilePath) (cache : FileCache) → IsServed (Init.fresh crates prefix cache)
  fresh-IsServed prefix cache = record {
    path = λ d p v h. ground (arith, h, Dict.lookup-nil {V = FilePath × ℕ} d);
    cached = λ d h. ground (arith, h, Dict.lookup-nil {V = FilePath × ℕ} d);
  }

  serving_IsServed :
      (fs : FileSystem) (s : DomainStorage) (d : Text) (v : ℕ)
      → IsServed s
      → let path = version_path s.prefix d v in
        IsServed (record s {
          meta = Dict.insert d (path, v) s.meta;
          cache = update s.cache d (cache_dir crates s.cache fs d path);
        })
  unfolding update
  serving_IsServed fs s d v h =
      let path = version_path s.prefix d v in
      record {
        path = λ e p w k. ground (arith, h.path e p w, Dict.lookup-insert e d (path, v) s.meta);
        cached = λ e k. ground (
          arith,
          h.cached e,
          Dict.lookup-insert e d (path, v) s.meta,
          Dict.lookup-insert e d (cache_dir crates s.cache fs d path) s.cache.items,
        );
      }

  serve_version-IsServed :
      (fs : FileSystem) (s : DomainStorage) (d : Text) (v : ℕ)
      → IsServed s
      → IsServed (Init.serve_version crates fs s d v)
  unfolding Init.serve_version
  serve_version-IsServed fs s d v h = elim (Bool-cases (ltb 0 v)) [
    | inl some_version ↦ rw (some_version, Init.serve_version) (serving_IsServed fs s d v h)
    | inr no_version ↦ rw (no_version, Init.serve_version) h
  ]

  load_domain-IsServed :
      (fs : FileSystem) (s t : DomainStorage) (path : FilePath)
      → Init.load_domain crates fs s path ≡ some t
      → IsServed s
      → IsServed t
  unfolding Init.load_domain
  load_domain-IsServed fs s t path e h =
      let d = file_name path in
      elim (Bool-cases (is_dir fs path && crates.is_uri d)) [
        | inl domain ↦ elim (Option-cases (read_dir fs path)) [
          | inl unread ↦
              absurd (none-ne-some _ (sym (rw (domain, unread, Init.load_domain) refl) ∙ e))
          | inr (paths, found) ↦
              let scanned = Init.scan_versions fs d (s.uploading_status, 0) paths in
              let kept : DomainStorage = record s { uploading_status = scanned.0 } in
              subst IsServed
                (some-injective (Init.serve_version crates fs kept d scanned.1) t
                  (sym (rw (domain, found, Init.load_domain) refl) ∙ e))
                (serve_version-IsServed fs kept d scanned.1 (with_status-IsServed s scanned.0 h))
        ]
        | inr other ↦
            subst IsServed (some-injective s t (sym (rw (other, Init.load_domain) refl) ∙ e)) h
      ]

  load_domains-IsServed :
      (fs : FileSystem) (s t : DomainStorage) (paths : List FilePath)
      → Init.load_domains crates fs s paths ≡ some t
      → IsServed s
      → IsServed t
  unfolding Init.load_domains
  load_domains-IsServed fs s t [] e h = subst IsServed (some-injective s t e) h
  load_domains-IsServed fs s t (path ∷ paths) e h =
      elim (Option-cases (Init.load_domain crates fs s path)) [
        | inl failed ↦ absurd (none-ne-some _ (sym (rw (failed, Init.load_domains) refl) ∙ e))
        | inr (m, done) ↦
            load_domains-IsServed fs m t paths (sym (rw (done, Init.load_domains) refl) ∙ e)
              (load_domain-IsServed fs s m path done h)
      ]

  -- A storage that is started is what the directories below the prefix make of a fresh one.
  pub init-load_domains :
      (prefix : FilePath) (cache : FileCache) (fs : FileSystem) (s : DomainStorage)
      → Init.init crates prefix cache fs ≡ ok s
      → (paths : List FilePath) × (read_dir fs prefix ≡ some paths)
        × (Init.load_domains crates fs (Init.fresh crates prefix cache) paths ≡ some s)
  unfolding Init.init
  init-load_domains prefix cache fs s e = elim (Bool-cases (exists fs prefix)) [
    | inl there ↦ elim (Option-cases (read_dir fs prefix)) [
      | inl unread ↦ absurd (contrary {e = io_error} (sym (rw (there, unread, Init.init) refl) ∙ e))
      | inr (paths, found) ↦
          let start = Init.fresh crates prefix cache in
          elim (Option-cases (Init.load_domains crates fs start paths)) [
            | inl failed ↦
                absurd
                  (contrary {e = io_error} (sym (rw (there, found, failed, Init.init) refl) ∙ e))
            | inr (t, done) ↦ (
              paths,
              found,
              done ∙ ap some (same_ok t s (sym (rw (there, found, done, Init.init) refl) ∙ e)),
            )
          ]
    ]
    | inr missing ↦ absurd (contrary {e = path_not_exist} (sym (rw (missing, Init.init) refl) ∙ e))
  ]

  pub init-IsServed :
      (prefix : FilePath) (cache : FileCache) (fs : FileSystem) (s : DomainStorage)
      → Init.init crates prefix cache fs ≡ ok s
      → IsServed s
  init-IsServed prefix cache fs s e =
      let (paths, found, done) = init-load_domains prefix cache fs s e in
      load_domains-IsServed fs (Init.fresh crates prefix cache) s paths done
        (fresh-IsServed prefix cache)

  -- From the start of a storage over any disk and after any requests: a domain that serves a version
  -- serves it from the version's own directory below the prefix, and has an entry in the cache.
  pub init-Reach-IsServed :
      (prefix : FilePath) (cache : FileCache) (fs : FileSystem) (s : DomainStorage) (b : Site)
      → Init.init crates prefix cache fs ≡ ok s
      → Reach crates (record { storage = s; fs = fs }) b
      → IsServed b.storage
  init-Reach-IsServed prefix cache fs s b e r =
      Reach-IsServed crates _ b r (init-IsServed prefix cache fs s e)
