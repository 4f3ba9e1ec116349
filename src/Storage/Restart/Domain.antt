-- ===== src/Storage/Restart/Domain.antt =====
-- server/src/domain_storage.rs: how `DomainStorage::init` reads one domain's directory.
use spa_server.Base.{
  ℕ, ◌≡◌, refl, true, false, Option, none, some, List, [], ◌∷◌, ◌++◌, arith, nat_eq, list_eq,
}
use spa_server.Base.{
  ap, sym, ◌∙◌, ==-refl, eq_of_==, subst, some-injective, none-ne-some, Bool-cases, ◌&&◌, ◌==◌,
  if◌then◌else◌, or, Option-cases, inl, inr, ◌⊎◌,
}
use spa_server.Base.Dict
use spa_server.Base.Dict.{Dict}
use spa_server.Base.Text.{Text}
use spa_server.FilePath.{FilePath, file_name}
use spa_server.FilePath.Names.{file_name-snoc}
use spa_server.FileSystem.{FileSystem, is_dir, read_dir}
use spa_server.Crates.{Crates}
use spa_server.Storage.{version_path, DomainStorage, get_domain_serving_version}
use spa_server.Storage.Init.{scan_versions, serve_version, load_domain}
use spa_server.Storage.Restart.{
  marked_versions, complete_versions, largest, last, not_zero, scan_versions-largest,
  scan_versions-last,
}

pub or_none {ℓ} : {A : Type ℓ} (x : Option A) → or x none ≡ x
or_none none = refl
or_none (some a) = refl

or_idempotent {ℓ} : {A : Type ℓ} (x y : Option A) → or x (or x y) ≡ or x y
or_idempotent none y = refl
or_idempotent (some a) y = refl

-- The entry of a directory for a name, among its entries.
pub same_entry :
    (prefix p : FilePath) (d : Text)
    → prefix ++ file_name p ∷ [] ≡ p
    → (prefix ++ d ∷ [] == p) ≡ (d == file_name p)
same_entry prefix p d child = elim (Bool-cases (d == file_name p)) [
  | inl same ↦
      let e : prefix ++ d ∷ [] ≡ p =
        ap (λ (c : Text). prefix ++ c ∷ []) (eq_of_== d (file_name p) same) ∙ child in
      rw (e, same) (==-refl p)
  | inr other ↦ elim (Bool-cases (prefix ++ d ∷ [] == p)) [
    | inr different ↦ different ∙ sym other
    | inl same ↦
        let e : d ≡ file_name p =
          sym (file_name-snoc prefix d) ∙ ap file_name (eq_of_== _ p same) in
        let again : (d == file_name p) ≡ true =
          subst (λ (c : Text). (d == c) ≡ true) e (==-refl d) in
        absurd (ground (arith, again, other))
  ]
]

module _ (crates : Crates) where
  -- What the disk says of a domain.
  pub record Finds (fs : FileSystem) (d : Text) (paths : List FilePath) (s t : DomainStorage)
      : Type 0 where
    pub status :
        Dict.lookup d t.uploading_status
        ≡ or (last (marked_versions fs paths)) (Dict.lookup d s.uploading_status)
    pub version :
        get_domain_serving_version t d
        ≡ or (not_zero (largest (complete_versions fs paths))) (get_domain_serving_version s d)

  pub record Skips (d : Text) (s t : DomainStorage) : Type 0 where
    pub status : Dict.lookup d t.uploading_status ≡ Dict.lookup d s.uploading_status
    pub version : get_domain_serving_version t d ≡ get_domain_serving_version s d

  pub Skips-trans : (d : Text) (s m t : DomainStorage) → Skips d s m → Skips d m t → Skips d s t
  Skips-trans d s m t h k = record { status = k.status ∙ h.status; version = k.version ∙ h.version }

  pub Skips-Finds :
      (fs : FileSystem) (d : Text) (paths : List FilePath) (s m t : DomainStorage)
      → Skips d s m
      → Finds fs d paths m t
      → Finds fs d paths s t
  Skips-Finds fs d paths s m t h k = record {
    status = rw (← h.status) k.status;
    version = rw (← h.version) k.version;
  }

  -- Finding it again changes nothing.
  pub Finds-after :
      (fs : FileSystem) (d : Text) (paths : List FilePath) (s m t : DomainStorage)
      → Finds fs d paths s m
      → Finds fs d paths m t ⊎ Skips d m t
      → Finds fs d paths s t
  Finds-after fs d paths s m t h (inr k) = record {
    status = k.status ∙ h.status;
    version = k.version ∙ h.version;
  }
  Finds-after fs d paths s m t h (inl k) = record {
    status =
        let found : Option ℕ = last (marked_versions fs paths) in
        k.status ∙ ap (or found) h.status ∙ or_idempotent found (Dict.lookup d s.uploading_status);
    version =
        let found : Option ℕ = not_zero (largest (complete_versions fs paths)) in
        k.version ∙ ap (or found) h.version ∙ or_idempotent found (get_domain_serving_version s d);
  }

  serve_version-status :
      (fs : FileSystem) (s : DomainStorage) (d : Text) (v : ℕ)
      → (serve_version crates fs s d v).uploading_status ≡ s.uploading_status
  unfolding serve_version
  serve_version-status fs s d v = ground arith

  serve_version-version :
      (fs : FileSystem) (s : DomainStorage) (d e : Text) (v : ℕ)
      → get_domain_serving_version (serve_version crates fs s d v) e ≡ (
          if e == d
          then or (not_zero v) (get_domain_serving_version s e)
          else get_domain_serving_version s e)
  unfolding serve_version get_domain_serving_version
  serve_version-version fs s d e v =
      ground (arith, Dict.lookup-insert e d (version_path s.prefix d v, v) s.meta)

  pub load_domain-Finds :
      (fs : FileSystem) (s t : DomainStorage) (path : FilePath) (paths : List FilePath)
      → load_domain crates fs s path ≡ some t
      → crates.is_uri (file_name path) ≡ true
      → read_dir fs path ≡ some paths
      → is_dir fs path ≡ true
      → Finds fs (file_name path) paths s t
  unfolding load_domain get_domain_serving_version
  load_domain-Finds fs s t path paths h uri listed there =
      let d : Text = file_name path in
      let found : Dict Text ℕ × ℕ = scan_versions fs d (s.uploading_status, 0) paths in
      let kept : DomainStorage = record s { uploading_status = found.0 } in
      subst (Finds fs d paths s)
        (some-injective (serve_version crates fs kept d found.1) t
          (ground (arith, uri, listed, there)))
        (record {
          status = ground (
            arith,
            serve_version-status fs kept d found.1,
            scan_versions-last fs d d s.uploading_status 0 paths,
          );
          version = ground (
            arith,
            serve_version-version fs kept d d found.1,
            scan_versions-largest fs d s.uploading_status 0 paths,
          );
        })

  pub load_domain-Skips :
      (fs : FileSystem) (s t : DomainStorage) (path : FilePath) (d : Text)
      → load_domain crates fs s path ≡ some t
      → (d == file_name path) ≡ false
      → Skips d s t
  unfolding load_domain get_domain_serving_version
  load_domain-Skips fs s t path d h other =
      elim (Bool-cases (is_dir fs path && crates.is_uri (file_name path))) [
        | inr skipped ↦
            subst (Skips d s) (some-injective s t (ground (arith, skipped)))
              (record { status = refl; version = refl })
        | inl domain ↦ elim (Option-cases (read_dir fs path)) [
          | inl unread ↦ absurd (none-ne-some t (ground (arith, domain, unread)))
          | inr (paths, listed) ↦
              let e : Text = file_name path in
              let found : Dict Text ℕ × ℕ = scan_versions fs e (s.uploading_status, 0) paths in
              let kept : DomainStorage = record s { uploading_status = found.0 } in
              subst (Skips d s)
                (some-injective (serve_version crates fs kept e found.1) t
                  (ground (arith, domain, listed)))
                (record {
                  status = ground (
                    arith,
                    serve_version-status fs kept e found.1,
                    scan_versions-last fs e d s.uploading_status 0 paths,
                  );
                  version = ground (arith, serve_version-version fs kept e d found.1);
                })
        ]
      ]
