-- ===== src/Storage/Restart/Starts.antt =====
-- server/src/domain_storage.rs: `DomainStorage::init` against what is marked and complete on the disk.
use spa_server.Base.{◌≡◌, ◌≢◌, refl, true, false, some, List, [], ◌∷◌, ◌++◌, arith, nat_eq, list_eq}
use spa_server.Base.{
  ap, sym, ◌∙◌, All, contains, eq_of_==, subst, some-injective, none-ne-some, Bool-cases, ◌==◌,
  Option-cases, inl, inr,
}
use spa_server.Base.Dict
use spa_server.Base.Dict.{Dict}
use spa_server.Base.Text.{Text}
use spa_server.FilePath.{FilePath, file_name}
use spa_server.FileSystem.{FileSystem, is_dir, read_dir}
use spa_server.FileCache.{FileCache}
use spa_server.Crates.{Crates}
use spa_server.Storage.{ok, DomainStorage, get_domain_serving_version}
use spa_server.Storage.Init
use spa_server.Storage.Init.{
  scan_version, scan_versions, serve_version, load_domain, load_domains, init,
}
use spa_server.FileSystem.Entries.{
  read_dir_children, contains-read_dir, is_dir_of_read_dir, exists_of_is_dir,
}
use spa_server.Storage.Start.{init-load_domains}
use spa_server.Storage.Restart.{marked_versions, complete_versions, largest, last, not_zero}
use spa_server.Storage.Restart.Domain.{
  or_none, same_entry, Finds, Skips, Skips-trans, Skips-Finds, Finds-after, load_domain-Finds,
  load_domain-Skips,
}

module _ (crates : Crates) where
  module _ (fs : FileSystem) (prefix : FilePath) (d : Text) (paths : List FilePath)
      (uri : crates.is_uri d ≡ true) (there : is_dir fs (prefix ++ d ∷ []) ≡ true)
      (listed : read_dir fs (prefix ++ d ∷ []) ≡ some paths) where
    load_domain-entry :
        (s t : DomainStorage) (p : FilePath)
        → load_domain crates fs s p ≡ some t
        → prefix ++ file_name p ∷ [] ≡ p
        → (d == file_name p) ≡ true
        → Finds crates fs d paths s t
    load_domain-entry s t p h child same =
        let e : d ≡ file_name p = eq_of_== d (file_name p) same in
        let at : prefix ++ d ∷ [] ≡ p = ap (λ (c : Text). prefix ++ c ∷ []) e ∙ child in
        subst (λ (c : Text). Finds crates fs c paths s t) (sym e)
          (load_domain-Finds crates fs s t p paths h
            (subst (λ (c : Text). crates.is_uri c ≡ true) e uri)
            (subst (λ (q : FilePath). read_dir fs q ≡ some paths) at listed)
            (subst (λ (q : FilePath). is_dir fs q ≡ true) at there))

    load_domains-Skips :
        (s t : DomainStorage) (ps : List FilePath)
        → load_domains crates fs s ps ≡ some t
        → All (λ (q : FilePath). prefix ++ file_name q ∷ [] ≡ q) ps
        → contains ps (prefix ++ d ∷ []) ≡ false
        → Skips crates d s t
    unfolding load_domains
    load_domains-Skips s t [] h children found =
        subst (Skips crates d s) (some-injective s t h) (record { status = refl; version = refl })
    load_domains-Skips s t (p ∷ ps) h (child, children) found =
        elim (Option-cases (load_domain crates fs s p)) [
          | inl failed ↦ absurd (none-ne-some t (ground (arith, failed)))
          | inr (m, done) ↦
              Skips-trans crates d s m t
                (load_domain-Skips crates fs s m p d done
                  (ground (arith, same_entry prefix p d child)))
                (load_domains-Skips m t ps (ground (arith, done)) children (ground arith))
        ]

    load_domains-Finds :
        (s t : DomainStorage) (ps : List FilePath)
        → load_domains crates fs s ps ≡ some t
        → All (λ (q : FilePath). prefix ++ file_name q ∷ [] ≡ q) ps
        → contains ps (prefix ++ d ∷ []) ≡ true
        → Finds crates fs d paths s t
    unfolding load_domains
    load_domains-Finds s t [] h children found = ground arith
    load_domains-Finds s t (p ∷ ps) h (child, children) found =
        elim (Option-cases (load_domain crates fs s p)) [
          | inl failed ↦ absurd (none-ne-some t (ground (arith, failed)))
          | inr (m, done) ↦
              let rest : load_domains crates fs m ps ≡ some t = ground (arith, done) in
              elim (Bool-cases (d == file_name p)) [
                | inl same ↦
                    Finds-after crates fs d paths s m t (load_domain-entry s m p done child same)
                      (elim (Bool-cases (contains ps (prefix ++ d ∷ []))) [
                        | inl again ↦ inl (load_domains-Finds m t ps rest children again)
                        | inr once ↦ inr (load_domains-Skips m t ps rest children once)
                      ])
                | inr other ↦
                    Skips-Finds crates fs d paths s m t
                      (load_domain-Skips crates fs s m p d done other)
                      (load_domains-Finds m t ps rest children
                        (ground (arith, same_entry prefix p d child, other)))
              ]
        ]

  -- After a start, of a domain that has a directory and a name as domains have: the upload that is on
  -- is that of the last version in the directory's order that is marked, none if there is none; the
  -- version that is served is the largest one that is not marked, none if there is no such version
  -- above 0.
  pub init_restart :
      (prefix : FilePath) (cache : FileCache) (fs : FileSystem) (s : DomainStorage) (d : Text)
      (paths : List FilePath)
      → prefix ≢ []
      → crates.is_uri d ≡ true
      → read_dir fs (prefix ++ d ∷ []) ≡ some paths
      → init crates prefix cache fs ≡ ok s
      → (Dict.lookup d s.uploading_status ≡ last (marked_versions fs paths))
        × (get_domain_serving_version s d ≡ not_zero (largest (complete_versions fs paths)))
  unfolding get_domain_serving_version Dict.lookup
  init_restart prefix cache fs s d paths named uri listed h =
      let (domains, found, done) = init-load_domains crates prefix cache fs s h in
      let there : is_dir fs (prefix ++ d ∷ []) ≡ true =
        is_dir_of_read_dir fs (prefix ++ d ∷ []) paths listed in
      let finds : Finds crates fs d paths (Init.fresh crates prefix cache) s =
        load_domains-Finds fs prefix d paths uri there listed (Init.fresh crates prefix cache) s
          domains done (read_dir_children fs prefix domains found)
          (contains-read_dir fs prefix d domains found named
            (exists_of_is_dir fs (prefix ++ d ∷ []) there)) in
      (finds.status ∙ or_none _, finds.version ∙ or_none _)
