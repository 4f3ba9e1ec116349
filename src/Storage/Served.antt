-- ===== src/Storage/Served.antt =====
-- What a domain serves is a version of its own, and its files are in the cache.
use spa_server.Base.{ℕ, ◌≡◌, true, inl, inr, Option, none, some, arith}
use spa_server.Base.{is_some, Option-cases, nat_eq, list_eq, option_eq}
use spa_server.Base.Dict
use spa_server.Base.Text.{Text}
use spa_server.FilePath.{FilePath}
use spa_server.FileCache.{cache_dir}
use spa_server.Crates.{Crates}
use spa_server.Storage.{Site, DomainStorage, UploadingStatus, version_path}
use spa_server.Storage.Release.{chosen_version, release, upload_domain_with_version}
use spa_server.Storage.Upload.{update_uploading_status, save_file, remove_domain_version}
use spa_server.Storage.Reachable.{
  Step, released, saved, status_changed, removed, Reach, Reach_induction,
}

pub record IsServed (s : DomainStorage) : Type 0 where
  pub path :
      (d : Text) (p : FilePath) (v : ℕ)
      → Dict.lookup d s.meta ≡ some (p, v)
      → p ≡ version_path s.prefix d v
  pub cached :
      (d : Text)
      → is_some (Dict.lookup d s.meta) ≡ true
      → is_some (Dict.lookup d s.cache.items) ≡ true

-- What the operations other than a release leave alone.
record SameServed (s t : DomainStorage) : Type 0 where
  meta : t.meta ≡ s.meta
  prefix : t.prefix ≡ s.prefix
  cache : t.cache ≡ s.cache

IsServed-of_SameServed : (s t : DomainStorage) → SameServed s t → IsServed s → IsServed t
IsServed-of_SameServed s t e h = record {
  path = λ d p v k. ground (arith, h.path d p v, e.meta, e.prefix);
  cached = λ d k. ground (arith, h.cached d, e.meta, e.cache);
}

update_uploading_status-SameServed :
    (a : Site) (d : Text) (v : ℕ) (status : UploadingStatus) (now : ℕ)
    → SameServed a.storage (update_uploading_status a d v status now).1.storage
unfolding update_uploading_status
update_uploading_status-SameServed a d v status now = ground arith

save_file-SameServed :
    (crates : Crates) (a : Site) (d : Text) (v : ℕ) (path content : Text) (now : ℕ)
    → SameServed a.storage (save_file crates a d v path content now).1.storage
unfolding save_file
save_file-SameServed crates a d v path content now = ground arith

remove_domain_version-SameServed :
    (a : Site) (d : Text) (v : Option ℕ)
    → SameServed a.storage (remove_domain_version a d v).1.storage
unfolding remove_domain_version
remove_domain_version-SameServed a d none = ground arith
remove_domain_version-SameServed a d (some v) = ground arith

module _ (crates : Crates) where
  release-IsServed :
      (a : Site) (d : Text) (v : ℕ) → IsServed a.storage → IsServed (release crates a d v).1.storage
  unfolding release
  release-IsServed a d v h = record {
    path = λ e p w k. ground (
      arith,
      h.path e p w,
      Dict.lookup-insert e d (version_path a.storage.prefix d v, v) a.storage.meta,
    );
    cached = λ e k. ground (
      arith,
      h.cached e,
      Dict.lookup-insert e d (version_path a.storage.prefix d v, v) a.storage.meta,
      Dict.lookup-insert e d
          (cache_dir crates a.storage.cache a.fs d (version_path a.storage.prefix d v))
          a.storage.cache.items,
    );
  }

  upload_domain_with_version-IsServed :
      (a : Site) (d : Text) (v : Option ℕ)
      → IsServed a.storage
      → IsServed (upload_domain_with_version crates a d v).1.storage
  unfolding upload_domain_with_version
  upload_domain_with_version-IsServed a d v h =
      elim (Option-cases (chosen_version crates a.storage a.fs d v)) [
        | inl missing ↦ rw (missing, upload_domain_with_version) h
        | inr (w, chosen) ↦ rw (chosen, upload_domain_with_version) (release-IsServed a d w h)
      ]

  Step-IsServed : (a b : Site) → Step crates a b → IsServed a.storage → IsServed b.storage
  Step-IsServed a b (released d v) h = upload_domain_with_version-IsServed a d v h
  Step-IsServed a b (saved d v path content now) h =
      IsServed-of_SameServed _ _ (save_file-SameServed crates a d v path content now) h
  Step-IsServed a b (status_changed d v status now) h =
      IsServed-of_SameServed _ _ (update_uploading_status-SameServed a d v status now) h
  Step-IsServed a b (removed d v) h =
      IsServed-of_SameServed _ _ (remove_domain_version-SameServed a d v) h

  -- After any requests, if it was so before them: a domain that serves a version serves it from the
  -- version's own directory below the prefix, and has an entry in the cache.
  pub Reach-IsServed : (a b : Site) → Reach crates a b → IsServed a.storage → IsServed b.storage
  Reach-IsServed = Reach_induction crates (λ site. IsServed site.storage) Step-IsServed
