-- ===== src/Storage/Isolation.antt =====
-- server/src/domain_storage.rs: the domains are apart from one another.
use spa_server.Base.{
  ℕ, ◌≡◌, ◌≢◌, refl, ◌∙◌, sym, true, false, inl, inr, Option, none, some, [], ◌∷◌, ◌++◌, arith,
}
use spa_server.Base.{Option-cases, nat_eq, list_eq, option_eq}
use spa_server.Base.Dict
use spa_server.Base.Text.{Text, codes}
use spa_server.FilePath.{FilePath, is_under, join}
use spa_server.FilePath.Names.{IsName, join_of_IsName}
use spa_server.FileSystem.Frames.{is_under_refl, is_under_trans, siblings_apart}
use spa_server.FileCache.{cache_dir}
use spa_server.Crates.{Crates}
use spa_server.Storage.{
  DomainStorage, Site, UploadingStatus, get_version_path, version_path, marker_path,
}
use spa_server.Storage.Paths.{version_path-below, marker_path-under}
use spa_server.Storage.Frames.{
  IsSanitizer, save_file-outside, update_uploading_status-outside, remove_path-outside,
}
use spa_server.Storage.Exclusive.{save_file_storage, remove_domain_version_storage}
use spa_server.Storage.Release.{chosen_version, release, upload_domain_with_version}
use spa_server.Storage.Upload.{
  update_uploading_status, finish_upload, begin_upload, remove_domain_version,
}
use spa_server.Storage.Reachable.{
  Step, released, saved, status_changed, removed, Reach, here, next, Each, step_domain,
}

-- A name that is one component of a path and does not lead out of a directory.
abbrev pub IsPlain : Text → Type 0
IsPlain d = IsName d × (d ≢ codes "..")

-- The directory of a domain.
abbrev pub root : DomainStorage → Text → FilePath
root s d = s.prefix ++ d ∷ []

-- What a storage keeps of a domain in memory.
pub record SameEntry (d : Text) (s t : DomainStorage) : Type 0 where
  pub prefix : t.prefix ≡ s.prefix
  pub meta : Dict.lookup d t.meta ≡ Dict.lookup d s.meta
  pub items : Dict.lookup d t.cache.items ≡ Dict.lookup d s.cache.items
  pub uploading_status : Dict.lookup d t.uploading_status ≡ Dict.lookup d s.uploading_status

-- A domain's directory with all below it, and what the storage keeps of it in memory.
pub record Untouched (d : Text) (a b : Site) : Type 0 where
  pub files :
      (q : FilePath)
      → is_under (root a.storage d) q ≡ true
      → Dict.lookup q b.fs ≡ Dict.lookup q a.fs
  pub entry : SameEntry d a.storage b.storage

SameEntry-refl : (d : Text) (s t : DomainStorage) → t ≡ s → SameEntry d s t
SameEntry-refl d s t e = ground (arith, e)

Untouched-trans : (d : Text) (a b c : Site) → Untouched d a b → Untouched d b c → Untouched d a c
Untouched-trans d a b c h k = record {
  files = λ q under. k.files q (rw (h.entry.prefix) under) ∙ h.files q under;
  entry = record {
    prefix = k.entry.prefix ∙ h.entry.prefix;
    meta = k.entry.meta ∙ h.entry.meta;
    items = k.entry.items ∙ h.entry.items;
    uploading_status = k.entry.uploading_status ∙ h.entry.uploading_status;
  };
}

module _ (a : Site) (d e : Text) (named : IsName e) (other : d ≢ e) where
  -- Nothing of the one domain is above or at what lies below a version of another.
  apart :
      (v : ℕ) (p q : FilePath)
      → is_under (version_path a.storage.prefix e v) p ≡ true
      → is_under (root a.storage d) q ≡ true
      → is_under q p ≡ false
  apart v p q under at =
      siblings_apart a.storage.prefix p q e d
        (is_under_trans (root a.storage e) (version_path a.storage.prefix e v) p
          (version_path-below a.storage.prefix e v named) under)
        at other

  finish_upload-entry : (v : ℕ) → SameEntry d a.storage (finish_upload a e v).1.storage
  unfolding finish_upload
  finish_upload-entry v = record {
    prefix = ground arith;
    meta = ground arith;
    items = ground arith;
    uploading_status = ground (arith, other, Dict.lookup-erase d e a.storage.uploading_status);
  }

  begin_upload-entry : (v now : ℕ) → SameEntry d a.storage (begin_upload a e v now).1.storage
  unfolding begin_upload
  begin_upload-entry v now = record {
    prefix = ground arith;
    meta = ground arith;
    items = ground arith;
    uploading_status = ground (arith, other, Dict.lookup-insert d e v a.storage.uploading_status);
  }

  update_uploading_status-entry :
      (v : ℕ) (status : UploadingStatus) (now : ℕ)
      → SameEntry d a.storage (update_uploading_status a e v status now).1.storage
  unfolding update_uploading_status
  update_uploading_status-entry v status now = ground (
    arith,
    SameEntry-refl d a.storage a.storage refl,
    finish_upload-entry v,
    begin_upload-entry v now,
  )

  update_uploading_status-Untouched :
      (v : ℕ) (status : UploadingStatus) (now : ℕ)
      → Untouched d a (update_uploading_status a e v status now).1
  unfolding get_version_path
  update_uploading_status-Untouched v status now = record {
    files = λ q under.
        update_uploading_status-outside a e v status now q
          (apart v (marker_path a.storage e v) q (marker_path-under a.storage e v) under);
    entry = update_uploading_status-entry v status now;
  }

  remove_domain_version-Untouched : (v : Option ℕ) → Untouched d a (remove_domain_version a e v).1
  unfolding remove_domain_version
  remove_domain_version-Untouched none = record {
    files = λ q under. remove_path-outside a (join a.storage.prefix e) q (
        rw (join_of_IsName a.storage.prefix e named) (
          siblings_apart a.storage.prefix q (root a.storage e) d e under
            (is_under_refl (root a.storage e)) (λ same. other (sym same))));
    entry = SameEntry-refl d _ _ (remove_domain_version_storage a e none);
  }
  remove_domain_version-Untouched (some v) = record {
    files = λ q under. remove_path-outside a (version_path a.storage.prefix e v) q (
        siblings_apart a.storage.prefix q (version_path a.storage.prefix e v) d e under
          (version_path-below a.storage.prefix e v named) (λ same. other (sym same)));
    entry = SameEntry-refl d _ _ (remove_domain_version_storage a e (some v));
  }

module _ (crates : Crates) where
  release-Untouched :
      (a : Site) (d e : Text) (v : ℕ) → d ≢ e → Untouched d a (release crates a e v).1
  unfolding release
  release-Untouched a d e v other = record {
    files = λ q under. ground arith;
    entry = record {
      prefix = ground arith;
      meta = ground (
        arith,
        other,
        Dict.lookup-insert d e (version_path a.storage.prefix e v, v) a.storage.meta,
      );
      items = ground (
        arith,
        other,
        Dict.lookup-insert d e
            (cache_dir crates a.storage.cache a.fs e (version_path a.storage.prefix e v))
            a.storage.cache.items,
      );
      uploading_status = ground arith;
    };
  }

  upload_domain_with_version-Untouched :
      (a : Site) (d e : Text) (v : Option ℕ)
      → d ≢ e
      → Untouched d a (upload_domain_with_version crates a e v).1
  unfolding upload_domain_with_version
  upload_domain_with_version-Untouched a d e v other =
      elim (Option-cases (chosen_version crates a.storage a.fs e v)) [
        | inl missing ↦
            rw (missing, upload_domain_with_version)
              (record { files = λ q under. refl; entry = SameEntry-refl d _ _ refl })
        | inr (w, chosen) ↦
            rw (chosen, upload_domain_with_version) (release-Untouched a d e w other)
      ]

  -- A request for another domain.
  abbrev pub IsOther : Text → (a b : Site) → Step crates a b → Type 0
  IsOther d a b s = IsPlain (step_domain crates s) × (d ≢ step_domain crates s)

  pub Step-Untouched :
      (clean : IsSanitizer crates) (d : Text) (a b : Site) (s : Step crates a b)
      → IsOther d a b s
      → Untouched d a b
  unfolding get_version_path
  Step-Untouched clean d a b (released e v) (named, other) =
      upload_domain_with_version-Untouched a d e v other
  Step-Untouched clean d a b (saved e v path content now) h = record {
    files = λ q under.
        save_file-outside crates clean a e v path content now q
          (λ p below. apart a d e h.0.0 h.1 v p q below under);
    entry = SameEntry-refl d _ _ (save_file_storage crates a e v path content now);
  }
  Step-Untouched clean d a b (status_changed e v status now) h =
      update_uploading_status-Untouched a d e h.0.0 h.1 v status now
  Step-Untouched clean d a b (removed e v) h = remove_domain_version-Untouched a d e h.0.0 h.1 v

  reach_apart :
      (clean : IsSanitizer crates) (d : Text) (a b : Site) (r : Reach crates a b)
      → Each crates (IsOther d) r
      → Untouched d a b
  reach_apart clean d a b here h = record {
    files = λ q under. refl;
    entry = SameEntry-refl d _ _ refl;
  }
  reach_apart clean d a b (next {b = m} r s) (before, last) =
      Untouched-trans d a m b (reach_apart clean d a m r before) (Step-Untouched clean d m b s last)

  -- Whatever requests are carried out one after another, in any order and whether or not they fail:
  -- if each names another domain, and these names and the domain's are one component of a path and
  -- not "..", then the domain's directory and all that lies below it on disk is as it was, and so are
  -- the path and version that it serves, its files in the cache, and its upload. It is given that
  -- `sanitize_path` yields paths below its base.
  pub Reach-Untouched :
      (clean : IsSanitizer crates) (d : Text) (a b : Site) (r : Reach crates a b)
      → IsPlain d
      → Each crates (IsOther d) r
      → Untouched d a b
  Reach-Untouched clean d a b r plain h = reach_apart clean d a b r h
