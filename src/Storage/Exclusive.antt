-- ===== src/Storage/Exclusive.antt =====
-- No version is uploaded and served at once.
use spa_server.Base.{ℕ, ◌≡◌, ◌≢◌, inl, inr, Option, none, some, arith}
use spa_server.Base.{◌==◌, Bool-cases, Option-cases, nat_eq, list_eq, option_eq}
use spa_server.Base.Dict
use spa_server.Base.Text.{Text}
use spa_server.Crates.{Crates}
use spa_server.FilePath.{FilePath}
use spa_server.Storage.{
  Site, DomainStorage, UploadingStatus, version_path, get_domain_serving_version,
}
use spa_server.Storage.Release.{chosen_version, release, upload_domain_with_version}
use spa_server.Storage.Reachable.{
  Step, released, saved, status_changed, removed, Reach, Reach_induction,
}
use spa_server.Storage.Upload.{
  finish_upload, begin_upload, update_uploading_status, save_file, remove_path,
  remove_domain_version,
}

-- The version that a domain uploads is not the one that it serves.
pub record IsExclusive (s : DomainStorage) : Type 0 where
  pub apart :
      (d : Text) (v : ℕ)
      → Dict.lookup d s.uploading_status ≡ some v
      → get_domain_serving_version s d ≢ some v

module _ (crates : Crates) where
  release-IsExclusive :
      (a : Site) (d : Text) (v : ℕ)
      → IsExclusive a.storage
      → IsExclusive (release crates a d v).1.storage
  unfolding release get_domain_serving_version
  release-IsExclusive a d v h = record {
    apart = λ e w up. ground (
      arith,
      h.apart e w,
      Dict.lookup-insert e d (version_path a.storage.prefix d v, v) a.storage.meta,
    );
  }

finish_upload-IsExclusive :
    (a : Site) (d : Text) (v : ℕ)
    → IsExclusive a.storage
    → IsExclusive (finish_upload a d v).1.storage
unfolding finish_upload get_domain_serving_version
finish_upload-IsExclusive a d v h = record {
  apart = λ e w up. ground (arith, h.apart e w, Dict.lookup-erase e d a.storage.uploading_status);
}

begin_upload-IsExclusive :
    (a : Site) (d : Text) (v now : ℕ)
    → get_domain_serving_version a.storage d ≢ some v
    → IsExclusive a.storage
    → IsExclusive (begin_upload a d v now).1.storage
unfolding begin_upload get_domain_serving_version
begin_upload-IsExclusive a d v now free h = record {
  apart =
      λ e w up. ground (arith, h.apart e w, Dict.lookup-insert e d v a.storage.uploading_status);
}

update_uploading_status-IsExclusive :
    (a : Site) (d : Text) (v : ℕ) (status : UploadingStatus) (now : ℕ)
    → IsExclusive a.storage
    → IsExclusive (update_uploading_status a d v status now).1.storage
unfolding update_uploading_status
update_uploading_status-IsExclusive a d v status now h =
    elim (Bool-cases (get_domain_serving_version a.storage d == some v)) [
      | inl served ↦ ground (arith, served, finish_upload-IsExclusive a d v h)
      | inr free ↦ ground (
        arith,
        free,
        finish_upload-IsExclusive a d v h,
        begin_upload-IsExclusive a d v now (λ e. ground arith) h,
      )
    ]

pub save_file_storage :
    (crates : Crates) (a : Site) (d : Text) (v : ℕ) (path content : Text) (now : ℕ)
    → (save_file crates a d v path content now).1.storage ≡ a.storage
unfolding save_file
save_file_storage crates a d v path content now = ground arith

pub remove_path_storage : (a : Site) (p : FilePath) → (remove_path a p).1.storage ≡ a.storage
unfolding remove_path
remove_path_storage a p = ground arith

pub remove_domain_version_storage :
    (a : Site) (d : Text) (v : Option ℕ) → (remove_domain_version a d v).1.storage ≡ a.storage
unfolding remove_domain_version
remove_domain_version_storage a d none = remove_path_storage a _
remove_domain_version_storage a d (some v) = remove_path_storage a _

module _ (crates : Crates) where
  upload_domain_with_version-IsExclusive :
      (a : Site) (d : Text) (v : Option ℕ)
      → IsExclusive a.storage
      → IsExclusive (upload_domain_with_version crates a d v).1.storage
  unfolding upload_domain_with_version
  upload_domain_with_version-IsExclusive a d v h =
      elim (Option-cases (chosen_version crates a.storage a.fs d v)) [
        | inl missing ↦ rw (missing, upload_domain_with_version) h
        | inr (w, chosen) ↦
            rw (chosen, upload_domain_with_version) (release-IsExclusive crates a d w h)
      ]

  Step-IsExclusive : (a b : Site) → Step crates a b → IsExclusive a.storage → IsExclusive b.storage
  Step-IsExclusive a b (released d v) h = upload_domain_with_version-IsExclusive a d v h
  Step-IsExclusive a b (saved d v path content now) h =
      rw (save_file_storage crates a d v path content now) h
  Step-IsExclusive a b (status_changed d v status now) h =
      update_uploading_status-IsExclusive a d v status now h
  Step-IsExclusive a b (removed d v) h = rw (remove_domain_version_storage a d v) h

  -- Whatever requests to release, to save, to change the status of an upload and to remove are
  -- carried out one after another, in any order and whether or not they fail: if no domain serves the
  -- version that it uploads at the start, none does at the end.
  pub Reach-IsExclusive :
      (a b : Site) → Reach crates a b → IsExclusive a.storage → IsExclusive b.storage
  Reach-IsExclusive = Reach_induction crates (λ site. IsExclusive site.storage) Step-IsExclusive
