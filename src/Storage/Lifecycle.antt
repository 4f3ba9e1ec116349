-- ===== src/Storage/Lifecycle.antt =====
-- server/src/domain_storage.rs: an upload from its beginning to its release.
use spa_server.Base.{
  ℕ, ◌≡◌, ◌≢◌, refl, sym, ap, ◌∙◌, subst, true, false, inl, inr, none, some, [], ◌∷◌, ◌++◌, arith,
  nat_eq, list_eq, option_eq,
}
use spa_server.Base.{Option-cases, ==-refl}
use spa_server.Base.Dict
use spa_server.Base.Text.{Text}
use spa_server.FilePath.{FilePath, join}
use spa_server.FilePath.Names.{join_of_IsName, to_string-IsName}
use spa_server.FileSystem.{
  File, dir, file, FileSystem, is_dir, read, create, create_dir_all, remove_file,
}
use spa_server.FileSystem.Laws.{create_dir_all-is_dir}
use spa_server.Crates.{Crates}
use spa_server.Storage.{
  io_error, Error, Result, ok, err, DomainStorage, Site, uploading, finish, uploading_now,
  version_path, get_version_path, marker_path, check_is_in_upload_process,
}
use spa_server.Storage.Paths.{marker_path_snoc}
use spa_server.Storage.Release.{release}
use spa_server.Storage.Upload.{update_uploading_status, begin_upload, finish_upload}

refused {ℓ} : {A : Type ℓ} {r : Result A} {a : A} {e : Error} → r ≡ err e → r ≡ ok a → ⊥
refused h k = cc

longer : (p : FilePath) (c : Text) → p ++ c ∷ [] ≢ p
longer [] c e = cc
longer (d ∷ p) c e = longer p c (cc)

not_empty : (p : FilePath) (c : Text) → p ++ c ∷ [] ≢ []
not_empty [] c e = cc
not_empty (d ∷ p) c e = cc

version_path-not_empty : (prefix : FilePath) (d : Text) (v : ℕ) → version_path prefix d v ≢ []
unfolding version_path
version_path-not_empty prefix d v e =
    not_empty _ _ (sym (join_of_IsName (join prefix d) _ (to_string-IsName v)) ∙ e)

marker_path-other :
    (s : DomainStorage) (d : Text) (v : ℕ) → marker_path s d v ≢ get_version_path s d v
marker_path-other s d v e = longer _ _ (sym (marker_path_snoc s d v) ∙ e)

-- What the begin of an upload leaves.
pub record Begun (site : Site) (d : Text) (v : ℕ) : Type 0 where
  pub noted : Dict.lookup d site.storage.uploading_status ≡ some v
  pub marked : (f : File) × (read site.fs (marker_path site.storage d v) ≡ some f)
  pub made : is_dir site.fs (get_version_path site.storage d v) ≡ true

abbrev begun_site : Site → Text → ℕ → FileSystem → Site
begun_site site d v fs = record {
  fs = fs;
  storage = record site.storage {
    uploading_status = Dict.insert d v site.storage.uploading_status;
  };
}

begin_upload-inv :
    (site : Site) (d : Text) (v now : ℕ)
    → (begin_upload site d v now).0 ≡ ok tt
    → (made : FileSystem) × (fs : FileSystem) × (create_dir_all site.fs
          (get_version_path site.storage d v)
        ≡ some made)
      × (create made (marker_path site.storage d v) now ≡ some fs)
      × ((begin_upload site d v now).1 ≡ begun_site site d v fs)
begin_upload-inv site d v now done =
    elim (Option-cases (create_dir_all site.fs (get_version_path site.storage d v))) [
      | inl failed ↦ absurd (
          refused {r = (begin_upload site d v now).0} {e = io_error}
            (unfold begin_upload in rw (failed, begin_upload) refl) done)
      | inr (made, dirs) ↦ elim (Option-cases (create made (marker_path site.storage d v) now)) [
        | inl failed ↦ absurd (
            refused {r = (begin_upload site d v now).0} {e = io_error}
              (unfold begin_upload in rw (dirs, failed, begin_upload) refl) done)
        | inr (fs, marker) ↦
            (made, fs, dirs, marker, unfold begin_upload in rw (dirs, marker, begin_upload) refl)
      ]
    ]

create-lookup :
    (fs fs' : FileSystem) (p : FilePath) (now : ℕ)
    → create fs p now ≡ some fs'
    → fs' ≡ Dict.insert p (file (record { content = []; modified = now })) fs
unfolding create
create-lookup fs fs' p now h = ground arith

read-insert :
    (p : FilePath) (f : File) (fs : FileSystem) → read (Dict.insert p (file f) fs) p ≡ some f
unfolding read
read-insert p f fs = rw (Dict.lookup-insert p p (file f) fs, ==-refl p) refl

is_dir-insert :
    (p q : FilePath) (f : File) (fs : FileSystem)
    → p ≢ q
    → Dict.lookup q fs ≡ some dir
    → is_dir (Dict.insert p (file f) fs) q ≡ true
unfolding is_dir
is_dir-insert p q f fs other h = ground (arith, other, Dict.lookup-insert q p (file f) fs)

begun_site-Begun :
    (site : Site) (d : Text) (v now : ℕ) (made fs : FileSystem)
    → create_dir_all site.fs (get_version_path site.storage d v) ≡ some made
    → create made (marker_path site.storage d v) now ≡ some fs
    → Begun (begun_site site d v fs) d v
unfolding marker_path get_version_path
begun_site-Begun site d v now made fs dirs marker =
    let s = site.storage in
    let f : File = record { content = []; modified = now } in
    let e = create-lookup made fs (marker_path s d v) now marker in
    record {
      noted = rw (Dict.lookup-insert d d v s.uploading_status, ==-refl d) refl;
      marked = (
        f,
        subst (λ (t : FileSystem). read t (marker_path s d v) ≡ some f) (sym e)
            (read-insert (marker_path s d v) f made),
      );
      made =
          subst (λ (t : FileSystem). is_dir t (get_version_path s d v) ≡ true) (sym e)
            (is_dir-insert (marker_path s d v) (get_version_path s d v) f made
              (marker_path-other s d v)
              (create_dir_all-is_dir site.fs made (get_version_path s d v) dirs
                (unfold get_version_path in version_path-not_empty s.prefix d v)));
    }

abbrev ended_site : Site → Text → ℕ → Site
ended_site site d v = record {
  fs = Dict.erase (marker_path site.storage d v) site.fs;
  storage = record site.storage { uploading_status = Dict.erase d site.storage.uploading_status };
}

remove_file-eq :
    (fs : FileSystem) (p : FilePath) (f : File)
    → read fs p ≡ some f
    → remove_file fs p ≡ some (Dict.erase p fs)
unfolding remove_file
remove_file-eq fs p f h = rw (h, remove_file) refl

is_dir-erase :
    (p q : FilePath) (fs : FileSystem)
    → p ≢ q
    → is_dir fs q ≡ true
    → is_dir (Dict.erase p fs) q ≡ true
unfolding is_dir
is_dir-erase p q fs other h = ground (arith, other, Dict.lookup-erase q p fs)

-- The end of an upload that is on.
finish_upload-Begun :
    (site : Site) (d : Text) (v : ℕ)
    → Begun site d v
    → finish_upload site d v ≡ (ok tt, ended_site site d v)
unfolding finish_upload
finish_upload-Begun site d v b =
    let (f, there) = b.marked in
    rw
      (
        remove_file-eq site.fs (marker_path site.storage d v) f there,
        finish_upload,
        b.noted,
        ==-refl (some v),
      )
      refl

ended_site-release :
    (crates : Crates) (site : Site) (d : Text) (v : ℕ)
    → Begun site d v
    → (release crates (ended_site site d v) d v).0 ≡ ok v
unfolding release get_version_path
ended_site-release crates site d v b =
    let p = version_path site.storage.prefix d v in
    let kept =
      is_dir-erase (marker_path site.storage d v) p site.fs (marker_path-other site.storage d v)
        b.made in
    ground (arith, kept, Dict.lookup-erase d d site.storage.uploading_status)

update_uploading_status-begin :
    (site : Site) (d : Text) (v now : ℕ)
    → Dict.lookup d site.storage.uploading_status ≡ none
    → (update_uploading_status site d v uploading now).0 ≡ ok tt
    → update_uploading_status site d v uploading now ≡ begin_upload site d v now
unfolding update_uploading_status
update_uploading_status-begin site d v now idle done = ground arith

update_uploading_status-end :
    (site : Site) (d : Text) (v now : ℕ)
    → Begun site d v
    → update_uploading_status site d v finish now ≡ finish_upload site d v
unfolding update_uploading_status
update_uploading_status-end site d v now b = rw (b.noted, update_uploading_status) (ground arith)

-- The state that the begin of an upload leaves, once it is known that nothing else was uploaded for
-- the domain.
pub Begun-of_uploading :
    (site : Site) (d : Text) (v now : ℕ)
    → Dict.lookup d site.storage.uploading_status ≡ none
    → (update_uploading_status site d v uploading now).0 ≡ ok tt
    → Begun (update_uploading_status site d v uploading now).1 d v
Begun-of_uploading site d v now idle done =
    let e = update_uploading_status-begin site d v now idle done in
    let (made, fs, dirs, marker, there) =
      begin_upload-inv site d v now (ap (λ (r : Result (Unit {0}) × Site). r.0) (sym e) ∙ done) in
    subst (λ (a : Site). Begun a d v) (sym (ap (λ (r : Result (Unit {0}) × Site). r.1) e ∙ there))
      (begun_site-Begun site d v now made fs dirs marker)

release-Begun :
    (crates : Crates) (site : Site) (d : Text) (v : ℕ)
    → Begun site d v
    → release crates site d v ≡ (err uploading_now, site)
unfolding release
release-Begun crates site d v b = rw (b.noted, release, ==-refl (some v)) refl

check-Begun :
    (site : Site) (d : Text) (v : ℕ)
    → Begun site d v
    → check_is_in_upload_process site.storage d v ≡ true
unfolding check_is_in_upload_process
check-Begun site d v b = rw (b.noted) (==-refl (some v))

check-ended :
    (site : Site) (d : Text) (v : ℕ)
    → check_is_in_upload_process (ended_site site d v).storage d v ≡ false
unfolding check_is_in_upload_process
check-ended site d v =
    rw (Dict.lookup-erase d d site.storage.uploading_status, ==-refl d) (ground arith)

-- When the upload of a version has begun, while no other one of its domain was on: a release of the
-- version is refused and changes nothing, and the version counts as being uploaded. The upload can
-- then be finished; after that it does not count so any more, and a release of it succeeds.
pub upload_lifecycle :
    (crates : Crates) (site : Site) (d : Text) (v now later : ℕ)
    → Dict.lookup d site.storage.uploading_status ≡ none
    → (update_uploading_status site d v uploading now).0 ≡ ok tt
    → let begun = (update_uploading_status site d v uploading now).1 in
      let finished = update_uploading_status begun d v finish later in
      (release crates begun d v ≡ (err uploading_now, begun))
      × (check_is_in_upload_process begun.storage d v ≡ true)
      × (finished.0 ≡ ok tt)
      × (check_is_in_upload_process finished.1.storage d v ≡ false)
      × ((release crates finished.1 d v).0 ≡ ok v)
upload_lifecycle crates site d v now later idle done =
    let begun : Site = (update_uploading_status site d v uploading now).1 in
    let b : Begun begun d v = Begun-of_uploading site d v now idle done in
    let e = update_uploading_status-end begun d v later b ∙ finish_upload-Begun begun d v b in
    (
      release-Begun crates begun d v b,
      check-Begun begun d v b,
      ap (λ (r : Result (Unit {0}) × Site). r.0) e,
      ap (λ (r : Result (Unit {0}) × Site). check_is_in_upload_process r.1.storage d v) e
          ∙ check-ended begun d v,
      subst (λ (r : Result (Unit {0}) × Site). (release crates r.1 d v).0 ≡ ok v) (sym e)
          (ended_site-release crates begun d v b),
    )
