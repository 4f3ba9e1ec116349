-- ===== src/Storage/Stranded.antt =====
-- server/src/domain_storage.rs: what is left of an upload whose version is removed.
use spa_server.Base.{
  ℕ, ◌≡◌, ◌≢◌, sym, ◌∙◌, subst, true, inl, inr, Option, none, some, arith, nat_eq, list_eq,
  option_eq,
}
use spa_server.Base.{◌==◌, Option-cases, Bool-cases, ==-refl, eq_of_==, ap, none-ne-some}
use spa_server.Base.Dict
use spa_server.Base.Text.{Text}
use spa_server.FilePath.{FilePath}
use spa_server.FileSystem.{read, remove_file, remove_dir_all}
use spa_server.FileSystem.Frames.{is_under_trans}
use spa_server.FileSystem.Laws.{lookup-prune}
use spa_server.Crates.{Crates}
use spa_server.Storage.{
  Site, DomainStorage, ok, err, io_error, finish, UploadingStatus, get_version_path, marker_path,
  version_path,
}
use spa_server.Storage.Paths.{marker_path-under, version_path-below}
use spa_server.Storage.Frames.{IsSanitizer, remove_path-lookup}
use spa_server.Storage.Exclusive.{remove_path_storage, remove_domain_version_storage}
use spa_server.Storage.Isolation.{IsPlain, root, Untouched, Step-Untouched}
use spa_server.Storage.Release.{release, upload_domain_with_version}
use spa_server.Storage.Upload.{
  update_uploading_status, finish_upload, remove_path, remove_domain_version,
}
use spa_server.Storage.Reachable.{
  Step, released, saved, status_changed, removed, Reach, here, next, Each, step_domain,
}

-- An upload that counts as on and has no marker.
pub record IsStranded (d : Text) (v : ℕ) (a : Site) : Type 0 where
  pub on : Dict.lookup d a.storage.uploading_status ≡ some v
  pub unmarked : Dict.lookup (marker_path a.storage d v) a.fs ≡ none

module _ (crates : Crates) where
  -- A request whose domain's name is one component of a path and not "..", and that sends no file to
  -- the given domain.
  abbrev pub IsNoTransfer : Text → (a b : Site) → Step crates a b → Type 0
  IsNoTransfer d a b (saved e v path content now) = IsPlain e × (d ≢ e)
  IsNoTransfer d a b (released e v) = IsPlain e × Unit {0}
  IsNoTransfer d a b (status_changed e v status now) = IsPlain e × Unit {0}
  IsNoTransfer d a b (removed e v) = IsPlain e × Unit {0}

module _ (d : Text) (v : ℕ) where
  marker_path-prefix :
      (s t : DomainStorage) → t.prefix ≡ s.prefix → marker_path t d v ≡ marker_path s d v
  unfolding marker_path get_version_path
  marker_path-prefix s t h = rw h

  -- Requests for other domains leave it so.
  Untouched-IsStranded :
      (a b : Site) → IsPlain d → Untouched d a b → IsStranded d v a → IsStranded d v b
  unfolding get_version_path
  Untouched-IsStranded a b plain u h = record {
    on = u.entry.uploading_status ∙ h.on;
    unmarked = rw (marker_path-prefix a.storage b.storage u.entry.prefix) (
        u.files (marker_path a.storage d v) (
          is_under_trans (root a.storage d) (version_path a.storage.prefix d v)
            (marker_path a.storage d v) (version_path-below a.storage.prefix d v plain.0)
            (marker_path-under a.storage d v))
        ∙ h.unmarked);
  }

  -- The end of the upload fails, and nothing begins it again.
  update_uploading_status-own :
      (a : Site) (w : ℕ) (status : UploadingStatus) (now : ℕ)
      → IsStranded d v a
      → (update_uploading_status a d w status now).1 ≡ a
  unfolding update_uploading_status finish_upload remove_file read
  update_uploading_status-own a w status now h = ground (arith, h.on, h.unmarked)

  finish-fails :
      (a : Site) (now : ℕ)
      → IsStranded d v a
      → (update_uploading_status a d v finish now).0 ≡ err io_error
  unfolding update_uploading_status finish_upload remove_file read
  finish-fails a now h = ground (arith, h.on, h.unmarked)

  IsStranded-of_status :
      (a b : Site)
      → b.storage.uploading_status ≡ a.storage.uploading_status
      → b.storage.prefix ≡ a.storage.prefix
      → Dict.lookup (marker_path a.storage d v) b.fs ≡ none
      → IsStranded d v a
      → IsStranded d v b
  IsStranded-of_status a b status prefix gone h = record {
    on = rw status h.on;
    unmarked = rw (marker_path-prefix a.storage b.storage prefix) gone;
  }

  remove_path-IsStranded :
      (a : Site) (p : FilePath) → IsStranded d v a → IsStranded d v (remove_path a p).1
  remove_path-IsStranded a p h =
      let marker : FilePath = marker_path a.storage d v in
      let same = remove_path_storage a p in
      IsStranded-of_status a (remove_path a p).1
        (ap (λ (s : DomainStorage). s.uploading_status) same)
        (ap (λ (s : DomainStorage). s.prefix) same)
        (elim (Option-cases (Dict.lookup marker (remove_path a p).1.fs)) [
          | inl gone ↦ gone
          | inr (n, there) ↦
              absurd (none-ne-some n (sym h.unmarked ∙ remove_path-lookup a p marker n there))
        ])
        h

  remove_domain_version-IsStranded :
      (a : Site) (w : Option ℕ) → IsStranded d v a → IsStranded d v (remove_domain_version a d w).1
  unfolding remove_domain_version
  remove_domain_version-IsStranded a none h = remove_path-IsStranded a _ h
  remove_domain_version-IsStranded a (some w) h = remove_path-IsStranded a _ h

  module _ (crates : Crates) (clean : IsSanitizer crates) (plain : IsPlain d) where
    upload_domain_with_version-IsStranded :
        (a : Site) (w : Option ℕ)
        → IsStranded d v a
        → IsStranded d v (upload_domain_with_version crates a d w).1
    unfolding upload_domain_with_version release
    upload_domain_with_version-IsStranded a w h =
        IsStranded-of_status a (upload_domain_with_version crates a d w).1 (ground arith)
          (ground arith) (ground (arith, h.unmarked)) h

    own_request :
        (a b : Site) (s : Step crates a b)
        → IsNoTransfer crates d a b s
        → d ≡ step_domain crates s
        → IsStranded d v a
        → IsStranded d v b
    own_request a _ (released e w) k same h =
        subst (λ (c : Text). IsStranded d v (upload_domain_with_version crates a c w).1) same
          (upload_domain_with_version-IsStranded a w h)
    own_request a _ (saved e w path content now) k same h = absurd (k.1 same)
    own_request a _ (status_changed e w status now) k same h =
        subst (λ (c : Text). IsStranded d v (update_uploading_status a c w status now).1) same
          (rw (update_uploading_status-own a w status now h) h)
    own_request a _ (removed e w) k same h =
        subst (λ (c : Text). IsStranded d v (remove_domain_version a c w).1) same
          (remove_domain_version-IsStranded a w h)

    named_request :
        (a b : Site) (s : Step crates a b)
        → IsNoTransfer crates d a b s
        → IsPlain (step_domain crates s)
    named_request a _ (released e w) k = k.0
    named_request a _ (saved e w path content now) k = k.0
    named_request a _ (status_changed e w status now) k = k.0
    named_request a _ (removed e w) k = k.0

    Step-IsStranded :
        (a b : Site) (s : Step crates a b)
        → IsNoTransfer crates d a b s
        → IsStranded d v a
        → IsStranded d v b
    Step-IsStranded a b s k h = elim (Bool-cases (d == step_domain crates s)) [
      | inr other ↦
          Untouched-IsStranded a b plain
            (Step-Untouched crates clean d a b s
              (named_request a b s k, λ e. ground (arith, other, e, ==-refl d)))
            h
      | inl same ↦ own_request a b s k (eq_of_== d _ same) h
    ]

    Reach-IsStranded :
        (a b : Site) (r : Reach crates a b)
        → Each crates (IsNoTransfer crates d) r
        → IsStranded d v a
        → IsStranded d v b
    Reach-IsStranded a b here k h = h
    Reach-IsStranded a b (next {b = m} r s) (before, last) h =
        Step-IsStranded m b s last (Reach-IsStranded a m r before h)

removed_marker :
    (a : Site) (d : Text) (v : ℕ)
    → (remove_domain_version a d (some v)).0 ≡ ok true
    → Dict.lookup (marker_path a.storage d v) (remove_domain_version a d (some v)).1.fs ≡ none
unfolding remove_domain_version remove_path remove_dir_all get_version_path
removed_marker a d v done = ground (
  arith,
  lookup-prune (version_path a.storage.prefix d v) (marker_path a.storage d v) a.fs,
  marker_path-under a.storage d v,
)

-- The version that a domain uploads is removed. Then, whatever requests to release, to remove and to
-- change the status of an upload follow, for any domains, and whatever files are sent to other
-- domains: the upload still counts as on, and the request that would end it fails. The names of the
-- domains are one component of a path and not "..". It is given that `sanitize_path` yields paths
-- below its base.
pub remove_domain_version-strands :
    (crates : Crates) (clean : IsSanitizer crates) (a b : Site) (d : Text) (v now : ℕ)
    (r : Reach crates (remove_domain_version a d (some v)).1 b)
    → IsPlain d
    → Dict.lookup d a.storage.uploading_status ≡ some v
    → (remove_domain_version a d (some v)).0 ≡ ok true
    → Each crates (IsNoTransfer crates d) r
    → (Dict.lookup d b.storage.uploading_status ≡ some v)
      × ((update_uploading_status b d v finish now).0 ≡ err io_error)
remove_domain_version-strands crates clean a b d v now r plain on done others =
    let site : Site = (remove_domain_version a d (some v)).1 in
    let same : site.storage ≡ a.storage = remove_domain_version_storage a d (some v) in
    let h : IsStranded d v site = record {
      on = subst (λ (s : DomainStorage). Dict.lookup d s.uploading_status ≡ some v) (sym same) on;
      unmarked =
          subst (λ (s : DomainStorage). Dict.lookup (marker_path s d v) site.fs ≡ none) (sym same)
            (removed_marker a d v done);
    } in
    let k : IsStranded d v b = Reach-IsStranded d v crates clean plain site b r others h in
    (k.on, finish-fails d v b now k)
