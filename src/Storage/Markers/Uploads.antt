-- ===== src/Storage/Markers/Uploads.antt =====
-- server/src/domain_storage.rs: the marker at the beginning and at the end of an upload.
use spa_server.Base.{ℕ, ◌<◌, ◌≡◌, false, inl, inr, none, some, arith}
use spa_server.Base.{
  ◌==◌, if◌then◌else◌, map_some, Bool-cases, Option-cases, nat_eq, list_eq, option_eq, eq_of_==,
  ◌&&◌, ==-refl,
}
use spa_server.Base.Dict
use spa_server.Base.Text.{Text}
use spa_server.Base.Text.Decimal.{u32_mod, to_string}
use spa_server.FilePath.{FilePath}
use spa_server.FilePath.Names.{IsName}
use spa_server.FileSystem.{exists, remove_file, create, create_dir_all}
use spa_server.FileSystem.Frames.{remove_file-outside, create_dir_all-outside, create-outside}
use spa_server.Storage.{DomainStorage, Site, get_version_path, marker_path}
use spa_server.Storage.Upload.{finish_upload, begin_upload}
use spa_server.Storage.Markers.{
  IsMarked, marker_at, marker_path_of_IsName, marker-version_path, marker_at-marker_path,
}

pub begin_upload-IsMarked :
    (a : Site) (e : Text) (v now : ℕ)
    → IsName e
    → v < u32_mod
    → Dict.lookup e a.storage.uploading_status ≡ none
    → IsMarked a
    → IsMarked (begin_upload a e v now).1
unfolding begin_upload get_version_path exists
begin_upload-IsMarked a e v now named small free h =
    let s : DomainStorage = a.storage in
    elim (Option-cases (create_dir_all a.fs (get_version_path s e v))) [
      | inl failed ↦ rw (failed, begin_upload) h
      | inr (made, done) ↦
          let old : (d x : Text)
              → Dict.lookup (marker_at s.prefix d x) made
                ≡ Dict.lookup (marker_at s.prefix d x) a.fs =
            λ d x.
              create_dir_all-outside a.fs made (get_version_path s e v) (marker_at s.prefix d x)
                done (marker-version_path s.prefix d e x v named) in
          elim (Option-cases (create made (marker_path s e v) now)) [
            | inl failed ↦
                rw (done, failed, begin_upload)
                  (record {
                    marked = λ d x there. h.marked d x (ground (arith, there, old d x));
                    fits = h.fits;
                  })
            | inr (fs, created) ↦
                rw (done, created, begin_upload)
                  (record {
                    marked = λ d x there.
                        elim (Bool-cases (marker_at s.prefix d x == marker_path s e v)) [
                          | inl same ↦
                              let (domain, name) =
                                marker_at-marker_path s d e x v named (eq_of_== _ _ same) in
                              ground
                                (arith, domain, name, Dict.lookup-insert d e v s.uploading_status)
                          | inr other ↦ ground (
                            arith,
                            there,
                            free,
                            h.marked d x,
                            old d x,
                            create-outside made fs (marker_path s e v) (marker_at s.prefix d x) now
                                created other,
                            Dict.lookup-insert d e v s.uploading_status,
                          )
                        ];
                    fits = λ d w up.
                        ground
                          (arith, small, h.fits d w, Dict.lookup-insert d e v s.uploading_status);
                  })
          ]
    ]

-- The end of an upload of another version leaves the upload on.
finish_keeps :
    (status : Dict.Dict Text ℕ) (prefix : FilePath) (d e x : Text) (v : ℕ)
    → map_some to_string (Dict.lookup d status) ≡ some x
    → (marker_at prefix d x == marker_at prefix e (to_string v)) ≡ false
    → map_some to_string
        (Dict.lookup d (if Dict.lookup e status == some v then Dict.erase e status else status))
      ≡ some x
finish_keeps status prefix d e x v up other =
    elim (Bool-cases (d == e && (Dict.lookup e status == some v))) [
      | inr apart ↦ ground (arith, up, apart, Dict.lookup-erase d e status)
      | inl both ↦
          let domain : d ≡ e = ground (arith, both) in
          let name : x ≡ to_string v = ground (arith, both, domain, up) in
          absurd (ground (arith, other, domain, name, ==-refl (marker_at prefix e (to_string v))))
    ]

pub finish_upload-IsMarked :
    (a : Site) (e : Text) (v : ℕ) → IsName e → IsMarked a → IsMarked (finish_upload a e v).1
unfolding finish_upload exists
finish_upload-IsMarked a e v named h =
    let s : DomainStorage = a.storage in
    elim (Option-cases (remove_file a.fs (marker_path s e v))) [
      | inl failed ↦ rw (failed, finish_upload) h
      | inr (fs, done) ↦
          rw (done, finish_upload)
            (record {
              marked = λ d x there.
                  elim (Bool-cases (marker_at s.prefix d x == marker_path s e v)) [
                    | inl same ↦ ground (
                      arith,
                      there,
                      same,
                      remove_file-outside a.fs fs (marker_path s e v) (marker_at s.prefix d x) done,
                    )
                    | inr other ↦
                        let up : map_some to_string (Dict.lookup d s.uploading_status) ≡ some x =
                          h.marked d x (
                            ground (
                              arith,
                              there,
                              other,
                              remove_file-outside a.fs fs (marker_path s e v)
                                  (marker_at s.prefix d x) done,
                            )) in
                        finish_keeps s.uploading_status s.prefix d e x v up
                          (rw (← marker_path_of_IsName s e v named) other)
                  ];
              fits = λ d w up. ground (arith, h.fits d w, Dict.lookup-erase d e s.uploading_status);
            })
    ]
