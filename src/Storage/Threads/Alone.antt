-- ===== src/Storage/Threads/Alone.antt =====
-- server/src/domain_storage.rs: a thread that runs alone does what the method as one step does.
use spa_server.Base.{ℕ, ◌≡◌, arith, nat_eq, list_eq, option_eq}
use spa_server.Base.Text.{Text}
use spa_server.Crates.{Crates}
use spa_server.Storage.{Site, UploadingStatus}
use spa_server.Storage.Release.{release}
use spa_server.Storage.Upload.{update_uploading_status, begin_upload, finish_upload}
use spa_server.Storage.Threads.{
  releasing, changing, released, status_set, release_check, status_read, run_alone,
}

module _ (crates : Crates) (now : ℕ) where
  -- A release that no other thread interrupts ends, with the result and the state of the method.
  pub run_alone-release :
      (site : Site) (d : Text) (v : ℕ)
      → run_alone crates now 5 (releasing (release_check d v)) site
        ≡ (releasing (released (release crates site d v).0), (release crates site d v).1)
  unfolding run_alone release
  run_alone-release site d v = ground arith

  -- A change of the status of an upload that no other thread interrupts ends, with the result and the
  -- state of the method.
  pub run_alone-status :
      (site : Site) (d : Text) (v : ℕ) (status : UploadingStatus)
      → run_alone crates now 5 (changing (status_read d v status)) site ≡ (
        changing (status_set (update_uploading_status site d v status now).0),
        (update_uploading_status site d v status now).1,
      )
  unfolding run_alone update_uploading_status begin_upload finish_upload
  run_alone-status site d v status = ground arith
