-- ===== src/Client/Upload.antt =====
-- client/src/upload_files.rs: the upload of a directory, over an administration's server that is
-- given by its operations. The transfers are made one after another; the client runs several at a
-- time and waits for all of them.
pub mod Stores
pub mod Keys
pub mod Agrees
pub mod Attempts
pub mod Resends
use spa_server.Base.{
  ℕ, zero, suc, Bool, true, false, ◌&&◌, Option, none, some, List, [], ◌∷◌, ◌++◌, map,
}
use spa_server.Base.{◌==◌, if◌then◌else◌, is_empty, filter_map, map_some, length, nat_eq, list_eq}
use spa_server.Base.Dict
use spa_server.Base.Dict.{Dict}
use spa_server.Base.Text.{Text, replace}
use spa_server.FilePath.{FilePath, to_str}
use spa_server.FileSystem.{File, FileSystem, read, is_dir}
use spa_server.FileSystem.WalkDir.{Walk}
use spa_server.Storage.{ShortMetaData, UploadingStatus, uploading, finish, UploadDomainPosition}
use spa_server.Admin.{UpdateUploadingStatusOption}

pub data Error : Type 0 where
  not_a_directory no_position no_metadata nothing_to_upload not_started failed not_finished : Error

pub data Result {ℓ} (A : Type ℓ) : Type ℓ where
  ok : A → Result A
  err : Error → Result A

-- `API`: each call may change the server, also where it fails.
pub record Api (S : Type 0) : Type 0 where
  pub get_upload_position : Text → S → Option UploadDomainPosition × S
  pub get_file_metadata : Text → ℕ → S → Option (List ShortMetaData) × S
  pub change_uploading_status : UpdateUploadingStatusOption → S → Bool × S
  -- the domain, the version, the key and the bytes of the file
  pub upload_file : Text → ℕ → Text → Text → S → Bool × S

-- `.map(|x| (x.path.clone(), x)).collect::<HashMap<_, _>>()`
unfoldable pub by_path : List ShortMetaData → Dict Text ShortMetaData
unfolding Dict.collect
by_path items = Dict.collect (map (λ x. (x.path, x)) items) []

-- Has the server this file, as far as its length and its digest tell?
unfoldable pub is_same : (Text → Text) → Option ShortMetaData → File → Bool
unfolding nat_eq list_eq
is_same md5 none f = false
is_same md5 (some x) f = x.len == length f.content && md5 f.content == x.md5

module _ (walk : Walk) (md5 : Text → Text) (fs : FileSystem) where
  -- The closure over the entries of the walk.
  unfoldable pub uploading_entry :
      Text → Dict Text ShortMetaData → FilePath → Option (Text × FilePath)
  unfolding replace is_same
  uploading_entry prefix_path server_metadata path = elim (read fs path) [
    | none ↦ none
    | some f ↦
        let key = replace (to_str path) prefix_path [] in
        if is_same md5 (Dict.lookup key server_metadata) f then none else some (key, path)
  ]

  unfoldable pub uploading_files : FilePath → List ShortMetaData → List (Text × FilePath)
  unfolding uploading_entry by_path
  uploading_files path server_metadata =
      filter_map (uploading_entry (to_str path) (by_path server_metadata)) (walk fs path none)

module _ {S : Type 0} (api : Api S) where
  -- `retry_upload`, with the attempts that are left. A file that cannot be read fails at each.
  unfoldable pub retry_upload : ℕ → Text → ℕ → Text → Option File → S → Bool × S
  retry_upload zero domain version key f s = (false, s)
  retry_upload (suc retries) domain version key none s = (false, s)
  retry_upload (suc retries) domain version key (some f) s =
      let (done, s') = api.upload_file domain version key f.content s in
      elim done [ true ↦ (true, s') | false ↦ retry_upload retries domain version key (some f) s' ]

  -- The stream of transfers: the keys of the files that could not be uploaded.
  unfoldable pub upload_all : FileSystem → Text → ℕ → List (Text × FilePath) → S → List Text × S
  unfolding retry_upload
  upload_all fs domain version [] s = ([], s)
  upload_all fs domain version ((key, path) ∷ files) s =
      let (done, s') = retry_upload 3 domain version key (read fs path) s in
      let (fail_keys, t) = upload_all fs domain version files s' in
      (if done then fail_keys else key ∷ fail_keys, t)

  -- `get_upload_version`
  unfoldable pub get_upload_version : Text → Option ℕ → S → Option ℕ × S
  get_upload_version domain (some version) s = (some version, s)
  get_upload_version domain none s =
      let (position, s') = api.get_upload_position domain s in
      (map_some (λ p. p.version) position, s')

  -- The end of `upload_files`: without a failure, the upload is finished.
  unfoldable pub finish_files : Text → ℕ → List Text → S → Result (Unit {0}) × S
  finish_files domain version (key ∷ fail_keys) s = (err failed, s)
  finish_files domain version [] s =
      let (done, s') =
        api.change_uploading_status (record { domain = domain; version = version; status = finish })
          s in
      (if done then ok tt else err not_finished, s')

  -- The middle of `upload_files`: the status is changed, and the files are sent.
  unfoldable pub send_files :
      FileSystem → Text → ℕ → List (Text × FilePath) → S → Result (Unit {0}) × S
  unfolding upload_all finish_files
  send_files fs domain version files s =
      let (started, s') =
        api.change_uploading_status
          (record { domain = domain; version = version; status = uploading }) s in
      let (fail_keys, t) = upload_all fs domain version files s' in
      if started then finish_files domain version fail_keys t else (err not_started, s')

  module _ (walk : Walk) (md5 : Text → Text) (fs : FileSystem) where
    abbrev upload_pending :
        FilePath → Text → ℕ → Option (List ShortMetaData) × S → Result (Unit {0}) × S
    upload_pending path domain version (none, s) = (err no_metadata, s)
    upload_pending path domain version (some server_metadata, s) =
        let files = uploading_files walk md5 fs path server_metadata in
        if is_empty files then (err nothing_to_upload, s) else send_files fs domain version files s

    abbrev upload_version : FilePath → Text → Option ℕ × S → Result (Unit {0}) × S
    upload_version path domain (none, s) = (err no_position, s)
    upload_version path domain (some version, s) =
        upload_pending path domain version (api.get_file_metadata domain version s)

    -- `upload_files`, from the absolute path on.
    unfoldable pub upload_files : Text → Option ℕ → FilePath → S → Result (Unit {0}) × S
    upload_files domain version path s =
        if is_dir fs path
        then upload_version path domain (get_upload_version domain version s)
        else (err not_a_directory, s)
