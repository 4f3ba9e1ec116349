-- ===== src/Client/Upload/Agrees.antt =====
-- client/src/upload_files.rs over two servers that answer its calls alike.
use spa_server.Base.{ℕ, zero, suc, ◌≡◌, refl, Option, none, some, List, [], ◌∷◌, arith}
use spa_server.Base.{Bool-cases, All, inl, inr}
use spa_server.Base.Text.{Text}
use spa_server.FilePath.{FilePath}
use spa_server.FileSystem.{File, FileSystem, read}
use spa_server.FileSystem.WalkDir.{Walk}
use spa_server.Storage.{ShortMetaData, uploading, finish}
use spa_server.Admin.{UpdateUploadingStatusOption}
use spa_server.Client.Upload.{
  Api, retry_upload, upload_all, send_files, finish_files, upload_files, uploading_files,
  get_upload_version,
}

module _ {S : Type 0} (a b : Api S) where
  -- A file that can be read is taken alike by both.
  abbrev pub Takes : FileSystem → Text → ℕ → Text × FilePath → Type 0
  Takes fs d v (key, path) =
      (f : File)
      → read fs path ≡ some f
      → (s : S) → a.upload_file d v key f.content s ≡ b.upload_file d v key f.content s

  abbrev pub Changes : UpdateUploadingStatusOption → Type 0
  Changes param = (s : S) → a.change_uploading_status param s ≡ b.change_uploading_status param s

  retry_upload-agrees :
      (n : ℕ) (d : Text) (v : ℕ) (k : Text) (f : Option File) (s : S)
      → ((g : File)
          → f ≡ some g
          → (t : S) → a.upload_file d v k g.content t ≡ b.upload_file d v k g.content t)
      → retry_upload a n d v k f s ≡ retry_upload b n d v k f s
  unfolding retry_upload
  retry_upload-agrees zero d v k f s same = refl
  retry_upload-agrees (suc n) d v k none s same = refl
  retry_upload-agrees (suc n) d v k (some f) s same =
      let agrees = same f refl s in
      elim (Bool-cases (b.upload_file d v k f.content s).0) [
        | inl done ↦ ground (arith, agrees, done)
        | inr failed ↦ ground (
          arith,
          agrees,
          failed,
          retry_upload-agrees n d v k (some f) (b.upload_file d v k f.content s).1 same,
        )
      ]

  upload_all-agrees :
      (fs : FileSystem) (d : Text) (v : ℕ) (files : List (Text × FilePath)) (s : S)
      → All (Takes fs d v) files
      → upload_all a fs d v files s ≡ upload_all b fs d v files s
  unfolding upload_all
  upload_all-agrees fs d v [] s takes = refl
  upload_all-agrees fs d v ((key, path) ∷ files) s (takes, rest) =
      rw
        (
          retry_upload-agrees 3 d v key (read fs path) s takes,
          upload_all-agrees fs d v files (retry_upload b 3 d v key (read fs path) s).1 rest,
        )
        refl

  finish_files-agrees :
      (d : Text) (v : ℕ) (fail_keys : List Text) (s : S)
      → Changes (record { domain = d; version = v; status = finish })
      → finish_files a d v fail_keys s ≡ finish_files b d v fail_keys s
  unfolding finish_files
  finish_files-agrees d v [] s finishes = rw (finishes s) refl
  finish_files-agrees d v (key ∷ keys) s finishes = refl

  send_files-agrees :
      (fs : FileSystem) (d : Text) (v : ℕ) (files : List (Text × FilePath)) (s : S)
      → Changes (record { domain = d; version = v; status = uploading })
      → Changes (record { domain = d; version = v; status = finish })
      → All (Takes fs d v) files
      → send_files a fs d v files s ≡ send_files b fs d v files s
  unfolding send_files
  send_files-agrees fs d v files s begins finishes takes =
      let param : UpdateUploadingStatusOption = record {
        domain = d;
        version = v;
        status = uploading;
      } in
      let s' : S = (b.change_uploading_status param s).1 in
      rw
        (
          begins s,
          upload_all-agrees fs d v files s' takes,
          finish_files-agrees d v (upload_all b fs d v files s').0 (upload_all b fs d v files s').1
              finishes,
        )
        refl

  -- An upload of a given version, of which both servers list the same files.
  pub upload_files-agrees :
      (walk : Walk) (md5 : Text → Text) (fs : FileSystem) (d : Text) (v : ℕ) (path : FilePath)
      (s s' : S) (listed : List ShortMetaData)
      → a.get_file_metadata d v s ≡ b.get_file_metadata d v s
      → b.get_file_metadata d v s ≡ (some listed, s')
      → Changes (record { domain = d; version = v; status = uploading })
      → Changes (record { domain = d; version = v; status = finish })
      → All (Takes fs d v) (uploading_files walk md5 fs path listed)
      → upload_files a walk md5 fs d (some v) path s ≡ upload_files b walk md5 fs d (some v) path s
  unfolding upload_files get_upload_version
  upload_files-agrees walk md5 fs d v path s s' listed same lists begins finishes takes =
      rw (same, lists)
        (rw
          (send_files-agrees fs d v (uploading_files walk md5 fs path listed) s' begins finishes
            takes)
          refl)
