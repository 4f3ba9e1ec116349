-- ===== src/Client/Upload/Stores.antt =====
-- client/src/upload_files.rs: after an upload that reports success, the files are on the server.
use spa_server.Base.{
  ℕ, zero, suc, ◌≡◌, ◌≢◌, sym, ap, ◌∙◌, subst, ◌⊎◌, inl, inr, true, Option, none, some, List, [],
  ◌∷◌, arith, nat_eq, list_eq,
}
use spa_server.Base.{All, All-map, All-filter_map, Bool-cases}
use spa_server.Base.Dict
use spa_server.Base.Text.{Text, replace}
use spa_server.FilePath.{FilePath, to_str, is_under}
use spa_server.FileSystem.{File, FileSystem, exists, read}
use spa_server.FileSystem.Laws.{exists_of_read}
use spa_server.FileSystem.WalkDir.{Walk, IsWalk}
use spa_server.Storage.{ShortMetaData, uploading, finish}
use spa_server.Admin.{UpdateUploadingStatusOption}
use spa_server.Client.Upload.{
  Result, ok, Api, by_path, is_same, uploading_entry, uploading_files, retry_upload, upload_all,
  get_upload_version, finish_files, send_files, upload_files,
}

-- What a server promises: `stored s d v key` are the bytes that it has for a key of a version. A
-- transfer that succeeds stores bytes that are not empty, and nothing stored under an ordinary key
-- is ever replaced.
pub record IsStore {S : Type 0} (api : Api S) (stored : S → Text → ℕ → Text → Option Text)
    (IsOrdinary : Text → Type 0) : Type 0 where
  pub upload_stores :
      (d : Text) (v : ℕ) (key content : Text) (s : S)
      → content ≢ []
      → (api.upload_file d v key content s).0 ≡ true
      → stored (api.upload_file d v key content s).1 d v key ≡ some content
  pub upload_keeps :
      (d : Text) (v : ℕ) (key content : Text) (s : S) (e : Text) (w : ℕ) (k c : Text)
      → stored s e w k ≡ some c
      → stored (api.upload_file d v key content s).1 e w k ≡ some c
  pub status_keeps :
      (param : UpdateUploadingStatusOption) (s : S) (e : Text) (w : ℕ) (k c : Text)
      → IsOrdinary k
      → stored s e w k ≡ some c
      → stored (api.change_uploading_status param s).1 e w k ≡ some c

module _ {S : Type 0} (api : Api S) (stored : S → Text → ℕ → Text → Option Text)
    (IsOrdinary : Text → Type 0) (laws : IsStore api stored IsOrdinary) where
  retry_upload-stores :
      (n : ℕ) (d : Text) (v : ℕ) (key : Text) (f : File) (s : S)
      → f.content ≢ []
      → (retry_upload api n d v key (some f) s).0 ≡ true
      → stored (retry_upload api n d v key (some f) s).1 d v key ≡ some f.content
  unfolding retry_upload
  retry_upload-stores zero d v key f s full done = cc
  retry_upload-stores (suc n) d v key f s full done =
      elim (Bool-cases (api.upload_file d v key f.content s).0) [
        | inl sent ↦ ground (arith, sent, laws.upload_stores d v key f.content s full sent)
        | inr lost ↦ ground (
          arith,
          lost,
          retry_upload-stores n d v key f (api.upload_file d v key f.content s).1 full,
        )
      ]

  retry_upload-keeps :
      (n : ℕ) (d : Text) (v : ℕ) (key : Text) (f : Option File) (s : S) (e : Text) (w : ℕ)
      (k c : Text)
      → stored s e w k ≡ some c
      → stored (retry_upload api n d v key f s).1 e w k ≡ some c
  unfolding retry_upload
  retry_upload-keeps zero d v key f s e w k c h = h
  retry_upload-keeps (suc n) d v key none s e w k c h = h
  retry_upload-keeps (suc n) d v key (some f) s e w k c h =
      let next = (api.upload_file d v key f.content s).1 in
      let kept = laws.upload_keeps d v key f.content s e w k c h in
      ground (arith, kept, retry_upload-keeps n d v key (some f) next e w k c kept)

  upload_all-keeps :
      (fs : FileSystem) (d : Text) (v : ℕ) (files : List (Text × FilePath)) (s : S) (e : Text)
      (w : ℕ) (k c : Text)
      → stored s e w k ≡ some c
      → stored (upload_all api fs d v files s).1 e w k ≡ some c
  unfolding upload_all
  upload_all-keeps fs d v [] s e w k c h = h
  upload_all-keeps fs d v ((key, path) ∷ files) s e w k c h =
      upload_all-keeps fs d v files (retry_upload api 3 d v key (read fs path) s).1 e w k c
        (retry_upload-keeps 3 d v key (read fs path) s e w k c h)

  -- What is asked of one file of an upload.
  abbrev IsStored : FileSystem → Text → ℕ → S → Text × FilePath → Type 0
  IsStored fs d v s (key, path) =
      (f : File)
      → read fs path ≡ some f
      → f.content ≢ []
      → IsOrdinary key
      → stored s d v key ≡ some f.content

  upload_all-stores :
      (fs : FileSystem) (d : Text) (v : ℕ) (files : List (Text × FilePath)) (s : S)
      → (upload_all api fs d v files s).0 ≡ []
      → All (IsStored fs d v (upload_all api fs d v files s).1) files
  unfolding upload_all
  upload_all-stores fs d v [] s h = tt
  upload_all-stores fs d v ((key, path) ∷ files) s h =
      let next : S = (retry_upload api 3 d v key (read fs path) s).1 in
      let done : (retry_upload api 3 d v key (read fs path) s).0 ≡ true = ground arith in
      (
        λ f found full plain. upload_all-keeps fs d v files next d v key f.content (
            subst
              (λ (o : Option File).
                (retry_upload api 3 d v key o s).0 ≡ true
                → stored (retry_upload api 3 d v key o s).1 d v key ≡ some f.content)
              (sym found) (retry_upload-stores 3 d v key f s full) done),
        upload_all-stores fs d v files next (ground arith),
      )

  send_files-stores :
      (fs : FileSystem) (d : Text) (v : ℕ) (files : List (Text × FilePath)) (s : S)
      → (send_files api fs d v files s).0 ≡ ok tt
      → All (IsStored fs d v (send_files api fs d v files s).1) files
  unfolding send_files finish_files
  send_files-stores fs d v files s h =
      let started : S =
        (api.change_uploading_status (record { domain = d; version = v; status = uploading })
          s).1 in
      let sent : S = (upload_all api fs d v files started).1 in
      let none_failed : (upload_all api fs d v files started).0 ≡ [] = ground arith in
      let ended : (send_files api fs d v files s).1
          ≡ (api.change_uploading_status (record { domain = d; version = v; status = finish })
              sent).1 =
        ground arith in
      All-map (IsStored fs d v sent) (IsStored fs d v (send_files api fs d v files s).1) files
        (λ entry there f found full plain.
          subst (λ (t : S). stored t d v entry.0 ≡ some f.content) (sym ended)
            (laws.status_keeps _ sent d v entry.0 f.content plain (there f found full plain)))
        (upload_all-stores fs d v files started none_failed)

  -- An upload that reports success has sent what was pending.
  upload_files-eq :
      (walk : Walk) (md5 : Text → Text) (fs : FileSystem) (d : Text) (version : Option ℕ)
      (root : FilePath) (s s1 s2 : S) (v : ℕ) (listed : List ShortMetaData)
      → get_upload_version api d version s ≡ (some v, s1)
      → api.get_file_metadata d v s1 ≡ (some listed, s2)
      → (upload_files api walk md5 fs d version root s).0 ≡ ok tt
      → upload_files api walk md5 fs d version root s
        ≡ send_files api fs d v (uploading_files walk md5 fs root listed) s2
  unfolding upload_files
  upload_files-eq walk md5 fs d version root s s1 s2 v listed chosen listing done =
      ground (arith, chosen, listing)

  -- An upload that reports success, over a server that keeps the promises of `IsStore`: of every file
  -- below the directory that is not empty and whose key is ordinary, either the server had it already,
  -- as far as the length and the digest that it listed for the file's key tell, or it has the file's
  -- bytes under that key now.
  pub upload_files-stores :
      (walk : Walk) (md5 : Text → Text) (fs : FileSystem) (d : Text) (version : Option ℕ)
      (root path : FilePath) (f : File) (s s1 s2 : S) (v : ℕ) (listed : List ShortMetaData)
      → IsWalk walk
      → get_upload_version api d version s ≡ (some v, s1)
      → api.get_file_metadata d v s1 ≡ (some listed, s2)
      → (upload_files api walk md5 fs d version root s).0 ≡ ok tt
      → is_under root path ≡ true
      → read fs path ≡ some f
      → f.content ≢ []
      → IsOrdinary (replace (to_str path) (to_str root) [])
      → let key = replace (to_str path) (to_str root) [] in
        (is_same md5 (Dict.lookup key (by_path listed)) f ≡ true)
        ⊎ (stored (upload_files api walk md5 fs d version root s).1 d v key ≡ some f.content)
  upload_files-stores walk md5 fs d version root path f s s1 s2 v listed walks chosen listing done
        under found full plain =
      let key : Text = replace (to_str path) (to_str root) [] in
      let files : List (Text × FilePath) = uploading_files walk md5 fs root listed in
      let sends = upload_files-eq walk md5 fs d version root s s1 s2 v listed chosen listing done in
      let there : exists fs path ≡ true = exists_of_read fs path f found in
      elim (Bool-cases (is_same md5 (Dict.lookup key (by_path listed)) f)) [
        | inl same ↦ inl same
        | inr differs ↦
            let all : All (IsStored fs d v (send_files api fs d v files s2).1) files =
              send_files-stores fs d v files s2
                (ap (λ (r : Result (Unit {0}) × S). r.0) (sym sends) ∙ done) in
            inr (
              subst (λ (r : Result (Unit {0}) × S). stored r.1 d v key ≡ some f.content) (sym sends)
                (All-filter_map (IsStored fs d v (send_files api fs d v files s2).1)
                  (uploading_entry walk md5 fs (to_str root) (by_path listed)) (walk fs root none)
                  path (key, path) (unfold uploading_files in all)
                  (ground (arith, walks.contains-walk fs root path none))
                  (unfold uploading_entry in ground (arith, found)) f found full plain))
      ]
