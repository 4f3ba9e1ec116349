-- ===== src/Tests/Client.antt =====
-- The client at small data.
use spa_server.Base.{some-injective}
use spa_server.Base.{
  nat_eq, list_eq, option_eq, ◌≡◌, ◌≢◌, ◌⊎◌, refl, true, some, none, [], ◌∷◌, ◌++◌,
}
use spa_server.Base.Dict
use spa_server.Base.Text.{Text, codes, replace, split, split_from, starts_with, replace_from}
use spa_server.FilePath.{
  FilePath, slash, is_under, to_str, file_name, join, components, is_piece, parent,
}
use spa_server.FilePath.Names.{file_name-snoc}
use spa_server.FileSystem.{
  dir, file, FileSystem, read, exists, is_dir, has_parent_dir, create, create_dir_all, remove_file,
}
use spa_server.Storage.{
  Site, uploading, err, get_version_path, version_path, marker_path, short_metadata,
  uploading_file_name, get_files_metadata, check_is_in_upload_process, io_error, not_uploading,
}
use spa_server.Storage.Upload.{
  save_file, begin_upload, finish_upload, save_at, update_uploading_status, write_file,
  write_opened, write_created,
}
use spa_server.Base.Text.Decimal.{to_string, digits}
use spa_server.Base.{sym, ap, ◌∙◌, subst, if◌then◌else◌}
use spa_server.Storage.Files.{save_file-existing}
use spa_server.Config.{AdminConfig}
use spa_server.Admin.{UpdateUploadingStatusOption, remove_domain_version}
use spa_server.Admin.Routes.{AdminCrates, answered, routes}
use spa_server.Client.{ClientCrates, remove_files}
use spa_server.Client.Requests.{remove_files-ignored}
use spa_server.Client.Upload.{upload_files, is_same, by_path, get_upload_version}
use spa_server.Client.Upload
use spa_server.Client.Upload.Stores.{IsStore, upload_files-stores}
use spa_server.Client.Direct.{server_api, server_stored, IsOrdinary, server_api-IsStore}
use spa_server.Tests.Fixtures.{version_dir, crates, list_walk, crates-IsWalk, site, domain}

abbrev pub admin_conf : AdminConfig
admin_conf = record {
  port = 9000;
  addr = codes "127.0.0.1";
  token = codes "secret";
  max_upload_size = 30000;
  deprecated_version_delete = none;
}

abbrev client : ClientCrates
client = record {
  delete_json = λ o. [];
  release_json = λ o. o.domain;
  status_json = λ o. o.domain;
  query = λ items. [];
  form = λ d v k c. c;
}

abbrev admin : AdminCrates
admin = record {
  query_domain = λ q. some (record { domain = none });
  query_position = λ q. none;
  query_version = λ q. none;
  query_delete = λ q. some (record { domain = none; max_reserve = none });
  json_release = λ b. some (record { domain = b; version = some 1 });
  json_status = λ b. some (record { domain = b; version = 2; status = uploading });
  form = λ b. none;
  from_utf8 = some;
}

abbrev param : UpdateUploadingStatusOption
param = record { domain = domain; version = 2; status = uploading }

remove_files-ignored_example :
    routes crates admin admin_conf
      (remove_files client admin_conf.token (some domain) (some 9))
      3
      site
    ≡ answered
        (remove_domain_version crates (record { domain = none; max_reserve = none }) site).0
        (remove_domain_version crates (record { domain = none; max_reserve = none }) site).1
remove_files-ignored_example =
    remove_files-ignored crates admin client admin_conf (some domain) (some 9) 3 site refl

-- A directory with one file.
abbrev pub root : FilePath
root = slash ∷ codes "l" ∷ []

abbrev pub new_page : FilePath
new_page = root ++ codes "new.html" ∷ []

abbrev pub key : Text
key = codes "/new.html"

abbrev pub local : FileSystem
local =
    (slash ∷ [], dir)
    ∷ (root, dir)
    ∷ (new_page, file (record { content = codes "new"; modified = 1 }))
    ∷ []

pub key_named : replace (to_str new_page) (to_str root) [] ≡ key
unfolding replace to_str
key_named = refl

differs : codes "new.html" ≢ uploading_file_name
differs e = cc

pub key-IsOrdinary : IsOrdinary crates 9 key
unfolding crates components
key-IsOrdinary base path names same =
    let last : file_name path ≡ codes "new.html" =
      ap file_name (sym (some-injective (base ++ codes "new.html" ∷ []) path names))
      ∙ file_name-snoc base (codes "new.html") in
    differs (sym last ∙ same)

pub upload_done :
    (upload_files (server_api crates 9) crates.walk crates.md5 local domain (some 2) root site).0
    ≡ Upload.ok tt
unfolding upload_files is_dir Dict.lookup list_eq nat_eq get_upload_version server_api
    Upload.uploading_files crates read join to_string digits file_name Upload.send_files to_str
    has_parent_dir Dict.collect Dict.erase Dict.insert option_eq replace by_path Upload.finish_files
    is_same Upload.retry_upload Upload.upload_all Upload.uploading_entry components is_piece
    is_under parent create create_dir_all exists remove_file begin_upload finish_upload save_at
    save_file update_uploading_status get_files_metadata get_version_path check_is_in_upload_process
    write_file write_opened write_created short_metadata marker_path list_walk split split_from
    starts_with replace_from version_path
upload_done = refl

server_api-IsStore_example :
    IsStore (server_api crates 9) (server_stored crates 9) (IsOrdinary crates 9)
server_api-IsStore_example = server_api-IsStore crates 9

pub under_root : is_under root new_page ≡ true
unfolding is_under nat_eq list_eq
under_root = refl

pub local_page : read local new_page ≡ some (record { content = codes "new"; modified = 1 })
unfolding read Dict.lookup nat_eq list_eq
local_page = refl

pub not_empty : codes "new" ≢ []
not_empty e = cc

version_chosen : get_upload_version (server_api crates 9) domain (some 2) site ≡ (some 2, site)
unfolding get_upload_version
version_chosen = refl

listed :
    (server_api crates 9).get_file_metadata domain 2 site
    ≡ (some (get_files_metadata crates site.storage site.fs domain 2), site)
unfolding server_api
listed = refl

upload_files-stores_example :
    (is_same crates.md5
        (Dict.lookup
          (replace (to_str new_page) (to_str root) [])
          (by_path (get_files_metadata crates site.storage site.fs domain 2)))
        (record { content = codes "new"; modified = 1 })
      ≡ true)
    ⊎ (server_stored crates 9
          (upload_files
            (server_api crates 9)
            crates.walk
            crates.md5
            local
            domain
            (some 2)
            root
            site).1
          domain
          2
          (replace (to_str new_page) (to_str root) [])
        ≡ some (codes "new"))
upload_files-stores_example =
    upload_files-stores (server_api crates 9) (server_stored crates 9) (IsOrdinary crates 9)
      (server_api-IsStore crates 9) crates.walk crates.md5 local domain (some 2) root new_page
      (record { content = codes "new"; modified = 1 }) site site site 2
      (get_files_metadata crates site.storage site.fs domain 2) crates-IsWalk version_chosen listed
      upload_done under_root local_page not_empty
      (subst (IsOrdinary crates 9) (sym key_named) key-IsOrdinary)

-- A second transfer of a page to version 2, which is being uploaded.
abbrev sent_page : FilePath
sent_page = version_dir b'2' ++ codes "index.html" ∷ []

abbrev half_sent : Site
half_sent = record site {
  fs = (sent_page, file (record { content = codes "old"; modified = 8 })) ∷ site.fs;
}

named_sent :
    crates.sanitize_path (get_version_path half_sent.storage domain 2) (codes "index.html")
    ≡ some sent_page
unfolding crates get_version_path version_path join to_string digits components is_piece split
    split_from starts_with list_eq nat_eq
named_sent = refl

above_sent : parent sent_page ≡ some (version_dir b'2')
unfolding parent
above_sent = refl

version_dir_exists : exists half_sent.fs (version_dir b'2') ≡ true
unfolding exists Dict.lookup nat_eq list_eq
version_dir_exists = refl

sent_exists : exists half_sent.fs sent_page ≡ true
unfolding exists Dict.lookup nat_eq list_eq
sent_exists = refl

save_file-existing_example :
    save_file crates half_sent domain 2 (codes "index.html") (codes "new") 9 ≡ (
      if check_is_in_upload_process half_sent.storage domain 2
          then err io_error
          else err not_uploading,
      half_sent,
    )
save_file-existing_example =
    save_file-existing crates half_sent domain 2 (codes "index.html") (codes "new") 9 sent_page
      (version_dir b'2') named_sent above_sent version_dir_exists sent_exists not_empty
