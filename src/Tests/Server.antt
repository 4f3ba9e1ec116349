-- ===== src/Tests/Server.antt =====
-- A server that is started and reloaded.
use spa_server.Base.{nat_eq, list_eq, option_eq, ◌≡◌, refl, true, some, none, [], ◌∷◌, All}
use spa_server.Base.Dict
use spa_server.Base.Text.{codes}
use spa_server.Config.{Config, AdminConfig, default_cache, admin_eq, opt_remove_eq}
use spa_server.Http.{Request}
use spa_server.Storage.{ok, DomainStorage}
use spa_server.Admin.{DomainWithOptVersionOption, update_domain_version}
use spa_server.Storage.{Site, finish}
use spa_server.Storage.Release.{upload_domain_with_version}
use spa_server.Storage.Upload.{update_uploading_status}
use spa_server.Storage.Reachable.{Reach, here, next, released, status_changed}
use spa_server.Storage.Restart.{marked_versions, complete_versions, largest, last, not_zero}
use spa_server.Storage.Restart.Starts.{init_restart}
use spa_server.Server.{
  System, is_listening, started, load_storage, same_admin, reload_server, run_server, administer,
  administered, reloaded, add_server, hand_over, respond,
}
use spa_server.Server.Reload.{IsValid, reload_server-detaches, reload_server-reloaded}
use spa_server.Server.Runs.{begun, Runs-IsManageable}
use mathlib.Core.List.{flatten}
use spa_server.Storage.{get_domain_serving_version}
use spa_server.Base.{List, ◌++◌, ◌≢◌, Bool, false, subst, sym}
use spa_server.Base.Text.{Text, split, split_from, starts_with, replace, replace_from, last_piece}
use spa_server.Base.Text.Decimal.{parse_u32, parse_digits, to_string, digits}
use spa_server.FilePath.{join, components, is_piece, parent, file_name, is_under, to_str}
use spa_server.FileSystem.{exists, is_dir, read_dir, read}
use spa_server.FileCache.{
  cache_block, cache_dir, cache_entry, cache_file, data_block, update, get_domain_cache_config,
  get_domain_expire_config, new_file_cache, new_domain_cache_config, domain_cache,
}
use spa_server.Storage.{version_path}
use spa_server.Storage.Init
use spa_server.Tests.Fixtures.{crates, http, disk, domain, prefix, index, version_dir, list_walk}

abbrev pub admin_config : AdminConfig
admin_config = record {
  port = 9000;
  addr = codes "127.0.0.1";
  token = codes "secret";
  max_upload_size = 30000;
  deprecated_version_delete = none;
}

abbrev pub config : Config
config = record {
  port = 80;
  addr = codes "0.0.0.0";
  file_dir = codes "/w";
  cors = true;
  admin_config = some admin_config;
  https = none;
  cache = default_cache;
  domains = [];
}

-- What `init` finds on the disk.
abbrev pub loaded : DomainStorage
loaded = record {
  meta = (domain, (version_dir b'1', 1)) ∷ [];
  prefix = prefix;
  cache = record (new_file_cache config) {
    items =
        (
          domain,
          (
            codes "index.html",
            record {
              meta = record { len = 5; modified = 7 };
              block = cache_block (codes "hello") false index;
              mime = codes "text/html";
              expire = none;
            },
          )
              ∷ [],
        )
        ∷ [];
  };
  uploading_status = (domain, 2) ∷ [];
}

abbrev pub sys : System
sys = started config admin_config disk loaded

loads : load_storage crates config disk ≡ ok loaded
unfolding load_storage Init.init crates Dict.lookup Dict.insert Dict.collect nat_eq list_eq
    option_eq join components is_piece split split_from starts_with exists is_dir read_dir parent
    file_name Init.load_domains Init.load_domain Init.scan_versions Init.scan_version
    Init.serve_version parse_u32 parse_digits cache_dir cache_entry cache_file data_block update
    read list_walk is_under get_domain_cache_config get_domain_expire_config version_path to_string
    digits to_str replace replace_from last_piece new_file_cache new_domain_cache_config
    domain_cache flatten
loads = refl

pub starts : run_server crates config admin_config disk ≡ some sys
unfolding run_server
starts = rw (loads, run_server) refl

same : same_admin config.admin_config sys.admin_config ≡ true
unfolding same_admin started admin_eq opt_remove_eq nat_eq list_eq
same = refl

valid : IsValid sys
valid = (Runs-IsManageable crates sys (begun config admin_config disk sys starts)).valid

sys_loads : load_storage crates config sys.fs ≡ ok loaded
unfolding started
sys_loads = loads

abbrev again : System
again = (reload_server crates (some config) sys).1

abbrev option : DomainWithOptVersionOption
option = record { domain = domain; version = some 1 }

held : Dict.lookup again.admin_storage again.storages ≡ some loaded
unfolding reloaded started Dict.lookup Dict.insert add_server hand_over nat_eq
held =
    subst (λ (r : Bool × System). Dict.lookup r.1.admin_storage r.1.storages ≡ some loaded)
      (sym (reload_server-reloaded crates config loaded sys same sys_loads)) refl

answers :
    administer (update_domain_version crates option) again
    ≡ some (administered (update_domain_version crates option) again loaded)
unfolding administer
answers = rw (held, administer) refl

abbrev request : Request
request = record {
  method = codes "GET";
  uri = record { scheme = none; authority = some domain; path = codes "/"; text = codes "/" };
  headers = [];
}

reload_server-detaches_example :
    All
      (λ s.
        is_listening again s ≡ true
        → respond crates http
            (administered (update_domain_version crates option) again loaded).1
            s
            request
          ≡ respond crates http again s request)
      again.servers
reload_server-detaches_example =
    reload_server-detaches crates http config loaded sys option
      (administered (update_domain_version crates option) again loaded).0
      (administered (update_domain_version crates option) again loaded).1 request valid same
      sys_loads answers

abbrev first : Site
first = record { storage = loaded; fs = disk }

abbrev uploaded : Site
uploaded = (update_uploading_status first domain 2 finish 9).1

served_history : Reach crates first (upload_domain_with_version crates uploaded domain none).1
served_history = next (next here (status_changed domain 2 finish 9)) (released domain none)

pub init_loads : Init.init crates (join [] config.file_dir) (new_file_cache config) disk ≡ ok loaded
unfolding load_storage
init_loads = loads

abbrev versions : List (List Text)
versions = version_dir b'1' ∷ version_dir b'2' ∷ []

versions_listed : read_dir disk (prefix ++ domain ∷ []) ≡ some versions
unfolding read_dir Dict.lookup nat_eq list_eq option_eq parent
versions_listed = refl

file_dir_named : join [] config.file_dir ≢ []
unfolding join starts_with
file_dir_named e = cc

init_restart_example :
    (Dict.lookup domain loaded.uploading_status ≡ last (marked_versions disk versions))
    × (get_domain_serving_version loaded domain
        ≡ not_zero (largest (complete_versions disk versions)))
unfolding crates join
init_restart_example =
    init_restart crates (join [] config.file_dir) (new_file_cache config) disk loaded domain
      versions file_dir_named refl versions_listed init_loads

-- Version 2 is found to be uploading, and version 1 is served.
versions_found :
    (last (marked_versions disk versions) ≡ some 2)
    × (not_zero (largest (complete_versions disk versions)) ≡ some 1)
unfolding marked_versions Dict.lookup list_eq join parse_u32 file_name complete_versions
versions_found = (refl, refl)
