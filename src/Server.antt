-- ===== src/Server.antt =====
-- server/src/lib.rs and server/src/server.rs: the servers that run, the storages that they and the
-- administration's server hold, and the reload. A storage is held by its number, since it is shared:
-- what the administration's server changes is seen by the servers that hold the same one.
pub mod Managed
pub mod Https
pub mod Reload
pub mod Manageable
pub mod Runs
pub mod Sockets
pub mod Outage
pub mod Requests
use spa_server.Base.{ℕ, ◌+◌, Bool, true, false, not, ◌&&◌, ◌||◌, Option, none, some, List, [], ◌∷◌}
use spa_server.Base.{if◌then◌else◌, ltb, contains, is_some, map_some, nat_eq}
use spa_server.Base.Dict
use spa_server.Base.Dict.{Dict}
use spa_server.FilePath.{join}
use spa_server.FileSystem.{FileSystem}
use spa_server.FileCache.{new_file_cache}
use spa_server.Config.{Config, AdminConfig, admin_eq}
use spa_server.Crates.{Crates}
use spa_server.Storage.{Result, ok, err, Site, DomainStorage}
use spa_server.Storage.Init
use spa_server.Http.{HttpCrates, Request, Response}
use spa_server.Service.{create_service, new_service_config}
use spa_server.HotReload.{Channels, HotReloadState, reload}
use spa_server.HotReload

-- `Server`, with the receivers that it runs with.
pub record Server : Type 0 where
  pub conf : Config
  pub storage : ℕ
  pub http_rx : Option ℕ
  pub https_rx : Option ℕ

pub record System : Type 0 where
  pub fs : FileSystem
  pub storages : Dict ℕ DomainStorage
  -- the number of the next storage
  pub next_storage : ℕ
  pub channels : Channels
  pub servers : List Server
  pub reload_manager : HotReloadState
  -- `AdminServer`
  pub admin_config : AdminConfig
  pub admin_storage : ℕ

abbrev pub serves_until : Channels → Option ℕ → Bool
unfolding nat_eq
serves_until c none = true
serves_until c (some n) = not (contains c.signalled n || contains c.closed n)

-- Does a server accept connections on its http port?
unfoldable pub is_listening : System → Server → Bool
unfolding serves_until
is_listening sys server = ltb 0 server.conf.port && serves_until sys.channels server.http_rx

-- Does a server accept connections on its https port?
unfoldable pub is_listening_https : System → Server → Bool
unfolding serves_until
is_listening_https sys server =
    is_some server.conf.https && serves_until sys.channels server.https_rx

-- The server of a configuration, over a new storage.
unfoldable pub add_server : Config → DomainStorage → HotReloadState → Channels → System → System
add_server config storage state channels sys = record sys {
  storages = Dict.insert sys.next_storage storage sys.storages;
  next_storage = sys.next_storage + 1;
  channels = channels;
  servers =
      record {
        conf = config;
        storage = sys.next_storage;
        http_rx = state.http_signal;
        https_rx = state.https_signal;
      }
      ∷ sys.servers;
}

-- The call of `HotReloadManager::reload` behind the sleep.
unfoldable pub hand_over : HotReloadState → System → Bool × System
unfolding reload
hand_over state sys =
    let (done, kept, channels) = reload sys.reload_manager state sys.channels in
    (done, record sys { reload_manager = kept; channels = channels })

-- `reload_server` behind the load of the storage.
unfoldable pub reloaded : Config → DomainStorage → System → Bool × System
unfolding HotReload.init add_server hand_over
reloaded config storage sys =
    let (state, channels) = HotReload.init config sys.channels in
    hand_over state (add_server config storage state channels sys)

unfoldable pub same_admin : Option AdminConfig → AdminConfig → Bool
unfolding admin_eq
same_admin none conf = false
same_admin (some a) conf = admin_eq a conf

-- A handler of the administration's server works on the storage that this server holds.
unfoldable pub administered {ℓ} :
    {A : Type ℓ} → (Site → A × Site) → System → DomainStorage → A × System
administered handler sys storage =
    let (reply, site) = handler (record { storage = storage; fs = sys.fs }) in
    (
      reply,
      record sys {
        fs = site.fs;
        storages = Dict.insert sys.admin_storage site.storage sys.storages;
      },
    )

unfoldable pub administer {ℓ} : {A : Type ℓ} → (Site → A × Site) → System → Option (A × System)
unfolding administered
administer handler sys =
    map_some (administered handler sys) (Dict.lookup sys.admin_storage sys.storages)

-- The system that `run_server` starts.
unfoldable pub started : Config → AdminConfig → FileSystem → DomainStorage → System
unfolding HotReload.init
started config admin_config fs storage =
    let (state, channels) =
      HotReload.init config (record { made = 0; closed = []; signalled = [] }) in
    record {
      fs = fs;
      storages = (0, storage) ∷ [];
      next_storage = 1;
      channels = channels;
      servers =
          record {
            conf = config;
            storage = 0;
            http_rx = state.http_signal;
            https_rx = state.https_signal;
          }
          ∷ [];
      reload_manager = state;
      admin_config = admin_config;
      admin_storage = 0;
    }

module _ (crates : Crates) where
  -- `FileCache::new` and `DomainStorage::init`
  unfoldable pub load_storage : Config → FileSystem → Result DomainStorage
  unfolding Init.init new_file_cache join
  load_storage config fs = Init.init crates (join [] config.file_dir) (new_file_cache config) fs

  -- `reload_server`, for what `Config::load` gives. The servers that run are not asked whether
  -- they could bind their ports.
  unfoldable pub reload_server : Option Config → System → Bool × System
  unfolding same_admin load_storage reloaded
  reload_server none sys = (false, sys)
  reload_server (some config) sys =
      if same_admin config.admin_config sys.admin_config
      then elim (load_storage config sys.fs) [
        | err e ↦ (false, sys)
        | ok storage ↦ reloaded config storage sys
      ]
      else (true, sys)

  -- `run_server` with an administration's server; `none` is a panic.
  unfoldable pub run_server : Config → AdminConfig → FileSystem → Option System
  unfolding load_storage started
  run_server config admin_config fs = elim (load_storage config fs) [
    | err e ↦ none
    | ok storage ↦
        if ltb 0 config.port || is_some config.https
        then some (started config admin_config fs storage)
        else none
  ]

  -- The answer of a server to a request.
  unfoldable pub respond : HttpCrates → System → Server → Request → Option Response
  unfolding create_service new_service_config
  respond http sys server req =
      map_some
        (λ storage. create_service crates http sys.fs storage (new_service_config server.conf) req)
        (Dict.lookup server.storage sys.storages)
