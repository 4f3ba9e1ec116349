-- ===== src/Server/Manageable.antt =====
-- server/src/lib.rs: the manager of the reloads can stop the http and the https servers.
use spa_server.Base.{◌≡◌, refl, ap, subst, Option, some, nat_eq}
use spa_server.Config.{Config, AdminConfig}
use spa_server.Crates.{Crates}
use spa_server.FileSystem.{FileSystem}
use spa_server.Storage.{Site, DomainStorage}
use spa_server.Admin.{Reply}
use spa_server.Server.{
  System, is_listening_https, administer, administered, reload_server, reloaded, run_server,
  started,
}
use spa_server.Server.Https.{IsManagedHttps, init-https_rx, reloaded-IsManagedHttps}
use spa_server.Server.Reload.{
  IsValid, administer-inv, administer-IsValid, reloaded-IsValid, reload_server-keeps,
  run_server-started, started-IsValid,
}

-- The manager can stop every server that listens, on its http port or on its https port.
pub record IsManageable (sys : System) : Type 0 where
  pub valid : IsValid sys
  pub https : IsManagedHttps sys

pub started-IsManageable :
    (config : Config) (admin_config : AdminConfig) (fs : FileSystem) (storage : DomainStorage)
    → IsManageable (started config admin_config fs storage)
unfolding started
started-IsManageable config admin_config fs storage = record {
  valid = started-IsValid config admin_config fs storage;
  https = ((init-https_rx config _, λ on. refl), tt);
}

pub reloaded-IsManageable :
    (config : Config) (storage : DomainStorage) (sys : System)
    → IsManageable sys
    → IsManageable (reloaded config storage sys).1
reloaded-IsManageable config storage sys h = record {
  valid = reloaded-IsValid config storage sys h.valid;
  https = reloaded-IsManagedHttps config storage sys h.https;
}

pub administer-IsManageable :
    (handler : Site → Reply × Site) (sys sys' : System) (reply : Reply)
    → administer handler sys ≡ some (reply, sys')
    → IsManageable sys
    → IsManageable sys'
unfolding administered is_listening_https
administer-IsManageable handler sys sys' reply h v =
    let (storage, held, e) = administer-inv handler sys (reply, sys') h in
    record {
      valid = administer-IsValid handler sys sys' reply h v.valid;
      https = subst IsManagedHttps (ap (λ (r : Reply × System). r.1) e) v.https;
    }

module _ (crates : Crates) where
  pub reload_server-IsManageable :
      (loaded : Option Config) (sys : System)
      → IsManageable sys
      → IsManageable (reload_server crates loaded sys).1
  reload_server-IsManageable loaded sys h =
      reload_server-keeps crates IsManageable loaded sys
        (λ config storage loads. reloaded-IsManageable config storage sys h) h

  pub run_server-IsManageable :
      (config : Config) (admin_config : AdminConfig) (fs : FileSystem) (sys : System)
      → run_server crates config admin_config fs ≡ some sys
      → IsManageable sys
  run_server-IsManageable config admin_config fs sys h =
      let (storage, loads, e) = run_server-started crates config admin_config fs sys h in
      subst IsManageable e (started-IsManageable config admin_config fs storage)
