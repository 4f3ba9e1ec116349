-- ===== src/Tests/Outage.antt =====
-- A server with an https server whose certificate is missing.
use spa_server.Base.{ℕ, nat_eq, list_eq, option_eq, ◌≡◌, refl, true, false, some, [], All}
use spa_server.Base.{if◌then◌else◌, contains}
use spa_server.Base.Dict
use spa_server.Base.Text.{codes}
use spa_server.Config.{Config, HttpsConfig}
use spa_server.HotReload.{Channels}
use spa_server.Storage.{ok}
use spa_server.Server.{
  System, is_listening, started, load_storage, same_admin, reload_server, run_server, serves_until,
}
use spa_server.Server.Reload.{IsValid}
use spa_server.Server.Runs.{begun, reloading, ending, receiver_gone, Runs-IsManageable}
use spa_server.Server.Manageable.{IsManageable}
use spa_server.Server.Outage.{reload_server_outage}
use spa_server.Server.Sockets.{
  NetCrates, listening, pending, returned, err, tls_error, start_http_server, run, run-tls_error,
}
use spa_server.Tls
use spa_server.Tls.{load_ssl_server_config}
use spa_server.Tests.Fixtures.{crates, disk}
use spa_server.Tests.Server.{admin_config, config, loaded, init_loads}
use spa_server.Tests.Tls.{tls}

abbrev pub https : HttpsConfig
https = record {
  ssl = some (record { private = codes "k"; public = codes "c" });
  port = 443;
  addr = codes "0.0.0.0";
  http_redirect_to_https = false;
}

abbrev pub secure : Config
secure = record config { https = some https }

loads : load_storage crates secure disk ≡ ok loaded
unfolding load_storage
loads = init_loads

abbrev pub sys : System
sys = started secure admin_config disk loaded

pub starts : run_server crates secure admin_config disk ≡ some sys
unfolding run_server
starts = rw (loads, run_server) refl

-- The https server has the channel 1.
abbrev ended : System
ended = receiver_gone 1 sys

valid : IsValid ended
valid =
    (Runs-IsManageable crates ended
      (ending sys 1 (begun secure admin_config disk sys starts))).valid

Runs-IsManageable_example :
    IsManageable (receiver_gone 0 (reload_server crates (some secure) sys).1)
Runs-IsManageable_example =
    Runs-IsManageable crates _
      (ending _ 0 (reloading sys (some secure) (begun secure admin_config disk sys starts)))

same : same_admin secure.admin_config ended.admin_config ≡ true
unfolding same_admin receiver_gone started
same = refl

ended_loads : load_storage crates secure ended.fs ≡ ok loaded
unfolding receiver_gone started
ended_loads = loads

signal : ended.reload_manager.https_signal ≡ some 1
unfolding receiver_gone started
signal = refl

gone : contains ended.channels.closed 1 ≡ true
unfolding receiver_gone nat_eq
gone = refl

reload_server_outage_example :
    ((reload_server crates (some secure) ended).0 ≡ false)
    × All
        (λ s. is_listening (reload_server crates (some secure) ended).1 s ≡ false)
        (reload_server crates (some secure) ended).1.servers
reload_server_outage_example =
    reload_server_outage crates secure loaded ended 1 valid same ended_loads signal gone

-- A socket is a number.
abbrev net : NetCrates ℕ
net = record {
  parse_addr = some;
  new = λ address. some 3;
  set_nodelay = some;
  set_reuse_port = some;
  set_nonblocking = some;
  bind = λ address socket. some socket;
  listen = λ backlog socket. some socket;
  from_tcp = some;
  from_listener = some;
}

abbrev quiet : Channels
quiet = record { made = 2; closed = []; signalled = [] }

http_listens : start_http_server net secure (some 0) ≡ listening 3 (some 0)
unfolding start_http_server
http_listens = refl

no_certificate : load_ssl_server_config tls [] secure ≡ Tls.err Tls.no_cert_file
unfolding load_ssl_server_config Dict.lookup
no_certificate = refl

run-tls_error_example :
    run net tls [] quiet secure (some 0) (some 1)
    ≡ (if serves_until quiet (some 0) then pending else returned (err (tls_error Tls.no_cert_file)))
run-tls_error_example =
    run-tls_error net tls [] quiet secure https (some 0) (some 1) 3 Tls.no_cert_file http_listens
      refl no_certificate
