-- ===== src/Server/Sockets.antt =====
-- server/src/server.rs: how a server gets its sockets, and what becomes of `Server::run`.
use spa_server.Base.{ℕ, ◌≡◌, Option, none, some, ◌++◌, arith}
use spa_server.Base.{if◌then◌else◌, ltb, and_then, Bool-cases, inl, inr}
use spa_server.Base.Text.{Text, codes}
use spa_server.Base.Text.Decimal.{to_string}
use spa_server.FileSystem.{FileSystem}
use spa_server.Config.{Config, HttpsConfig}
use spa_server.HotReload.{Channels}
use spa_server.Server.{serves_until}
use spa_server.Tls.{TlsCrates, load_ssl_server_config}
use spa_server.Tls

-- The crate `socket2` over a type of sockets, and `SocketAddr::from_str`. Each call may fail.
pub record NetCrates (K : Type 0) : Type 0 where
  pub parse_addr : Text → Option Text
  pub new : Text → Option K
  pub set_nodelay : K → Option K
  pub set_reuse_port : K → Option K
  pub set_nonblocking : K → Option K
  pub bind : Text → K → Option K
  pub listen : ℕ → K → Option K
  -- `HServer::from_tcp`, `TKTcpListener::from_std` with `AddrIncoming::from_listener`
  pub from_tcp : K → Option K
  pub from_listener : K → Option K

pub data RunError : Type 0 where
  tls_error : Tls.Error → RunError
  no_socket : RunError

pub data Result : Type 0 where
  ok : Result
  err : RunError → Result

-- What a start comes to: a server that accepts connections, until its receiver has something.
pub data Started (K : Type 0) : Type 0 where
  listening : K → Option ℕ → Started K
  ended : Result → Started K
  panicked : Started K

-- A future that is awaited.
pub data Awaited : Type 0 where
  pending : Awaited
  returned : Result → Awaited
  panics : Awaited

abbrev bind_address : Text → ℕ → Text
unfolding to_string
bind_address addr port = addr ++ codes ":" ++ to_string port

module _ {K : Type 0} (net : NetCrates K) where
  unfoldable pub get_socket : Text → Option K
  get_socket address = and_then (net.new address) (λ socket.
      and_then (net.set_nodelay socket) (λ quick. and_then (net.set_reuse_port quick) (λ shared.
        and_then (net.set_nonblocking shared)
          (λ free. and_then (net.bind address free) (net.listen 128)))))

  abbrev served : Option ℕ → Option K → Started K
  served rx none = ended (err no_socket)
  served rx (some k) = listening k rx

  unfoldable pub start_http_server : Config → Option ℕ → Started K
  unfolding get_socket bind_address
  start_http_server conf rx =
      if ltb 0 conf.port
      then elim (net.parse_addr (bind_address conf.addr conf.port)) [
        | none ↦ panicked
        | some address ↦ served rx (and_then (get_socket address) net.from_tcp)
      ]
      else ended ok

  module _ {W : Type 0} (tls : TlsCrates W) (fs : FileSystem) where
    -- The certificates are loaded before the address is looked at.
    unfoldable pub start_https_server : Config → Option ℕ → Started K
    unfolding get_socket bind_address load_ssl_server_config
    start_https_server conf rx = elim conf.https [
      | none ↦ ended ok
      | some https ↦ elim (load_ssl_server_config tls fs conf) [
        | Tls.err e ↦ ended (err (tls_error e))
        | Tls.ok resolver ↦ elim (net.parse_addr (bind_address https.addr https.port)) [
          | none ↦ panicked
          | some address ↦ served rx (and_then (get_socket address) net.from_listener)
        ]
      ]
    ]

-- `handler` and `run_server!`: a server that listens ends well once its receiver has something.
unfoldable pub await_server : {K : Type 0} → Channels → Started K → Awaited
unfolding serves_until
await_server c (listening k rx) = if serves_until c rx then pending else returned ok
await_server c (ended result) = returned result
await_server c panicked = panics

-- The two servers by `join`, and the error of the first one before that of the second.
unfoldable pub join_servers : Awaited → Awaited → Awaited
join_servers panics https = panics
join_servers http panics = panics
join_servers pending https = pending
join_servers http pending = pending
join_servers (returned (err e)) (returned https) = returned (err e)
join_servers (returned ok) (returned https) = returned https

module _ {K W : Type 0} (net : NetCrates K) (tls : TlsCrates W) (fs : FileSystem) where
  -- `Server::run`, as far as it is with the signals that were sent.
  unfoldable pub run : Channels → Config → Option ℕ → Option ℕ → Awaited
  unfolding start_http_server start_https_server await_server join_servers
  run c conf http_rx https_rx =
      join_servers (await_server c (start_http_server net conf http_rx))
        (await_server c (start_https_server net tls fs conf https_rx))

  -- With an https server whose certificates cannot be loaded, and an http server that has its socket:
  -- as long as nothing stops the http server, `run` goes on and the error is not returned; it is
  -- returned when the http server is stopped.
  pub run-tls_error :
      (c : Channels) (conf : Config) (https : HttpsConfig) (http_rx https_rx : Option ℕ) (k : K)
      (e : Tls.Error)
      → start_http_server net conf http_rx ≡ listening k http_rx
      → conf.https ≡ some https
      → load_ssl_server_config tls fs conf ≡ Tls.err e
      → run c conf http_rx https_rx
        ≡ (if serves_until c http_rx then pending else returned (err (tls_error e)))
  unfolding run
  run-tls_error c conf https http_rx https_rx k e started secure unloaded =
      elim (Bool-cases (serves_until c http_rx)) [
        | inl on ↦ ground (arith, started, secure, unloaded, on)
        | inr stopped ↦ ground (arith, started, secure, unloaded, stopped)
      ]
