-- ===== src/Tests/Tls.antt =====
-- The certificates of a server with two domains, and a stream that handshakes once in vain.
use spa_server.Base.{
  true, false, ◌-◌, length, ℕ, ◌≡◌, refl, Option, none, some, List, [], ◌∷◌, ◌++◌, map, nat_eq,
  list_eq, option_eq,
}
use spa_server.Base.{◌==◌, if◌then◌else◌, or}
use spa_server.Base.Text.{Text, codes}
use spa_server.FileSystem.{file, FileSystem}
use spa_server.Base.Dict
use spa_server.Base.{subst, some-injective}
use spa_server.Config.{default_cache}
use spa_server.Config.{Ssl, Config, DomainConfig}
use spa_server.Tls.{
  CertifiedKey, Resolver, cert_resolver, ok, TlsCrates, ssls, resolve, load_ssl_server_config,
}
use spa_server.Tls.Resolves.{IsSni, own_key, server_key, load_ssl_server_config-resolve}
use spa_server.Tls.Stream.{pending, ready, IoResult, StreamCrates, handshaking, streaming}
use spa_server.Tls.Stream
use spa_server.Tls.Handshake
use spa_server.Tls.Handshake.{
  Op, write, flush, poll_all, poll_raw_all, waiting, poll_all-handshaking,
}

abbrev found : List (Text × CertifiedKey) → Option Text → Option CertifiedKey
found [] name = none
found ((domain, key) ∷ rest) name = if name == some domain then some key else found rest name

-- Each file has one certificate or key, and every name is taken.
unfoldable pub tls : TlsCrates (List (Text × CertifiedKey))
unfolding nat_eq list_eq option_eq
tls = record {
  pem_certs = λ t. some (t ∷ []);
  pem_rsa_keys = λ t. some (t ∷ []);
  any_supported_type = some;
  sni_new = [];
  sni_add = λ w domain key. some ((domain, key) ∷ w);
  sni_resolve = found;
}

tls-IsSni : IsSni tls
unfolding tls
tls-IsSni = record {
  resolve-new = λ name. refl;
  resolve-add = λ w w' domain key name added.
      subst (λ v. found v name ≡ (if name == some domain then some key else found w name))
        (some-injective _ _ added) refl;
}

abbrev ssl_of : ℕ → Ssl
ssl_of digit = record { public = codes "c" ++ digit ∷ []; private = codes "k" ++ digit ∷ [] }

abbrev domain_of : Text → ℕ → DomainConfig
domain_of name digit = record {
  domain = name;
  cors = none;
  cache = none;
  https = some (record { ssl = some (ssl_of digit); http_redirect_to_https = none });
}

abbrev config : Config
config = record {
  port = 80;
  addr = [];
  file_dir = [];
  cors = true;
  admin_config = none;
  https =
      some (record {
        ssl = some (ssl_of b'0');
        port = 443;
        addr = [];
        http_redirect_to_https = false;
      });
  cache = default_cache;
  domains = domain_of (codes "a") b'1' ∷ domain_of (codes "b") b'2' ∷ [];
}

abbrev pem : Text → Text → FileSystem → FileSystem
pem name content fs = (name ∷ [], file (record { content = content; modified = 1 })) ∷ fs

abbrev pems : FileSystem
pems = pem (codes "c0") (codes "C0") (
    pem (codes "k0") (codes "K0") (
      pem (codes "c1") (codes "C1") (
        pem (codes "k1") (codes "K1")
          (pem (codes "c2") (codes "C2") (pem (codes "k2") (codes "K2") [])))))

abbrev key_named : ℕ → CertifiedKey
key_named digit = record { certs = (b'C' ∷ digit ∷ []) ∷ []; key = b'K' ∷ digit ∷ [] }

abbrev resolver : Resolver (List (Text × CertifiedKey))
resolver =
    cert_resolver (some (key_named b'0'))
      ((codes "b", key_named b'2') ∷ (codes "a", key_named b'1') ∷ [])

loaded : load_ssl_server_config tls pems config ≡ ok resolver
unfolding load_ssl_server_config Dict.lookup tls
loaded = refl

load_ssl_server_config-resolve_example :
    resolve tls resolver (some (codes "a"))
    ≡ or
        (own_key tls pems (some (codes "a")) (ssls config))
        (server_key tls pems (some (ssl_of b'0')))
load_ssl_server_config-resolve_example =
    load_ssl_server_config-resolve tls pems tls-IsSni config resolver (some (codes "a")) loaded

-- A handshake that gives its stream at the second poll, and a stream that keeps what is written.
unfoldable stream_crates : StreamCrates ℕ Text
stream_crates = record {
  poll_accept = λ n. if n == 0 then (ready (Stream.ok []), n) else (pending, n - 1);
  stream_read = λ n s. (ready (Stream.ok s), s);
  stream_write = λ buf s. (ready (Stream.ok (length buf)), s ++ buf);
  stream_flush = λ s. (ready (Stream.ok tt), s);
  stream_shutdown = λ s. (ready (Stream.ok tt), s);
}

abbrev before : List Op
before = flush ∷ Handshake.read 4 ∷ []

poll_all-handshaking_example :
    poll_all stream_crates (before ++ write (codes "hi") ∷ flush ∷ []) (handshaking 1) ≡ (
      map (waiting stream_crates) before
          ++ (poll_raw_all stream_crates (write (codes "hi") ∷ flush ∷ []) []).0,
      streaming (poll_raw_all stream_crates (write (codes "hi") ∷ flush ∷ []) []).1,
    )
unfolding stream_crates nat_eq
poll_all-handshaking_example =
    poll_all-handshaking stream_crates before (flush ∷ []) (write (codes "hi")) 1 [] refl
      (refl, refl)
