-- ===== src/Tls.antt =====
-- server/src/tls.rs: the certificates of the https server, and which one a client gets. What
-- `rustls` and `rustls_pemfile` do is a parameter.
pub mod Resolves
pub mod Stream
pub mod Handshake
use spa_server.Base.{ℕ, Option, none, some, List, [], ◌∷◌}
use spa_server.Base.{filter_map, map_some, and_then, is_empty, or}
use spa_server.Base.Text.{Text}
use spa_server.FilePath.{FilePath, join}
use spa_server.FileSystem.{FileSystem, read}
use spa_server.Config.{Ssl, Config}

-- `rustls::sign::CertifiedKey`
pub record CertifiedKey : Type 0 where
  pub certs : List Text
  pub key : Text

pub data Error : Type 0 where
  no_cert_file bad_cert no_key_file bad_key not_single_key unsupported_key : Error
  refused_name nothing_configured : Error

pub data Result {ℓ} (A : Type ℓ) : Type ℓ where
  ok : A → Result A
  err : Error → Result A

-- The crates, over a type for `ResolvesServerCertUsingSni`.
pub record TlsCrates (W : Type 0) : Type 0 where
  -- `rustls_pemfile::certs`, `rustls_pemfile::rsa_private_keys`
  pub pem_certs : Text → Option (List Text)
  pub pem_rsa_keys : Text → Option (List Text)
  -- `sign::any_supported_type`
  pub any_supported_type : Text → Option Text
  -- `ResolvesServerCertUsingSni::new`, `add` and `resolve`, by the name that the client sends
  pub sni_new : W
  pub sni_add : W → Text → CertifiedKey → Option W
  pub sni_resolve : W → Option Text → Option CertifiedKey

-- The resolvers that implement `ResolvesServerCert`.
pub data Resolver (W : Type 0) : Type 0 where
  always_resolver : CertifiedKey → Resolver W
  cert_resolver : Option CertifiedKey → W → Resolver W

-- The name of the domain with its own certificate, if it has one.
abbrev domain_ssl : Option Ssl → Text → Option (Text × Ssl)
domain_ssl none domain = none
domain_ssl (some ssl) domain = some (domain, ssl)

unfoldable pub ssls : Config → List (Text × Ssl)
ssls config = filter_map (λ d. domain_ssl (and_then d.https (λ h. h.ssl)) d.domain) config.domains

module _ {W : Type 0} (tls : TlsCrates W) (fs : FileSystem) where
  -- The end of `load_ssl_file`, from the keys of the file on.
  unfoldable pub single_key : List Text → List Text → Result CertifiedKey
  single_key certs [] = err not_single_key
  single_key certs (k ∷ j ∷ keys) = err not_single_key
  single_key certs (k ∷ []) = elim (tls.any_supported_type k) [
    | none ↦ err unsupported_key
    | some key ↦ ok (record { certs = certs; key = key })
  ]

  unfoldable pub load_key : List Text → FilePath → Result CertifiedKey
  unfolding read single_key
  load_key certs path = elim (read fs path) [
    | none ↦ err no_key_file
    | some f ↦ elim (tls.pem_rsa_keys f.content) [
      | none ↦ err bad_key
      | some keys ↦ single_key certs keys
    ]
  ]

  unfoldable pub load_ssl_file : Ssl → Result CertifiedKey
  unfolding read load_key join
  load_ssl_file ssl = elim (read fs (join [] ssl.public)) [
    | none ↦ err no_cert_file
    | some f ↦ elim (tls.pem_certs f.content) [
      | none ↦ err bad_cert
      | some certs ↦ load_key certs (join [] ssl.private)
    ]
  ]

  -- The loop that adds the certificates of the domains.
  unfoldable pub add_ssls : W → List (Text × Ssl) → Result W
  unfolding load_ssl_file
  add_ssls wrapper [] = ok wrapper
  add_ssls wrapper ((domain, ssl) ∷ rest) = elim (load_ssl_file ssl) [
    | err e ↦ err e
    | ok key ↦ elim (tls.sni_add wrapper domain key) [
      | none ↦ err refused_name
      | some wrapper' ↦ add_ssls wrapper' rest
    ]
  ]

  unfoldable pub load_default : Option Ssl → Result (Option CertifiedKey)
  unfolding load_ssl_file
  load_default none = ok none
  load_default (some ssl) = elim (load_ssl_file ssl) [ err e ↦ err e | ok key ↦ ok (some key) ]

  unfoldable pub dynamic_resolver : Option CertifiedKey → List (Text × Ssl) → Result (Resolver W)
  unfolding add_ssls
  dynamic_resolver none [] = err nothing_configured
  dynamic_resolver (some key) [] = ok (always_resolver key)
  dynamic_resolver default (s ∷ rest) = elim (add_ssls tls.sni_new (s ∷ rest)) [
    | err e ↦ err e
    | ok wrapper ↦ ok (cert_resolver default wrapper)
  ]

  unfoldable pub load_ssl_server_config : Config → Result (Resolver W)
  unfolding ssls load_default dynamic_resolver
  load_ssl_server_config config = elim (load_default (and_then config.https (λ h. h.ssl))) [
    | err e ↦ err e
    | ok default ↦ dynamic_resolver default (ssls config)
  ]

-- `ResolvesServerCert::resolve`, for the name that the client sends, if it sends one.
unfoldable pub resolve : {W : Type 0} → TlsCrates W → Resolver W → Option Text → Option CertifiedKey
resolve tls (always_resolver key) name = some key
resolve tls (cert_resolver default wrapper) name = or (tls.sni_resolve wrapper name) default
