-- ===== src/Service.antt =====
-- server/src/service.rs, and the settings of each domain that `Server::new` of server/src/server.rs
-- makes for it.
pub mod Isolated
pub mod Origins
pub mod Files
pub mod Found
use spa_server.Base.{Bool, true, false, ◌&&◌, Option, none, some, [], map}
use spa_server.Base.{
  ◌==◌, if◌then◌else◌, unwrap_or, and_then, map_some, or, nat_eq, list_eq, option_eq,
}
use spa_server.Base.Dict
use spa_server.Base.Dict.{Dict}
use spa_server.Base.Text.{Text, codes}
use spa_server.Config.{Config, DomainConfig}
use spa_server.Crates.{Crates}
use spa_server.FileSystem.{FileSystem}
use spa_server.Storage.{DomainStorage}
use spa_server.Http.StatusCode
use spa_server.Http.{
  Response, default_response, status_response, ok, err, Request, Conditionals, HeaderMap,
  HttpCrates,
}
use spa_server.Cors.{Validated, simple, not_cors, left, right, cors_resp, resp_cors_request}
use spa_server.StaticFile.{cache_or_file_reply, get_cache_file}

pub record DomainServiceConfig : Type 0 where
  pub cors : Bool
  pub http_redirect_to_https : Bool

pub record ServiceConfig : Type 0 where
  pub default : DomainServiceConfig
  pub inner : Dict Text DomainServiceConfig

unfoldable pub get_domain_service_config : ServiceConfig → Text → DomainServiceConfig
get_domain_service_config c domain = unwrap_or (Dict.lookup domain c.inner) c.default

-- The default settings, and those of a domain, of `Server::new`.
unfoldable pub default_service : Config → DomainServiceConfig
default_service conf = record {
  cors = conf.cors;
  http_redirect_to_https = unwrap_or (map_some (λ x. x.http_redirect_to_https) conf.https) false;
}

unfoldable pub domain_service : DomainServiceConfig → DomainConfig → Text × DomainServiceConfig
domain_service default domain = (
  domain.domain,
  record {
    cors = unwrap_or domain.cors default.cors;
    http_redirect_to_https =
        unwrap_or (and_then domain.https (λ x. x.http_redirect_to_https))
          default.http_redirect_to_https;
  },
)

unfoldable pub new_service_config : Config → ServiceConfig
unfolding default_service domain_service Dict.collect
new_service_config conf = record {
  default = default_service conf;
  inner = Dict.collect (map (domain_service (default_service conf)) conf.domains) [];
}

-- `headers.get("host")` as an authority, if it is one.
abbrev host_header : HttpCrates → HeaderMap → Option Text
unfolding Dict.lookup nat_eq list_eq
host_header http headers =
    and_then (and_then (Dict.lookup (codes "host") headers) http.header_to_str)
      http.authority_from_str

unfoldable pub authority_of : HttpCrates → Request → Option Text
unfolding host_header
authority_of http req = or req.uri.authority (host_header http req.headers)

abbrev with_origin : Validated → Response → Response
unfolding cors_resp
with_origin (simple origin) r = cors_resp r origin
with_origin not_cors r = r

abbrev pub conditionals_of : HttpCrates → HeaderMap → Conditionals
conditionals_of http headers = record {
  if_modified_since = http.typed_if_modified_since headers;
  if_unmodified_since = http.typed_if_unmodified_since headers;
  if_range = http.typed_if_range headers;
  range = http.typed_range headers;
}

module _ (crates : Crates) (http : HttpCrates) where
  -- The part of `create_service` that finds a file and replies with it.
  unfoldable pub static_file : FileSystem → DomainStorage → Text → Request → Response
  unfolding get_cache_file cache_or_file_reply Dict.lookup nat_eq list_eq
  static_file fs storage host req = elim (get_cache_file crates req.uri.path host storage) [
    | err r ↦ r
    | ok item ↦
        cache_or_file_reply http fs item (conditionals_of http req.headers)
          (and_then (Dict.lookup (codes "accept-encoding") req.headers) http.header_to_str)
  ]

  unfoldable pub redirect : Request → Response
  redirect req = record default_response {
    location = some req.uri.text;
    status = StatusCode.moved_permanently;
  }

  -- `create_service` behind the check of the origin.
  unfoldable pub answer :
      FileSystem → DomainStorage → DomainServiceConfig → Text → Request → Validated → Response
  unfolding static_file redirect with_origin nat_eq list_eq option_eq
  answer fs storage config host req origin =
      if req.uri.scheme == some (codes "http") && config.http_redirect_to_https
      then redirect req
      else with_origin origin (static_file fs storage host req)

  unfoldable pub create_service : FileSystem → DomainStorage → ServiceConfig → Request → Response
  unfolding authority_of get_domain_service_config resp_cors_request answer
  create_service fs storage service_config req = elim (authority_of http req) [
    | none ↦ status_response StatusCode.forbidden
    | some authority ↦
        let host = http.host authority in
        let config = get_domain_service_config service_config host in
        elim (resp_cors_request http req.method req.headers config.cors) [
          | right r ↦ r
          | left origin ↦ answer fs storage config host req origin
        ]
  ]
