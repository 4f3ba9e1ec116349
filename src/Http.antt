-- ===== src/Http.antt =====
-- Requests and responses of `hyper`, with the headers that the program sets or reads. The server's
-- functions `not_found` and `resp` are those of server/src/service.rs.
pub mod StatusCode
use spa_server.Base.{ℕ, Bool, false, Option, none, some, List, []}
use spa_server.Base.Dict.{Dict}
use spa_server.Base.Text.{Text}

pub data ContentRange : Type 0 where
  -- `ContentRange::bytes(start..end, len)`
  bytes : ℕ → ℕ → ℕ → ContentRange
  -- `ContentRange::unsatisfied_bytes(len)`
  unsatisfied_bytes : ℕ → ContentRange

pub data CacheControl : Type 0 where
  max_age : ℕ → CacheControl
  no_cache : CacheControl

-- One field for each header that the server sets; `insert` and `typed_insert` replace a value.
pub record Response : Type 0 where
  pub status : ℕ
  pub body : Text
  pub content_type : Option Text
  pub accept_ranges : Bool
  pub cache_control : Option CacheControl
  pub last_modified : Option ℕ
  pub content_range : Option ContentRange
  pub content_length : Option ℕ
  pub content_encoding : Option Text
  pub location : Option Text
  pub allow_credentials : Option Text
  pub allow_methods : Option (List Text)
  pub allow_max_age : Option ℕ
  pub allow_origin : Option Text

-- `Response::new(body)`
abbrev pub new_response : Text → Response
new_response body = record {
  status = StatusCode.ok;
  body = body;
  content_type = none;
  accept_ranges = false;
  cache_control = none;
  last_modified = none;
  content_range = none;
  content_length = none;
  content_encoding = none;
  location = none;
  allow_credentials = none;
  allow_methods = none;
  allow_max_age = none;
  allow_origin = none;
}

-- `Response::default()`
abbrev pub default_response : Response
default_response = new_response []

-- `resp(code, str)` of service.rs
abbrev pub resp : ℕ → Text → Response
resp code str = record (new_response str) { status = code }

-- `not_found()` of service.rs, and `StatusCode::…into_response()`
abbrev pub status_response : ℕ → Response
status_response code = record default_response { status = code }

abbrev pub not_found : Response
not_found = status_response StatusCode.not_found

-- `Result<A, Response>`
pub data HttpResult {ℓ} (A : Type ℓ) : Type ℓ where
  ok : A → HttpResult A
  err : Response → HttpResult A

-- The ends of a byte range, of `std::ops`.
pub data Bound : Type 0 where
  unbounded : Bound
  included excluded : ℕ → Bound

-- `headers::Range` by what its iterator yields.
abbrev pub Range : Type 0
Range = List (Bound × Bound)

abbrev pub HeaderMap : Type 0
HeaderMap = Dict Text Text

pub record Uri : Type 0 where
  pub scheme : Option Text
  -- the authority, and the whole URI as it is printed
  pub authority : Option Text
  pub path : Text
  pub text : Text

pub record Request : Type 0 where
  pub method : Text
  pub uri : Uri
  pub headers : HeaderMap

-- `warp::fs::Conditionals`
pub record Conditionals : Type 0 where
  pub if_modified_since : Option ℕ
  pub if_unmodified_since : Option ℕ
  pub if_range : Option Text
  pub range : Option Range

pub data Cond : Type 0 where
  no_body : Response → Cond
  with_body : Option Range → Cond

-- What other crates do with requests: parameters of the model.
pub record HttpCrates : Type 0 where
  -- `headers.typed_get()` for the header of each type
  pub typed_if_modified_since : HeaderMap → Option ℕ
  pub typed_if_unmodified_since : HeaderMap → Option ℕ
  pub typed_if_range : HeaderMap → Option Text
  pub typed_range : HeaderMap → Option Range
  -- `Conditionals::check` of `warp`, given the time of modification
  pub check : Conditionals → Option ℕ → Cond
  -- the bytes that `file_stream(file, _, (start, end))` of `warp` yields from a file
  pub file_stream : Text → ℕ → ℕ → Text
  -- `HeaderValue::to_str`, `Authority::from_str`, `Authority::host`, `Method::from_bytes`
  pub header_to_str : Text → Option Text
  pub authority_from_str : Text → Option Text
  pub host : Text → Text
  pub method_from_bytes : Text → Option Text
