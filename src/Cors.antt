-- ===== src/Cors.antt =====
-- server/src/cors.rs: the answer to requests from another origin.
use spa_server.Base.{Bool, false, not, Option, none, some, List, [], ◌∷◌}
use spa_server.Base.{◌==◌, if◌then◌else◌, contains, nat_eq, list_eq}
use spa_server.Base.Dict
use spa_server.Base.Text.{Text, codes}
use spa_server.Http.StatusCode
use spa_server.Http.{Response, default_response, resp, HeaderMap, HttpCrates}

pub data Validated : Type 0 where
  simple : Text → Validated
  not_cors : Validated

-- `Either<Validated, Response>`
pub data Checked : Type 0 where
  left : Validated → Checked
  right : Response → Checked

abbrev pub allow_methods_set : List Text
allow_methods_set = codes "GET" ∷ codes "OPTIONS" ∷ codes "HEAD" ∷ []

unfoldable pub cors_resp : Response → Text → Response
cors_resp res origin = record res {
  allow_credentials = some (codes "true");
  allow_methods = some allow_methods_set;
  allow_max_age = some 3600;
  allow_origin = some origin;
}

abbrev method_allowed : Option Text → Bool
unfolding nat_eq list_eq
method_allowed none = false
method_allowed (some method) = contains allow_methods_set method

-- The preflight request of an allowed origin.
unfoldable pub preflight : HttpCrates → HeaderMap → Text → Response
unfolding method_allowed cors_resp Dict.lookup nat_eq list_eq
preflight http headers origin = elim (Dict.lookup (codes "access-control-request-method") headers) [
  | none ↦ resp StatusCode.forbidden (codes "request-method not allowed")
  | some req_method ↦
      if not (method_allowed (http.method_from_bytes req_method))
      then resp StatusCode.forbidden (codes "request-method not allowed")
      else cors_resp default_response origin
]

unfoldable pub resp_cors_request : HttpCrates → Text → HeaderMap → Bool → Checked
unfolding preflight Dict.lookup nat_eq list_eq
resp_cors_request http method headers allow_cors = elim (Dict.lookup (codes "origin") headers) [
  | none ↦ left not_cors
  | some origin ↦
      if method == codes "OPTIONS"
      then if not allow_cors
        then right (resp StatusCode.forbidden (codes "origin not allowed"))
        else right (preflight http headers origin)
      else if not allow_cors
      then right (resp StatusCode.forbidden (codes "origin not allowed"))
      else left (simple origin)
]
