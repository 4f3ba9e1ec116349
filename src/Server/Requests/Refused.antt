-- ===== src/Server/Requests/Refused.antt =====
-- server/src/admin_server.rs: requests without the token.
use spa_server.Base.{
  ◌∙◌, ap, refl, ℕ, ◌≡◌, refl, ap, ◌∙◌, false, Option, none, List, [], ◌∷◌, nat_eq, inl, inr,
}
use spa_server.Base.{Option-cases, All, list_eq}
use spa_server.Base.Dict
use spa_server.Config.{AdminConfig}
use spa_server.Crates.{Crates}
use spa_server.Storage.{Site}
use spa_server.Admin.{Reply}
use spa_server.Admin.Routes.{AdminCrates, AdminRequest, rejected, routes, auth}
use spa_server.Server.{System}
use spa_server.Server.Requests.{Call, answer, admin_request, admin_requests}

module _ (crates : Crates) where
  routes-unauthorized :
      (admin : AdminCrates) (conf : AdminConfig) (req : AdminRequest) (now : ℕ) (site : Site)
      → auth conf req ≡ false
      → routes crates admin conf req now site ≡ rejected
  unfolding routes
  routes-unauthorized admin conf req now site h = rw h

  module _ {Hocon : Type 0} (admin : AdminCrates) where
    admin_request-unauthorized :
        (call : Call Hocon) (sys : System)
        → auth sys.admin_config call.request ≡ false
        → admin_request crates admin call sys ≡ (none, sys)
    unfolding admin_request answer
    admin_request-unauthorized call sys h =
        elim (Option-cases (Dict.lookup sys.admin_storage sys.storages)) [
          | inl none_held ↦ rw (none_held, admin_request)
          | inr (storage, held) ↦ rw (
            held,
            admin_request,
            routes-unauthorized admin sys.admin_config call.request call.now
                (record { storage = storage; fs = sys.fs }) h,
          )
        ]

    -- However many requests come whose authorization is not the token of the administration's
    -- server: no file, no storage, no server and no setting of the system changes, whatever the
    -- requests ask for.
    pub admin_requests-unauthorized :
        (sys : System) (calls : List (Call Hocon))
        → All (λ (call : Call Hocon). auth sys.admin_config call.request ≡ false) calls
        → admin_requests crates admin calls sys ≡ sys
    unfolding admin_requests
    admin_requests-unauthorized sys [] h = refl
    admin_requests-unauthorized sys (call ∷ calls) (h, rest) =
        ap (λ (r : Option Reply × System). admin_requests crates admin calls r.1)
          (admin_request-unauthorized call sys h)
        ∙ admin_requests-unauthorized sys calls rest
