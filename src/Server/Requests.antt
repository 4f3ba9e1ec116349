-- ===== src/Server/Requests.antt =====
-- server/src/admin_server.rs and server/src/config.rs: the requests to the administration's API, as
-- they are carried out one after another by the server that runs, the reload among them.
pub mod Sound
pub mod Refused
use spa_server.Base.{ℕ, Bool, true, false, Option, none, some, List, [], ◌∷◌, nat_eq}
use spa_server.Base.{and_then, unwrap_or}
use spa_server.Base.Dict
use spa_server.Base.Text.{Text, codes}
use spa_server.Config.{Config}
use spa_server.Crates.{Crates}
use spa_server.Storage.{DomainStorage, Site}
use spa_server.Admin.{Reply, empty, ok_reply, bad_request, not_reloaded}
use spa_server.Admin.Routes.{AdminCrates, AdminRequest, Routed, answered, reloads, rejected, routes}
use spa_server.Server.{System, reload_server}

-- Where `Config::load` finds the settings: the variable SPA_CONFIG, and `hocon`, whose result and
-- its reading as a `Config` are parameters.
pub record Loader (Hocon : Type 0) : Type 0 where
  pub spa_config : Option Text
  pub load_file : Text → Option Hocon
  pub resolve : Hocon → Option Config

abbrev pub config_path : Text
config_path = codes "/config/config.conf"

-- `Config::load`
unfoldable pub load : {Hocon : Type 0} → Loader Hocon → Option Config
load loader = and_then (loader.load_file (unwrap_or loader.spa_config config_path)) loader.resolve

-- A request, its time, and the settings that a reload finds then.
pub record Call (Hocon : Type 0) : Type 0 where
  pub request : AdminRequest
  pub now : ℕ
  pub loader : Loader Hocon

-- `service::reload_server`, from what `reload_server` returns.
abbrev reload_reply : Bool → Reply
reload_reply true = ok_reply empty
reload_reply false = bad_request not_reloaded

abbrev pub after_reload : Bool × System → Option Reply × System
after_reload (done, sys) = (some (reload_reply done), sys)

-- The storage that the administration's server holds is the one that a handler changes.
abbrev pub with_site : System → Site → System
unfolding Dict.insert nat_eq
with_site sys site = record sys {
  fs = site.fs;
  storages = Dict.insert sys.admin_storage site.storage sys.storages;
}

module _ (crates : Crates) {Hocon : Type 0} where
  -- What becomes of a request, from the route that it takes; `none` is a rejection.
  unfoldable pub answer : Loader Hocon → Routed → System → Option Reply × System
  unfolding load reload_server
  answer loader (answered reply site) sys = (some reply, with_site sys site)
  answer loader reloads sys = after_reload (reload_server crates (load loader) sys)
  answer loader rejected sys = (none, sys)

  -- A request to the administration's API, over the system.
  unfoldable pub admin_request : AdminCrates → Call Hocon → System → Option Reply × System
  unfolding routes answer Dict.lookup nat_eq
  admin_request admin call sys = elim (Dict.lookup sys.admin_storage sys.storages) [
    | none ↦ (none, sys)
    | some storage ↦
        answer call.loader
          (routes crates admin sys.admin_config call.request call.now
            (record { storage = storage; fs = sys.fs }))
          sys
  ]

  unfoldable pub admin_requests : AdminCrates → List (Call Hocon) → System → System
  unfolding admin_request
  admin_requests admin [] sys = sys
  admin_requests admin (call ∷ calls) sys =
      admin_requests admin calls (admin_request admin call sys).1
