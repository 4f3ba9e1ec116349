-- ===== src/Server/Requests/Sound.antt =====
-- What requests to the administration's API keep of the system, and which of them change nothing.
use spa_server.Base.{ℕ, ◌≡◌, subst, Option, some, List, [], ◌∷◌, arith, nat_eq, inl, inr}
use spa_server.Base.{◌==◌, Option-cases, Bool-cases, some-injective, list_eq}
use spa_server.Base.Dict
use spa_server.Config.{Config, AdminConfig}
use spa_server.Crates.{Crates}
use spa_server.FileSystem.{FileSystem}
use spa_server.FilePath.{join}
use spa_server.FileCache.{new_file_cache}
use spa_server.Storage.{DomainStorage, Site, ok}
use spa_server.Storage.Served.{IsServed, Reach-IsServed}
use spa_server.Storage.Start.{init-IsServed}
use spa_server.Admin.Routes.{AdminCrates, Routed, answered, reloads, rejected}
use spa_server.Admin.Routes.Steps.{Leads, by_answer, routes_lead}
use spa_server.Server.{
  System, is_listening, is_listening_https, reload_server, reloaded, add_server, hand_over,
  load_storage, run_server, started,
}
use spa_server.Server.Reload.{reload_server-keeps, run_server-started}
use spa_server.Server.Manageable.{IsManageable, reloaded-IsManageable, run_server-IsManageable}
use spa_server.Server.Requests.{
  Call, Loader, load, answer, admin_request, admin_requests, with_site,
}

-- The manager can stop every server that listens, on whichever port, and each storage serves what it has released.
pub record IsSound (sys : System) : Type 0 where
  pub manageable : IsManageable sys
  pub served : (n : ℕ) (s : DomainStorage) → Dict.lookup n sys.storages ≡ some s → IsServed s

insert-IsServed :
    (d : Dict.Dict ℕ DomainStorage) (k : ℕ) (v : DomainStorage)
    → IsServed v
    → ((n : ℕ) (s : DomainStorage) → Dict.lookup n d ≡ some s → IsServed s)
    → (n : ℕ) (s : DomainStorage) → Dict.lookup n (Dict.insert k v d) ≡ some s
    → IsServed s
insert-IsServed d k v h old n s m = elim (Bool-cases (n == k)) [
  | inl same ↦
      subst IsServed (some-injective v s (ground (arith, m, same, Dict.lookup-insert n k v d))) h
  | inr other ↦ old n s (ground (arith, m, other, Dict.lookup-insert n k v d))
]

with_site-IsSound :
    (sys : System) (site : Site)
    → IsServed site.storage
    → IsSound sys
    → IsSound (with_site sys site)
unfolding with_site is_listening is_listening_https
with_site-IsSound sys site h k = record {
  manageable = record {
    valid = record { managed = k.manageable.valid.managed; numbered = k.manageable.valid.numbered };
    https = k.manageable.https;
  };
  served = insert-IsServed sys.storages sys.admin_storage site.storage h k.served;
}

reloaded-IsSound :
    (config : Config) (storage : DomainStorage) (sys : System)
    → IsServed storage
    → IsSound sys
    → IsSound (reloaded config storage sys).1
unfolding reloaded hand_over add_server
reloaded-IsSound config storage sys h k = record {
  manageable = reloaded-IsManageable config storage sys k.manageable;
  served = insert-IsServed sys.storages sys.next_storage storage h k.served;
}

started-served :
    (storage : DomainStorage)
    → IsServed storage
    → (n : ℕ) (s : DomainStorage) → Dict.lookup n ((0, storage) ∷ []) ≡ some s
    → IsServed s
started-served storage h n s m = elim (Bool-cases (n == 0)) [
  | inl same ↦
      subst IsServed
        (some-injective storage s (
          ground (
            arith,
            m,
            same,
            Dict.lookup-cons n 0 storage [],
            Dict.lookup-nil {V = DomainStorage} n,
          )))
        h
  | inr other ↦
      ground
        (arith, m, other, Dict.lookup-cons n 0 storage [], Dict.lookup-nil {V = DomainStorage} n)
]

module _ (crates : Crates) where
  load_storage-IsServed :
      (config : Config) (fs : FileSystem) (s : DomainStorage)
      → load_storage crates config fs ≡ ok s
      → IsServed s
  unfolding load_storage
  load_storage-IsServed config fs s h =
      init-IsServed crates (join [] config.file_dir) (new_file_cache config) fs s h

  reload_server-IsSound :
      (loaded : Option Config) (sys : System)
      → IsSound sys
      → IsSound (reload_server crates loaded sys).1
  reload_server-IsSound loaded sys h =
      reload_server-keeps crates IsSound loaded sys
        (λ config storage loads.
          reloaded-IsSound config storage sys (load_storage-IsServed config sys.fs storage loads) h)
        h

  run_server-IsSound :
      (config : Config) (admin_config : AdminConfig) (fs : FileSystem) (sys : System)
      → run_server crates config admin_config fs ≡ some sys
      → IsSound sys
  unfolding started
  run_server-IsSound config admin_config fs sys h =
      let (storage, loads, same) = run_server-started crates config admin_config fs sys h in
      record {
        manageable = run_server-IsManageable crates config admin_config fs sys h;
        served =
            subst
              (λ (t : System).
                (n : ℕ) (s : DomainStorage) → Dict.lookup n t.storages ≡ some s → IsServed s)
              same (started-served storage (load_storage-IsServed config fs storage loads));
      }

  module _ {Hocon : Type 0} (admin : AdminCrates) where
    answer-IsSound :
        (loader : Loader Hocon) (sys : System) (storage : DomainStorage) (r : Routed)
        → Leads crates (record { storage = storage; fs = sys.fs }) r
        → IsServed storage
        → IsSound sys
        → IsSound (answer crates loader r sys).1
    unfolding answer
    answer-IsSound loader sys storage (answered reply b) (by_answer r) h k =
        with_site-IsSound sys b (Reach-IsServed crates _ b r h) k
    answer-IsSound loader sys storage reloads l h k = reload_server-IsSound (load loader) sys k
    answer-IsSound loader sys storage rejected l h k = k

    admin_request-IsSound :
        (call : Call Hocon) (sys : System)
        → IsSound sys
        → IsSound (admin_request crates admin call sys).1
    unfolding admin_request
    admin_request-IsSound call sys k =
        elim (Option-cases (Dict.lookup sys.admin_storage sys.storages)) [
          | inl none_held ↦ rw (none_held, admin_request) k
          | inr (storage, held) ↦
              rw (held, admin_request)
                (answer-IsSound call.loader sys storage _
                  (routes_lead crates admin call.request call.now _ sys.admin_config)
                  (k.served sys.admin_storage storage held) k)
        ]

    admin_requests_keep :
        (calls : List (Call Hocon)) (sys : System)
        → IsSound sys
        → IsSound (admin_requests crates admin calls sys)
    unfolding admin_requests
    admin_requests_keep [] sys k = k
    admin_requests_keep (call ∷ calls) sys k =
        admin_requests_keep calls (admin_request crates admin call sys).1
          (admin_request-IsSound call sys k)

    -- From the start of the server and after any requests to the administration's API, carried out
    -- one after another, reloads that succeed or fail among them, and whether or not they are
    -- accepted: for each server that still listens on its http port the manager of the reloads holds
    -- the sender that stops it there, for each that still listens on its https port the sender that
    -- stops it there, and in each storage of the system, a domain that serves a version serves it
    -- from the version's own directory and has an entry in the cache.
    pub admin_requests-IsSound :
        (config : Config) (admin_config : AdminConfig) (fs : FileSystem) (sys : System)
        (calls : List (Call Hocon))
        → run_server crates config admin_config fs ≡ some sys
        → IsSound (admin_requests crates admin calls sys)
    admin_requests-IsSound config admin_config fs sys calls h =
        admin_requests_keep calls sys (run_server-IsSound config admin_config fs sys h)
