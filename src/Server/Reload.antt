-- ===== src/Server/Reload.antt =====
-- server/src/lib.rs: what a reload leaves of the servers and of the storage that is administered.
use spa_server.Base.{some-injective}
use spa_server.Base.{
  ◌⊎◌, ◌<◌, ◌≡◌, ◌≢◌, refl, sym, ap, ◌∙◌, subst, Bool, true, ◌||◌, Option, none, some, arith, inl,
  inr,
}
use spa_server.Base.{map_some, ltb, is_some, All, All-map, Bool-cases, Option-cases, nat_eq}
use spa_server.Base.Dict
use spa_server.Config.{Config, AdminConfig}
use spa_server.FileSystem.{FileSystem}
use spa_server.Crates.{Crates}
use spa_server.Http.{HttpCrates, Request}
use spa_server.Storage.{ok, err, Result, Error, Site, DomainStorage}
use spa_server.Storage.Release.{release, upload_domain_with_version}
use spa_server.Admin.{Reply, DomainWithOptVersionOption, update_domain_version}
use spa_server.Server.{
  Server, System, is_listening, load_storage, same_admin, reloaded, reload_server, run_server,
  administer, administered, started, respond, hand_over, add_server,
}
use spa_server.Server.Managed.{
  init-rx, IsManaged, IsDetached, reloaded-IsManaged, reloaded-IsDetached,
}

-- The manager can stop every server that listens, and the administration's storage is there already.
pub record IsValid (sys : System) : Type 0 where
  pub managed : IsManaged sys
  pub numbered : sys.admin_storage < sys.next_storage

pub reloaded-IsValid :
    (config : Config) (storage : DomainStorage) (sys : System)
    → IsValid sys
    → IsValid (reloaded config storage sys).1
unfolding reloaded hand_over add_server
reloaded-IsValid config storage sys h = record {
  managed = reloaded-IsManaged config storage sys h.managed;
  numbered = omega (arith, h.numbered);
}

pub Result-cases {ℓ} :
    {A : Type ℓ} (r : Result A) → ((a : A) × (r ≡ ok a)) ⊎ ((e : Error) × (r ≡ err e))
Result-cases (ok a) = inl (a, refl)
Result-cases (err e) = inr (e, refl)

pub started-IsValid :
    (config : Config) (admin_config : AdminConfig) (fs : FileSystem) (storage : DomainStorage)
    → IsValid (started config admin_config fs storage)
unfolding started
started-IsValid config admin_config fs storage = record {
  managed = ((init-rx config _, λ on. refl), tt);
  numbered = omega arith;
}

pub administer-inv {ℓ} :
    {A : Type ℓ} (handler : Site → A × Site) (sys : System) (r : A × System)
    → administer handler sys ≡ some r
    → (storage : DomainStorage) × (Dict.lookup sys.admin_storage sys.storages ≡ some storage)
      × (administered handler sys storage ≡ r)
unfolding administer
administer-inv handler sys r h = elim (Option-cases (Dict.lookup sys.admin_storage sys.storages)) [
  | inl missing ↦ ground (arith, missing)
  | inr (storage, held) ↦
      (storage, held, some-injective _ _ (ap (map_some (administered handler sys)) (sym held) ∙ h))
]

pub administer-IsValid :
    (handler : Site → Reply × Site) (sys sys' : System) (reply : Reply)
    → administer handler sys ≡ some (reply, sys')
    → IsValid sys
    → IsValid sys'
unfolding administered is_listening
administer-IsValid handler sys sys' reply h v =
    let (storage, held, e) = administer-inv handler sys (reply, sys') h in
    subst IsValid (ap (λ (r : Reply × System). r.1) e)
      (record { managed = v.managed; numbered = v.numbered })

module _ (crates : Crates) where
  -- A reload leaves the system, or what `reloaded` makes of it with a storage that was loaded.
  pub reload_server-keeps {ℓ} :
      (P : System → Type ℓ) (loaded : Option Config) (sys : System)
      → ((config : Config) (storage : DomainStorage)
          → load_storage crates config sys.fs ≡ ok storage
          → P (reloaded config storage sys).1)
      → P sys
      → P (reload_server crates loaded sys).1
  unfolding reload_server
  reload_server-keeps P none sys f h = h
  reload_server-keeps P (some config) sys f h =
      elim (Bool-cases (same_admin config.admin_config sys.admin_config)) [
        | inl same ↦ elim (Result-cases (load_storage crates config sys.fs)) [
          | inl (storage, loads) ↦ rw (same, loads, reload_server) (f config storage loads)
          | inr (e, fails) ↦ rw (same, fails, reload_server) h
        ]
        | inr other ↦ rw (other, reload_server) h
      ]

  -- What `run_server` starts is `started` with a storage that was loaded.
  pub run_server-started :
      (config : Config) (admin_config : AdminConfig) (fs : FileSystem) (sys : System)
      → run_server crates config admin_config fs ≡ some sys
      → (storage : DomainStorage) × (load_storage crates config fs ≡ ok storage)
        × (started config admin_config fs storage ≡ sys)
  unfolding run_server
  run_server-started config admin_config fs sys h =
      elim (Result-cases (load_storage crates config fs)) [
        | inl (storage, loads) ↦ elim (Bool-cases (ltb 0 config.port || is_some config.https)) [
          | inl on ↦ (storage, loads, some-injective _ _ (ground (arith, loads, on)))
          | inr off ↦ ground (arith, loads, off)
        ]
        | inr (e, fails) ↦ ground (arith, fails)
      ]

  pub reload_server-reloaded :
      (config : Config) (storage : DomainStorage) (sys : System)
      → same_admin config.admin_config sys.admin_config ≡ true
      → load_storage crates config sys.fs ≡ ok storage
      → reload_server crates (some config) sys ≡ reloaded config storage sys
  unfolding reload_server
  reload_server-reloaded config storage sys same loads = rw (same, loads, reload_server) refl

  update_domain_version-fs :
      (option : DomainWithOptVersionOption) (a : Site)
      → (update_domain_version crates option a).1.fs ≡ a.fs
  unfolding update_domain_version upload_domain_with_version release
  update_domain_version-fs option a = ground arith

  -- A release changes no answer that comes from another storage.
  respond-administered :
      (http : HttpCrates) (option : DomainWithOptVersionOption) (sys : System)
      (storage : DomainStorage) (s : Server) (req : Request)
      → s.storage ≢ sys.admin_storage
      → respond crates http (administered (update_domain_version crates option) sys storage).1 s req
        ≡ respond crates http sys s req
  unfolding administered respond
  respond-administered http option sys storage s req other =
      let site : Site = record { storage = storage; fs = sys.fs } in
      let kept =
        Dict.lookup-insert s.storage sys.admin_storage
          (update_domain_version crates option site).1.storage sys.storages in
      rw (update_domain_version-fs option site, kept) (ground (arith, other))

  -- After a reload that loads a storage, and while the administration holds one of the storages
  -- made and the manager the senders of the servers: a release that is asked of the administration's
  -- server changes no answer of a server that still listens on its http port.
  pub reload_server-detaches :
      (http : HttpCrates) (config : Config) (storage : DomainStorage) (sys : System)
      (option : DomainWithOptVersionOption) (reply : Reply) (later : System) (req : Request)
      → IsValid sys
      → same_admin config.admin_config sys.admin_config ≡ true
      → load_storage crates config sys.fs ≡ ok storage
      → administer (update_domain_version crates option) (reload_server crates (some config) sys).1
        ≡ some (reply, later)
      → All
          (λ s.
            is_listening (reload_server crates (some config) sys).1 s ≡ true
            → respond crates http later s req
              ≡ respond crates http (reload_server crates (some config) sys).1 s req)
          (reload_server crates (some config) sys).1.servers
  reload_server-detaches http config storage sys option reply later req valid same loads released =
      let e = reload_server-reloaded config storage sys same loads in
      let (held, _, made) =
        administer-inv (update_domain_version crates option) _ (reply, later) released in
      let same_later = ap (λ (r : Reply × System). r.1) made in
      All-map (IsDetached (reload_server crates (some config) sys).1) _
        (reload_server crates (some config) sys).1.servers
        (λ s detached on.
          subst
            (λ (t : System).
              respond crates http t s req
              ≡ respond crates http (reload_server crates (some config) sys).1 s req)
            same_later
            (respond-administered http option (reload_server crates (some config) sys).1 held s req
              (detached on)))
        (subst (λ (r : Bool × System). All (IsDetached r.1) r.1.servers) (sym e)
          (reloaded-IsDetached config storage sys valid.managed valid.numbered))
