-- ===== src/Server/Outage.antt =====
-- server/src/hot_reload.rs and server/src/lib.rs: a reload where the https server is gone, as it is
-- after its certificates could not be loaded.
use spa_server.Base.{
  List, ℕ, ◌≡◌, refl, sym, ◌∙◌, subst, Bool, true, false, some, arith, nat_eq, inl, inr,
}
use spa_server.Base.{contains, All, All-map, Bool-cases, Option-cases, ltb, is_some}
use spa_server.Config.{Config}
use spa_server.Crates.{Crates}
use spa_server.Storage.{ok, DomainStorage}
use spa_server.HotReload.{Channels, HotReloadState, send, send_taken, reload_state, reload}
use spa_server.HotReload
use spa_server.Server.{
  Server, System, is_listening, load_storage, same_admin, reload_server, reloaded, hand_over,
  add_server,
}
use spa_server.Server.Managed.{Managed, init-rx, reload-drops, reloaded-old}
use spa_server.Server.Reload.{IsValid, reload_server-reloaded}

reload-fails :
    (old state : HotReloadState) (c : Channels) (n : ℕ)
    → old.https_signal ≡ some n
    → contains c.closed n ≡ true
    → (reload old state c).0 ≡ false
unfolding reload reload_state send_taken send
reload-fails old state c n h gone = ground (arith, h, gone)

hand_over-dropped :
    (state : HotReloadState) (sys : System) (s : Server)
    → (hand_over state sys).0 ≡ false
    → s.http_rx ≡ state.http_signal
    → (ltb 0 s.conf.port ≡ true → is_some s.http_rx ≡ true)
    → is_listening (hand_over state sys).1 s ≡ false
unfolding hand_over is_listening
hand_over-dropped state sys s failed rx has = elim (Option-cases s.http_rx) [
  | inl nothing ↦ elim (Bool-cases (ltb 0 s.conf.port)) [
    | inl on ↦ ground (arith, nothing, has on)
    | inr off ↦ ground (arith, off)
  ]
  | inr (n, is) ↦
      ground (arith, is, reload-drops sys.reload_manager state sys.channels n failed (sym rx ∙ is))
]

-- New channels have their receivers.
init-closed : (config : Config) (c : Channels) → (HotReload.init config c).1.closed ≡ c.closed
unfolding HotReload.init HotReload.channel_if
init-closed config c = ground arith

reloaded-fails :
    (config : Config) (storage : DomainStorage) (sys : System) (n : ℕ)
    → sys.reload_manager.https_signal ≡ some n
    → contains sys.channels.closed n ≡ true
    → (reloaded config storage sys).0 ≡ false
unfolding reloaded hand_over add_server
reloaded-fails config storage sys n h gone =
    let (state, channels) = HotReload.init config sys.channels in
    reload-fails sys.reload_manager state channels n h (
      subst (λ (closed : List ℕ). contains closed n ≡ true) (sym (init-closed config sys.channels))
        gone)

-- A reload that loads a storage, while the https server that the manager can stop is gone: it fails,
-- and no server listens on an http port any more, neither one that ran nor the new one.
pub reload_server_outage :
    (crates : Crates) (config : Config) (storage : DomainStorage) (sys : System) (n : ℕ)
    → IsValid sys
    → same_admin config.admin_config sys.admin_config ≡ true
    → load_storage crates config sys.fs ≡ ok storage
    → sys.reload_manager.https_signal ≡ some n
    → contains sys.channels.closed n ≡ true
    → ((reload_server crates (some config) sys).0 ≡ false)
      × All
          (λ s. is_listening (reload_server crates (some config) sys).1 s ≡ false)
          (reload_server crates (some config) sys).1.servers
unfolding reloaded hand_over add_server
reload_server_outage crates config storage sys n valid same loads signal gone =
    let (state, channels) = HotReload.init config sys.channels in
    let failed : (reloaded config storage sys).0 ≡ false =
      reloaded-fails config storage sys n signal gone in
    subst
      (λ (r : Bool × System).
        (r.0 ≡ false) × All (λ (s : Server). is_listening r.1 s ≡ false) r.1.servers)
      (sym (reload_server-reloaded crates config storage sys same loads))
      (
        failed,
        (
          hand_over-dropped state (add_server config storage state channels sys) _ failed refl
              (init-rx config sys.channels),
          All-map (Managed sys) _ sys.servers (λ s m. reloaded-old config storage sys s m)
              valid.managed,
        ),
      )
