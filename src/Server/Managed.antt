-- ===== src/Server/Managed.antt =====
-- server/src/hot_reload.rs and server/src/lib.rs: which of the servers still listens.
use spa_server.Base.{
  ℕ, ◌<◌, ◌≡◌, ◌≢◌, refl, sym, ◌∙◌, Bool, true, false, Option, none, some, arith, inl, inr,
}
use spa_server.Base.{ltb, is_some, All, All-map, Bool-cases, Option-cases, nat_eq}
use spa_server.Config.{Config}
use spa_server.Storage.{DomainStorage}
use spa_server.HotReload.{
  Channels, HotReloadState, channel_if, send, send_taken, reload_state, drop_state, reload,
}
use spa_server.HotReload
use spa_server.Server.{Server, System, serves_until, is_listening, add_server, hand_over, reloaded}

-- After a reload, also one that fails, no receiver waits that did not wait before.
pub reload-monotone :
    (old state : HotReloadState) (c : Channels) (rx : Option ℕ)
    → serves_until (reload old state c).2 rx ≡ true
    → serves_until c rx ≡ true
unfolding reload reload_state send_taken send drop_state nat_eq
reload-monotone old state c none h = refl
reload-monotone old state c (some n) h = ground arith

-- The old http server's receiver waits no more.
reload-stops :
    (old state : HotReloadState) (c : Channels) (n : ℕ)
    → old.http_signal ≡ some n
    → serves_until (reload old state c).2 (some n) ≡ false
unfolding reload reload_state send_taken send drop_state nat_eq
reload-stops old state c n h = ground arith

pub reload-drops :
    (old state : HotReloadState) (c : Channels) (n : ℕ)
    → (reload old state c).0 ≡ false
    → state.http_signal ≡ some n
    → serves_until (reload old state c).2 (some n) ≡ false
unfolding reload reload_state send_taken send drop_state nat_eq
reload-drops old state c n failed h = ground arith

pub reload-takes :
    (old state : HotReloadState) (c : Channels)
    → (reload old state c).0 ≡ true
    → (reload old state c).1 ≡ state
unfolding reload
reload-takes old state c done = ground arith

-- A server that has a port has a receiver, and if it listens, the manager has the sender.
abbrev pub Managed : System → Server → Type 0
Managed sys s =
    (ltb 0 s.conf.port ≡ true → is_some s.http_rx ≡ true)
    × (is_listening sys s ≡ true → s.http_rx ≡ sys.reload_manager.http_signal)

abbrev pub IsManaged : System → Type 0
IsManaged sys = All (Managed sys) sys.servers

pub init-rx :
    (config : Config) (c : Channels)
    → ltb 0 config.port ≡ true
    → is_some (HotReload.init config c).0.http_signal ≡ true
unfolding HotReload.init channel_if
init-rx config c h = ground arith

-- The servers that ran before the hand-over do not listen behind it.
hand_over-old :
    (state : HotReloadState) (sys : System) (s : Server)
    → Managed sys s
    → is_listening (hand_over state sys).1 s ≡ false
unfolding hand_over is_listening
hand_over-old state sys s (has, held) = elim (Option-cases s.http_rx) [
  | inl nothing ↦ elim (Bool-cases (ltb 0 s.conf.port)) [
    | inl on ↦ ground (arith, nothing, has on)
    | inr off ↦ ground (arith, off)
  ]
  | inr (n, rx) ↦
      let stopped = reload-stops sys.reload_manager state sys.channels n in
      let before = reload-monotone sys.reload_manager state sys.channels (some n) in
      elim (Bool-cases (ltb 0 s.conf.port)) [
        | inl on ↦
            elim (Bool-cases
              (serves_until (reload sys.reload_manager state sys.channels).2 (some n))) [
                | inl still ↦ ground (arith, rx, on, still, before still, held, stopped)
                | inr ended ↦ ground (arith, rx, ended)
              ]
        | inr off ↦ ground (arith, off)
      ]
]

hand_over-new :
    (state : HotReloadState) (sys : System) (s : Server)
    → s.http_rx ≡ state.http_signal
    → (ltb 0 s.conf.port ≡ true → is_some s.http_rx ≡ true)
    → Managed (hand_over state sys).1 s
unfolding hand_over is_listening
hand_over-new state sys s rx has = (
  has,
  λ h. elim (Bool-cases (reload sys.reload_manager state sys.channels).0) [
    | inl done ↦ rw (reload-takes sys.reload_manager state sys.channels done) rx
    | inr failed ↦ elim (Option-cases s.http_rx) [
      | inl nothing ↦ elim (Bool-cases (ltb 0 s.conf.port)) [
        | inl on ↦ ground (arith, nothing, has on)
        | inr off ↦ ground (arith, off, h)
      ]
      | inr (n, is) ↦
          ground (
            arith,
            is,
            reload-drops sys.reload_manager state sys.channels n failed (sym rx ∙ is),
            h,
          )
    ]
  ],
)

-- New channels tell nobody.
init-listening :
    (config : Config) (storage : DomainStorage) (sys : System) (s : Server)
    → let (state, channels) = HotReload.init config sys.channels in
      is_listening (add_server config storage state channels sys) s ≡ is_listening sys s
unfolding is_listening HotReload.init channel_if add_server
init-listening config storage sys s = elim (Option-cases s.http_rx) [
  | inl nothing ↦ ground (arith, nothing)
  | inr (n, rx) ↦ ground (arith, rx)
]

add_server-old :
    (config : Config) (storage : DomainStorage) (sys : System) (s : Server)
    → Managed sys s
    → let (state, channels) = HotReload.init config sys.channels in
      Managed (add_server config storage state channels sys) s
unfolding add_server
add_server-old config storage sys s (has, held) =
    (has, λ h. held (sym (init-listening config storage sys s) ∙ h))

-- Only the new server listens, on a storage that the administration does not hold.
abbrev pub IsDetached : System → Server → Type 0
IsDetached sys s = is_listening sys s ≡ true → s.storage ≢ sys.admin_storage

not_both : {b : Bool} → b ≡ false → b ≡ true → ⊥
not_both off on = cc

pub reloaded-old :
    (config : Config) (storage : DomainStorage) (sys : System) (s : Server)
    → Managed sys s
    → is_listening (reloaded config storage sys).1 s ≡ false
unfolding reloaded hand_over
reloaded-old config storage sys s m =
    let (state, channels) = HotReload.init config sys.channels in
    hand_over-old state (add_server config storage state channels sys) s
      (add_server-old config storage sys s m)

pub reloaded-IsManaged :
    (config : Config) (storage : DomainStorage) (sys : System)
    → IsManaged sys
    → IsManaged (reloaded config storage sys).1
unfolding add_server hand_over reloaded
reloaded-IsManaged config storage sys h =
    let (state, channels) = HotReload.init config sys.channels in
    (
      hand_over-new state (add_server config storage state channels sys) _ refl
          (init-rx config sys.channels),
      All-map (Managed sys) (Managed (reloaded config storage sys).1) sys.servers
          (λ s m. (m.0, λ on. absurd (not_both (reloaded-old config storage sys s m) on))) h,
    )

pub reloaded-IsDetached :
    (config : Config) (storage : DomainStorage) (sys : System)
    → IsManaged sys
    → sys.admin_storage < sys.next_storage
    → All (IsDetached (reloaded config storage sys).1) (reloaded config storage sys).1.servers
unfolding add_server hand_over reloaded
reloaded-IsDetached config storage sys h less = (
  λ on same. omega (arith, same, less),
  All-map (Managed sys) (IsDetached (reloaded config storage sys).1) sys.servers
      (λ s m on. absurd (not_both (reloaded-old config storage sys s m) on)) h,
)
