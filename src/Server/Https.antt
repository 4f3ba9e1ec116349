-- ===== src/Server/Https.antt =====
-- server/src/hot_reload.rs and server/src/lib.rs: which of the https servers still listens.
use spa_server.Base.{ℕ, ◌≡◌, refl, sym, ◌∙◌, true, false, some, arith, inl, inr}
use spa_server.Base.{is_some, All, All-map, Bool-cases, Option-cases, nat_eq}
use spa_server.Config.{Config}
use spa_server.Storage.{DomainStorage}
use spa_server.HotReload.{
  Channels, HotReloadState, channel_if, send, send_taken, reload_state, drop_state, reload,
}
use spa_server.HotReload
use spa_server.Server.{
  Server, System, serves_until, is_listening_https, add_server, hand_over, reloaded,
}
use spa_server.Server.Managed.{reload-monotone, reload-takes}

-- Where the https server's receiver still waits behind a reload, the manager has kept its sender.
reload-keeps_https :
    (old state : HotReloadState) (c : Channels) (n : ℕ)
    → old.https_signal ≡ some n
    → serves_until (reload old state c).2 (some n) ≡ true
    → (reload old state c).1.https_signal ≡ some n
unfolding reload reload_state send_taken send drop_state nat_eq
reload-keeps_https old state c n h on = ground arith

reload-drops_https :
    (old state : HotReloadState) (c : Channels) (n : ℕ)
    → (reload old state c).0 ≡ false
    → state.https_signal ≡ some n
    → serves_until (reload old state c).2 (some n) ≡ false
unfolding reload reload_state send_taken send drop_state nat_eq
reload-drops_https old state c n failed h = ground arith

-- A server that has https settings has a receiver, and if it listens, the manager has the sender.
abbrev pub ManagedHttps : System → Server → Type 0
ManagedHttps sys s =
    (is_some s.conf.https ≡ true → is_some s.https_rx ≡ true)
    × (is_listening_https sys s ≡ true → s.https_rx ≡ sys.reload_manager.https_signal)

abbrev pub IsManagedHttps : System → Type 0
IsManagedHttps sys = All (ManagedHttps sys) sys.servers

pub init-https_rx :
    (config : Config) (c : Channels)
    → is_some config.https ≡ true
    → is_some (HotReload.init config c).0.https_signal ≡ true
unfolding HotReload.init channel_if
init-https_rx config c h = ground arith

hand_over-old_https :
    (state : HotReloadState) (sys : System) (s : Server)
    → ManagedHttps sys s
    → ManagedHttps (hand_over state sys).1 s
unfolding hand_over is_listening_https
hand_over-old_https state sys s (has, held) = (
  has,
  λ h. elim (Bool-cases (is_some s.conf.https)) [
    | inr off ↦ ground (arith, off, h)
    | inl on ↦ elim (Option-cases s.https_rx) [
      | inl nothing ↦ ground (arith, nothing, has on)
      | inr (n, rx) ↦
          let waits : serves_until (reload sys.reload_manager state sys.channels).2 (some n)
              ≡ true =
            ground (arith, rx, on, h) in
          let before = reload-monotone sys.reload_manager state sys.channels (some n) waits in
          let signal : s.https_rx ≡ sys.reload_manager.https_signal =
            held (ground (arith, rx, on, before)) in
          rx
          ∙ sym (reload-keeps_https sys.reload_manager state sys.channels n (sym signal ∙ rx) waits)
    ]
  ],
)

hand_over-new_https :
    (state : HotReloadState) (sys : System) (s : Server)
    → s.https_rx ≡ state.https_signal
    → (is_some s.conf.https ≡ true → is_some s.https_rx ≡ true)
    → ManagedHttps (hand_over state sys).1 s
unfolding hand_over is_listening_https
hand_over-new_https state sys s rx has = (
  has,
  λ h. elim (Bool-cases (reload sys.reload_manager state sys.channels).0) [
    | inl done ↦ rw (reload-takes sys.reload_manager state sys.channels done) rx
    | inr failed ↦ elim (Option-cases s.https_rx) [
      | inl nothing ↦ elim (Bool-cases (is_some s.conf.https)) [
        | inl on ↦ ground (arith, nothing, has on)
        | inr off ↦ ground (arith, off, h)
      ]
      | inr (n, is) ↦ ground (
        arith,
        is,
        reload-drops_https sys.reload_manager state sys.channels n failed (sym rx ∙ is),
        h,
      )
    ]
  ],
)

-- New channels tell nobody.
init-listening_https :
    (config : Config) (storage : DomainStorage) (sys : System) (s : Server)
    → let (state, channels) = HotReload.init config sys.channels in
      is_listening_https (add_server config storage state channels sys) s ≡ is_listening_https sys s
unfolding is_listening_https HotReload.init channel_if add_server
init-listening_https config storage sys s = elim (Option-cases s.https_rx) [
  | inl nothing ↦ ground (arith, nothing)
  | inr (n, rx) ↦ ground (arith, rx)
]

add_server-old_https :
    (config : Config) (storage : DomainStorage) (sys : System) (s : Server)
    → ManagedHttps sys s
    → let (state, channels) = HotReload.init config sys.channels in
      ManagedHttps (add_server config storage state channels sys) s
unfolding add_server
add_server-old_https config storage sys s (has, held) =
    (has, λ h. held (sym (init-listening_https config storage sys s) ∙ h))

pub reloaded-IsManagedHttps :
    (config : Config) (storage : DomainStorage) (sys : System)
    → IsManagedHttps sys
    → IsManagedHttps (reloaded config storage sys).1
unfolding add_server hand_over reloaded
reloaded-IsManagedHttps config storage sys h =
    let (state, channels) = HotReload.init config sys.channels in
    let with_new = add_server config storage state channels sys in
    (
      hand_over-new_https state with_new _ refl (init-https_rx config sys.channels),
      All-map (ManagedHttps sys) (ManagedHttps (reloaded config storage sys).1) sys.servers
          (λ s m.
            hand_over-old_https state with_new s (add_server-old_https config storage sys s m))
          h,
    )
