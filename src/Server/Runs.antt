-- ===== src/Server/Runs.antt =====
-- server/src/lib.rs and server/src/hot_reload.rs: the histories of a system.
use spa_server.Base.{
  ℕ, ◌≡◌, true, some, Option, ◌∷◌, arith, inl, inr, All-map, Option-cases, nat_eq,
}
use spa_server.Config.{Config, AdminConfig}
use spa_server.FileSystem.{FileSystem}
use spa_server.Crates.{Crates}
use spa_server.Storage.{Site}
use spa_server.Admin.{Reply}
use spa_server.Server.{
  Server, System, is_listening, is_listening_https, reload_server, run_server, administer,
}
use spa_server.Server.Managed.{Managed}
use spa_server.Server.Https.{ManagedHttps}
use spa_server.Server.Reload.{IsValid}
use spa_server.Server.Manageable.{
  IsManageable, administer-IsManageable, reload_server-IsManageable, run_server-IsManageable,
}

-- The receiver of a server that failed or has ended is gone.
unfoldable pub receiver_gone : ℕ → System → System
receiver_gone n sys = record sys {
  channels = record sys.channels { closed = n ∷ sys.channels.closed };
}

receiver_gone-listening :
    (n : ℕ) (sys : System) (s : Server)
    → is_listening (receiver_gone n sys) s ≡ true
    → is_listening sys s ≡ true
unfolding receiver_gone is_listening nat_eq
receiver_gone-listening n sys s h = elim (Option-cases s.http_rx) [
  | inl nothing ↦ ground (arith, nothing)
  | inr (m, rx) ↦ ground (arith, rx)
]

receiver_gone-IsValid : (n : ℕ) (sys : System) → IsValid sys → IsValid (receiver_gone n sys)
receiver_gone-IsValid n sys v = record {
  managed =
      unfold receiver_gone in
      All-map (Managed sys) (Managed (receiver_gone n sys)) sys.servers
        (λ s m. (m.0, λ on. m.1 (receiver_gone-listening n sys s on))) v.managed;
  numbered = unfold receiver_gone in v.numbered;
}

receiver_gone-listening_https :
    (n : ℕ) (sys : System) (s : Server)
    → is_listening_https (receiver_gone n sys) s ≡ true
    → is_listening_https sys s ≡ true
unfolding receiver_gone is_listening_https nat_eq
receiver_gone-listening_https n sys s h = elim (Option-cases s.https_rx) [
  | inl nothing ↦ ground (arith, nothing)
  | inr (m, rx) ↦ ground (arith, rx)
]

receiver_gone-IsManageable :
    (n : ℕ) (sys : System) → IsManageable sys → IsManageable (receiver_gone n sys)
receiver_gone-IsManageable n sys v = record {
  valid = receiver_gone-IsValid n sys v.valid;
  https =
      unfold receiver_gone in
      All-map (ManagedHttps sys) (ManagedHttps (receiver_gone n sys)) sys.servers
        (λ s m. (m.0, λ on. m.1 (receiver_gone-listening_https n sys s on))) v.https;
}

module _ (crates : Crates) where
  -- The histories of a system: its start, then reloads, requests to the administration's server, and
  -- servers that end, in any order.
  pub data Runs : System → Type 0 where
    begun :
        (config : Config) (admin_config : AdminConfig) (fs : FileSystem) (sys : System)
        → run_server crates config admin_config fs ≡ some sys
        → Runs sys
    reloading :
        (sys : System) (loaded : Option Config)
        → Runs sys
        → Runs (reload_server crates loaded sys).1
    administering :
        (sys sys' : System) (reply : Reply) (handler : Site → Reply × Site)
        → Runs sys
        → administer handler sys ≡ some (reply, sys')
        → Runs sys'
    ending : (sys : System) (n : ℕ) → Runs sys → Runs (receiver_gone n sys)

  -- Whatever happens to a system once it is started, be it reloads that fail: for each server that
  -- still listens on its http port the manager holds the sender that stops it there, for each that
  -- still listens on its https port the sender that stops it there, and the storage that is
  -- administered is one of those made.
  pub Runs-IsManageable : (sys : System) → Runs sys → IsManageable sys
  Runs-IsManageable sys (begun c a fs _ e) = run_server-IsManageable crates c a fs sys e
  Runs-IsManageable _ (reloading before loaded r) =
      reload_server-IsManageable crates loaded before (Runs-IsManageable before r)
  Runs-IsManageable sys (administering before _ reply handler r e) =
      administer-IsManageable handler before sys reply e (Runs-IsManageable before r)
  Runs-IsManageable _ (ending before n r) =
      receiver_gone-IsManageable n before (Runs-IsManageable before r)
