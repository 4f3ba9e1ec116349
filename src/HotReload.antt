-- ===== src/HotReload.antt =====
-- server/src/hot_reload.rs: the senders that stop the running servers. A oneshot channel is a number;
-- which receivers are dropped and which have been told to stop is the state of the channels.
use spa_server.Base.{ℕ, ◌+◌, Bool, true, false, Option, none, some, List, ◌∷◌}
use spa_server.Base.{if◌then◌else◌, ltb, contains, is_some, nat_eq}
use spa_server.Config.{Config}

pub record Channels : Type 0 where
  pub made : ℕ
  -- the channels whose receiver is gone
  pub closed : List ℕ
  -- the channels whose receiver has ended to wait
  pub signalled : List ℕ

pub record HotReloadState : Type 0 where
  pub http_signal : Option ℕ
  pub https_signal : Option ℕ

-- `oneshot::channel()`, if it is wanted.
unfoldable pub channel_if : Bool → Channels → Option ℕ × Channels
channel_if false c = (none, c)
channel_if true c = (some c.made, record c { made = c.made + 1 })

-- `HotReloadState::init`: the receivers have the numbers of the senders.
unfoldable pub init : Config → Channels → HotReloadState × Channels
unfolding channel_if
init config c =
    let (http, c') = channel_if (ltb 0 config.port) c in
    let (https, c'') = channel_if (is_some config.https) c' in
    (record { http_signal = http; https_signal = https }, c'')

-- `signal.send(())`, which fails where the receiver is gone.
unfoldable pub send : ℕ → Channels → Bool × Channels
unfolding nat_eq
send n c =
    if contains c.closed n then (false, c) else (true, record c { signalled = n ∷ c.signalled })

-- The signal that is taken, if there is one.
unfoldable pub send_taken : Option ℕ → Channels → Bool × Channels
unfolding send
send_taken none c = (true, c)
send_taken (some n) c = send n c

-- `HotReloadState::reload`: an error leaves out what follows, and the signal taken stays taken.
unfoldable pub reload_state : HotReloadState → Channels → Bool × HotReloadState × Channels
unfolding send_taken
reload_state state c =
    let (sent_http, c') = send_taken state.http_signal c in
    let (sent_https, c'') = send_taken state.https_signal c' in
    if sent_http
    then (sent_https, record { http_signal = none; https_signal = none }, c'')
    else (false, record state { http_signal = none }, c')

abbrev drop_sender : Option ℕ → Channels → Channels
drop_sender none c = c
drop_sender (some n) c = record c { signalled = n ∷ c.signalled }

-- A state that is dropped: its receivers end to wait, with an error that they ignore.
unfoldable pub drop_state : HotReloadState → Channels → Channels
drop_state state c = drop_sender state.https_signal (drop_sender state.http_signal c)

-- `HotReloadManager::reload`: the new state takes the old one's place, or is dropped.
unfoldable pub reload :
    HotReloadState → HotReloadState → Channels → Bool × HotReloadState × Channels
unfolding reload_state drop_state
reload old state c =
    let (done, old', c') = reload_state old c in
    if done then (true, state, drop_state old' c') else (false, old', drop_state state c')
