-- ===== src/Tls/Stream.antt =====
-- server/src/tls.rs: `TlsStream`, which handshakes at the first read or write, and `TlsAcceptor`. The
-- future of the handshake and the stream behind it are parameters.
use spa_server.Base.{ℕ, Option, none, some}
use spa_server.Base.Text.{Text}

pub data Poll {ℓ} (A : Type ℓ) : Type ℓ where
  pending : Poll A
  ready : A → Poll A

-- `io::Result`
pub data IoResult {ℓ} (A : Type ℓ) : Type ℓ where
  ok : A → IoResult A
  err : Text → IoResult A

-- `tokio_rustls`: a handshake H and a stream S. Each poll may change what is polled.
pub record StreamCrates (H : Type 0) (S : Type 0) : Type 0 where
  -- `Accept::poll`
  pub poll_accept : H → Poll (IoResult S) × H
  -- the reads and writes of the stream behind it: at most so many bytes, and the bytes
  pub stream_read : ℕ → S → Poll (IoResult Text) × S
  pub stream_write : Text → S → Poll (IoResult ℕ) × S
  pub stream_flush : S → Poll (IoResult (Unit {0})) × S
  pub stream_shutdown : S → Poll (IoResult (Unit {0})) × S

-- `State`
pub data State (H : Type 0) (S : Type 0) : Type 0 where
  handshaking : H → State H S
  streaming : S → State H S

module _ {H S : Type 0} (crates : StreamCrates H S) where
  abbrev on_stream {ℓ} : {A : Type ℓ} → Poll (IoResult A) × S → Poll (IoResult A) × State H S
  on_stream (result, stream) = (result, streaming stream)

  -- A read or a write while the handshake lasts: polled on, and done once the stream is there.
  unfoldable pub after_accept {ℓ} :
      {A : Type ℓ}
      → (S → Poll (IoResult A) × S)
      → Poll (IoResult S) × H
      → Poll (IoResult A) × State H S
  after_accept op (pending, accept) = (pending, handshaking accept)
  after_accept op (ready (err e), accept) = (ready (err e), handshaking accept)
  after_accept op (ready (ok stream), accept) = on_stream (op stream)

  unfoldable pub poll_read : ℕ → State H S → Poll (IoResult Text) × State H S
  unfolding after_accept
  poll_read n (handshaking accept) = after_accept (crates.stream_read n) (crates.poll_accept accept)
  poll_read n (streaming stream) = on_stream (crates.stream_read n stream)

  unfoldable pub poll_write : Text → State H S → Poll (IoResult ℕ) × State H S
  unfolding after_accept
  poll_write buf (handshaking accept) =
      after_accept (crates.stream_write buf) (crates.poll_accept accept)
  poll_write buf (streaming stream) = on_stream (crates.stream_write buf stream)

  unfoldable pub poll_flush : State H S → Poll (IoResult (Unit {0})) × State H S
  poll_flush (handshaking accept) = (ready (ok tt), handshaking accept)
  poll_flush (streaming stream) = on_stream (crates.stream_flush stream)

  unfoldable pub poll_shutdown : State H S → Poll (IoResult (Unit {0})) × State H S
  poll_shutdown (handshaking accept) = (ready (ok tt), handshaking accept)
  poll_shutdown (streaming stream) = on_stream (crates.stream_shutdown stream)

-- `TlsStream::new`, for the handshake that `tokio_rustls::TlsAcceptor::accept` begins.
unfoldable pub new_stream : {H S : Type 0} → H → State H S
new_stream accept = handshaking accept

-- `TlsAcceptor::poll_accept`: `AddrIncoming` gives a socket, an error or the end.
unfoldable pub accept_connection :
    {H S K : Type 0} → (K → H) → Poll (Option (IoResult K)) → Poll (Option (IoResult (State H S)))
unfolding new_stream
accept_connection begin pending = pending
accept_connection begin (ready none) = ready none
accept_connection begin (ready (some (err e))) = ready (some (err e))
accept_connection begin (ready (some (ok sock))) = ready (some (ok (new_stream (begin sock))))
