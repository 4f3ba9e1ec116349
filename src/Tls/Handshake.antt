-- ===== src/Tls/Handshake.antt =====
-- server/src/tls.rs: a `TlsStream` over any sequence of polls.
use spa_server.Base.{ℕ, zero, suc, ◌≡◌, refl, ap, List, [], ◌∷◌, ◌++◌, map, arith}
use spa_server.Base.Text.{Text}
use spa_server.Tls.Stream.{
  Poll, pending, ready, IoResult, ok, err, StreamCrates, State, handshaking, streaming, poll_read,
  poll_write, poll_flush, poll_shutdown, after_accept,
}

-- The calls of `AsyncRead` and `AsyncWrite`, and what they answer.
pub data Op : Type 0 where
  read : ℕ → Op
  write : Text → Op
  flush shutdown : Op

pub data Answer : Type 0 where
  bytes : Poll (IoResult Text) → Answer
  written : Poll (IoResult ℕ) → Answer
  done : Poll (IoResult (Unit {0})) → Answer

module _ {H S : Type 0} (crates : StreamCrates H S) where
  unfoldable pub poll : Op → State H S → Answer × State H S
  unfolding poll_read poll_write poll_flush poll_shutdown
  poll (read n) t = let (r, t') = poll_read crates n t in (bytes r, t')
  poll (write buf) t = let (r, t') = poll_write crates buf t in (written r, t')
  poll flush t = let (r, t') = poll_flush crates t in (done r, t')
  poll shutdown t = let (r, t') = poll_shutdown crates t in (done r, t')

  -- The same calls on the stream behind the handshake.
  unfoldable pub poll_raw : Op → S → Answer × S
  poll_raw (read n) s = let (r, s') = crates.stream_read n s in (bytes r, s')
  poll_raw (write buf) s = let (r, s') = crates.stream_write buf s in (written r, s')
  poll_raw flush s = let (r, s') = crates.stream_flush s in (done r, s')
  poll_raw shutdown s = let (r, s') = crates.stream_shutdown s in (done r, s')

  unfoldable pub poll_all : List Op → State H S → List Answer × State H S
  unfolding poll
  poll_all [] t = ([], t)
  poll_all (op ∷ ops) t =
      let (answer, t') = poll op t in let (answers, u) = poll_all ops t' in (answer ∷ answers, u)

  unfoldable pub poll_raw_all : List Op → S → List Answer × S
  unfolding poll_raw
  poll_raw_all [] s = ([], s)
  poll_raw_all (op ∷ ops) s =
      let (answer, s') = poll_raw op s in
      let (answers, u) = poll_raw_all ops s' in (answer ∷ answers, u)

  -- The handshake gives the stream after it was polled so many times in vain.
  abbrev pub CompletesAfter : ℕ → H → S → Type 0
  CompletesAfter zero accept stream = (crates.poll_accept accept).0 ≡ ready (ok stream)
  CompletesAfter (suc n) accept stream =
      ((crates.poll_accept accept).0 ≡ pending)
      × CompletesAfter n (crates.poll_accept accept).1 stream

  -- What is answered while the handshake lasts.
  abbrev pub waiting : Op → Answer
  waiting (read n) = bytes pending
  waiting (write buf) = written pending
  waiting flush = done (ready (ok tt))
  waiting shutdown = done (ready (ok tt))

  -- How many of the calls poll the handshake.
  abbrev pub driving : List Op → ℕ
  driving [] = 0
  driving (read n ∷ ops) = suc (driving ops)
  driving (write buf ∷ ops) = suc (driving ops)
  driving (flush ∷ ops) = driving ops
  driving (shutdown ∷ ops) = driving ops

  abbrev pub Drives : Op → Type 0
  Drives op = driving (op ∷ []) ≡ 1

  after_accept-ready {ℓ} :
      {A : Type ℓ} (op : S → Poll (IoResult A) × S) (p : Poll (IoResult S) × H) (s : S)
      → p.0 ≡ ready (ok s)
      → after_accept crates op p ≡ ((op s).0, streaming (op s).1)
  unfolding after_accept
  after_accept-ready op (pending, a) s h = absurd (ground (arith, h))
  after_accept-ready op (ready (err e), a) s h = absurd (ground (arith, h))
  after_accept-ready op (ready (ok t), a) s h = ground (arith, h)

  after_accept-pending {ℓ} :
      {A : Type ℓ} (op : S → Poll (IoResult A) × S) (p : Poll (IoResult S) × H)
      → p.0 ≡ pending
      → after_accept crates op p ≡ (pending, handshaking p.1)
  unfolding after_accept
  after_accept-pending op (pending, a) h = refl
  after_accept-pending op (ready r, a) h = absurd (ground (arith, h))

  poll_all-streaming :
      (ops : List Op) (s : S)
      → poll_all ops (streaming s) ≡ ((poll_raw_all ops s).0, streaming (poll_raw_all ops s).1)
  unfolding poll_all poll_raw_all
  poll_all-streaming [] s = refl
  poll_all-streaming (read n ∷ ops) s = rw (poll_all-streaming ops (crates.stream_read n s).1) refl
  poll_all-streaming (write buf ∷ ops) s =
      rw (poll_all-streaming ops (crates.stream_write buf s).1) refl
  poll_all-streaming (flush ∷ ops) s = rw (poll_all-streaming ops (crates.stream_flush s).1) refl
  poll_all-streaming (shutdown ∷ ops) s =
      rw (poll_all-streaming ops (crates.stream_shutdown s).1) refl

  -- The call that ends the handshake, and one that comes before.
  poll-ready :
      (op : Op) (accept : H) (s : S)
      → Drives op
      → CompletesAfter 0 accept s
      → poll op (handshaking accept) ≡ ((poll_raw op s).0, streaming (poll_raw op s).1)
  unfolding poll poll_raw
  poll-ready (read n) accept s d h =
      ap (λ (r : Poll (IoResult Text) × State H S). (bytes r.0, r.1))
        (after_accept-ready (crates.stream_read n) (crates.poll_accept accept) s h)
  poll-ready (write buf) accept s d h =
      ap (λ (r : Poll (IoResult ℕ) × State H S). (written r.0, r.1))
        (after_accept-ready (crates.stream_write buf) (crates.poll_accept accept) s h)
  poll-ready flush accept s d h = absurd (omega (arith, d))
  poll-ready shutdown accept s d h = absurd (omega (arith, d))

  poll-pending :
      (op : Op) (accept : H)
      → Drives op
      → (crates.poll_accept accept).0 ≡ pending
      → poll op (handshaking accept) ≡ (waiting op, handshaking (crates.poll_accept accept).1)
  unfolding poll
  poll-pending (read n) accept d h =
      ap (λ (r : Poll (IoResult Text) × State H S). (bytes r.0, r.1))
        (after_accept-pending (crates.stream_read n) (crates.poll_accept accept) h)
  poll-pending (write buf) accept d h =
      ap (λ (r : Poll (IoResult ℕ) × State H S). (written r.0, r.1))
        (after_accept-pending (crates.stream_write buf) (crates.poll_accept accept) h)
  poll-pending flush accept d h = absurd (omega (arith, d))
  poll-pending shutdown accept d h = absurd (omega (arith, d))

  poll-flush : (accept : H) → poll flush (handshaking accept) ≡ (waiting flush, handshaking accept)
  unfolding poll
  poll-flush accept = refl

  poll-shutdown :
      (accept : H) → poll shutdown (handshaking accept) ≡ (waiting shutdown, handshaking accept)
  unfolding poll
  poll-shutdown accept = refl

  poll_all-cons :
      (op : Op) (ops : List Op) (t u : State H S) (answer : Answer) (answers : List Answer)
      (v : State H S)
      → poll op t ≡ (answer, u)
      → poll_all ops u ≡ (answers, v)
      → poll_all (op ∷ ops) t ≡ (answer ∷ answers, v)
  unfolding poll_all
  poll_all-cons op ops t u answer answers v h k = rw (h, k) refl

  -- A handshake that gives its stream after n polls in vain: whatever calls are made first, n of them
  -- reads and writes, these wait, and flushes and shutdowns are answered as done and do nothing; the
  -- next read or write reaches the stream, and from it on every call does to the stream, and answers,
  -- what it does without TLS in between.
  pub poll_all-handshaking :
      (ops rest : List Op) (op : Op) (accept : H) (s : S)
      → Drives op
      → CompletesAfter (driving ops) accept s
      → poll_all (ops ++ op ∷ rest) (handshaking accept) ≡ (
        map waiting ops ++ (poll_raw_all (op ∷ rest) s).0,
        streaming (poll_raw_all (op ∷ rest) s).1,
      )
  poll_all-handshaking [] rest op accept s d h =
      unfold poll_raw_all in
      poll_all-cons op rest (handshaking accept) _ _ _ _ (poll-ready op accept s d h)
        (poll_all-streaming rest (poll_raw op s).1)
  poll_all-handshaking (read n ∷ ops) rest op accept s d (h, k) =
      poll_all-cons (read n) (ops ++ op ∷ rest) (handshaking accept) _ _ _ _
        (poll-pending (read n) accept refl h)
        (poll_all-handshaking ops rest op (crates.poll_accept accept).1 s d k)
  poll_all-handshaking (write buf ∷ ops) rest op accept s d (h, k) =
      poll_all-cons (write buf) (ops ++ op ∷ rest) (handshaking accept) _ _ _ _
        (poll-pending (write buf) accept refl h)
        (poll_all-handshaking ops rest op (crates.poll_accept accept).1 s d k)
  poll_all-handshaking (flush ∷ ops) rest op accept s d h =
      poll_all-cons flush (ops ++ op ∷ rest) (handshaking accept) _ _ _ _ (poll-flush accept)
        (poll_all-handshaking ops rest op accept s d h)
  poll_all-handshaking (shutdown ∷ ops) rest op accept s d h =
      poll_all-cons shutdown (ops ++ op ∷ rest) (handshaking accept) _ _ _ _ (poll-shutdown accept)
        (poll_all-handshaking ops rest op accept s d h)
