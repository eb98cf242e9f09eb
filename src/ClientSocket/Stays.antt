-- ===== src/ClientSocket/Stays.antt =====
-- A call that does not return -1 leaves the socket as it was: it has not been closed.
use select_mode_network.Base.{
  ℕ, zero, suc, ◌+◌, ◌≡◌, refl, subst, Bool, true, false, Option, none, some, ◌++◌, take,
  if◌then◌else◌,
}
use select_mode_network.Base.Int.{ℤ, pos_part}
use select_mode_network.Buffer.Data.{Bytes, Ptr}
use select_mode_network.Buffer.OBuffer
use select_mode_network.Buffer.OBuffer.{OBuffer}
use select_mode_network.Buffer.IoBuffer
use select_mode_network.Buffer.IoBuffer.{IoBuffer}
use select_mode_network.Memory.Api.{MemPool}
use select_mode_network.Queue.Api
use select_mode_network.ClientSocket.State.{
  Env, Sender, ClientSocket, Call, close, no_send, free_block, count_queue, own_array,
}
use select_mode_network.ClientSocket.State
use select_mode_network.ClientSocket.Send.{
  Kernel, Round, fails, stops, again, ends, hang_up, sent_bytes, after_send, send_to_kernel_buf,
  cannot_write, drop_message, next_message, move_bytes, fill, stop_with, flushed, round, last_flush,
  finish, send_loop, processor_send, block,
}

pub if-both :
    {A : Type 0} (Q : A → Type 0) (b : Bool) {x y : A} → Q x → Q y → Q (if b then x else y)
if-both Q true h k = h
if-both Q false h k = k

module _ {P : MemPool} where
  -- What a call, or a round, may lead to: in the last cases the socket is `sock`.
  pub data SameSock (sock : Option ℕ) : Call P → Type 0 where
    dead : SameSock sock State.aborted
    endless : SameSock sock State.starved
    failed : {env : Env P} {c : ClientSocket} → SameSock sock (State.returned (ℤ.negsuc 0) env c)
    same :
        {n : ℤ} {env : Env P} {c : ClientSocket}
        → c.send.sock ≡ sock
        → SameSock sock (State.returned n env c)

  data RoundSock (sock : Option ℕ) : Round P → Type 0 where
    dead : RoundSock sock fails
    failed : {env : Env P} {c : ClientSocket} → RoundSock sock (stops (ℤ.negsuc 0) env c)
    stopped :
        {n : ℤ} {env : Env P} {c : ClientSocket}
        → c.send.sock ≡ sock
        → RoundSock sock (stops n env c)
    onward : {env : Env P} {c : ClientSocket} → c.send.sock ≡ sock → RoundSock sock (again env c)
    through : {env : Env P} {c : ClientSocket} → c.send.sock ≡ sock → RoundSock sock (ends env c)

  sent_bytes-SameSock :
      (env : Env P) (c : ClientSocket) (k : ℕ) → SameSock c.send.sock (sent_bytes env c k)
  unfolding sent_bytes
  sent_bytes-SameSock env c k = go (IoBuffer.move_read_pos k c.send.io_send)
    where
      go :
          (o : Option IoBuffer)
          → SameSock c.send.sock (elim o [
            | none ↦ State.aborted
            | some io ↦
                let s = c.send in
                let (buf', io') = IoBuffer.move_data_to_front s.send_buf io in
                State.returned (ℤ.pos 1) env (record c {
                  send = record s {
                    send_buf = buf';
                    io_send = io';
                    sent = s.sent ++ take k s.send_buf;
                  };
                })
          ])
      go none = SameSock.dead
      go (some io) = SameSock.same refl

  hang_up-SameSock :
      (env : Env P) (c : ClientSocket) (sock : Option ℕ) → SameSock sock (hang_up env c)
  unfolding hang_up
  hang_up-SameSock env c sock = SameSock.failed

  after_send-SameSock :
      (env : Env P) (c : ClientSocket) (n : ℤ) → SameSock c.send.sock (after_send env c n)
  unfolding after_send
  after_send-SameSock env c n =
      if-both (λ (r : Call P). SameSock c.send.sock r) _ (hang_up-SameSock env c c.send.sock)
        (sent_bytes-SameSock env c _)

  send_to_kernel_buf-SameSock :
      (K : Kernel) (env : Env P) (c : ClientSocket)
      → SameSock c.send.sock (send_to_kernel_buf K env c)
  unfolding send_to_kernel_buf
  send_to_kernel_buf-SameSock K env c =
      let Q : Call P → Type 0 = λ r. SameSock c.send.sock r in
      let env' = record env { clock = env.clock + 1 } in
      if-both Q _ (hang_up-SameSock env' c c.send.sock) (
        if-both Q (K.writable env.clock)
          (after_send-SameSock env' c
            (K.send env.clock (pos_part (IoBuffer.can_read c.send.io_send))))
          (SameSock.same {env = env'} {c = c} refl))

  cannot_write-SameSock :
      (env : Env P) (c : ClientSocket) → SameSock c.send.sock (cannot_write env c)
  unfolding cannot_write
  cannot_write-SameSock env c =
      if-both (λ (r : Call P). SameSock c.send.sock r) _ (hang_up-SameSock env c c.send.sock)
        (SameSock.same refl)

  drop_message-sock :
      (env : Env P) (c : ClientSocket) → (drop_message env c).1.send.sock ≡ c.send.sock
  unfolding drop_message
  drop_message-sock env c = go (OBuffer.get_buffer c.send.o_msg)
    where
      go :
          (o : Ptr)
          → (elim o as (λ x. Env P × ClientSocket) [
            | none ↦ (env, c)
            | some _ ↦
                let (q, rest) = Api.pop no_send c.send.send_queue in
                (
                  free_block
                      (record env {
                        counters = count_queue c.send.counted (ℤ.negsuc 0) env.counters;
                      })
                      q,
                  record c {
                    send = record (c.send) {
                      send_queue = rest;
                      o_msg = OBuffer.set_buffer none 0 c.send.o_msg;
                    };
                  },
                )
          ]).1.send.sock
            ≡ c.send.sock
      go none = refl
      go (some p) = refl

  next_message-RoundSock :
      (env : Env P) (c : ClientSocket) → RoundSock c.send.sock (next_message env c)
  unfolding next_message
  next_message-RoundSock env c =
      if-both (λ (r : Round P). RoundSock c.send.sock r) _ (onward refl) (through refl)

  move_bytes-RoundSock :
      (env : Env P) (c : ClientSocket) (len : ℕ) → RoundSock c.send.sock (move_bytes env c len)
  unfolding move_bytes
  move_bytes-RoundSock env c len = go (
      OBuffer.read_bytes_io (block env c.send.o_msg.buf) c.send.o_msg c.send.send_buf c.send.io_send
        len)
    where
      go :
          (r : Option (Bytes × IoBuffer × OBuffer))
          → RoundSock c.send.sock (elim r [
            | none ↦ fails
            | some (buf', io', o') ↦
                let s = c.send in
                again env
                  (record c { send = record s { send_buf = buf'; io_send = io'; o_msg = o' } })
          ])
      go none = RoundSock.dead
      go (some r) = onward refl

  fill-RoundSock : (env : Env P) (c : ClientSocket) (w : ℤ) → RoundSock c.send.sock (fill env c w)
  unfolding fill
  fill-RoundSock env c w =
      if-both (λ (r : Round P). RoundSock c.send.sock r) _
        (subst (λ t. RoundSock t (next_message (drop_message env c).0 (drop_message env c).1))
          (drop_message-sock env c) (next_message-RoundSock _ _))
        (move_bytes-RoundSock env c _)

  stop_with-RoundSock :
      (sock : Option ℕ) (r : Call P) → SameSock sock r → RoundSock sock (stop_with r)
  unfolding stop_with
  stop_with-RoundSock sock _ SameSock.dead = RoundSock.dead
  stop_with-RoundSock sock _ SameSock.endless = RoundSock.dead
  stop_with-RoundSock sock _ SameSock.failed = RoundSock.failed
  stop_with-RoundSock sock _ (SameSock.same e) = stopped e

  flushed-RoundSock :
      (sock : Option ℕ) (w : ℤ) (r : Call P) → SameSock sock r → RoundSock sock (flushed r w)
  unfolding flushed
  flushed-RoundSock sock w _ SameSock.dead = RoundSock.dead
  flushed-RoundSock sock w _ SameSock.endless = RoundSock.dead
  flushed-RoundSock sock w _ SameSock.failed = RoundSock.failed
  flushed-RoundSock sock w (State.returned (ℤ.negsuc n) env c) (SameSock.same e) = RoundSock.failed
  flushed-RoundSock sock w (State.returned (ℤ.pos zero) env c) (SameSock.same e) =
      stop_with-RoundSock sock (cannot_write env c)
        (subst (λ t. SameSock t (cannot_write env c)) e (cannot_write-SameSock env c))
  flushed-RoundSock sock w (State.returned (ℤ.pos (suc n)) env c) (SameSock.same e) =
      subst (λ t. RoundSock t (fill env c w)) e (fill-RoundSock env c w)

module _ {P : MemPool} (K : Kernel) where
  round-RoundSock : (env : Env P) (c : ClientSocket) → RoundSock c.send.sock (round K env c)
  unfolding round
  round-RoundSock env c =
      if-both (λ (r : Round P). RoundSock c.send.sock r) _
        (flushed-RoundSock c.send.sock can_write _ (send_to_kernel_buf-SameSock K env c))
        (fill-RoundSock env c can_write)
    where
      can_write : ℤ
      can_write = IoBuffer.can_write c.send.io_send

  last_flush-SameSock :
      (sock : Option ℕ) (r : Call P) → SameSock sock r → SameSock sock (last_flush K r)
  unfolding last_flush
  last_flush-SameSock sock _ SameSock.dead = SameSock.dead
  last_flush-SameSock sock _ SameSock.endless = SameSock.endless
  last_flush-SameSock sock _ SameSock.failed = SameSock.failed
  last_flush-SameSock sock (State.returned (ℤ.negsuc n) env c) (SameSock.same e) = SameSock.failed
  last_flush-SameSock sock (State.returned (ℤ.pos zero) env c) (SameSock.same e) =
      subst (λ t. SameSock t (cannot_write env c)) e (cannot_write-SameSock env c)
  last_flush-SameSock sock (State.returned (ℤ.pos (suc n)) env c) (SameSock.same e) =
      SameSock.same e

  finish-SameSock : (env : Env P) (c : ClientSocket) → SameSock c.send.sock (finish K env c)
  unfolding finish
  finish-SameSock env c =
      if-both (λ (r : Call P). SameSock c.send.sock r) _
        (last_flush-SameSock c.send.sock _ (send_to_kernel_buf-SameSock K env c))
        (SameSock.same {env = env} {c = c} refl)

  send_loop-SameSock :
      (fuel : ℕ) (env : Env P) (c : ClientSocket) → SameSock c.send.sock (send_loop K fuel env c)
  unfolding send_loop
  send_loop-SameSock zero env c = SameSock.endless
  send_loop-SameSock (suc fuel) env c =
      go (λ env' c'. send_loop-SameSock fuel env' c') (round K env c) (round-RoundSock env c)
    where
      go :
          ((env' : Env P) (c' : ClientSocket) → SameSock c'.send.sock (send_loop K fuel env' c'))
          → (r : Round P) → RoundSock c.send.sock r
          → SameSock c.send.sock (elim r [
            | fails ↦ State.aborted
            | stops n env' c' ↦ State.returned n env' c'
            | again env' c' ↦ send_loop K fuel env' c'
            | ends env' c' ↦ finish K env' c'
          ])
      go rest _ RoundSock.dead = SameSock.dead
      go rest _ RoundSock.failed = SameSock.failed
      go rest _ (stopped e) = SameSock.same e
      go rest _ (onward {env = env'} {c = c'} e) =
          subst (λ t. SameSock t (send_loop K fuel env' c')) e (rest env' c')
      go rest _ (through {env = env'} {c = c'} e) =
          subst (λ t. SameSock t (finish K env' c')) e (finish-SameSock env' c')

  -- `ProcessorSend` returns -1, or leaves the socket as it was.
  pub processor_send-SameSock :
      (fuel : ℕ) (env : Env P) (c : ClientSocket)
      → SameSock c.send.sock (processor_send K fuel env c)
  unfolding processor_send
  processor_send-SameSock fuel env c = go c.send.sock
    where
      go :
          (o : Option ℕ)
          → SameSock c.send.sock (elim o [
            | none ↦ State.returned (ℤ.negsuc 0) env c
            | some _ ↦ send_loop K fuel env c
          ])
      go none = SameSock.failed
      go (some fd) = send_loop-SameSock fuel env c
