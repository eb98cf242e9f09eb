-- ===== src/SelectClientThread/Matches.antt =====
-- `SelectClient_Thread::ProcessorSend` does what `ClientSocket::SendToKernelBuf` does.
use select_mode_network.Base.{
  ℕ, ◌+◌, ◌≡◌, sym, Bool, true, false, Option, none, some, ◌++◌, if◌then◌else◌, ltb, take, arith,
}
use select_mode_network.Base.Int.{ℤ, pos_part, leb_ℤ, ltb_ℤ}
use select_mode_network.Buffer.IoBuffer
use select_mode_network.Buffer.IoBuffer.{IoBuffer}
use select_mode_network.Memory.Api.{MemPool}
use select_mode_network.Protocol.{max_accumulate_count}
use select_mode_network.Queue.Api
use select_mode_network.ClientSocket.State.{
  Env, ClientSocket, Call, QmSend, no_send, free_block, count_queue,
}
use select_mode_network.ClientSocket.State
use select_mode_network.ClientSocket.Send.{Kernel}
use select_mode_network.ClientSocket.Send
use select_mode_network.ClientSocket.Flush.{close-sent, close-Cut}
use select_mode_network.SelectClientThread.State.{ThreadEnv, SelectClientThread, close}
use select_mode_network.SelectClientThread.Receive.{Result, starved, aborted, returned}
use select_mode_network.SelectClientThread.Send.{
  Sending, SendRound, fails, stops, again, ends, hang_up, sent_bytes, after_send, processor_send,
  cannot_write,
}

pub if-both₂ :
    {A B : Type 0} (R : A → B → Type 0) (b : Bool) {x y : A} {x' y' : B}
    → R x x'
    → R y y'
    → R (if b then x else y) (if b then x' else y')
if-both₂ R true h k = h
if-both₂ R false h k = k

module _ {P : MemPool} where
  -- The client as the socket of a server, which counts nothing.
  abbrev pub as_socket : Sending P → ClientSocket
  as_socket st = record {
    recv = st.client.recv;
    send = record {
      sock = st.client.sock;
      send_queue = st.client.send_queue;
      io_send = st.client.io_send;
      o_msg = st.client.o_msg;
      send_buf = st.client.send_buf;
      counted = false;
      sent = st.wire.sent;
    };
    ref_count = ℤ.pos 0;
  }

  abbrev pub as_env : Sending P → Env P
  as_env st = record {
    pool = st.env.pool;
    heap = st.env.heap;
    counters = record { msg_times = 0; send_times = 0; send_queue_size = ℤ.pos 0; recv_times = 0 };
    clock = st.wire.clock;
  }

  -- The two calls return the same. If it is not negative, they leave the same state; if it is
  -- negative, both have closed, and the kernel took the same bytes.
  pub data Matches : Result (Sending P) → Call P → Type 0 where
    dead : Matches aborted State.aborted
    endless : Matches starved State.starved
    same :
        {n : ℕ} {st : Sending P}
        → Matches (returned (ℤ.pos n) st) (State.returned (ℤ.pos n) (as_env st) (as_socket st))
    hung :
        {n : ℕ} {st : Sending P} {env : Env P} {c : ClientSocket}
        → st.client.sock ≡ none
        → c.send.sock ≡ none
        → st.wire.sent ≡ c.send.sent
        → Matches (returned (ℤ.negsuc n) st) (State.returned (ℤ.negsuc n) env c)

  pub data MatchesRound : SendRound P → Send.Round P → Type 0 where
    dead : MatchesRound fails Send.fails
    same :
        {n : ℕ} {st : Sending P}
        → MatchesRound (stops (ℤ.pos n) st) (Send.stops (ℤ.pos n) (as_env st) (as_socket st))
    hung :
        {n : ℕ} {st : Sending P} {env : Env P} {c : ClientSocket}
        → st.client.sock ≡ none
        → c.send.sock ≡ none
        → st.wire.sent ≡ c.send.sent
        → MatchesRound (stops (ℤ.negsuc n) st) (Send.stops (ℤ.negsuc n) env c)
    onward : {st : Sending P} → MatchesRound (again st) (Send.again (as_env st) (as_socket st))
    through : {st : Sending P} → MatchesRound (ends st) (Send.ends (as_env st) (as_socket st))

  close-closed : (env : ThreadEnv P) (c : SelectClientThread) → (close env c).1.sock ≡ none
  unfolding close State.clear_buffer
  close-closed env c = ground arith

  pub hang_up-Matches :
      (st : Sending P) → Matches (hang_up st) (Send.hang_up (as_env st) (as_socket st))
  unfolding hang_up Send.hang_up
  hang_up-Matches st =
      Matches.hung (close-closed st.env st.client) (close-Cut (as_env st) (as_socket st))
        (sym (close-sent (as_env st) (as_socket st)))

  sent_bytes-Matches :
      (st : Sending P) (k : ℕ)
      → Matches (sent_bytes st k) (Send.sent_bytes (as_env st) (as_socket st) k)
  unfolding sent_bytes Send.sent_bytes
  sent_bytes-Matches st k = go (IoBuffer.move_read_pos k st.client.io_send)
    where
      go :
          (o : Option IoBuffer)
          → Matches
              (elim o [
                | none ↦ aborted
                | some io ↦
                    let c = st.client in
                    let w = st.wire in
                    let (buf', io') = IoBuffer.move_data_to_front c.send_buf io in
                    returned (ℤ.pos 1) (record st {
                      client = record c { send_buf = buf'; io_send = io' };
                      wire = record w { sent = w.sent ++ take k c.send_buf };
                    })
              ])
              (elim o [
                | none ↦ State.aborted
                | some io ↦
                    let s = (as_socket st).send in
                    let (buf', io') = IoBuffer.move_data_to_front s.send_buf io in
                    State.returned (ℤ.pos 1) (as_env st) (record (as_socket st) {
                      send = record s {
                        send_buf = buf';
                        io_send = io';
                        sent = s.sent ++ take k s.send_buf;
                      };
                    })
              ])
      go none = Matches.dead
      go (some io) = Matches.same

  after_send-Matches :
      (st : Sending P) (n : ℤ)
      → Matches (after_send st n) (Send.after_send (as_env st) (as_socket st) n)
  unfolding after_send Send.after_send
  after_send-Matches st n =
      if-both₂ Matches (leb_ℤ n (ℤ.pos 0)) (hang_up-Matches st) (sent_bytes-Matches st (pos_part n))

  pub processor_send-Matches :
      (K : Kernel) (st : Sending P)
      → Matches (processor_send K st) (Send.send_to_kernel_buf K (as_env st) (as_socket st))
  unfolding processor_send Send.send_to_kernel_buf
  processor_send-Matches K st =
      let w = st.wire in
      let st' = record st { wire = record w { clock = w.clock + 1 } } in
      if-both₂ Matches (ltb_ℤ (K.select w.clock) (ℤ.pos 0)) (hang_up-Matches st') (
        if-both₂ Matches (K.writable w.clock)
          (after_send-Matches st' (K.send w.clock (pos_part (IoBuffer.can_read st.client.io_send))))
          (Matches.same {st = st'}))

  pub cannot_write-Matches :
      (st : Sending P) → Matches (cannot_write st) (Send.cannot_write (as_env st) (as_socket st))
  unfolding cannot_write Send.cannot_write
  cannot_write-Matches st =
      if-both₂ Matches (ltb max_accumulate_count (Api.size st.client.send_queue))
        (hang_up-Matches st) (Matches.same {st = st})
