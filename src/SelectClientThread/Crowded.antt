-- ===== src/SelectClientThread/Crowded.antt =====
-- `SelectClient_Thread::ProcessorRecv` with too many messages in the queue.
use select_mode_network.Base.{
  ℕ, zero, suc, ◌+◌, ◌-◌, ◌≤◌, ◌<◌, ◌≡◌, refl, ap, Option, none, some, List, [], ◌++◌, arith,
  le→ltb, lt→ltb, length, take, write_at, dec_lt,
}
use select_mode_network.Base.Int.{ℤ}
use select_mode_network.Buffer.Data.{Bytes}
use select_mode_network.Buffer.OBuffer.{OBuffer}
use select_mode_network.Buffer.Unread.{OValid, o_unread}
use select_mode_network.Memory.Api.{MemPool}
use select_mode_network.Protocol.{buffer_size, max_accumulate_count}
use select_mode_network.Queue.Api
use select_mode_network.Framing.Cuts.{Cuts, End, next, rest, refuse, hang}
use select_mode_network.Framing.Handled.{goes_on}
use select_mode_network.ClientSocket.Received.{ReceiverValid, retained_by, arrived}
use select_mode_network.SelectClientThread.State.{
  ThreadEnv, SelectClientThread, close, clear_buffer, clear_recv_queue, clear_send_queue,
}
use select_mode_network.SelectClientThread.Receive.{
  Received, crowded, Result, returned, queue_message, recv_loop, after_loop, hang_up, receive,
  processor_recv,
}
use select_mode_network.SelectClientThread.Gathered.{length-queue_message}
use select_mode_network.SelectClientThread.Pipeline.{goes_on_to_receive}

-- The client has been closed, and holds no messages.
pub record HungUp {P : MemPool} (result : Result (ThreadEnv P × SelectClientThread)) : Type 0 where
  pub env' : ThreadEnv P
  pub c' : SelectClientThread
  pub returns : result ≡ returned (ℤ.negsuc 0) (env', c')
  pub closed : c'.sock ≡ none
  pub no_received : c'.recv_queue ≡ []
  pub no_sending : c'.send_queue ≡ []

module _ {P : MemPool} where
  -- The loop stops with too many messages.
  record Overfull (result : Received P) : Type 0 where
    o' : OBuffer
    env' : ThreadEnv P
    queue' : List ℕ
    ends : result ≡ crowded o' env' queue'

  recv_loop-Overfull :
      (mem : Bytes) {s : Bytes} {ms : List Bytes} {e : End}
      → Cuts s ms e
      → (fuel : ℕ) (o : OBuffer) (env : ThreadEnv P) (queue : List ℕ) → OValid mem o
      → o_unread mem o ≡ s
      → length ms ≤ fuel
      → length queue ≤ max_accumulate_count
      → max_accumulate_count < length queue + length ms
      → Overfull (recv_loop fuel mem o env queue)
  unfolding recv_loop Api.size
  recv_loop-Overfull mem (rest h) fuel o env queue v e k few many = absurd (omega arith)
  recv_loop-Overfull mem (refuse h) fuel o env queue v e k few many = absurd (omega arith)
  recv_loop-Overfull mem (hang h) fuel o env queue v e k few many = absurd (omega arith)
  recv_loop-Overfull mem (next n h p c) zero o env queue v e k few many = absurd (omega arith)
  recv_loop-Overfull mem (next {s} {ms} n h p c) (suc fuel) o env queue v e k few many =
      let g = goes_on mem n h o v e in
      let q = queue_message env queue (take n s) in
      let size = length-queue_message env queue (take n s) in
      elim (dec_lt max_accumulate_count (length q.1)) [
        | yes over ↦ record {
          o' = g.after;
          env' = q.0;
          queue' = q.1;
          ends = rw (g.step, lt→ltb max_accumulate_count (length q.1) over, recv_loop);
        }
        | no room ↦
            let tail =
              recv_loop-Overfull mem c fuel g.after q.0 q.1 g.valid g.behind (omega arith)
                (omega arith) (omega (arith, size)) in
            record {
              o' = tail.o';
              env' = tail.env';
              queue' = tail.queue';
              ends =
                  rw (g.step, le→ltb max_accumulate_count (length q.1) (omega arith), recv_loop)
                    tail.ends;
            }
      ]

  close-open :
      (env : ThreadEnv P) (c : SelectClientThread) (fd : ℕ)
      → c.sock ≡ some fd
      → close env c ≡ (
        clear_send_queue (clear_recv_queue env c.recv_queue) c.send_queue,
        clear_buffer (record c { sock = none; recv_queue = []; send_queue = [] }),
      )
  unfolding close
  close-open env c fd e =
      ap
        (λ (t : Option ℕ). elim t as (λ x. ThreadEnv P × SelectClientThread) [
          | none ↦ (env, c)
          | some _ ↦ (
            clear_send_queue (clear_recv_queue env c.recv_queue) c.send_queue,
            clear_buffer (record c { sock = none; recv_queue = []; send_queue = [] }),
          )
        ])
        e

  hang_up-HungUp :
      (env : ThreadEnv P) (c : SelectClientThread) (fd : ℕ)
      → c.sock ≡ some fd
      → HungUp (hang_up env c)
  unfolding hang_up clear_buffer
  hang_up-HungUp env c fd e =
      let closed = close-open env c fd e in
      record {
        env' = (close env c).0;
        c' = (close env c).1;
        returns = refl;
        closed = ap (λ r. r.1.sock) closed;
        no_received = ap (λ r. r.1.recv_queue) closed;
        no_sending = ap (λ r. r.1.send_queue) closed;
      }

  -- If the messages that the retained and the received bytes are cut into are, with those in the
  -- queue, more than CLIENT_RECV_QUEUE_MAX_ACCUMULATE_COUNT, and the queue held no more than that
  -- before the call, the call on an open client returns -1: the socket is closed, and both queues
  -- are empty.
  pub processor_recv-HungUp :
      (fuel : ℕ) (recv : ℕ → Option Bytes) (env : ThreadEnv P) (c : SelectClientThread)
      (bytes : Bytes) (fd : ℕ) {ms : List Bytes} {e : End}
      → c.sock ≡ some fd
      → ReceiverValid c.recv
      → recv (buffer_size - c.recv.retain_size) ≡ some bytes
      → 0 < length bytes
      → length bytes ≤ buffer_size - c.recv.retain_size
      → Cuts (retained_by c.recv ++ bytes) ms e
      → length ms ≤ fuel
      → length c.recv_queue ≤ max_accumulate_count
      → max_accumulate_count < length c.recv_queue + length ms
      → HungUp (processor_recv fuel recv env c)
  unfolding receive
  processor_recv-HungUp fuel recv env c bytes fd is_open v got some_bytes fits cuts enough few
        many =
      let mem = write_at c.recv.recv_buf c.recv.retain_size bytes in
      let (unread, valid, size) = arrived c.recv bytes v fits in
      let g = recv_loop-Overfull mem cuts fuel _ env c.recv_queue valid unread enough few many in
      rw
        (
          goes_on_to_receive fuel recv env c bytes v got some_bytes fits,
          receive,
          g.ends,
          after_loop,
        )
        (hang_up-HungUp g.env' _ fd is_open)
