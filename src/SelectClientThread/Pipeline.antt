-- ===== src/SelectClientThread/Pipeline.antt =====
-- A call of `SelectClient_Thread::ProcessorRecv`, and `OnRun` behind it.
use select_mode_network.Base.{
  ℕ, ◌+◌, ◌-◌, ◌≤◌, ◌<◌, ◌≡◌, refl, ap, sym, subst, ◌∙◌, Option, none, some, List, [], ◌++◌, lt→leb,
  length, write_at, arith,
}
use select_mode_network.Base.Int.{ℤ}
use select_mode_network.Buffer.Data.{Bytes}
use select_mode_network.Buffer.OBuffer
use select_mode_network.Memory.Api.{MemPool}
use select_mode_network.Protocol.{buffer_size, max_accumulate_count}
use select_mode_network.Framing.Cuts.{Cuts, left}
use select_mode_network.Framing.Handled.{Cuts-left_front}
use select_mode_network.Framing.Loop.{handle_all}
use select_mode_network.ClientSocket.State.{Receiver}
use select_mode_network.ClientSocket.Received.{
  ReceiverValid, retained_by, arrived, keeping, move_data_to_front-Keeps,
}
use select_mode_network.SelectClient.State
use select_mode_network.SelectClient.Received.{processor_recv-Taken}
use select_mode_network.SelectClientThread.State.{ThreadEnv, SelectClientThread}
use select_mode_network.SelectClientThread.Receive.{
  Result, returned, after_loop, receive, processor_recv, take_loop, on_run,
}
use select_mode_network.SelectClientThread.Stored.{Holds, Whole, Cuts-Sized, take_loop-handle_all}
use select_mode_network.SelectClientThread.Gathered.{recv_loop-Gathered}

-- The call has returned 0, the messages `ms` are queued behind `old`, and `rest` is retained.
pub record Queued {P : MemPool} (sock : Option ℕ) (old ms : List Bytes) (rest : Bytes)
    (result : Result (ThreadEnv P × SelectClientThread)) : Type 0 where
  pub env' : ThreadEnv P
  pub c' : SelectClientThread
  pub returns : result ≡ returned (ℤ.pos 0) (env', c')
  pub open_still : c'.sock ≡ sock
  pub keeps : retained_by c'.recv ≡ rest
  pub valid : ReceiverValid c'.recv
  pub holds : Holds env' c'.recv_queue (old ++ ms)

-- `SelectClient` with the same bytes, and this client with `OnRun` behind its call, leave the
-- subclass in the same state, and retain the same bytes.
pub record Agrees {P : MemPool} {W : Type 0} (on_recv_msg : W → Bytes → W) (w : W)
    (theirs : State.Result (Receiver × W)) (ours : Result (ThreadEnv P × SelectClientThread))
    : Type 0 where
  pub r' : Receiver
  pub w' : W
  pub env' : ThreadEnv P
  pub c' : SelectClientThread
  pub they_return : theirs ≡ State.returned (ℤ.pos 0) (r', w')
  pub we_return : ours ≡ returned (ℤ.pos 0) (env', c')
  pub run_returns : (on_run on_recv_msg env' c' w).0 ≡ ℤ.pos 0
  pub same_state : (on_run on_recv_msg env' c' w).3 ≡ w'
  pub same_rest : retained_by c'.recv ≡ retained_by r'
  pub queue_empty : (on_run on_recv_msg env' c' w).2.recv_queue ≡ []

module _ {P : MemPool} (fuel : ℕ) (recv : ℕ → Option Bytes) (env : ThreadEnv P)
    (c : SelectClientThread) (bytes : Bytes) (v : ReceiverValid c.recv)
    (got : recv (buffer_size - c.recv.retain_size) ≡ some bytes) (some_bytes : 0 < length bytes)
    (fits : length bytes ≤ buffer_size - c.recv.retain_size) where
  pub goes_on_to_receive : processor_recv fuel recv env c ≡ receive fuel env c bytes
  unfolding processor_recv
  goes_on_to_receive = rw (got, lt→leb (length bytes) 0 some_bytes, processor_recv)

  -- If the retained and the received bytes are cut into messages with a rest left over, and these
  -- with those in the queue are not too many, the call returns 0 with the socket as it was: the queue
  -- holds the messages in order behind those it held, in blocks that are in use, the rest is
  -- retained, and the invariant of the buffer is kept.
  pub processor_recv-Queued :
      {old ms : List Bytes} {rest : Bytes}
      → Cuts (retained_by c.recv ++ bytes) ms (left rest)
      → length ms < fuel
      → Holds env c.recv_queue old
      → length c.recv_queue + length ms ≤ max_accumulate_count
      → Queued c.sock old ms rest (processor_recv fuel recv env c)
  unfolding receive
  processor_recv-Queued {old} {ms} {rest} cuts enough h few =
      let mem = write_at c.recv.recv_buf c.recv.retain_size bytes in
      let (unread, valid, size) = arrived c.recv bytes v fits in
      let g = recv_loop-Gathered mem cuts fuel _ env c.recv_queue old valid unread enough h few in
      let kept =
        move_data_to_front-Keeps mem g.o' rest g.valid g.behind size (Cuts-left_front cuts) in
      record {
        env' = g.env';
        c' = record c {
          recv = keeping (OBuffer.move_data_to_front mem g.o');
          recv_queue = g.queue';
        };
        returns = rw (goes_on_to_receive, receive, g.ends, after_loop);
        open_still = refl;
        keeps = kept.same;
        valid = kept.valid;
        holds = g.holds;
      }

  module _ {W : Type 0} (on_recv_msg : W → Bytes → W) (w : W) where
    on_run-open :
        (env' : ThreadEnv P) (c' : SelectClientThread) (fd : ℕ)
        → c'.sock ≡ some fd
        → on_run on_recv_msg env' c' w ≡ (
          ℤ.pos 0,
          (take_loop on_recv_msg env' c'.recv_queue w).0,
          record c' { recv_queue = [] },
          (take_loop on_recv_msg env' c'.recv_queue w).1,
        )
    unfolding on_run
    on_run-open env' c' fd e =
        ap
          (λ (t : Option ℕ). elim t as (λ x. ℤ × ThreadEnv P × SelectClientThread × W) [
            | none ↦ (ℤ.negsuc 0, env', c', w)
            | some _ ↦ (
              ℤ.pos 0,
              (take_loop on_recv_msg env' c'.recv_queue w).0,
              record c' { recv_queue = [] },
              (take_loop on_recv_msg env' c'.recv_queue w).1,
            )
          ])
          e

    -- From an open client with an empty queue, if the retained and the received bytes are cut into
    -- messages, each at least a header and not too many, with a rest left over: `ProcessorRecv` with
    -- `OnRun` behind it returns 0 and leaves the state of the subclass and the retained bytes that
    -- `processorRecv` of `SelectClient`, which has no queue, leaves on the same bytes; the queue is
    -- empty again.
    pub recv_and_run-Agrees :
        (fd : ℕ) {ms : List Bytes} {rest : Bytes}
        → c.sock ≡ some fd
        → c.recv_queue ≡ []
        → Cuts (retained_by c.recv ++ bytes) ms (left rest)
        → Whole ms
        → length ms < fuel
        → length ms ≤ max_accumulate_count
        → Agrees on_recv_msg w
            (State.processor_recv on_recv_msg fuel recv c.recv w)
            (processor_recv fuel recv env c)
    recv_and_run-Agrees fd {ms} {rest} is_open empty cuts whole enough few =
        let theirs =
          processor_recv-Taken on_recv_msg fuel recv c.recv w bytes v got some_bytes fits cuts
            enough in
        let ours =
          processor_recv-Queued {old = []} cuts enough
            (subst (λ q. Holds env q []) (sym empty) (record { blocks = tt; live = tt }))
            (omega (arith, few, ap length empty)) in
        let run = on_run-open ours.env' ours.c' fd (ours.open_still ∙ is_open) in
        record {
          r' = theirs.r';
          w' = handle_all on_recv_msg w ms;
          env' = ours.env';
          c' = ours.c';
          they_return = theirs.returns;
          we_return = ours.returns;
          run_returns = ap (λ t. t.0) run;
          same_state =
              ap (λ t. t.3) run
              ∙ take_loop-handle_all on_recv_msg ours.env' ours.c'.recv_queue ms w ours.holds.blocks
                  (Cuts-Sized cuts whole);
          same_rest = ours.keeps ∙ sym theirs.keeps;
          queue_empty = ap (λ t. t.2.recv_queue) run;
        }
