-- ===== src/SelectClientThread/Receive.antt =====
-- `SelectClient_Thread::ProcessorRecv` and `RecvThread`, which put the messages that arrive into the
-- receiving queue, and `OnRun`, which takes them out. What a subclass does with a message
-- (`OnRecvMsg`) is a parameter, on a state of its own. `recv` is given the room in the buffer; `none`
-- is an error.
use select_mode_network.Base.{
  ℕ, zero, suc, ◌+◌, ◌-◌, Bool, Option, none, some, List, [], ◌∷◌, if◌then◌else◌, ltb, leb, length,
  take, write_at,
}
use select_mode_network.Base.Int.{ℤ, pos_part, ltb_ℤ}
use select_mode_network.Buffer.Data.{Bytes, ushort_of}
use select_mode_network.Buffer.OBuffer
use select_mode_network.Buffer.OBuffer.{OBuffer}
use select_mode_network.Memory.Api.{MemPool}
use select_mode_network.Protocol.{buffer_size, max_accumulate_count, package_of}
use select_mode_network.Queue.Api
use select_mode_network.Framing.Step.{read_package, wait, oversize, packed, fault}
use select_mode_network.ClientSocket.State.{own_array}
use select_mode_network.ClientSocket.Send.{store}
use select_mode_network.SelectClientThread.State.{
  ThreadEnv, SelectClientThread, add, count_received, free_message, close,
}

-- How the receive loop ends: at a `break`, with too many messages in the queue, or at a failed
-- assertion. `starved` is no end: the fuel ran out.
pub data Received (P : MemPool) : Type 0 where
  starved aborted : Received P
  drained crowded : OBuffer → ThreadEnv P → List ℕ → Received P

-- What a member function that may fail returns.
pub data Result (A : Type 0) : Type 0 where
  starved aborted : Result A
  returned : ℤ → A → Result A

module _ {P : MemPool} where
  -- A message is counted, copied into a block of the pool, and queued.
  unfoldable pub queue_message : ThreadEnv P → List ℕ → Bytes → ThreadEnv P × List ℕ
  queue_message env queue message =
      let k = env.counters in
      let env' =
        count_received (ℤ.pos 1)
          (record env { counters = record k { msg_times = add k.msg_times (ℤ.pos 1) } }) in
      let (p, pool') = P.alloc env'.pool (length message) in
      (record env' { pool = pool'; heap = store env'.heap p message }, Api.push queue p)

  -- A length above the maximum is a failed assertion here.
  unfoldable pub recv_loop : ℕ → Bytes → OBuffer → ThreadEnv P → List ℕ → Received P
  unfolding queue_message
  recv_loop zero mem o env queue = Received.starved
  recv_loop (suc fuel) mem o env queue = elim (read_package mem o) [
    | wait o' ↦ drained o' env queue
    | oversize o' ↦ Received.aborted
    | packed message o' ↦
        let (env', queue') = queue_message env queue message in
        let rest = recv_loop fuel mem o' env' queue' in
        if ltb max_accumulate_count (Api.size queue') then crowded o' env' queue' else rest
    | fault ↦ Received.aborted
  ]

  unfoldable pub hang_up :
      ThreadEnv P → SelectClientThread → Result (ThreadEnv P × SelectClientThread)
  unfolding close
  hang_up env c = returned (ℤ.negsuc 0) (close env c)

  -- Behind the loop: the rest goes to the front of the buffer.
  unfoldable pub after_loop :
      Bytes → SelectClientThread → Received P → Result (ThreadEnv P × SelectClientThread)
  unfolding hang_up
  after_loop mem c Received.starved = Result.starved
  after_loop mem c Received.aborted = Result.aborted
  after_loop mem c (crowded o env queue) = hang_up env (record c {
    recv = record { o_recv = o; retain_size = 0; recv_buf = mem };
    recv_queue = queue;
  })
  after_loop mem c (drained o env queue) =
      let (mem', o') = OBuffer.move_data_to_front mem o in
      returned (ℤ.pos 0) (
        env,
        record c {
          recv = record {
            o_recv = o';
            retain_size = pos_part (OBuffer.can_read o');
            recv_buf = mem';
          };
          recv_queue = queue;
        },
      )

  unfoldable pub receive :
      ℕ → ThreadEnv P → SelectClientThread → Bytes → Result (ThreadEnv P × SelectClientThread)
  unfolding after_loop recv_loop
  receive fuel env c bytes =
      let r = c.recv in
      let mem = write_at r.recv_buf r.retain_size bytes in
      let o = OBuffer.set_buffer own_array (length bytes + r.retain_size) r.o_recv in
      after_loop mem c (recv_loop fuel mem o env c.recv_queue)

  unfoldable pub processor_recv :
      ℕ
      → (ℕ → Option Bytes)
      → ThreadEnv P
      → SelectClientThread
      → Result (ThreadEnv P × SelectClientThread)
  unfolding receive
  processor_recv fuel recv env c =
      let retained = c.recv.retain_size in
      elim (recv (buffer_size - retained)) [
        | none ↦ returned (ℤ.negsuc 0) (env, c)
        | some bytes ↦
            if leb (length bytes) 0
            then returned (ℤ.negsuc 0) (env, c)
            else receive fuel env c bytes
      ]

  -- `RecvThread` behind a call of `ProcessorRecv`: only -1 is tested for.
  unfoldable pub after_recv :
      Result (ThreadEnv P × SelectClientThread) → Result (ThreadEnv P × SelectClientThread)
  unfolding hang_up
  after_recv Result.starved = Result.starved
  after_recv Result.aborted = Result.aborted
  after_recv (returned (ℤ.negsuc zero) (env, c)) = hang_up env c
  after_recv (returned (ℤ.negsuc (suc n)) (env, c)) = returned (ℤ.pos 0) (env, c)
  after_recv (returned (ℤ.pos n) (env, c)) = returned (ℤ.pos 0) (env, c)

  -- `select` returned `n`, and said whether there is something to read.
  unfoldable pub recv_thread :
      ℕ
      → ℤ
      → Bool
      → (ℕ → Option Bytes)
      → ThreadEnv P
      → SelectClientThread
      → Result (ThreadEnv P × SelectClientThread)
  unfolding processor_recv after_recv hang_up
  recv_thread fuel n readable recv env c = elim c.sock [
    | none ↦ returned (ℤ.negsuc 0) (env, c)
    | some _ ↦
        if ltb_ℤ n (ℤ.pos 0)
        then hang_up env c
        else if readable
        then after_recv (processor_recv fuel recv env c)
        else returned (ℤ.pos 0) (env, c)
  ]

module _ {P : MemPool} {W : Type 0} (on_recv_msg : W → Bytes → W) where
  -- The loop of `OnRun`: each message is copied to `_package`, freed, and handed over.
  unfoldable pub take_loop : ThreadEnv P → List ℕ → W → ThreadEnv P × W
  unfolding free_message
  take_loop env [] w = (env, w)
  take_loop env (p ∷ ps) w =
      let counted = count_received (ℤ.negsuc 0) env in
      let msg = counted.heap p in
      take_loop (free_message counted p) ps (on_recv_msg w (package_of (take (ushort_of msg) msg)))

  unfoldable pub on_run :
      ThreadEnv P → SelectClientThread → W → ℤ × ThreadEnv P × SelectClientThread × W
  unfolding take_loop
  on_run env c w = elim c.sock [
    | none ↦ (ℤ.negsuc 0, env, c, w)
    | some _ ↦
        let (env', w') = take_loop env c.recv_queue w in
        (ℤ.pos 0, env', record c { recv_queue = [] }, w')
  ]
