-- ===== src/SelectClientThread/State.antt =====
-- The fields of `SelectClient_Thread`, `Connect`, `Close`, and what puts messages into its sending
-- queue. The lock of `Close` is left out: the calls are run one after another.
use select_mode_network.Base.{
  ℕ, Bool, true, false, Option, none, some, List, [], ◌∷◌, if◌then◌else◌, take,
}
use select_mode_network.Base.Int.{ℤ, ◌+ℤ◌}
use select_mode_network.Buffer.Data.{Bytes, ushort_of}
use select_mode_network.Buffer.OBuffer
use select_mode_network.Buffer.OBuffer.{OBuffer}
use select_mode_network.Buffer.IoBuffer
use select_mode_network.Buffer.IoBuffer.{IoBuffer}
use select_mode_network.Memory.Api.{MemPool}
use select_mode_network.Protocol.{buffer_size}
use select_mode_network.Queue.Api
use select_mode_network.ClientSocket.State.{QmSend, Receiver, own_array}
use select_mode_network.ClientSocket.Send.{store}

-- What the four `_test…` pointers point to; `none` is a null pointer.
pub record TestCounters : Type 0 where
  pub msg_times : Option ℤ
  pub recv_queue_size : Option ℤ
  pub send_times : Option ℤ
  pub send_queue_size : Option ℤ

-- `heap` holds the bytes at an address of the pool, as far as they were written.
pub record ThreadEnv (P : MemPool) : Type 0 where
  pub pool : P.State
  pub heap : ℕ → Bytes
  pub counters : TestCounters

-- `recv_queue` holds the addresses of messages, oldest first. `_package` is filled anew for each
-- message, and has no field.
pub record SelectClientThread : Type 0 where
  pub sock : Option ℕ
  pub recv_queue : List ℕ
  pub send_queue : List QmSend
  pub io_send : IoBuffer
  pub o_msg : OBuffer
  pub send_buf : Bytes
  pub recv : Receiver

-- The constructor; the arrays are not initialised.
unfoldable pub init : Bytes → Bytes → SelectClientThread
init recv_buf send_buf = record {
  sock = none;
  recv_queue = [];
  send_queue = [];
  io_send = IoBuffer.set_buffer own_array buffer_size IoBuffer.init;
  o_msg = OBuffer.init;
  send_buf = send_buf;
  recv = record { o_recv = OBuffer.init; retain_size = 0; recv_buf = recv_buf };
}

-- `(*p) += n`, if the pointer is set.
abbrev pub add : Option ℤ → ℤ → Option ℤ
add none n = none
add (some k) n = some (k +ℤ n)

-- `ClearBuffer`
unfoldable pub clear_buffer : SelectClientThread → SelectClientThread
clear_buffer c = record c {
  io_send = IoBuffer.set_buffer own_array buffer_size c.io_send;
  o_msg = OBuffer.set_buffer none 0 c.o_msg;
  recv = record r { o_recv = OBuffer.set_buffer none 0 r.o_recv };
}
  where
    open c use {recv as r}

unfoldable pub is_run : SelectClientThread → Bool
is_run c = elim c.sock [ none ↦ false | some _ ↦ true ]

module _ {P : MemPool} where
  abbrev pub count_received : ℤ → ThreadEnv P → ThreadEnv P
  count_received n env =
      let k = env.counters in
      record env { counters = record k { recv_queue_size = add k.recv_queue_size n } }

  abbrev pub count_sending : ℤ → ThreadEnv P → ThreadEnv P
  count_sending n env =
      let k = env.counters in
      record env { counters = record k { send_queue_size = add k.send_queue_size n } }

  -- `Free(msg, msg->size)`
  unfoldable pub free_message : ThreadEnv P → ℕ → ThreadEnv P
  free_message env p = record env { pool = P.free env.pool p (ushort_of (env.heap p)) }

  -- The two loops of `ClearQueue`.
  unfoldable pub clear_recv_queue : ThreadEnv P → List ℕ → ThreadEnv P
  unfolding free_message
  clear_recv_queue env [] = env
  clear_recv_queue env (p ∷ ps) =
      clear_recv_queue (free_message (count_received (ℤ.negsuc 0) env) p) ps

  unfoldable pub clear_send_queue : ThreadEnv P → List QmSend → ThreadEnv P
  clear_send_queue env [] = env
  clear_send_queue env (q ∷ qs) =
      let env' = count_sending (ℤ.negsuc 0) env in
      clear_send_queue (record env' { pool = P.free env'.pool q.data_at q.size }) qs

  unfoldable pub close : ThreadEnv P → SelectClientThread → ThreadEnv P × SelectClientThread
  unfolding clear_recv_queue clear_send_queue clear_buffer
  close env c = elim c.sock [
    | none ↦ (env, c)
    | some _ ↦ (
      clear_send_queue (clear_recv_queue env c.recv_queue) c.send_queue,
      clear_buffer (record c { sock = none; recv_queue = []; send_queue = [] }),
    )
  ]

  -- `socket` gives the new socket, if any, and `connects` says whether `connect` succeeds.
  unfoldable pub connect :
      Option ℕ → Bool → ThreadEnv P → SelectClientThread → ℤ × ThreadEnv P × SelectClientThread
  unfolding close
  connect socket connects env c =
      let (env', c') = close env c in
      let opened = record c' { sock = socket } in
      let (env'', c'') = close env' opened in
      elim socket [
        | none ↦ (ℤ.negsuc 0, env', opened)
        | some _ ↦ if connects then (ℤ.pos 0, env', opened) else (ℤ.negsuc 0, env'', c'')
      ]

  unfoldable pub send_data :
      ThreadEnv P → SelectClientThread → Bytes → ℕ → ℤ × ThreadEnv P × SelectClientThread
  send_data env c src len =
      let k = env.counters in
      let env' =
        count_sending (ℤ.pos 1)
          (record env { counters = record k { send_times = add k.send_times (ℤ.pos 1) } }) in
      let (p, pool') = P.alloc env'.pool len in
      elim c.sock [
        | none ↦ (ℤ.negsuc 0, env, c)
        | some _ ↦ (
          ℤ.pos 0,
          record env' { pool = pool'; heap = store env'.heap p (take len src) },
          record c { send_queue = Api.push c.send_queue (record { size = len; data_at = p }) },
        )
      ]

  unfoldable pub send_msg :
      ThreadEnv P → SelectClientThread → Bytes → ℤ × ThreadEnv P × SelectClientThread
  unfolding send_data
  send_msg env c msg = elim c.sock [
    | none ↦ (ℤ.negsuc 0, env, c)
    | some _ ↦ send_data env c msg (ushort_of msg)
  ]
