-- ===== src/ClientSocket/State.antt =====
-- The fields of `ClientSocket`, what it shares with the other sockets of its thread, and `Close`.
-- The locks of `Close` are left out: the calls of one socket are run one after another.
use select_mode_network.Base.{ℕ, Bool, false, Option, none, some, List, [], ◌∷◌, if◌then◌else◌}
use select_mode_network.Base.Int.{ℤ, ◌+ℤ◌}
use select_mode_network.Buffer.Data.{Bytes, Ptr}
use select_mode_network.Buffer.OBuffer
use select_mode_network.Buffer.OBuffer.{OBuffer}
use select_mode_network.Buffer.IoBuffer
use select_mode_network.Buffer.IoBuffer.{IoBuffer}
use select_mode_network.Memory.Api.{MemPool}
use select_mode_network.Protocol.{buffer_size}

-- `struct QMSend`; an address is a number, and 0 is the null pointer of `QMSend()`.
pub record QmSend : Type 0 where
  pub size : ℕ
  pub data_at : ℕ

abbrev pub no_send : QmSend
no_send = record { size = 0; data_at = 0 }

-- A pointer to an array inside the socket. It is only ever compared with null.
abbrev pub own_array : Ptr
own_array = some 0

-- The server's counters, to which the four `_test…` pointers of its sockets point. They count far
-- below the range of `int`.
pub record Counters : Type 0 where
  pub msg_times : ℕ
  pub send_times : ℕ
  pub send_queue_size : ℤ
  pub recv_times : ℕ

-- `heap` holds the bytes at an address of the pool, as far as they were written. `clock` counts the
-- calls of `select`.
pub record Env (P : MemPool) : Type 0 where
  pub pool : P.State
  pub heap : ℕ → Bytes
  pub counters : Counters
  pub clock : ℕ

-- `_package` is filled anew for each message, and has no field.
pub record Receiver : Type 0 where
  pub o_recv : OBuffer
  pub retain_size : ℕ
  pub recv_buf : Bytes

-- `sock` is `none` for INVALID_SOCKET. `counted` says whether the four counter pointers are set:
-- the server sets all four or none. `sent` has no counterpart in the source: the bytes that the
-- kernel took from this socket.
pub record Sender : Type 0 where
  pub sock : Option ℕ
  pub send_queue : List QmSend
  pub io_send : IoBuffer
  pub o_msg : OBuffer
  pub send_buf : Bytes
  pub counted : Bool
  pub sent : Bytes

pub record ClientSocket : Type 0 where
  pub recv : Receiver
  pub send : Sender
  pub ref_count : ℤ

-- The constructor; the two arrays are not initialised.
unfoldable pub init : ℕ → Bytes → Bytes → ClientSocket
init sock recv_buf send_buf = record {
  recv = record { o_recv = OBuffer.init; retain_size = 0; recv_buf = recv_buf };
  send = record {
    sock = some sock;
    send_queue = [];
    io_send = IoBuffer.set_buffer own_array buffer_size IoBuffer.init;
    o_msg = OBuffer.init;
    send_buf = send_buf;
    counted = false;
    sent = [];
  };
  ref_count = ℤ.pos 0;
}

unfoldable pub create : ℕ → Bytes → Bytes → ClientSocket
unfolding init
create sock recv_buf send_buf = record (init sock recv_buf send_buf) { ref_count = ℤ.pos 1 }

unfoldable pub release : ClientSocket → ClientSocket
release c = record c { ref_count = c.ref_count +ℤ ℤ.negsuc 0 }

-- `(*_testSendQueueSize) += n`, if the pointer is set.
unfoldable pub count_queue : Bool → ℤ → Counters → Counters
count_queue counted n k =
    if counted then record k { send_queue_size = k.send_queue_size +ℤ n } else k

-- `ClearBuffer`
unfoldable pub clear_buffer : ClientSocket → ClientSocket
clear_buffer c = record c {
  recv = record recv { o_recv = OBuffer.set_buffer none 0 recv.o_recv };
  send = record send {
    io_send = IoBuffer.set_buffer own_array buffer_size send.io_send;
    o_msg = OBuffer.set_buffer none 0 send.o_msg;
  };
}
  where
    open c use {recv, send}

module _ {P : MemPool} where
  -- `_memeryPool.Free(data, size)`
  unfoldable pub free_block : Env P → QmSend → Env P
  free_block env q = record env { pool = P.free env.pool q.data_at q.size }

  -- The loop of `ClearQueue`: pop and free until the queue is empty.
  unfoldable pub clear_queue : Bool → Env P → List QmSend → Env P
  unfolding free_block
  clear_queue counted env [] = env
  clear_queue counted env (q ∷ qs) =
      clear_queue counted
        (free_block (record env { counters = count_queue counted (ℤ.negsuc 0) env.counters }) q) qs

  unfoldable pub close : Env P → ClientSocket → Env P × ClientSocket
  unfolding clear_queue clear_buffer
  close env c = elim c.send.sock [
    | none ↦ (env, c)
    | some _ ↦ (
      clear_queue c.send.counted env c.send.send_queue,
      clear_buffer (record c { send = record send { sock = none; send_queue = [] } }),
    )
  ]
    where
      open c use {send}

-- What a member function that may fail returns: its `int` and the new state. `aborted` is a
-- failed assertion, and `starved` a loop whose fuel ran out.
pub data Call (P : MemPool) : Type 0 where
  aborted starved : Call P
  returned : ℤ → Env P → ClientSocket → Call P
