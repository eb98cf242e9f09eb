-- ===== src/ClientSocket/Receive.antt =====
-- `ClientSocket::ProcessorRecv`. What the class that handles the messages does with one is a
-- parameter: it is given an `IMsgSend*`, so it acts on the sending half of the socket only, and on
-- what the sockets share. So is `recv`, which is given the room in the buffer: `none` for an error.
use select_mode_network.Base.{
  ℕ, ◌+◌, ◌-◌, Bool, Option, none, some, if◌then◌else◌, leb, length, write_at,
}
use select_mode_network.Base.Int.{ℤ, pos_part}
use select_mode_network.Buffer.Data.{Bytes}
use select_mode_network.Buffer.OBuffer
use select_mode_network.Buffer.OBuffer.{OBuffer}
use select_mode_network.Memory.Api.{MemPool}
use select_mode_network.Protocol.{buffer_size}
use select_mode_network.Framing.Loop.{Received, starved, aborted, drained, oversized, recv_loop}
use select_mode_network.ClientSocket.State.{
  Env, Sender, Receiver, ClientSocket, Counters, Call, own_array, close,
}
use select_mode_network.ClientSocket.State

-- `(*_testMsgTimes)++`, if the pointer is set.
unfoldable pub count_message : Bool → Counters → Counters
count_message counted k = if counted then record k { msg_times = k.msg_times + 1 } else k

unfoldable pub count_recv : Bool → Counters → Counters
count_recv counted k = if counted then record k { recv_times = k.recv_times + 1 } else k

module _ {P : MemPool} (on_msg_handle : Env P × Sender → Bytes → Env P × Sender) where
  -- What the loop does with a message: count it, and hand it over.
  unfoldable pub handle_message : Env P × Sender → Bytes → Env P × Sender
  unfolding count_message
  handle_message (env, s) message =
      on_msg_handle (record env { counters = count_message s.counted env.counters }, s) message

  -- Behind the loop: the rest goes to the front of the buffer.
  unfoldable pub keep_rest : Bytes → OBuffer → ClientSocket → Env P × Sender → Call P
  keep_rest mem o c (env, s) =
      let (mem', o') = OBuffer.move_data_to_front mem o in
      State.returned (ℤ.pos 0) env (record c {
        recv = record {
          o_recv = o';
          retain_size = pos_part (OBuffer.can_read o');
          recv_buf = mem';
        };
        send = s;
      })

  unfoldable pub hang_up : Env P → ClientSocket → Call P
  hang_up env c = let (env', c') = close env c in State.returned (ℤ.negsuc 0) env' c'

  unfoldable pub after_loop : Bytes → ClientSocket → Received (Env P × Sender) → Call P
  unfolding keep_rest hang_up
  after_loop mem c starved = State.starved
  after_loop mem c aborted = State.aborted
  after_loop mem c (drained o w) = keep_rest mem o c w
  after_loop mem c (oversized o (env, s)) =
      hang_up env
        (record c { recv = record { o_recv = o; retain_size = 0; recv_buf = mem }; send = s })

  unfoldable pub receive : ℕ → Env P → ClientSocket → Bytes → Call P
  unfolding after_loop handle_message
  receive fuel env c bytes =
      let r = c.recv in
      let mem = write_at r.recv_buf r.retain_size bytes in
      let o = OBuffer.set_buffer own_array (length bytes + r.retain_size) r.o_recv in
      after_loop mem c (recv_loop handle_message fuel mem o (env, c.send))

  unfoldable pub processor_recv : ℕ → (ℕ → Option Bytes) → Env P → ClientSocket → Call P
  unfolding receive hang_up count_recv
  processor_recv fuel recv env c =
      let env' = record env { counters = count_recv c.send.counted env.counters } in
      elim (recv (buffer_size - c.recv.retain_size)) [
        | none ↦ hang_up env' c
        | some bytes ↦ if leb (length bytes) 0 then hang_up env' c else receive fuel env' c bytes
      ]
