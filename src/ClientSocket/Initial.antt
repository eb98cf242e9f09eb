-- ===== src/ClientSocket/Initial.antt =====
-- A new socket has received nothing, and has nothing to send.
use select_mode_network.Base.{ℕ, ◌≡◌, refl, inl, [], arith, length}
use select_mode_network.Buffer.Data.{Bytes}
use select_mode_network.Buffer.IoBuffer
use select_mode_network.Buffer.OBuffer
use select_mode_network.Memory.Api.{MemPool}
use select_mode_network.Protocol.{buffer_size}
use select_mode_network.Framing.Cuts.{front}
use select_mode_network.ClientSocket.State.{Env, create}
use select_mode_network.ClientSocket.Pending.{SValid, pending}
use select_mode_network.ClientSocket.Received.{RValid, retained}

-- A socket that `Create` has made of two arrays of the size of its buffers satisfies the invariants
-- of both halves, has nothing retained and nothing pending.
pub create-Valid :
    {P : MemPool} (env : Env P) (fd : ℕ) (recv_buf send_buf : Bytes)
    → length recv_buf ≡ buffer_size
    → length send_buf ≡ buffer_size
    → let c = create fd recv_buf send_buf in
      SValid env c.send × RValid c × (pending env c.send ≡ []) × (retained c ≡ [])
unfolding create IoBuffer.set_buffer OBuffer.init front
create-Valid env fd recv_buf send_buf h k = (
  record {
    buffer = omega arith;
    at_front = refl;
    full_size = refl;
    stored = tt;
    facing = inl (refl, refl, refl);
  },
  record { array = h; room = omega arith; waits = refl },
  refl,
  refl,
)
