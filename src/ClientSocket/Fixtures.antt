-- ===== src/ClientSocket/Fixtures.antt =====
-- A socket over a pool that hands out one address after another, with a kernel that takes all it is
-- given and a handler that echoes: data for the tests.
use select_mode_network.Base.{
  ℕ, suc, ◌<◌, ◌≡◌, refl, [], ◌∷◌, true, some, arith, replicate, length-replicate, length,
}
use select_mode_network.Base.Int.{ℤ}
use select_mode_network.Buffer.Data.{Bytes}
use select_mode_network.Memory.Api.{MemPool}
use select_mode_network.Protocol.{buffer_size}
use select_mode_network.ClientSocket.State.{Env, Sender, ClientSocket, create, init}
use select_mode_network.ClientSocket.Send.{Kernel, send_msg}
use select_mode_network.ClientSocket.Pending.{pending, SValid, TakesAtMost}
use select_mode_network.ClientSocket.Received.{RValid, retained}
use select_mode_network.ClientSocket.Initial.{create-Valid}

abbrev pub bump : MemPool
bump = record {
  State = ℕ;
  Live = λ s a. a < s;
  alloc = λ s size. (s, suc s);
  free = λ s p size. s;
  alloc_fresh = λ s size h. absurd (omega arith);
  alloc_new = λ s size. omega arith;
  alloc_old = λ s size a h. omega arith;
  free_old = λ s p size a h n. h;
}

abbrev pub world : Env bump
world = record {
  pool = 1;
  heap = λ a. [];
  counters = record { msg_times = 0; send_times = 0; send_queue_size = ℤ.pos 0; recv_times = 0 };
  clock = 0;
}

abbrev pub array : Bytes
array = replicate buffer_size 0

pub array_size : length array ≡ buffer_size
array_size = length-replicate {A = ℕ} buffer_size 0

abbrev pub socket : ClientSocket
socket = create 5 array array

abbrev pub greedy : Kernel
greedy = record { select = λ t. ℤ.pos 1; writable = λ t. true; send = λ t len. ℤ.pos len }

pub greedy-TakesAtMost : TakesAtMost greedy
greedy-TakesAtMost t len = omega arith

abbrev pub echo : Env bump × Sender → Bytes → Env bump × Sender
echo (env, s) m = let r = send_msg env s m in (r.1, r.2)

abbrev pub hello : Bytes
hello = 6 ∷ 0 ∷ 1 ∷ 0 ∷ 2 ∷ 0 ∷ []

pub socket-open : socket.send.sock ≡ some 5
unfolding create init
socket-open = refl

pub valid_send : SValid world socket.send
valid_send = (create-Valid world 5 array array array_size array_size).0

pub valid_recv : RValid socket
valid_recv = (create-Valid world 5 array array array_size array_size).1

pub nothing_retained : retained socket ≡ []
nothing_retained = (create-Valid world 5 array array array_size array_size).3

pub nothing_pending : pending world socket.send ≡ []
nothing_pending = (create-Valid world 5 array array array_size array_size).2
