-- ===== src/SelectClientThread/Tests.antt =====
-- The theorems on `SelectClient_Thread` at a concrete client.
use select_mode_network.Base.{
  ℕ, ◌≡◌, refl, none, some, List, [], ◌∷◌, ◌++◌, arith, length, replicate, length-replicate,
}
use select_mode_network.Base.Int.{ℤ}
use select_mode_network.Buffer.Data.{Bytes, ushort_of}
use select_mode_network.Protocol.{max_accumulate_count}
use select_mode_network.Framing.Cuts.{Cuts, next, rest, front, left}
use select_mode_network.ClientSocket.Received.{retained_by}
use select_mode_network.ClientSocket.Fixtures.{bump, greedy, array, hello, valid_recv, socket}
use select_mode_network.ClientSocket.State.{create}
use select_mode_network.SelectClient.State
use select_mode_network.SelectClientThread.State.{ThreadEnv, SelectClientThread, init}
use select_mode_network.SelectClientThread.Receive.{processor_recv}
use select_mode_network.SelectClientThread.Pipeline.{
  Queued, Agrees, processor_recv-Queued, recv_and_run-Agrees,
}
use select_mode_network.SelectClientThread.Send.{Sending, send_thread}
use select_mode_network.ClientSocket.Send
use select_mode_network.SelectClientThread.Matches.{Matches, as_env, as_socket}
use select_mode_network.SelectClientThread.SendThread.{send_thread-Matches}
use select_mode_network.SelectClientThread.Crowded.{HungUp, processor_recv-HungUp}

abbrev world : ThreadEnv bump
world = record {
  pool = 1;
  heap = λ a. [];
  counters = record {
    msg_times = some (ℤ.pos 0);
    recv_queue_size = none;
    send_times = none;
    send_queue_size = none;
  };
}

abbrev fresh_client : SelectClientThread
fresh_client = init array array

abbrev client : SelectClientThread
client = record fresh_client { sock = some 4; recv = socket.recv }

abbrev busy_client : SelectClientThread
busy_client = record client { recv_queue = replicate max_accumulate_count 1 }

-- A message, and two bytes of the next.
abbrev bytes : Bytes
bytes = 6 ∷ 0 ∷ 1 ∷ 0 ∷ 2 ∷ 0 ∷ 9 ∷ 0 ∷ []

bytes-Cuts : Cuts bytes (hello ∷ []) (left (9 ∷ 0 ∷ []))
unfolding front ushort_of
bytes-Cuts = next 6 refl (omega arith) (rest refl)

retained-Cuts : Cuts (retained_by client.recv ++ bytes) (hello ∷ []) (left (9 ∷ 0 ∷ []))
unfolding create
retained-Cuts = bytes-Cuts

abbrev collect : List Bytes → Bytes → List Bytes
collect seen message = message ∷ seen

processor_recv-Queued_example :
    Queued
      (some 4)
      []
      (hello ∷ [])
      (9 ∷ 0 ∷ [])
      (processor_recv 5 (λ room. some bytes) world client)
unfolding create init
processor_recv-Queued_example =
    processor_recv-Queued 5 (λ room. some bytes) world client bytes valid_recv refl (omega arith)
      (omega arith) retained-Cuts (omega arith) (record { blocks = tt; live = tt }) (omega arith)

recv_and_run-Agrees_example :
    Agrees collect []
      (State.processor_recv collect 5 (λ room. some bytes) client.recv [])
      (processor_recv 5 (λ room. some bytes) world client)
unfolding create init
recv_and_run-Agrees_example =
    recv_and_run-Agrees 5 (λ room. some bytes) world client bytes valid_recv refl (omega arith)
      (omega arith) collect [] 4 refl refl retained-Cuts (omega arith, tt) (omega arith)
      (omega arith)

many : length busy_client.recv_queue ≡ max_accumulate_count
many = length-replicate {A = ℕ} max_accumulate_count 1

processor_recv-HungUp_example : HungUp (processor_recv 5 (λ room. some bytes) world busy_client)
unfolding create
processor_recv-HungUp_example =
    processor_recv-HungUp 5 (λ room. some bytes) world busy_client bytes 4 refl valid_recv refl
      (omega arith) (omega arith) retained-Cuts (omega arith) (omega (arith, many))
      (omega (arith, many))

-- A message in the queue, which the kernel takes at once.
abbrev sender : Sending bump
sender = record {
  env = record world { pool = 2; heap = λ a. hello };
  client = record client { send_queue = record { size = 6; data_at = 1 } ∷ [] };
  wire = record { clock = 0; sent = [] };
}

send_thread-Matches_example :
    Matches
      (send_thread greedy 20 sender)
      (Send.processor_send greedy 20 (as_env sender) (as_socket sender))
send_thread-Matches_example = send_thread-Matches greedy 20 sender 4 refl
