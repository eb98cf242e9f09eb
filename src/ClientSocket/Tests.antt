-- ===== src/ClientSocket/Tests.antt =====
-- The theorems on `ClientSocket` at concrete sockets.
use select_mode_network.Base.{
  ℕ, suc, ◌≤◌, ◌≡◌, refl, List, [], ◌∷◌, ◌++◌, ◌-◌, ◌∙◌, ap, length, some, arith, take,
}
use select_mode_network.Base.Int.{ℤ}
use mathlib.Core.List.{flatten}
use select_mode_network.Buffer.Data.{Bytes, ushort_of}
use select_mode_network.Protocol.{buffer_size}
use select_mode_network.Framing.Cuts.{Cuts, next, rest, refuse, hang, front, left, refused, stuck}
use select_mode_network.ClientSocket.State.{
  Env, Sender, ClientSocket, create, init, starved, returned, close, Receiver,
}
use select_mode_network.Framing.Loop.{handle_all}
use select_mode_network.ClientSocket.Send.{send_data, processor_send}
use select_mode_network.ClientSocket.Pending.{pending, Delivered}
use select_mode_network.ClientSocket.Progress.{Willing}
use select_mode_network.ClientSocket.Emptying.{AllSent, send_calls, send_calls-AllSent}
use select_mode_network.ClientSocket.Deliver.{measure, processor_send-Delivered}
use select_mode_network.ClientSocket.Queued.{Accepted, send_data-Joined}
use select_mode_network.ClientSocket.Session.{
  queue, flush, Op, queued_bytes, Sent, run_session, run_session-Sent,
}
use select_mode_network.ClientSocket.Receive.{processor_recv}
use select_mode_network.ClientSocket.Received.{
  Handled, counted_recv, retained, processor_recv-left, processor_recv-refused,
  processor_recv-stuck,
}
use select_mode_network.ClientSocket.Stream.{Streamed, receive_all, receive_all-stream}
use select_mode_network.ClientSocket.Fixtures.{
  world, socket, greedy, greedy-TakesAtMost, echo, hello, socket-open, valid_send, valid_recv,
  nothing_retained, nothing_pending, bump,
}

abbrev history : List Op
history = queue hello 6 ∷ flush ∷ queue (7 ∷ 8 ∷ 9 ∷ []) 2 ∷ flush ∷ []

run_session-Sent_example :
    Sent greedy
      ((socket.send.sent ++ pending world socket.send) ++ queued_bytes history)
      5
      (run_session greedy world socket history)
run_session-Sent_example =
    run_session-Sent greedy greedy-TakesAtMost 5 history world socket
      (omega arith, (omega arith, tt)) socket-open valid_send

processor_send-Delivered_example :
    Delivered world socket.send
      (processor_send greedy (suc (measure world socket.send)) world socket)
processor_send-Delivered_example =
    processor_send-Delivered greedy greedy-TakesAtMost (suc (measure world socket.send)) world
      socket 5 socket-open valid_send (omega arith)

send_data-Joined_example :
    Accepted world socket.send (take 6 hello) (send_data world socket.send hello 6)
send_data-Joined_example =
    send_data-Joined world socket.send hello 6 5 socket-open valid_send (omega arith)

-- The socket with a message queued.
abbrev queued : ℤ × Env bump × Sender
queued = send_data world socket.send hello 6

abbrev loaded : ClientSocket
loaded = record socket { send = queued.2 }

queued-Accepted : Accepted world socket.send (take 6 hello) queued
queued-Accepted = send_data-Joined world socket.send hello 6 5 socket-open valid_send (omega arith)

greedy-Willing : Willing greedy
greedy-Willing = record {
  selects = λ t. refl;
  writes = λ t. refl;
  sends = λ t len h. h;
  takes_at_most = greedy-TakesAtMost;
}

send_calls-AllSent_example : AllSent greedy queued.1 queued.2 (send_calls greedy 6 queued.1 loaded)
send_calls-AllSent_example =
    send_calls-AllSent greedy greedy-Willing 6 queued.1 loaded 5
      (queued-Accepted.1.open_still ∙ socket-open) queued-Accepted.1.valid
      (omega
        (arith, ap length (queued-Accepted.1.behind ∙ ap (λ t. t ++ take 6 hello) nothing_pending)))

-- A message that arrives in two pieces, and two bytes of the next.
abbrev pieces : List Bytes
pieces = (6 ∷ 0 ∷ 1 ∷ []) ∷ (0 ∷ 2 ∷ 0 ∷ 9 ∷ 0 ∷ []) ∷ []

pieces-Cuts : Cuts (hello ++ (9 ∷ 0 ∷ [])) (hello ∷ []) (left (9 ∷ 0 ∷ []))
unfolding front ushort_of
pieces-Cuts = next 6 refl (omega arith) (rest refl)

receive_all-stream_example :
    Streamed echo
      (world, socket.send)
      (hello ∷ [])
      (9 ∷ 0 ∷ [])
      (receive_all echo (suc buffer_size) world socket pieces)
unfolding flatten
receive_all-stream_example =
    receive_all-stream echo (suc buffer_size) (omega arith) pieces world socket valid_recv
      (omega arith, omega arith, (omega arith, omega arith, tt)) (rw nothing_retained pieces-Cuts)

room_for : (k : ℕ) → k ≤ 2048 → k ≤ buffer_size - socket.recv.retain_size
unfolding create init
room_for k h = omega arith

hello-Cuts : Cuts hello (hello ∷ []) (left [])
unfolding front ushort_of
hello-Cuts = next 6 refl (omega arith) (rest refl)

processor_recv-left_example :
    Handled echo world socket
      (hello ∷ [])
      []
      (processor_recv echo 2 (λ room. some hello) world socket)
processor_recv-left_example =
    processor_recv-left echo 2 (λ room. some hello) world socket hello valid_recv refl (omega arith)
      (room_for 6 (omega arith)) (rw nothing_retained hello-Cuts) (omega arith)

-- A length of 2049, and a length of 0.
abbrev huge : Bytes
huge = 1 ∷ 8 ∷ 0 ∷ 0 ∷ 0 ∷ 0 ∷ []

abbrev null_message : Bytes
null_message = 0 ∷ 0 ∷ 0 ∷ 0 ∷ 0 ∷ 0 ∷ []

huge-Cuts : Cuts huge [] refused
unfolding front ushort_of
huge-Cuts = refuse refl

null_message-Cuts : Cuts null_message [] stuck
unfolding front ushort_of
null_message-Cuts = hang refl

huge-arrives : Cuts (retained socket ++ huge) [] refused
huge-arrives = rw nothing_retained huge-Cuts

processor_recv-refused_example :
    (r : Receiver) × (processor_recv echo 1 (λ room. some huge) world socket
      ≡ returned
          (ℤ.negsuc 0)
          (close (counted_recv echo world socket) (record socket { recv = r })).0
          (close (counted_recv echo world socket) (record socket { recv = r })).1)
unfolding handle_all
processor_recv-refused_example =
    processor_recv-refused echo 1 (λ room. some huge) world socket huge valid_recv refl
      (omega arith) (room_for 6 (omega arith)) huge-arrives (omega arith)

null_message-arrives : Cuts (retained socket ++ null_message) [] stuck
null_message-arrives = rw nothing_retained null_message-Cuts

processor_recv-stuck_example :
    processor_recv echo 100 (λ room. some null_message) world socket ≡ starved
processor_recv-stuck_example =
    processor_recv-stuck echo 100 (λ room. some null_message) world socket null_message valid_recv
      refl (omega arith) (room_for 6 (omega arith)) null_message-arrives
