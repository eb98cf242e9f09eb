-- ===== src/SelectServer/Tests.antt =====
-- The theorems on `SelectServer` at a concrete server.
use select_mode_network.Base.{
  length, ◌≤◌, ◌≡◌, ◌==◌, refl, true, false, none, some, [], ◌∷◌, arith, take,
}
use select_mode_network.Base.Int.{ℤ}
use select_mode_network.Buffer.Data.{Bytes, ushort_of}
use select_mode_network.ClientSocket.State.{Env, Sender}
use select_mode_network.Buffer.IoBuffer
use select_mode_network.Buffer.OBuffer
use select_mode_network.Queue.Api
use select_mode_network.ClientSocket.Send.{processor_send}
use select_mode_network.ClientSocket.ReceiveStays.{LeavesSock}
use select_mode_network.ClientSocket.Fixtures.{
  bump, world, array, socket, greedy, hello, socket-open, valid_send,
}
use select_mode_network.SelectServer.State.{SelectServer, listen, bind, init}
use select_mode_network.SelectServer.Pass.{Outcome, returned}
use select_mode_network.SelectServer.Run.{Answers, on_run, broadcast}
use select_mode_network.SelectServer.Tracked.{Tracks}
use select_mode_network.SelectServer.Reach.{here, further, runs, broadcasts, opened, Reach-Tracks}
use select_mode_network.SelectServer.Told.{AllReady, AllTold, broadcast-AllTold}

abbrev keep : Env bump × Sender → Bytes → Env bump × Sender
keep w m = w

keep-LeavesSock : LeavesSock keep
keep-LeavesSock env s msg = refl

-- A client connects as socket 7, and nothing is received.
abbrev arrival : Answers
arrival = record {
  second_gone = true;
  select = ℤ.pos 1;
  ready = λ fd. true;
  accept = some 7;
  recv_buf = array;
  send_buf = array;
  recv = λ fd room. none;
}

abbrev state_of : Outcome bump → SelectServer bump
state_of Outcome.starved = opened 3 world
state_of Outcome.aborted = opened 3 world
state_of (returned n s) = s

abbrev one_client : SelectServer bump
one_client = state_of (on_run keep greedy 5 arrival (opened 3 world))

arrival-run : on_run keep greedy 5 arrival (opened 3 world) ≡ returned (ℤ.pos 0) one_client
unfolding on_run listen bind init processor_send IoBuffer.can_write IoBuffer.set_buffer
    IoBuffer.can_read OBuffer.can_read OBuffer.init OBuffer.get_buffer Api.has_data
arrival-run = refl

Reach-Tracks_example : Tracks 3 (broadcast (λ i. false) hello one_client)
Reach-Tracks_example =
    Reach-Tracks keep keep-LeavesSock 3 world
      (further (further here (runs greedy 5 arrival arrival-run)) (broadcasts (λ i. false) hello))

-- Two clients, of which the first is excluded.
abbrev two_clients : SelectServer bump
two_clients = record {
  clients = socket ∷ socket ∷ [];
  server_sock = some 3;
  max_sock = ℤ.negsuc 0;
  fd_read_backup = [];
  client_change = true;
  test_client_count = ℤ.pos 2;
  env = world;
}

two_clients-AllReady : AllReady world two_clients.clients
two_clients-AllReady = ((5, socket-open), valid_send, ((5, socket-open), valid_send, tt))

hello-long : ushort_of hello ≤ length hello
unfolding ushort_of
hello-long = omega arith

broadcast-AllTold_example :
    let t = broadcast (λ i. i == 0) hello two_clients in
    AllTold (λ i. i == 0) (take (ushort_of hello) hello) 0 world two_clients.clients t.env t.clients
broadcast-AllTold_example =
    broadcast-AllTold (λ i. i == 0) hello hello-long 3 two_clients refl two_clients-AllReady
