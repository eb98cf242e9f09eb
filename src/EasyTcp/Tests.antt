-- ===== src/EasyTcp/Tests.antt =====
-- A message of five bytes and a NewUserJoin, cut in the middle, and a server with two threads.
use select_mode_network.Base.{
  ℕ, suc, ◌≡◌, refl, true, false, none, some, List, [], ◌∷◌, ◌++◌, arith, length, length-replicate,
  read_at, write_at, ◌≤◌,
}
use select_mode_network.Base.Int.{ℤ, ◌+ℤ◌}
use mathlib.Core.List.{flatten}
use select_mode_network.Buffer.Data.{Bytes, ushort_of, ushort_bytes}
use select_mode_network.EasyTcp.Header.{
  new_user_join, header, packet, size_of, cmd_code, data_length_of, short_of,
}
use select_mode_network.EasyTcp.MsgBuf.{MsgBuf, Memcpy, empty, kept, msg_size, handle_each}
use select_mode_network.EasyTcp.Split.{Message, Waits, no_header, Holds}
use select_mode_network.EasyTcp.Loop.{CopiesApart}
use select_mode_network.EasyTcp.Chunks.{recv_each, recv_each-Holds}
use select_mode_network.EasyTcp.Server.{
  EasyTcpServer, CellServer, Counts, init, start, init_socket, accept, turn, goes, new_client,
  new_cell_server,
}
use select_mode_network.EasyTcp.Server
use select_mode_network.EasyTcp.Reach.{accepts, turns, here, further, Counted, Reach-Counted}
use select_mode_network.EasyTcp.Client.{EasyTcpClient, on_run}
use select_mode_network.EasyTcp.Running.{Tells, on_run-Tells}

abbrev five : Bytes
five = 5 ∷ 0 ∷ 2 ∷ 0 ∷ 9 ∷ []

abbrev joined : Bytes
joined = packet new_user_join (1 ∷ 2 ∷ 3 ∷ 4 ∷ [])

five-Message : Message five
unfolding data_length_of short_of ushort_of
five-Message = record { headed = omega arith; says = refl }

joined-Message : Message joined
unfolding packet header size_of cmd_code ushort_bytes data_length_of short_of ushort_of
joined-Message = record { headed = omega arith; says = refl }

empty-Holds : Holds empty []
unfolding empty
empty-Holds = record {
  array = length-replicate {A = ℕ} msg_size 0;
  within = omega arith;
  same = refl;
}

nothing-Waits : Waits []
nothing-Waits = no_header (omega arith)

-- The messages are collected, the last one first.
abbrev collect : List Bytes → Bytes → List Bytes
collect seen m = m ∷ seen

joined_is_long : 5 ≤ length joined
unfolding packet header ushort_bytes
joined_is_long = omega arith

-- A `memcpy` that copies by way of another array.
abbrev by_way : Memcpy
by_way a dst src size = write_at a dst (read_at a src size)

by_way-CopiesApart : CopiesApart by_way
by_way-CopiesApart a dst src size apart inside = refl

abbrev pieces : List Bytes
pieces = (5 ∷ 0 ∷ 2 ∷ []) ∷ (0 ∷ 9 ∷ 8 ∷ 0 ∷ []) ∷ (4 ∷ 0 ∷ 1 ∷ 2 ∷ []) ∷ (3 ∷ 4 ∷ 3 ∷ []) ∷ []

pieces-joined : flatten pieces ≡ flatten (five ∷ joined ∷ []) ++ (3 ∷ [])
unfolding flatten packet header size_of cmd_code ushort_bytes
pieces-joined = refl

recv_each-Holds_example :
    (b' : MsgBuf) × (recv_each by_way collect (suc msg_size) empty pieces []
      ≡ kept b' (handle_each collect [] (five ∷ joined ∷ [])))
    × Holds b' (3 ∷ [])
recv_each-Holds_example =
    recv_each-Holds by_way collect (suc msg_size) 5 pieces empty [] [] (five ∷ joined ∷ []) (3 ∷ [])
      by_way-CopiesApart (omega arith) (omega arith) empty-Holds nothing-Waits
      (
        omega arith,
        omega arith,
        (omega arith, omega arith, (omega arith, omega arith, (omega arith, omega arith, tt))),
      )
      pieces-joined (five-Message, (joined-Message, tt)) (omega arith, (joined_is_long, tt))
      (no_header (omega arith))

-- Two threads; a client is accepted, and the first thread takes it in.
abbrev started : EasyTcpServer
started = start 2 (init_socket (some 3) init)

abbrev one_client : EasyTcpServer
one_client = record {
  sock = some 3;
  cell_servers =
      record { sock = some 3; clients = []; clients_buff = new_client 7 ∷ [] }
      ∷ (new_cell_server (some 3) ∷ []);
  counts = record { recv_count = 0; client_count = ℤ.pos 1 };
}

abbrev taken_in : EasyTcpServer
taken_in = record {
  sock = some 3;
  cell_servers =
      record { sock = some 3; clients = new_client 7 ∷ []; clients_buff = [] }
      ∷ (new_cell_server (some 3) ∷ []);
  counts = record { recv_count = 0; client_count = ℤ.pos 1 };
}

started-accept : accept (some 7) started ≡ some one_client
unfolding accept start init init_socket new_cell_server ◌+ℤ◌
started-accept = refl

first-turn :
    turn by_way 5
      (ℤ.pos 1)
      (λ fd. false)
      (λ fd room. none)
      (record { sock = some 3; clients = []; clients_buff = new_client 7 ∷ [] })
      one_client.counts
    ≡ goes
        (record { sock = some 3; clients = new_client 7 ∷ []; clients_buff = [] })
        one_client.counts
unfolding turn
first-turn = refl

started-Counted : Counted started
unfolding start init init_socket new_cell_server Server.get_client_count
started-Counted = refl

Reach-Counted_example : Counted taken_in
Reach-Counted_example =
    Reach-Counted
      (further (further here (accepts (some 7) started-accept)) (
        turns by_way 5 (ℤ.pos 1) (λ fd. false) (λ fd room. none) [] (new_cell_server (some 3) ∷ [])
          (record { sock = some 3; clients = []; clients_buff = new_client 7 ∷ [] }) refl
          first-turn))
      started-Counted

abbrev connected : EasyTcpClient
connected = record { sock = some 4; is_connect = true; buf = empty }

on_run-Tells_example : Tells (on_run by_way 5 (ℤ.pos 1) true (λ room. some five) connected [])
on_run-Tells_example = on_run-Tells by_way 5 (ℤ.pos 1) true (λ room. some five) connected []
