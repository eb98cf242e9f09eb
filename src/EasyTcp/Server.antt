-- ===== src/EasyTcp/Server.antt =====
-- EasyTcpServer.hpp: `CellServer`, a thread that serves clients, and `EasyTcpServer`, which accepts
-- them and hands them out. A turn is one round of the loop of a `CellServer`; the turns of the
-- threads are taken one after another. The results of the system's calls are parameters.
use select_mode_network.Base.{
  ℕ, zero, suc, ◌+◌, Bool, true, false, Option, none, some, List, [], ◌∷◌, ◌++◌, if◌then◌else◌, ltb,
  length,
}
use select_mode_network.Base.Int.{ℤ, ◌+ℤ◌, ltb_ℤ}
use select_mode_network.Buffer.Data.{Bytes}
use select_mode_network.EasyTcp.MsgBuf.{MsgBuf, Memcpy, empty, recv_data}
use select_mode_network.EasyTcp.MsgBuf

-- `ClientSocket` of this version.
pub record CellClient : Type 0 where
  pub sockfd : ℕ
  pub buf : MsgBuf

unfoldable pub new_client : ℕ → CellClient
new_client sock = record { sockfd = sock; buf = empty }

-- `ClientSocket::SendData`: what `send` returns for the bytes of the message.
unfoldable pub send_data : (Bytes → ℤ) → Option Bytes → ℤ
send_data send none = ℤ.negsuc 0
send_data send (some header) = send header

-- `_recvCount` and `_clientCount`
pub record Counts : Type 0 where
  pub recv_count : ℕ
  pub client_count : ℤ

unfoldable pub on_net_join : Counts → Counts
on_net_join k = record k { client_count = k.client_count +ℤ ℤ.pos 1 }

unfoldable pub on_net_leave : Counts → Counts
on_net_leave k = record k { client_count = k.client_count +ℤ ℤ.negsuc 0 }

unfoldable pub on_net_msg : Counts → Bytes → Counts
on_net_msg k header = record k { recv_count = k.recv_count + 1 }

-- `sock` is the socket of the server, by which the thread knows that it is to run; `none` is
-- INVALID_SOCKET.
pub record CellServer : Type 0 where
  pub sock : Option ℕ
  pub clients : List CellClient
  pub clients_buff : List CellClient

unfoldable pub new_cell_server : Option ℕ → CellServer
new_cell_server sock = record { sock = sock; clients = []; clients_buff = [] }

-- `Close` leaves `_sock` and the clients that wait as they are.
unfoldable pub close : CellServer → CellServer
close s = elim s.sock [ none ↦ s | some _ ↦ record s { clients = [] } ]

unfoldable pub is_run : CellServer → Bool
is_run s = elim s.sock [ none ↦ false | some _ ↦ true ]

unfoldable pub add_client : CellClient → CellServer → CellServer
add_client c s = record s { clients_buff = s.clients_buff ++ (c ∷ []) }

unfoldable pub get_client_count : CellServer → ℕ
get_client_count s = length s.clients + length s.clients_buff

-- What a pass over the clients leads to.
pub data Served : Type 0 where
  fault starved : Served
  served : List CellClient → Counts → Served

module _ (memcpy : Memcpy) (fuel : ℕ) (readable : ℕ → Bool) (recv : ℕ → ℕ → Option Bytes) where
  -- A client, where `cs` are those behind it.
  unfoldable pub serve_client : CellClient → List CellClient → Counts → Served
  unfolding on_net_msg on_net_leave
  serve_client c cs k =
      if readable c.sockfd
      then (elim (recv_data memcpy on_net_msg fuel (recv c.sockfd) c.buf k) [
        | MsgBuf.fault _ ↦ fault
        | MsgBuf.starved ↦ starved
        | MsgBuf.gone ↦ served cs (on_net_leave k)
        | MsgBuf.kept b k' ↦ served (record c { buf = b } ∷ cs) k'
      ])
      else served (c ∷ cs) k

  -- The loop goes from the last client to the first.
  unfoldable pub serve_clients : List CellClient → Counts → Served
  unfolding serve_client
  serve_clients [] k = served [] k
  serve_clients (c ∷ cs) k = elim (serve_clients cs k) [
    | fault ↦ fault
    | starved ↦ starved
    | served cs' k' ↦ serve_client c cs' k'
  ]

-- The clients that wait become clients of the thread.
unfoldable pub take_in : CellServer → CellServer
take_in s = record s { clients = s.clients ++ s.clients_buff; clients_buff = [] }

-- What a turn leads to: another, or the end of `OnRun`.
pub data Turn : Type 0 where
  broken stuck : Turn
  goes ends : CellServer → Counts → Turn

unfoldable pub after_pass : CellServer → Served → Turn
after_pass s fault = broken
after_pass s starved = stuck
after_pass s (served cs k) = goes (record s { clients = cs }) k

module _ (memcpy : Memcpy) (fuel : ℕ) (ret : ℤ) (readable : ℕ → Bool)
    (recv : ℕ → ℕ → Option Bytes) where
  -- With its clients written out. `ret` is what `select` returns.
  unfoldable pub turn_clients : CellServer → Counts → List CellClient → Turn
  unfolding after_pass serve_clients close
  turn_clients s k [] = goes s k
  turn_clients s k (c ∷ cs) =
      if ltb_ℤ ret (ℤ.pos 0)
      then ends (close s) k
      else after_pass s (serve_clients memcpy fuel readable recv (c ∷ cs) k)

  unfoldable pub turn : CellServer → Counts → Turn
  unfolding take_in turn_clients
  turn s k = elim s.sock [
    | none ↦ ends s k
    | some _ ↦ turn_clients (take_in s) k (take_in s).clients
  ]

pub record EasyTcpServer : Type 0 where
  pub sock : Option ℕ
  pub cell_servers : List CellServer
  pub counts : Counts

unfoldable pub init : EasyTcpServer
init = record {
  sock = none;
  cell_servers = [];
  counts = record { recv_count = 0; client_count = ℤ.pos 0 };
}

-- `socket` gives the new socket; an old one is closed.
unfoldable pub init_socket : Option ℕ → EasyTcpServer → EasyTcpServer
init_socket socket s = record s { sock = socket }

-- The loop of `Start`, with `n` threads to go.
unfoldable pub start : ℕ → EasyTcpServer → EasyTcpServer
unfolding new_cell_server
start zero s = s
start (suc n) s =
    start n (record s { cell_servers = s.cell_servers ++ (new_cell_server s.sock ∷ []) })

-- The loop of `addClientToCellServer`: the place of the server with the fewest clients, where `i` is
-- the place of the next, and `m` the number of clients of the best so far.
unfoldable pub min_server : List CellServer → ℕ → ℕ → ℕ → ℕ
unfolding get_client_count
min_server [] i best m = best
min_server (s ∷ ss) i best m =
    let fewer = ltb (get_client_count s) m in
    min_server ss (suc i) (if fewer then i else best) (if fewer then get_client_count s else m)

unfoldable pub add_at : List CellServer → ℕ → CellClient → List CellServer
unfolding add_client
add_at [] i c = []
add_at (s ∷ ss) zero c = add_client c s ∷ ss
add_at (s ∷ ss) (suc i) c = s ∷ add_at ss i c

-- `none`: there is no first server.
unfoldable pub add_client_to_cell_server : CellClient → EasyTcpServer → Option EasyTcpServer
unfolding min_server add_at on_net_join get_client_count
add_client_to_cell_server c s = elim s.cell_servers [
  | [] ↦ none
  | t ∷ ts ↦ some (record s {
    cell_servers = add_at (t ∷ ts) (min_server (t ∷ ts) 0 0 (get_client_count t)) c;
    counts = on_net_join s.counts;
  })
]

-- What `accept` returned; `none` is INVALID_SOCKET.
unfoldable pub accept : Option ℕ → EasyTcpServer → Option EasyTcpServer
unfolding add_client_to_cell_server new_client
accept none s = some s
accept (some sock) s = add_client_to_cell_server (new_client sock) s

-- `OnRun` but for the counter of messages a second: whether it goes on, and the state. `Close`
-- closes the socket for the system, and changes no field.
unfoldable pub on_run : ℤ → Bool → Option ℕ → EasyTcpServer → Option (Bool × EasyTcpServer)
unfolding accept
on_run ret readable new s = elim s.sock [
  | none ↦ some (false, s)
  | some _ ↦
      if ltb_ℤ ret (ℤ.pos 0)
      then some (false, s)
      else if readable
      then (elim (accept new s) [ none ↦ none | some s' ↦ some (true, s') ])
      else some (true, s)
]
