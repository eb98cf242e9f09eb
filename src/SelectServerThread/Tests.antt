-- ===== src/SelectServerThread/Tests.antt =====
-- Two handles.
use select_mode_network.Base.{
  ℕ, ◌≤◌, ◌<◌, ◌≡◌, refl, true, false, none, some, List, [], ◌∷◌, ◌++◌, arith, length, get_or,
}
use select_mode_network.Base.Int.{ℤ}
use select_mode_network.Buffer.Data.{Bytes}
use select_mode_network.ClientSocket.State.{Env, Sender, ClientSocket, create}
use select_mode_network.ClientSocket.State
use select_mode_network.ClientSocket.Fixtures.{bump, world, array, greedy, socket}
use select_mode_network.SelectServer.Watched.{socks}
use select_mode_network.SelectServerThread.Handle.{
  SelectClientHandle, QmClientState, accept, leave_loop, update_clients, get_client_num,
}
use select_mode_network.SelectServerThread.Turn.{Turn, turn}
use select_mode_network.SelectServerThread.Server.{SelectServerThread, new_handles}
use select_mode_network.SelectServerThread.Balance.{
  client_nums, one_more_at, QueuedAt, accept-Least,
}
use select_mode_network.SelectServerThread.Join.{named, Counted, update_clients-Joins}
use select_mode_network.SelectServerThread.Leave.{leave_loop-stuck}
use select_mode_network.SelectServerThread.Counting.{CountedTurn, turn-CountedTurn}

abbrev handle : ℕ → List QmClientState → List ClientSocket → SelectClientHandle bump
handle handle_id client_states clients = record {
  handle_id = handle_id;
  client_states = client_states;
  clients = clients;
  has_change_client = true;
  fd_read_backup = [];
  max_sock = ℤ.negsuc 0;
  test_client_count = ℤ.pos (length clients);
  env = world;
}

abbrev handles : List (SelectClientHandle bump)
handles = handle 0 [] (socket ∷ (socket ∷ [])) ∷ (handle 1 [] (socket ∷ []) ∷ [])

accept-Least_example :
    (i : ℕ) × (hs' : List (SelectClientHandle bump)) × (i < length handles)
    × (accept handles 9 ≡ some hs')
    × ((k : ℕ)
        → k < length handles
        → get_or (client_nums handles) i 0 ≤ get_or (client_nums handles) k 0)
    × (client_nums hs' ≡ one_more_at i (client_nums handles))
    × QueuedAt i (record { kind = 1; client_sock = 9 }) handles hs'
accept-Least_example = accept-Least handles 9 (omega arith) (refl, (refl, tt))

leave_loop-stuck_example :
    leave_loop 100 (socket ∷ (socket ∷ [])) 6 (handle 0 [] (socket ∷ (socket ∷ []))) ≡ none
unfolding create State.init
leave_loop-stuck_example =
    leave_loop-stuck 100 socket (socket ∷ []) 6 (handle 0 [] (socket ∷ (socket ∷ []))) refl

-- A handle for which two clients wait.
abbrev waiting : SelectClientHandle bump
waiting =
    handle 0 (record { kind = 1; client_sock = 8 } ∷ (record { kind = 1; client_sock = 9 } ∷ []))
      (socket ∷ [])

abbrev arrays : ℕ → Bytes
arrays sock = array

update_clients-Joins_example :
    (h' : SelectClientHandle bump) × (update_clients 0 arrays arrays waiting ≡ some h')
    × (socks h'.clients ≡ socks waiting.clients ++ named waiting.client_states)
    × (h'.client_states ≡ [])
    × (get_client_num h' ≡ get_client_num waiting)
    × Counted h'
update_clients-Joins_example = update_clients-Joins 0 arrays arrays waiting (refl, (refl, tt)) refl

abbrev ignore : Env bump × Sender → Bytes → Env bump × Sender
ignore w m = w

turn-CountedTurn_example :
    CountedTurn
      (turn ignore greedy 5 (λ fd. false) (λ fd room. none) arrays arrays (ℤ.pos 1) waiting)
turn-CountedTurn_example =
    turn-CountedTurn ignore greedy 5 (λ fd. false) (λ fd room. none) arrays arrays 1 waiting refl

-- A server with two handles, to which a client comes.
abbrev server : SelectServerThread bump
server = record { handles = new_handles world 0 2; queue_num = 2; server_sock = some 3 }

-- `select` fails: the threads end their rounds.
abbrev last_rounds : SelectClientHandle bump → Turn bump
last_rounds = turn ignore greedy 5 (λ fd. false) (λ fd room. none) arrays arrays (ℤ.pos 0)
