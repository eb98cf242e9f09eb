-- ===== src/SelectServer/Run.antt =====
-- `SelectServer::OnRun` and `Broadcast`.
use select_mode_network.Base.{
  ℕ, suc, Bool, true, false, Option, none, some, List, [], ◌∷◌, ◌++◌, if◌then◌else◌, ◌&&◌, ◌||◌,
  not,
}
use select_mode_network.Base.Int.{ℤ, ◌+ℤ◌, ltb_ℤ, leb_ℤ}
use select_mode_network.Buffer.Data.{Bytes}
use select_mode_network.Memory.Api.{MemPool}
use select_mode_network.ClientSocket.State.{Env, Sender, ClientSocket, Counters}
use select_mode_network.ClientSocket.State
use select_mode_network.ClientSocket.Send.{Kernel, send_msg}
use select_mode_network.SelectServer.State.{SelectServer, fd_of, watch, close}
use select_mode_network.SelectServer.Pass.{Outcome, returned, pass}

-- What the system answers in a call of `OnRun`: whether a second has gone, the results of `select`
-- and `accept`, whether a watched socket is readable, and what `recv` gives. The arrays of a new
-- socket are not initialised.
pub record Answers : Type 0 where
  pub second_gone : Bool
  pub select : ℤ
  pub ready : ℤ → Bool
  pub accept : Option ℕ
  pub recv_buf : Bytes
  pub send_buf : Bytes
  pub recv : ℤ → ℕ → Option Bytes

-- The counters that a report sets back.
abbrev pub reset_counters : Counters → Counters
reset_counters k = record k { recv_times = 0; msg_times = 0; send_times = 0 }

abbrev pub same_fd : ℤ → ℤ → Bool
same_fd a b = leb_ℤ a b && leb_ℤ b a

abbrev pub in_set : ℤ → List ℤ → Bool
in_set fd [] = false
in_set fd (x ∷ xs) = same_fd fd x || in_set fd xs

module _ {P : MemPool} where
  unfoldable pub report : Bool → SelectServer P → SelectServer P
  report second_gone s =
      let env = s.env in
      if second_gone
      then record s { env = record env { counters = reset_counters env.counters } }
      else s

  -- A client that has been accepted; its counters are the server's.
  unfoldable pub join_client : Option ℕ → Bytes → Bytes → SelectServer P → SelectServer P
  unfolding State.init
  join_client none recv_buf send_buf s = s
  join_client (some fd) recv_buf send_buf s =
      let c = State.init fd recv_buf send_buf in
      let sender = c.send in
      record s {
        clients = s.clients ++ (record c { send = record sender { counted = true } } ∷ []);
        test_client_count = s.test_client_count +ℤ ℤ.pos 1;
        client_change = true;
      }

  -- FD_ISSET behind `select`.
  unfoldable pub is_set : Answers → SelectServer P → ℤ → Bool
  is_set a s fd = in_set fd s.fd_read_backup && a.ready fd

module _ {P : MemPool} (on_msg_handle : Env P × Sender → Bytes → Env P × Sender) (K : Kernel)
    (fuel : ℕ) where
  -- Behind `select`: a new client, and a pass over all clients. The server's own socket is no
  -- longer in the set then.
  unfoldable pub serve : Answers → SelectServer P → Outcome P
  unfolding join_client is_set pass
  serve a s =
      let server = fd_of s.server_sock in
      let joined = if is_set a s server then join_client a.accept a.recv_buf a.send_buf s else s in
      pass on_msg_handle K fuel (λ fd. not (same_fd fd server) && is_set a s fd) a.recv
        joined.clients (record joined { clients = [] })

  unfoldable pub select_clients : Answers → SelectServer P → Outcome P
  unfolding serve close
  select_clients a s =
      if ltb_ℤ a.select (ℤ.pos 0) then returned (ℤ.negsuc 0) (close s) else serve a s

  unfoldable pub on_run : Answers → SelectServer P → Outcome P
  unfolding select_clients report watch
  on_run a s = elim s.server_sock [
    | none ↦ returned (ℤ.negsuc 0) s
    | some _ ↦ select_clients a (watch (report a.second_gone s))
  ]

module _ {P : MemPool} where
  -- The loop of `Broadcast`; a client is excluded by its place in the array, which is `i` here.
  unfoldable pub broadcast_loop :
      (ℕ → Bool) → Bytes → ℕ → Env P → List ClientSocket → Env P × List ClientSocket
  unfolding send_msg
  broadcast_loop excluded msg i env [] = (env, [])
  broadcast_loop excluded msg i env (c ∷ cs) =
      let (n, env', sender) = send_msg env c.send msg in
      let skipped = broadcast_loop excluded msg (suc i) env cs in
      let sent = broadcast_loop excluded msg (suc i) env' cs in
      if excluded i
      then (skipped.0, c ∷ skipped.1)
      else (sent.0, record c { send = sender } ∷ sent.1)

  unfoldable pub broadcast : (ℕ → Bool) → Bytes → SelectServer P → SelectServer P
  unfolding broadcast_loop
  broadcast excluded msg s = elim s.server_sock [
    | none ↦ s
    | some _ ↦
        let (env, cs) = broadcast_loop excluded msg 0 s.env s.clients in
        record s { env = env; clients = cs }
  ]
