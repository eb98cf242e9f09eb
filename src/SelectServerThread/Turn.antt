-- ===== src/SelectServerThread/Turn.antt =====
-- A turn of `SelectClientHandle::HandleThread` behind its queue: the set of sockets, `select`, and
-- the loop over the clients; and `Close` and `Broadcast`. The condition at a client is the one that
-- `SelectServer` has, and so is the loop of `Broadcast`.
use select_mode_network.Base.{
  ℕ, Bool, true, false, Option, none, some, List, [], ◌∷◌, ◌++◌, if◌then◌else◌, ◌&&◌,
}
use select_mode_network.Base.Int.{ℤ, ◌+ℤ◌, ltb_ℤ}
use select_mode_network.Buffer.Data.{Bytes}
use select_mode_network.Memory.Api.{MemPool}
use select_mode_network.ClientSocket.State.{Env, Sender, ClientSocket}
use select_mode_network.ClientSocket.State
use select_mode_network.ClientSocket.Send.{Kernel}
use select_mode_network.SelectServer.State.{first_sock, watch_loop, delete_all}
use select_mode_network.SelectServer.Pass.{Visit, stays, fails, visit}
use select_mode_network.SelectServer.Run.{in_set, broadcast_loop}
use select_mode_network.SelectServerThread.Handle.{SelectClientHandle, update_clients}

-- `starved` is a loop that does not end, and `aborted` a failed assertion.
pub data Turn (P : MemPool) : Type 0 where
  starved aborted : Turn P
  goes : SelectClientHandle P → Turn P

module _ {P : MemPool} where
  unfoldable pub close : SelectClientHandle P → SelectClientHandle P
  unfolding delete_all
  close h = record h { clients = []; env = delete_all h.env h.clients }

  unfoldable pub broadcast : (ℕ → Bool) → Bytes → SelectClientHandle P → SelectClientHandle P
  unfolding broadcast_loop
  broadcast excluded msg h =
      let (env, cs) = broadcast_loop excluded msg 0 h.env h.clients in
      record h { env = env; clients = cs }

  -- The set is rebuilt, if a client came or went.
  unfoldable pub watch : SelectClientHandle P → SelectClientHandle P
  unfolding watch_loop
  watch h =
      let (set, max) = watch_loop h.clients [] (first_sock h.clients h.max_sock) in
      if h.has_change_client
      then record h { fd_read_backup = set; max_sock = max; has_change_client = false }
      else h

module _ {P : MemPool} (on_msg_handle : Env P × Sender → Bytes → Env P × Sender) (K : Kernel)
    (fuel : ℕ) (ready : ℤ → Bool) (recv : ℤ → ℕ → Option Bytes) where
  -- The clients that are still to come are the list, those that stay are those of the handle.
  unfoldable pub pass : (ℤ → Bool) → List ClientSocket → SelectClientHandle P → Turn P
  unfolding visit
  pass readable [] h = goes h
  pass readable (c ∷ cs) h = elim (visit on_msg_handle K fuel readable recv h.env c) [
    | Visit.starved ↦ Turn.starved
    | Visit.aborted ↦ Turn.aborted
    | stays env c' ↦ pass readable cs (record h { env = env; clients = h.clients ++ (c' ∷ []) })
    | fails env c' ↦ pass readable cs (record h {
      env = (State.close env c').0;
      test_client_count = h.test_client_count +ℤ ℤ.negsuc 0;
      has_change_client = true;
    })
  ]

  -- With the set rebuilt; `n` is what `select` returns.
  unfoldable pub select_clients : ℤ → SelectClientHandle P → Turn P
  unfolding pass close
  select_clients n h =
      if ltb_ℤ n (ℤ.pos 0)
      then goes (close h)
      else pass (λ fd. in_set fd h.fd_read_backup && ready fd) h.clients (record h { clients = [] })

  -- Without clients the thread sleeps.
  unfoldable pub serve : ℤ → SelectClientHandle P → Turn P
  unfolding select_clients watch
  serve n h = elim h.clients [ [] ↦ goes h | c ∷ cs ↦ select_clients n (watch h) ]

  -- A round of the loop of `HandleThread`.
  unfoldable pub turn : (ℕ → Bytes) → (ℕ → Bytes) → ℤ → SelectClientHandle P → Turn P
  unfolding serve update_clients
  turn recv_buf send_buf n h = elim (update_clients fuel recv_buf send_buf h) [
    | none ↦ Turn.starved
    | some h' ↦ serve n h'
  ]
