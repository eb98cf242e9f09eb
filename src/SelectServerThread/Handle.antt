-- ===== src/SelectServerThread/Handle.antt =====
-- What the accepting thread of `SelectServer_Thread` sees of the handling threads, and what a
-- handling thread does with the messages of its queue.
use select_mode_network.Base.{
  ℕ, zero, suc, ◌+◌, Bool, true, false, Option, none, some, List, [], ◌∷◌, ◌++◌, if◌then◌else◌, ltb,
  ◌==◌, length,
}
use select_mode_network.Base.Int.{ℤ, ◌+ℤ◌}
use select_mode_network.Buffer.Data.{Bytes}
use select_mode_network.Memory.Api.{MemPool}
use select_mode_network.Queue.Api
use select_mode_network.ClientSocket.State.{Env, ClientSocket}
use select_mode_network.ClientSocket.State

-- `EClientState`; `type` is a byte, which other values may stand in.
abbrev pub leave : ℕ
leave = 0

abbrev pub join : ℕ
join = 1

pub record QmClientState : Type 0 where
  pub kind : ℕ
  pub client_sock : ℕ

-- The sockets of the clients share the pool and the counters of their thread, which stand in `env`.
-- `fd_read_backup` lists what FD_SET was called with since FD_ZERO.
pub record SelectClientHandle (P : MemPool) : Type 0 where
  pub handle_id : ℕ
  pub client_states : List QmClientState
  pub clients : List ClientSocket
  pub has_change_client : Bool
  pub fd_read_backup : List ℤ
  pub max_sock : ℤ
  pub test_client_count : ℤ
  pub env : Env P

abbrev pub same_sock : Option ℕ → ℕ → Bool
same_sock none s = false
same_sock (some t) s = t == s

module _ {P : MemPool} where
  -- The constructor; `env` has a new pool, and counters that are 0.
  unfoldable pub init : ℕ → Env P → SelectClientHandle P
  init handle_id env = record {
    handle_id = handle_id;
    client_states = [];
    clients = [];
    has_change_client = true;
    fd_read_backup = [];
    max_sock = ℤ.negsuc 0;
    test_client_count = ℤ.pos 0;
    env = env;
  }

  -- `GetClientNum`
  unfoldable pub get_client_num : SelectClientHandle P → ℕ
  unfolding Api.size
  get_client_num h = Api.size h.client_states + length h.clients

  -- The loop of `OnRun` that looks for the handle with the fewest clients.
  unfoldable pub min_loop : List (SelectClientHandle P) → ℕ → ℕ → ℕ
  unfolding get_client_num
  min_loop [] min_id min_client = min_id
  min_loop (h ∷ hs) min_id min_client =
      let fewer = ltb (get_client_num h) min_client in
      min_loop hs (if fewer then h.handle_id else min_id)
        (if fewer then get_client_num h else min_client)

  -- `_clientStateQueueArr[i]->push(...)`; the queue is the one that handle `i` reads.
  unfoldable pub push_state :
      List (SelectClientHandle P) → ℕ → QmClientState → Option (List (SelectClientHandle P))
  push_state [] i s = none
  push_state (h ∷ hs) zero s = some (record h { client_states = Api.push h.client_states s } ∷ hs)
  push_state (h ∷ hs) (suc i) s = elim (push_state hs i s) [ none ↦ none | some r ↦ some (h ∷ r) ]

  -- `OnRun` with a client that has been accepted; `front` of an empty list of handles is undefined.
  unfoldable pub accept : List (SelectClientHandle P) → ℕ → Option (List (SelectClientHandle P))
  unfolding min_loop push_state get_client_num
  accept [] sock = none
  accept (h ∷ hs) sock =
      push_state (h ∷ hs) (min_loop (h ∷ hs) 0 (get_client_num h))
        (record { kind = join; client_sock = sock })

  -- A Join message; the two arrays are not initialised.
  unfoldable pub join_client : Bytes → Bytes → ℕ → SelectClientHandle P → SelectClientHandle P
  unfolding State.init
  join_client recv_buf send_buf sock h =
      let c = State.init sock recv_buf send_buf in
      let sender = c.send in
      record h {
        test_client_count = h.test_client_count +ℤ ℤ.pos 1;
        clients = h.clients ++ (record c { send = record sender { counted = true } } ∷ []);
      }

  -- The loop of `HandleThread` at a Leave message. It goes on to the next client only by `erase`.
  unfoldable pub leave_loop :
      ℕ → List ClientSocket → ℕ → SelectClientHandle P → Option (SelectClientHandle P)
  leave_loop zero clients sock h = none
  leave_loop (suc fuel) [] sock h = some h
  leave_loop (suc fuel) (c ∷ cs) sock h =
      let rest = leave_loop fuel (c ∷ cs) sock h in
      if same_sock c.send.sock sock
      then some (record h {
        test_client_count = h.test_client_count +ℤ ℤ.negsuc 0;
        clients = cs;
        env = (State.close h.env c).0;
      })
      else rest

module _ {P : MemPool} (fuel : ℕ) (recv_buf send_buf : ℕ → Bytes) where
  -- The loop of `HandleThread` over its queue; `fuel` is for the loop at a Leave message, and the
  -- arrays of a new client are given by its socket.
  unfoldable pub handle_states :
      List QmClientState → SelectClientHandle P → Option (SelectClientHandle P)
  unfolding join_client leave_loop
  handle_states [] h = some h
  handle_states (s ∷ ss) h =
      let sock = s.client_sock in
      let joined = handle_states ss (join_client (recv_buf sock) (send_buf sock) sock h) in
      let skipped = handle_states ss h in
      let left : Option (SelectClientHandle P) = elim (leave_loop fuel h.clients sock h) [
        | none ↦ none
        | some h' ↦ handle_states ss h'
      ] in
      if s.kind == join then joined else if s.kind == leave then left else skipped

  -- `HandleThread` up to the rebuilding of its set, under the lock of the queue.
  unfoldable pub update_clients : SelectClientHandle P → Option (SelectClientHandle P)
  unfolding handle_states
  update_clients h =
      if Api.has_data h.client_states
      then (elim (handle_states h.client_states h) [
        | none ↦ none
        | some h' ↦
            some
              (record h' { client_states = Api.clear h'.client_states; has_change_client = true })
      ])
      else some h
