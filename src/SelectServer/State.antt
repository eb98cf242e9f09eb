-- ===== src/SelectServer/State.antt =====
-- The fields of `SelectServer`, `Close`, and the set of sockets that it watches. The sockets of the
-- clients share its pool and its counters, which stand in `env`.
use select_mode_network.Base.{
  ℕ, Bool, true, false, Option, none, some, List, [], ◌∷◌, ◌++◌, if◌then◌else◌, length,
}
use select_mode_network.Base.Int.{ℤ, ltb_ℤ}
use select_mode_network.Memory.Api.{MemPool}
use select_mode_network.ClientSocket.State.{Env, ClientSocket}
use select_mode_network.ClientSocket.State

-- A descriptor as the number it is: INVALID_SOCKET is -1.
abbrev pub fd_of : Option ℕ → ℤ
fd_of none = ℤ.negsuc 0
fd_of (some fd) = ℤ.pos fd

-- `fd_read_backup` lists what FD_SET was called with since FD_ZERO.
pub record SelectServer (P : MemPool) : Type 0 where
  pub clients : List ClientSocket
  pub server_sock : Option ℕ
  pub max_sock : ℤ
  pub fd_read_backup : List ℤ
  pub client_change : Bool
  pub test_client_count : ℤ
  pub env : Env P

module _ {P : MemPool} where
  -- The constructor; `env` has a new pool, and counters that are 0.
  unfoldable pub init : Env P → SelectServer P
  init env = record {
    clients = [];
    server_sock = none;
    max_sock = ℤ.negsuc 0;
    fd_read_backup = [];
    client_change = true;
    test_client_count = ℤ.pos 0;
    env = env;
  }

  unfoldable pub get_client_count : SelectServer P → ℕ
  get_client_count s = length s.clients

  unfoldable pub is_run : SelectServer P → Bool
  is_run s = elim s.server_sock [ none ↦ false | some _ ↦ true ]

  -- `delete` of one client after another: the destructor closes it.
  unfoldable pub delete_all : Env P → List ClientSocket → Env P
  delete_all env [] = env
  delete_all env (c ∷ cs) = delete_all (State.close env c).0 cs

  unfoldable pub close : SelectServer P → SelectServer P
  unfolding delete_all
  close s = elim s.server_sock [
    | none ↦ s
    | some _ ↦ record s { clients = []; server_sock = none; env = delete_all s.env s.clients }
  ]

  -- `socket` and `bind`: the new socket, if any, and whether it is bound.
  unfoldable pub bind : Option ℕ → Bool → SelectServer P → ℤ × SelectServer P
  unfolding close
  bind socket bound s = elim socket [
    | none ↦ (ℤ.negsuc 0, record s { server_sock = none })
    | some fd ↦
        if bound
        then (ℤ.pos 0, record s { server_sock = some fd })
        else (ℤ.negsuc 0, close (record s { server_sock = some fd }))
  ]

  unfoldable pub listen : Bool → SelectServer P → ℤ × SelectServer P
  unfolding close
  listen listens s = if listens then (ℤ.pos 0, s) else (ℤ.negsuc 0, close s)

-- The loop over the clients that puts their sockets into the set and finds the greatest.
unfoldable pub watch_loop : List ClientSocket → List ℤ → ℤ → List ℤ × ℤ
watch_loop [] set max = (set, max)
watch_loop (c ∷ cs) set max =
    let fd = fd_of c.send.sock in
    watch_loop cs (set ++ (fd ∷ [])) (if ltb_ℤ max fd then fd else max)

-- `front()->_clientSock`, if there is a client.
abbrev pub first_sock : List ClientSocket → ℤ → ℤ
first_sock [] max = max
first_sock (c ∷ cs) max = fd_of c.send.sock

module _ {P : MemPool} where
  -- The part of `OnRun` that rebuilds the set, if a client came or went.
  unfoldable pub watch : SelectServer P → SelectServer P
  unfolding watch_loop
  watch s =
      let (set, max) =
        watch_loop s.clients (fd_of s.server_sock ∷ []) (first_sock s.clients s.max_sock) in
      if s.client_change
      then record s { fd_read_backup = set; max_sock = max; client_change = false }
      else s
