-- ===== src/SelectServerThread/Join.antt =====
-- The clients that wait in the queue of a handle become clients of it.
use select_mode_network.Base.{
  ℕ, suc, ◌+◌, ◌≡◌, refl, ap, sym, ◌∙◌, Option, some, List, [], ◌∷◌, ◌++◌, arith, length,
  length-append, ltb, if◌then◌else◌, none, Bool, true, lt→ltb, append_assoc, append-nil,
}
use select_mode_network.Base.Int.{ℤ, ◌+ℤ◌, pos_add_one}
use select_mode_network.Buffer.Data.{Bytes}
use select_mode_network.Memory.Api.{MemPool}
use select_mode_network.Queue.Api
use select_mode_network.ClientSocket.State
use select_mode_network.SelectServer.Watched.{socks, socks-append}
use select_mode_network.SelectServerThread.Handle.{
  QmClientState, SelectClientHandle, join, get_client_num, join_client, handle_states,
  update_clients,
}

abbrev pub AllJoin : List QmClientState → Type 0
AllJoin [] = Unit {0}
AllJoin (s ∷ ss) = (s.kind ≡ join) × AllJoin ss

-- The sockets that the messages name.
abbrev pub named : List QmClientState → List (Option ℕ)
named [] = []
named (s ∷ ss) = some s.client_sock ∷ named ss

-- The counter is the number of the clients.
abbrev pub Counted : {P : MemPool} → SelectClientHandle P → Type 0
Counted h = h.test_client_count ≡ ℤ.pos (length h.clients)

pub join_client-Counted :
    {P : MemPool} (recv_buf send_buf : Bytes) (sock : ℕ) (h : SelectClientHandle P)
    → Counted h
    → Counted (join_client recv_buf send_buf sock h)
unfolding join_client
join_client-Counted recv_buf send_buf sock h e =
    ap (λ z. z +ℤ ℤ.pos 1) e
    ∙ pos_add_one (length h.clients)
    ∙ ap (λ n. ℤ.pos n) (omega (arith, length-append h.clients (_ ∷ [])))

join_client_lem :
    {P : MemPool} (recv_buf send_buf : Bytes) (sock : ℕ) (h : SelectClientHandle P)
    → let h' = join_client recv_buf send_buf sock h in
      (socks h'.clients ≡ socks h.clients ++ (some sock ∷ []))
      × (length h'.clients ≡ suc (length h.clients))
unfolding join_client State.init
join_client_lem recv_buf send_buf sock h =
    (socks-append h.clients (_ ∷ []), omega (arith, length-append h.clients (_ ∷ [])))

module _ {P : MemPool} (fuel : ℕ) (recv_buf send_buf : ℕ → Bytes) where
  -- The messages have made their clients clients of the handle.
  pub record Joins (h : SelectClientHandle P) (ss : List QmClientState)
      (r : Option (SelectClientHandle P)) : Type 0 where
    pub h' : SelectClientHandle P
    pub returns : r ≡ some h'
    pub sockets : socks h'.clients ≡ socks h.clients ++ named ss
    pub number : length h'.clients ≡ length h.clients + length ss
    pub counted : Counted h'

  handle_states-Joins :
      (ss : List QmClientState) (h : SelectClientHandle P)
      → AllJoin ss
      → Counted h
      → Joins h ss (handle_states fuel recv_buf send_buf ss h)
  unfolding handle_states
  handle_states-Joins [] h all e = record {
    h' = h;
    returns = refl;
    sockets = sym (append-nil (socks h.clients));
    number = omega arith;
    counted = e;
  }
  handle_states-Joins (s ∷ ss) h all e =
      let sock = s.client_sock in
      let joined = join_client (recv_buf sock) (send_buf sock) sock h in
      let rest =
        handle_states-Joins ss joined all.1
          (join_client-Counted (recv_buf sock) (send_buf sock) sock h e) in
      let (sockets, number) = join_client_lem (recv_buf sock) (send_buf sock) sock h in
      record {
        h' = rest.h';
        returns = rw all.0 rest.returns;
        sockets =
            rest.sockets
            ∙ ap (λ t. t ++ named ss) sockets
            ∙ append_assoc (socks h.clients) (some sock ∷ []) (named ss);
        number = omega (arith, rest.number, number);
        counted = rest.counted;
      }

  -- A handle whose counter is the number of its clients, and whose queue has only Join messages:
  -- `HandleThread` takes on the clients in their order behind those that it has, its queue is empty
  -- then, the counter is the number of the clients again, and the number by which the accepting
  -- thread chooses does not change.
  pub update_clients-Joins :
      (h : SelectClientHandle P)
      → AllJoin h.client_states
      → Counted h
      → (h' : SelectClientHandle P) × (update_clients fuel recv_buf send_buf h ≡ some h')
        × (socks h'.clients ≡ socks h.clients ++ named h.client_states)
        × (h'.client_states ≡ [])
        × (get_client_num h' ≡ get_client_num h)
        × Counted h'
  unfolding update_clients get_client_num Api.clear Api.size Api.has_data
  update_clients-Joins h all e = go h.client_states refl
    where
      rest : Joins h h.client_states (handle_states fuel recv_buf send_buf h.client_states h)
      rest = handle_states-Joins h.client_states h all e

      taken : SelectClientHandle P
      taken = record (rest.h') { client_states = []; has_change_client = true }

      go :
          (ss : List QmClientState)
          → h.client_states ≡ ss
          → (h' : SelectClientHandle P) × (update_clients fuel recv_buf send_buf h ≡ some h')
            × (socks h'.clients ≡ socks h.clients ++ named h.client_states)
            × (h'.client_states ≡ [])
            × (get_client_num h' ≡ get_client_num h)
            × Counted h'
      go [] none_wait = (
        h,
        rw none_wait refl,
        sym (ap (λ t. socks h.clients ++ named t) none_wait ∙ append-nil (socks h.clients)),
        none_wait,
        refl,
        e,
      )
      go (s ∷ ss) wait = (
        taken,
        ap
              (λ (b : Bool).
                if b
                then (elim (handle_states fuel recv_buf send_buf h.client_states h) [
                  | none ↦ none
                  | some h' ↦ some (record h' { client_states = []; has_change_client = true })
                ])
                else some h)
              (ap (λ t. ltb 0 (length t)) wait ∙ lt→ltb 0 (length (s ∷ ss)) (omega arith))
            ∙ ap
                (λ (o : Option (SelectClientHandle P)).
                  elim o as (λ x. Option (SelectClientHandle P)) [
                    | none ↦ none
                    | some h' ↦ some (record h' { client_states = []; has_change_client = true })
                  ])
                rest.returns,
        rest.sockets,
        refl,
        omega (arith, rest.number),
        rest.counted,
      )
