-- ===== src/SelectServerThread/Counting.antt =====
-- The counter of the clients of a handling thread over a turn of it.
use select_mode_network.Base.{
  le→ltb, ℕ, zero, suc, ◌+◌, ◌≡◌, refl, ap, ◌∙◌, Bool, true, Option, none, some, List, [], ◌∷◌,
  ◌++◌, ◌==◌, ◌&&◌, arith, length, length-append,
}
use select_mode_network.Base.Int.{ℤ, ◌+ℤ◌, pos_sub_one}
use select_mode_network.Buffer.Data.{Bytes}
use select_mode_network.Memory.Api.{MemPool}
use select_mode_network.Queue.Api
use select_mode_network.ClientSocket.State.{Env, Sender, ClientSocket}
use select_mode_network.ClientSocket.State
use select_mode_network.ClientSocket.Send.{Kernel}
use select_mode_network.ClientSocket.Stays.{if-both}
use select_mode_network.SelectServer.Pass.{Visit, stays, fails, visit}
use select_mode_network.SelectServer.Run.{in_set}
use select_mode_network.SelectServerThread.Handle.{
  QmClientState, SelectClientHandle, join, leave, same_sock, leave_loop, handle_states,
  update_clients,
}
use select_mode_network.SelectServerThread.Turn.{
  Turn, goes, watch, pass, select_clients, serve, turn,
}
use select_mode_network.SelectServerThread.Join.{Counted, join_client-Counted}

-- One client less, of those that the counter counts.
less_one : (z : ℤ) (m n : ℕ) → z ≡ ℤ.pos m → m ≡ suc n → (z +ℤ ℤ.negsuc 0) ≡ ℤ.pos n
less_one z m n e k = ap (λ t. t +ℤ ℤ.negsuc 0) (e ∙ ap (λ t. ℤ.pos t) k) ∙ pos_sub_one n

module _ {P : MemPool} where
  -- A loop over the messages, if it ends, leaves the counter right.
  pub data CountedIfSome : Option (SelectClientHandle P) → Type 0 where
    endless : CountedIfSome none
    counted : {h : SelectClientHandle P} → Counted h → CountedIfSome (some h)

  pub data CountedTurn : Turn P → Type 0 where
    endless : CountedTurn Turn.starved
    dead : CountedTurn Turn.aborted
    counted : {h : SelectClientHandle P} → Counted h → CountedTurn (goes h)

  leave_loop-Counted :
      (fuel : ℕ) (cs : List ClientSocket) (sock : ℕ) (h : SelectClientHandle P)
      → h.clients ≡ cs
      → Counted h
      → CountedIfSome (leave_loop fuel cs sock h)
  unfolding leave_loop
  leave_loop-Counted zero cs sock h at e = CountedIfSome.endless
  leave_loop-Counted (suc fuel) [] sock h at e = CountedIfSome.counted e
  leave_loop-Counted (suc fuel) (c ∷ cs) sock h at e =
      if-both CountedIfSome (same_sock c.send.sock sock)
        (CountedIfSome.counted
          (less_one h.test_client_count (length h.clients) (length cs) e (ap length at)))
        (leave_loop-Counted fuel (c ∷ cs) sock h at e)

  module _ (fuel : ℕ) (recv_buf send_buf : ℕ → Bytes) where
    handle_states-Counted :
        (ss : List QmClientState) (h : SelectClientHandle P)
        → Counted h
        → CountedIfSome (handle_states fuel recv_buf send_buf ss h)
    unfolding handle_states
    handle_states-Counted [] h e = CountedIfSome.counted e
    handle_states-Counted (s ∷ ss) h e =
        if-both CountedIfSome (s.kind == join)
          (handle_states-Counted ss _ (
            join_client-Counted (recv_buf s.client_sock) (send_buf s.client_sock) s.client_sock h
              e))
          (if-both CountedIfSome (s.kind == leave)
            (go (λ h' e'. handle_states-Counted ss h' e')
              (leave_loop-Counted fuel h.clients s.client_sock h refl e))
            (handle_states-Counted ss h e))
      where
        go :
            {o : Option (SelectClientHandle P)}
            → ((h' : SelectClientHandle P)
                → Counted h'
                → CountedIfSome (handle_states fuel recv_buf send_buf ss h'))
            → CountedIfSome o
            → CountedIfSome
                (elim o [ none ↦ none | some h' ↦ handle_states fuel recv_buf send_buf ss h' ])
        go rest CountedIfSome.endless = CountedIfSome.endless
        go rest (CountedIfSome.counted {h = h'} k) = rest h' k

    update_clients-Counted :
        (h : SelectClientHandle P)
        → Counted h
        → CountedIfSome (update_clients fuel recv_buf send_buf h)
    unfolding update_clients
    update_clients-Counted h e =
        if-both CountedIfSome (Api.has_data h.client_states)
          (go (handle_states-Counted h.client_states h e)) (CountedIfSome.counted e)
      where
        go :
            {o : Option (SelectClientHandle P)}
            → CountedIfSome o
            → CountedIfSome (elim o [
              | none ↦ none
              | some h' ↦ some (record h' {
                client_states = Api.clear h'.client_states;
                has_change_client = true;
              })
            ])
        go CountedIfSome.endless = CountedIfSome.endless
        go (CountedIfSome.counted k) = CountedIfSome.counted k

module _ {P : MemPool} (on_msg_handle : Env P × Sender → Bytes → Env P × Sender) (K : Kernel)
    (fuel : ℕ) (ready : ℤ → Bool) (recv : ℤ → ℕ → Option Bytes) where
  pass-CountedTurn :
      (readable : ℤ → Bool) (cs : List ClientSocket) (h : SelectClientHandle P)
      → h.test_client_count ≡ ℤ.pos (length h.clients + length cs)
      → CountedTurn (pass on_msg_handle K fuel ready recv readable cs h)
  unfolding pass
  pass-CountedTurn readable [] h e = CountedTurn.counted (e ∙ ap (λ n. ℤ.pos n) (omega arith))
  pass-CountedTurn readable (c ∷ cs) h e =
      go (λ h' e'. pass-CountedTurn readable cs h' e')
        (visit on_msg_handle K fuel readable recv h.env c)
    where
      go :
          ((h' : SelectClientHandle P)
            → h'.test_client_count ≡ ℤ.pos (length h'.clients + length cs)
            → CountedTurn (pass on_msg_handle K fuel ready recv readable cs h'))
          → (v : Visit P)
          → CountedTurn (elim v [
            | Visit.starved ↦ Turn.starved
            | Visit.aborted ↦ Turn.aborted
            | stays env c' ↦
                pass on_msg_handle K fuel ready recv readable cs
                  (record h { env = env; clients = h.clients ++ (c' ∷ []) })
            | fails env c' ↦ pass on_msg_handle K fuel ready recv readable cs (record h {
              env = (State.close env c').0;
              test_client_count = h.test_client_count +ℤ ℤ.negsuc 0;
              has_change_client = true;
            })
          ])
      go rest Visit.starved = CountedTurn.endless
      go rest Visit.aborted = CountedTurn.dead
      go rest (stays env c') =
          rest _ (e ∙ ap (λ n. ℤ.pos n) (omega (arith, length-append h.clients (c' ∷ []))))
      go rest (fails env c') =
          rest _ (less_one h.test_client_count _ (length h.clients + length cs) e (omega arith))

  select_clients-CountedTurn :
      (n : ℕ) (h : SelectClientHandle P)
      → Counted h
      → CountedTurn (select_clients on_msg_handle K fuel ready recv (ℤ.pos n) h)
  unfolding select_clients
  select_clients-CountedTurn n h e = rw (le→ltb (n + 0) 0 (omega arith)) (
      pass-CountedTurn (λ fd. in_set fd h.fd_read_backup && ready fd) h.clients
        (record h { clients = [] }) (e ∙ ap (λ t. ℤ.pos t) (omega arith)))

  watch-Counted : (h : SelectClientHandle P) → Counted h → Counted (watch h)
  unfolding watch
  watch-Counted h e = if-both (λ (t : SelectClientHandle P). Counted t) h.has_change_client e e

  serve-CountedTurn :
      (n : ℕ) (h : SelectClientHandle P)
      → Counted h
      → CountedTurn (serve on_msg_handle K fuel ready recv (ℤ.pos n) h)
  unfolding serve
  serve-CountedTurn n h e = go h.clients
    where
      go :
          (cs : List ClientSocket)
          → CountedTurn (elim cs [
            | [] ↦ goes h
            | c ∷ cs' ↦ select_clients on_msg_handle K fuel ready recv (ℤ.pos n) (watch h)
          ])
      go [] = CountedTurn.counted e
      go (c ∷ cs) = select_clients-CountedTurn n (watch h) (watch-Counted h e)

  -- From a state in which `_testClientCount` is the number of the clients of a handling thread, a
  -- round of `HandleThread` in which `select` does not fail leads to such a state, whatever messages
  -- wait in its queue and whatever the system answers; or a client fails an assertion, or a loop does
  -- not end.
  pub turn-CountedTurn :
      (recv_buf send_buf : ℕ → Bytes) (n : ℕ) (h : SelectClientHandle P)
      → Counted h
      → CountedTurn (turn on_msg_handle K fuel ready recv recv_buf send_buf (ℤ.pos n) h)
  unfolding turn
  turn-CountedTurn recv_buf send_buf n h e = go (update_clients-Counted fuel recv_buf send_buf h e)
    where
      go :
          {o : Option (SelectClientHandle P)}
          → CountedIfSome o
          → CountedTurn (elim o [
            | none ↦ Turn.starved
            | some h' ↦ serve on_msg_handle K fuel ready recv (ℤ.pos n) h'
          ])
      go CountedIfSome.endless = CountedTurn.endless
      go (CountedIfSome.counted {h = h'} k) = serve-CountedTurn n h' k
