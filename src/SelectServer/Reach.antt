-- ===== src/SelectServer/Reach.antt =====
-- The states that calls of `SelectServer::OnRun` and `Broadcast` lead a server to.
use select_mode_network.Base.{
  ℕ, suc, ◌≡◌, refl, ap, ap₂, sym, subst, Bool, true, Option, none, some, List, [], ◌∷◌, arith, inl,
}
use select_mode_network.Base.Int.{ℤ}
use select_mode_network.Buffer.Data.{Bytes, ushort_of}
use select_mode_network.Memory.Api.{MemPool}
use select_mode_network.ClientSocket.State.{Env, Sender, ClientSocket}
use select_mode_network.ClientSocket.Send.{Kernel, send_msg, send_data, enqueue, count_send}
use select_mode_network.ClientSocket.Stays.{if-both}
use select_mode_network.ClientSocket.ReceiveStays.{LeavesSock}
use select_mode_network.SelectServer.State.{SelectServer, init, bind, listen}
use select_mode_network.SelectServer.Pass.{Outcome, returned}
use select_mode_network.SelectServer.Run.{Answers, on_run, broadcast_loop, broadcast}
use select_mode_network.SelectServer.Watched.{socks}
use select_mode_network.SelectServer.Tracked.{Tracked, Tracks}
use select_mode_network.SelectServer.Turn.{RunTracked, goes_on, closed, on_run-RunTracked}
use select_mode_network.SelectServer.Turn

returned-injective :
    {P : MemPool} {s t : SelectServer P} {n m : ℤ} → returned n s ≡ returned m t → s ≡ t
returned-injective e = ground arith

module _ {P : MemPool} where
  send_msg-sock : (env : Env P) (s : Sender) (msg : Bytes) → (send_msg env s msg).2.sock ≡ s.sock
  unfolding send_msg send_data enqueue
  send_msg-sock env s msg = go s.sock
    where
      r : ℤ × Env P × Sender
      r = send_data env s msg (ushort_of msg)

      inner :
          (o : Option ℕ)
          → (elim o as (λ x. ℤ × Env P × Sender) [
            | none ↦ (ℤ.negsuc 0, env, s)
            | some _ ↦
                let (env', s') =
                  enqueue
                    (record env { counters = count_send s.counted env.counters })
                    s
                    msg
                    (ushort_of msg) in
                (ℤ.pos 0, env', s')
          ]).2.sock
            ≡ s.sock
      inner none = refl
      inner (some fd) = refl

      go :
          (o : Option ℕ)
          → (elim o as (λ x. ℤ × Env P × Sender) [
            | none ↦ (ℤ.negsuc 0, env, s)
            | some _ ↦ r
          ]).2.sock
            ≡ s.sock
      go none = refl
      go (some fd) = inner s.sock

  broadcast_loop-socks :
      (excluded : ℕ → Bool) (msg : Bytes) (i : ℕ) (env : Env P) (cs : List ClientSocket)
      → socks (broadcast_loop excluded msg i env cs).1 ≡ socks cs
  unfolding broadcast_loop
  broadcast_loop-socks excluded msg i env [] = refl
  broadcast_loop-socks excluded msg i env (c ∷ cs) =
      if-both (λ (r : Env P × List ClientSocket). socks r.1 ≡ c.send.sock ∷ socks cs) (excluded i)
        (ap (λ t. c.send.sock ∷ t) (broadcast_loop-socks excluded msg (suc i) env cs))
        (ap₂ (λ x t. x ∷ t) (send_msg-sock env c.send msg)
          (broadcast_loop-socks excluded msg (suc i) (send_msg env c.send msg).1 cs))

  broadcast-Tracks :
      (excluded : ℕ → Bool) (msg : Bytes) (server : ℕ) (s : SelectServer P)
      → Tracks server s
      → Tracks server (broadcast excluded msg s)
  unfolding broadcast
  broadcast-Tracks excluded msg server s h = go s.server_sock
    where
      r : Env P × List ClientSocket
      r = broadcast_loop excluded msg 0 s.env s.clients

      go :
          (o : Option ℕ)
          → Tracks server (elim o [ none ↦ s | some _ ↦ record s { env = r.0; clients = r.1 } ])
      go none = h
      go (some fd) =
          subst (λ ss. Tracked server ss (record s { env = r.0; clients = r.1 }))
            (sym (broadcast_loop-socks excluded msg 0 s.env s.clients))
            (record {
              open_still = h.open_still;
              counted = h.counted;
              all_open = h.all_open;
              watched = h.watched;
            })

  -- A new server that is bound to `server` and listens.
  abbrev pub opened : ℕ → Env P → SelectServer P
  opened server env = (listen true (bind (some server) true (init env)).1).1

  pub opened-Tracks : (server : ℕ) (env : Env P) → Tracks server (opened server env)
  unfolding listen bind init
  opened-Tracks server env = record {
    open_still = refl;
    counted = refl;
    all_open = tt;
    watched = inl refl;
  }

module _ {P : MemPool} (on_msg_handle : Env P × Sender → Bytes → Env P × Sender) where
  -- A call of `OnRun` that returns 0, with any fuel and any answers of the system, or of `Broadcast`.
  pub data Step (s : SelectServer P) : SelectServer P → Type 0 where
    runs :
        (K : Kernel) (fuel : ℕ) (a : Answers) {t : SelectServer P}
        → on_run on_msg_handle K fuel a s ≡ returned (ℤ.pos 0) t
        → Step s t
    broadcasts : (excluded : ℕ → Bool) (msg : Bytes) → Step s (broadcast excluded msg s)

  pub data Reach (s : SelectServer P) : SelectServer P → Type 0 where
    here : Reach s s
    further : {t u : SelectServer P} → Reach s t → Step t u → Reach s u

  module _ (law : LeavesSock on_msg_handle) where
    goes_on-Tracks :
        (server : ℕ) (t : SelectServer P) {r : Outcome P}
        → r ≡ returned (ℤ.pos 0) t
        → RunTracked server r
        → Tracks server t
    goes_on-Tracks server t e Turn.dead = absurd (cc e)
    goes_on-Tracks server t e Turn.endless = absurd (cc e)
    goes_on-Tracks server t e (goes_on {s = s} h) =
        subst (λ u. Tracks server u) (returned-injective e) h
    goes_on-Tracks server t e (closed _ _) = absurd (cc e)

    -- In every state that a new server which is bound and listens reaches by calls of `OnRun` that
    -- return 0, whatever the system answers and with a handler that does not close the socket it is
    -- given, and of `Broadcast`: `_testClientCount` is the number of the clients, the socket of each is
    -- open, and unless a client has come or gone since, the set given to `select` is that of the
    -- socket of the server and theirs, none of which is above `_maxSock`.
    pub Reach-Tracks :
        (server : ℕ) (env : Env P) {s : SelectServer P}
        → Reach (opened server env) s
        → Tracks server s
    Reach-Tracks server env here = opened-Tracks server env
    Reach-Tracks server env (further r (runs K fuel a {t} e)) =
        goes_on-Tracks server t e
          (on_run-RunTracked on_msg_handle law K fuel a server _ (Reach-Tracks server env r))
    Reach-Tracks server env (further r (broadcasts excluded msg)) =
        broadcast-Tracks excluded msg server _ (Reach-Tracks server env r)
