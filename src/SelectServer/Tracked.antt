-- ===== src/SelectServer/Tracked.antt =====
-- What is true of a `SelectServer` that runs: its counter of clients is right, their sockets are
-- open, and it watches all of them unless it is about to look anew.
use select_mode_network.Base.{
  ℕ, ◌≡◌, ◌⊎◌, refl, ap, sym, subst, ◌∙◌, Bool, true, Option, some, List, [], ◌∷◌, ◌++◌,
  append_assoc, arith, inl, length, length-append, append-nil,
}
use select_mode_network.Base.Int.{ℤ, ◌+ℤ◌, pos_sub_one}
use select_mode_network.Buffer.Data.{Bytes}
use select_mode_network.Memory.Api.{MemPool}
use select_mode_network.ClientSocket.State.{Env, Sender, ClientSocket, Call}
use select_mode_network.ClientSocket.State
use select_mode_network.ClientSocket.Send.{Kernel, processor_send}
use select_mode_network.ClientSocket.Stays.{SameSock, processor_send-SameSock, if-both}
use select_mode_network.ClientSocket.ReceiveStays.{LeavesSock, processor_recv-SameSock}
use select_mode_network.SelectServer.State.{SelectServer, fd_of}
use select_mode_network.SelectServer.Pass.{
  Visit, stays, fails, Outcome, returned, is_minus_one, after_send, after_recv, visit, pass,
}
use select_mode_network.SelectServer.Watched.{socks, socks-append, AllOpen, AllBelow, fds}

-- `all` are the sockets of its clients, those included that a pass has yet to come to.
pub record Tracked {P : MemPool} (server : ℕ) (all : List (Option ℕ)) (s : SelectServer P)
    : Type 0 where
  pub open_still : s.server_sock ≡ some server
  pub counted : s.test_client_count ≡ ℤ.pos (length all)
  pub all_open : AllOpen all
  pub watched :
      (s.client_change ≡ true)
      ⊎ ((s.fd_read_backup ≡ ℤ.pos server ∷ fds all) × AllBelow s.max_sock all)

abbrev pub Tracks : {P : MemPool} → ℕ → SelectServer P → Type 0
Tracks server s = Tracked server (socks s.clients) s

AllOpen-less :
    (xs : List (Option ℕ)) (x : Option ℕ) (ys : List (Option ℕ))
    → AllOpen (xs ++ (x ∷ ys))
    → AllOpen (xs ++ ys)
AllOpen-less [] x ys h = h.1
AllOpen-less (z ∷ zs) x ys h = (h.0, AllOpen-less zs x ys h.1)

pub AllOpen-more : (xs : List (Option ℕ)) (fd : ℕ) → AllOpen xs → AllOpen (xs ++ (some fd ∷ []))
AllOpen-more [] fd h = ((fd, refl), tt)
AllOpen-more (x ∷ xs) fd h = (h.0, AllOpen-more xs fd h.1)

module _ {P : MemPool} where
  -- A visit ends with the client's failure, or leaves its socket as it was.
  data VisitSock (sock : Option ℕ) : Visit P → Type 0 where
    dead : VisitSock sock Visit.aborted
    endless : VisitSock sock Visit.starved
    failed : {env : Env P} {c : ClientSocket} → VisitSock sock (fails env c)
    same : {env : Env P} {c : ClientSocket} → c.send.sock ≡ sock → VisitSock sock (stays env c)

  after_send-VisitSock :
      (sock : Option ℕ) (r : Call P) → SameSock sock r → VisitSock sock (after_send r)
  unfolding after_send
  after_send-VisitSock sock _ SameSock.dead = VisitSock.dead
  after_send-VisitSock sock _ SameSock.endless = VisitSock.endless
  after_send-VisitSock sock _ SameSock.failed = VisitSock.failed
  after_send-VisitSock sock (State.returned n env c) (SameSock.same e) =
      if-both (λ (v : Visit P). VisitSock sock v) (is_minus_one n) VisitSock.failed
        (VisitSock.same e)

  after_recv-VisitSock :
      (K : Kernel) (fuel : ℕ) (sock : Option ℕ) (r : Call P)
      → SameSock sock r
      → VisitSock sock (after_recv K fuel r)
  unfolding after_recv
  after_recv-VisitSock K fuel sock _ SameSock.dead = VisitSock.dead
  after_recv-VisitSock K fuel sock _ SameSock.endless = VisitSock.endless
  after_recv-VisitSock K fuel sock _ SameSock.failed = VisitSock.failed
  after_recv-VisitSock K fuel sock (State.returned n env c) (SameSock.same e) =
      if-both (λ (v : Visit P). VisitSock sock v) (is_minus_one n) VisitSock.failed
        (after_send-VisitSock sock _ (
          subst (λ t. SameSock t (processor_send K fuel env c)) e
            (processor_send-SameSock K fuel env c)))

  -- What a pass may lead to.
  pub data PassTracked (server : ℕ) : Outcome P → Type 0 where
    dead : PassTracked server Outcome.aborted
    endless : PassTracked server Outcome.starved
    tracks : {s : SelectServer P} → Tracks server s → PassTracked server (returned (ℤ.pos 0) s)

  -- The client behind `xs` stays.
  keep-Tracked :
      (server : ℕ) (s : SelectServer P) (cs : List ClientSocket) (env : Env P) (sock : Option ℕ)
      (c' : ClientSocket)
      → c'.send.sock ≡ sock
      → Tracked server (socks s.clients ++ (sock ∷ socks cs)) s
      → Tracked server
          (socks (s.clients ++ (c' ∷ [])) ++ socks cs)
          (record s { env = env; clients = s.clients ++ (c' ∷ []) })
  keep-Tracked server s cs env sock c' e h =
      subst (λ ss. Tracked server ss (record s { env = env; clients = s.clients ++ (c' ∷ []) }))
        (ap (λ t. socks s.clients ++ (t ∷ socks cs)) (sym e)
          ∙ sym (append_assoc (socks s.clients) (c'.send.sock ∷ []) (socks cs))
          ∙ ap (λ t. t ++ socks cs) (sym (socks-append s.clients (c' ∷ []))))
        (record {
          open_still = h.open_still;
          counted = h.counted;
          all_open = h.all_open;
          watched = h.watched;
        })

  -- The client behind `xs` is deleted.
  drop-Tracked :
      (server : ℕ) (s : SelectServer P) (xs ys : List (Option ℕ)) (sock : Option ℕ) (env : Env P)
      → Tracked server (xs ++ (sock ∷ ys)) s
      → Tracked server (xs ++ ys) (record s {
        env = env;
        test_client_count = s.test_client_count +ℤ ℤ.negsuc 0;
        client_change = true;
      })
  drop-Tracked server s xs ys sock env h = record {
    open_still = h.open_still;
    counted =
        ap (λ z. z +ℤ ℤ.negsuc 0)
          (h.counted
            ∙ ap (λ n. ℤ.pos n) (omega (arith, length-append xs (sock ∷ ys), length-append xs ys)))
        ∙ pos_sub_one (length (xs ++ ys));
    all_open = AllOpen-less xs sock ys h.all_open;
    watched = inl refl;
  }

module _ {P : MemPool} (on_msg_handle : Env P × Sender → Bytes → Env P × Sender)
    (law : LeavesSock on_msg_handle) (K : Kernel) (fuel : ℕ) (readable : ℤ → Bool)
    (recv : ℤ → ℕ → Option Bytes) where
  visit-VisitSock :
      (env : Env P) (c : ClientSocket)
      → VisitSock c.send.sock (visit on_msg_handle K fuel readable recv env c)
  unfolding visit
  visit-VisitSock env c =
      if-both (λ (v : Visit P). VisitSock c.send.sock v) (readable (fd_of c.send.sock))
        (after_recv-VisitSock K fuel c.send.sock _
          (processor_recv-SameSock on_msg_handle law fuel (recv (fd_of c.send.sock)) env c))
        (after_send-VisitSock c.send.sock _ (processor_send-SameSock K fuel env c))

  pub pass-PassTracked :
      (server : ℕ) (cs : List ClientSocket) (s : SelectServer P)
      → Tracked server (socks s.clients ++ socks cs) s
      → PassTracked server (pass on_msg_handle K fuel readable recv cs s)
  unfolding pass
  pass-PassTracked server [] s h =
      tracks (subst (λ ss. Tracked server ss s) (append-nil (socks s.clients)) h)
  pass-PassTracked server (c ∷ cs) s h =
      go (λ s' h'. pass-PassTracked server cs s' h')
        (visit on_msg_handle K fuel readable recv s.env c) (visit-VisitSock s.env c)
    where
      go :
          ((s' : SelectServer P)
            → Tracked server (socks s'.clients ++ socks cs) s'
            → PassTracked server (pass on_msg_handle K fuel readable recv cs s'))
          → (v : Visit P) → VisitSock c.send.sock v
          → PassTracked server (elim v [
            | Visit.starved ↦ Outcome.starved
            | Visit.aborted ↦ Outcome.aborted
            | stays env c' ↦
                pass on_msg_handle K fuel readable recv cs
                  (record s { env = env; clients = s.clients ++ (c' ∷ []) })
            | fails env c' ↦ pass on_msg_handle K fuel readable recv cs (record s {
              env = (State.close env c').0;
              test_client_count = s.test_client_count +ℤ ℤ.negsuc 0;
              client_change = true;
            })
          ])
      go rest _ VisitSock.dead = PassTracked.dead
      go rest _ VisitSock.endless = PassTracked.endless
      go rest _ (VisitSock.same {env = env} {c = c'} e) =
          rest _ (keep-Tracked server s cs env c.send.sock c' e h)
      go rest _ (VisitSock.failed {env = env} {c = c'}) =
          rest _ (
            drop-Tracked server s (socks s.clients) (socks cs) c.send.sock (State.close env c').0 h)
