-- ===== src/SelectServer/Turn.antt =====
-- A call of `SelectServer::OnRun` on a server that runs.
use select_mode_network.Base.{
  ℕ, ◌≡◌, refl, ap, sym, subst, ◌∙◌, Bool, true, false, Option, none, some, not, ◌&&◌, List, [],
  ◌∷◌, arith, if◌then◌else◌, inl, inr, length, length-append,
}
use select_mode_network.Base.Int.{ℤ, ◌+ℤ◌, ltb_ℤ, pos_add_one}
use select_mode_network.Buffer.Data.{Bytes}
use select_mode_network.Memory.Api.{MemPool}
use select_mode_network.ClientSocket.State.{Env, Sender, ClientSocket}
use select_mode_network.ClientSocket.State
use select_mode_network.ClientSocket.Send.{Kernel}
use select_mode_network.ClientSocket.Stays.{if-both}
use select_mode_network.ClientSocket.ReceiveStays.{LeavesSock}
use select_mode_network.SelectServer.State.{
  SelectServer, fd_of, first_sock, delete_all, watch_loop, close, watch,
}
use select_mode_network.SelectServer.Pass.{Outcome, returned}
use select_mode_network.SelectServer.Run.{
  Answers, report, join_client, is_set, same_fd, serve, select_clients, on_run,
}
use select_mode_network.SelectServer.Watched.{
  socks, socks-append, AllOpen, fds, Watches, watch_loop-Watches,
}
use select_mode_network.SelectServer.Tracked.{
  Tracks, PassTracked, tracks, pass-PassTracked, AllOpen-more,
}

module _ {P : MemPool} where
  -- What a call of `OnRun` may lead to.
  pub data RunTracked (server : ℕ) : Outcome P → Type 0 where
    dead : RunTracked server Outcome.aborted
    endless : RunTracked server Outcome.starved
    goes_on : {s : SelectServer P} → Tracks server s → RunTracked server (returned (ℤ.pos 0) s)
    closed :
        {s : SelectServer P}
        → s.server_sock ≡ none
        → s.clients ≡ []
        → RunTracked server (returned (ℤ.negsuc 0) s)

  report-Tracks :
      (b : Bool) (server : ℕ) (s : SelectServer P) → Tracks server s → Tracks server (report b s)
  unfolding report
  report-Tracks true server s h = record {
    open_still = h.open_still;
    counted = h.counted;
    all_open = h.all_open;
    watched = h.watched;
  }
  report-Tracks false server s h = h

  watch-Tracks : (server : ℕ) (s : SelectServer P) → Tracks server s → Tracks server (watch s)
  unfolding watch
  watch-Tracks server s h = if-both (λ (t : SelectServer P). Tracks server t) s.client_change anew h
    where
      w :
          Watches
            (fd_of s.server_sock ∷ [])
            (first_sock s.clients s.max_sock)
            (socks s.clients)
            (watch_loop s.clients (fd_of s.server_sock ∷ []) (first_sock s.clients s.max_sock))
      w = watch_loop-Watches s.clients _ _

      r : List ℤ × ℤ
      r = watch_loop s.clients (fd_of s.server_sock ∷ []) (first_sock s.clients s.max_sock)

      anew :
          Tracks server (record s { fd_read_backup = r.0; max_sock = r.1; client_change = false })
      anew = record {
        open_still = h.open_still;
        counted = h.counted;
        all_open = h.all_open;
        watched = inr (w.all ∙ ap (λ t. fd_of t ∷ fds (socks s.clients)) h.open_still, w.below);
      }

  join_client-Tracks :
      (new : Option ℕ) (recv_buf send_buf : Bytes) (server : ℕ) (s : SelectServer P)
      → Tracks server s
      → Tracks server (join_client new recv_buf send_buf s)
  unfolding join_client State.init
  join_client-Tracks none recv_buf send_buf server s h = h
  join_client-Tracks (some fd) recv_buf send_buf server s h =
      let all = socks s.clients in
      let e = socks-append s.clients (_ ∷ []) in
      record {
        open_still = h.open_still;
        counted =
            ap (λ z. z +ℤ ℤ.pos 1) h.counted
            ∙ pos_add_one (length all)
            ∙ ap (λ n. ℤ.pos n)
                (omega (arith, length-append all (some fd ∷ [])) ∙ ap length (sym e));
        all_open = subst (λ ss. AllOpen ss) (sym e) (AllOpen-more all fd h.all_open);
        watched = inl refl;
      }

  close-closed :
      (server : ℕ) (s : SelectServer P)
      → s.server_sock ≡ some server
      → RunTracked server (returned (ℤ.negsuc 0) (close s))
  unfolding close
  close-closed server s e =
      subst (λ (t : SelectServer P). RunTracked server (returned (ℤ.negsuc 0) t))
        (ap
          (λ (t : Option ℕ). elim t as (λ x. SelectServer P) [
            | none ↦ s
            | some _ ↦ record s {
              clients = [];
              server_sock = none;
              env = delete_all s.env s.clients;
            }
          ])
          (sym e))
        (closed refl refl)

  -- After a pass.
  RunTracked-of_pass : (server : ℕ) {r : Outcome P} → PassTracked server r → RunTracked server r
  RunTracked-of_pass server PassTracked.dead = RunTracked.dead
  RunTracked-of_pass server PassTracked.endless = RunTracked.endless
  RunTracked-of_pass server (tracks h) = goes_on h

module _ {P : MemPool} (on_msg_handle : Env P × Sender → Bytes → Env P × Sender)
    (law : LeavesSock on_msg_handle) (K : Kernel) (fuel : ℕ) where
  serve-RunTracked :
      (a : Answers) (server : ℕ) (s : SelectServer P)
      → Tracks server s
      → RunTracked server (serve on_msg_handle K fuel a s)
  unfolding serve
  serve-RunTracked a server s h =
      let joined =
        if is_set a s (fd_of s.server_sock)
        then join_client a.accept a.recv_buf a.send_buf s
        else s in
      let k : Tracks server joined =
        if-both (λ (t : SelectServer P). Tracks server t) (is_set a s (fd_of s.server_sock))
          (join_client-Tracks a.accept a.recv_buf a.send_buf server s h) h in
      RunTracked-of_pass server (
        pass-PassTracked on_msg_handle law K fuel
          (λ fd. not (same_fd fd (fd_of s.server_sock)) && is_set a s fd) a.recv server
          joined.clients (record joined { clients = [] })
          (record {
            open_still = k.open_still;
            counted = k.counted;
            all_open = k.all_open;
            watched = k.watched;
          }))

  -- A call of `OnRun` on a server whose counter of clients is right and whose clients are open and
  -- watched, with a handler that does not close the socket it is given, leads to such a state if it
  -- returns 0; otherwise it returns -1 with the server closed and without clients, or a client fails
  -- an assertion or does not return.
  pub on_run-RunTracked :
      (a : Answers) (server : ℕ) (s : SelectServer P)
      → Tracks server s
      → RunTracked server (on_run on_msg_handle K fuel a s)
  unfolding on_run select_clients
  on_run-RunTracked a server s h =
      subst (λ (r : Outcome P). RunTracked server r)
        (ap
          (λ (t : Option ℕ). elim t as (λ x. Outcome P) [
            | none ↦ returned (ℤ.negsuc 0) s
            | some _ ↦ select_clients on_msg_handle K fuel a looking
          ])
          (sym h.open_still))
        (if-both (λ (r : Outcome P). RunTracked server r) (ltb_ℤ a.select (ℤ.pos 0))
          (close-closed server looking k.open_still) (serve-RunTracked a server looking k))
    where
      looking : SelectServer P
      looking = watch (report a.second_gone s)

      k : Tracks server looking
      k = watch-Tracks server _ (report-Tracks a.second_gone server s h)
