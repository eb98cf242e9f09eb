-- ===== src/SelectClientThread/SendThread.antt =====
-- `SelectClient_Thread::SendThread` does what `ClientSocket::ProcessorSend` does.
use select_mode_network.Base.{ℕ, zero, suc, ◌≡◌, sym, subst, Option, none, some}
use select_mode_network.Base.Int.{ℤ, leb_ℤ, ltb_ℤ}
use select_mode_network.Buffer.IoBuffer
use select_mode_network.Buffer.IoBuffer.{IoBuffer}
use select_mode_network.Memory.Api.{MemPool}
use select_mode_network.ClientSocket.State.{
  Env, ClientSocket, Call, QmSend, no_send, free_block, count_queue,
}
use select_mode_network.ClientSocket.State
use select_mode_network.ClientSocket.Send.{Kernel}
use select_mode_network.ClientSocket.Send
use select_mode_network.SelectClientThread.Receive.{Result, aborted, returned}
use select_mode_network.SelectClientThread.Send.{
  Sending, SendRound, fails, stops, again, ends, round, finish, send_loop, send_thread,
}
use select_mode_network.SelectClientThread.Matches.{
  if-both₂, as_socket, as_env, Matches, MatchesRound, onward, through, processor_send-Matches,
}
use select_mode_network.SelectClientThread.MatchesRound.{
  fill-MatchesRound, flushed-MatchesRound, last_flush-Matches,
}

module _ {P : MemPool} (K : Kernel) where
  round-MatchesRound :
      (st : Sending P) → MatchesRound (round K st) (Send.round K (as_env st) (as_socket st))
  unfolding round Send.round
  round-MatchesRound st =
      let w = IoBuffer.can_write st.client.io_send in
      if-both₂ MatchesRound (leb_ℤ w (ℤ.pos 0))
        (flushed-MatchesRound w (processor_send-Matches K st)) (fill-MatchesRound st w)

  finish-Matches :
      (st : Sending P) → Matches (finish K st) (Send.finish K (as_env st) (as_socket st))
  unfolding finish Send.finish
  finish-Matches st =
      if-both₂ Matches (ltb_ℤ (ℤ.pos 0) (IoBuffer.can_read st.client.io_send))
        (last_flush-Matches K (processor_send-Matches K st)) (Matches.same {st = st})

  -- The loops behind a round.
  ours_behind : ℕ → SendRound P → Result (Sending P)
  ours_behind fuel r = elim r [
    | fails ↦ aborted
    | stops n st' ↦ returned n st'
    | again st' ↦ send_loop K fuel st'
    | ends st' ↦ finish K st'
  ]

  theirs_behind : ℕ → Send.Round P → Call P
  theirs_behind fuel r = elim r [
    | Send.fails ↦ State.aborted
    | Send.stops n env' c' ↦ State.returned n env' c'
    | Send.again env' c' ↦ Send.send_loop K fuel env' c'
    | Send.ends env' c' ↦ Send.finish K env' c'
  ]

  behind-Matches :
      (fuel : ℕ) {r : SendRound P} {r' : Send.Round P}
      → ((st : Sending P)
          → Matches (send_loop K fuel st) (Send.send_loop K fuel (as_env st) (as_socket st)))
      → MatchesRound r r'
      → Matches (ours_behind fuel r) (theirs_behind fuel r')
  unfolding ours_behind theirs_behind
  behind-Matches fuel rest MatchesRound.dead = Matches.dead
  behind-Matches fuel rest MatchesRound.same = Matches.same
  behind-Matches fuel rest (MatchesRound.hung a b c) = Matches.hung a b c
  behind-Matches fuel rest (onward {st = st}) = rest st
  behind-Matches fuel rest (through {st = st}) = finish-Matches st

  send_loop-Matches :
      (fuel : ℕ) (st : Sending P)
      → Matches (send_loop K fuel st) (Send.send_loop K fuel (as_env st) (as_socket st))
  unfolding send_loop Send.send_loop ours_behind theirs_behind
  send_loop-Matches zero st = Matches.endless
  send_loop-Matches (suc fuel) st =
      behind-Matches fuel (λ st'. send_loop-Matches fuel st') (round-MatchesRound st)

  -- With any kernel and any fuel, `SendThread` of `SelectClient_Thread` on an open client returns
  -- what `ProcessorSend` of `ClientSocket` returns on a socket that counts nothing and has the same
  -- queue and buffers: with a result that is not negative both leave the same state, with a negative
  -- one both have closed and the kernel took the same bytes, and they fail an assertion, or run out
  -- of fuel, together.
  pub send_thread-Matches :
      (fuel : ℕ) (st : Sending P) (fd : ℕ)
      → st.client.sock ≡ some fd
      → Matches (send_thread K fuel st) (Send.processor_send K fuel (as_env st) (as_socket st))
  unfolding send_thread Send.processor_send
  send_thread-Matches fuel st fd e =
      subst
        (λ (o : Option ℕ).
          Matches (elim o [ none ↦ returned (ℤ.negsuc 0) st | some _ ↦ send_loop K fuel st ])
            (elim o [
              | none ↦ State.returned (ℤ.negsuc 0) (as_env st) (as_socket st)
              | some _ ↦ Send.send_loop K fuel (as_env st) (as_socket st)
            ]))
        (sym e) (send_loop-Matches fuel st)
