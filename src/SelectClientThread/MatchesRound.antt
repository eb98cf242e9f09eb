-- ===== src/SelectClientThread/MatchesRound.antt =====
-- The rounds of `SelectClient_Thread::SendThread` and of `ClientSocket::ProcessorSend` do the same.
use select_mode_network.Base.{ℕ, zero, suc, ◌≡◌, refl, subst, Option, none, some, if◌then◌else◌}
use select_mode_network.Base.Int.{ℤ, pos_part, leb_ℤ, ltb_ℤ}
use select_mode_network.Buffer.Data.{Bytes, Ptr}
use select_mode_network.Buffer.OBuffer
use select_mode_network.Buffer.OBuffer.{OBuffer}
use select_mode_network.Buffer.IoBuffer.{IoBuffer}
use select_mode_network.Memory.Api.{MemPool}
use select_mode_network.Queue.Api
use select_mode_network.ClientSocket.State.{
  Env, ClientSocket, Call, no_send, free_block, count_queue,
}
use select_mode_network.ClientSocket.Send.{Kernel}
use select_mode_network.ClientSocket.Send
use select_mode_network.SelectClientThread.State.{count_sending}
use select_mode_network.SelectClientThread.Receive.{Result}
use select_mode_network.SelectClientThread.Send.{
  Sending, fails, again, drop_message, next_message, block, move_bytes, fill, stop_with, flushed,
  last_flush,
}
use select_mode_network.SelectClientThread.Matches.{
  if-both₂, as_socket, as_env, Matches, MatchesRound, onward, through, cannot_write-Matches,
}

module _ {P : MemPool} where
  drop_message-same :
      (st : Sending P)
      → (as_env (drop_message st), as_socket (drop_message st))
        ≡ Send.drop_message (as_env st) (as_socket st)
  unfolding drop_message Send.drop_message free_block count_queue
  drop_message-same st = go (OBuffer.get_buffer st.client.o_msg)
    where
      dropped : Sending P
      dropped =
          let c = st.client in
          let env' = count_sending (ℤ.negsuc 0) st.env in
          let (q, rest) = Api.pop no_send c.send_queue in
          record st {
            env = record env' { pool = P.free env'.pool q.data_at q.size };
            client = record c { send_queue = rest; o_msg = OBuffer.set_buffer none 0 c.o_msg };
          }

      theirs : Env P × ClientSocket
      theirs =
          let s = (as_socket st).send in
          let (q, rest) = Api.pop no_send s.send_queue in
          (
            free_block (as_env st) q,
            record (as_socket st) {
              send = record s { send_queue = rest; o_msg = OBuffer.set_buffer none 0 s.o_msg };
            },
          )

      go :
          (o : Ptr)
          → (
            as_env (elim o as (λ x. Sending P) [ none ↦ st | some _ ↦ dropped ]),
            as_socket (elim o as (λ x. Sending P) [ none ↦ st | some _ ↦ dropped ]),
          )
            ≡ (elim o as (λ x. Env P × ClientSocket) [
              | none ↦ (as_env st, as_socket st)
              | some _ ↦ theirs
            ])
      go none = refl
      go (some p) = refl

  next_message-MatchesRound :
      (st : Sending P)
      → MatchesRound (next_message st) (Send.next_message (as_env st) (as_socket st))
  unfolding next_message Send.next_message
  next_message-MatchesRound st =
      if-both₂ MatchesRound (Api.has_data st.client.send_queue) onward (through {st = st})

  block-same : (st : Sending P) (o : Ptr) → block st.env o ≡ Send.block (as_env st) o
  unfolding block
  block-same st none = refl
  block-same st (some p) = refl

  move_bytes-MatchesRound :
      (st : Sending P) (len : ℕ)
      → MatchesRound (move_bytes st len) (Send.move_bytes (as_env st) (as_socket st) len)
  unfolding move_bytes Send.move_bytes
  move_bytes-MatchesRound st len =
      subst
        (λ (b : Bytes). MatchesRound (move_bytes st len) (
          moved (OBuffer.read_bytes_io b st.client.o_msg st.client.send_buf st.client.io_send len)))
        (block-same st st.client.o_msg.buf)
        (go (
          OBuffer.read_bytes_io (block st.env st.client.o_msg.buf) st.client.o_msg
            st.client.send_buf st.client.io_send len))
    where
      moved : Option (Bytes × IoBuffer × OBuffer) → Send.Round P
      moved r = elim r [
        | none ↦ Send.fails
        | some (buf', io', o') ↦
            let s = (as_socket st).send in
            Send.again (as_env st) (record (as_socket st) {
              send = record s { send_buf = buf'; io_send = io'; o_msg = o' };
            })
      ]

      go :
          (r : Option (Bytes × IoBuffer × OBuffer))
          → MatchesRound
              (elim r [
                | none ↦ fails
                | some (buf', io', o') ↦
                    let c = st.client in
                    again (record st {
                      client = record c { send_buf = buf'; io_send = io'; o_msg = o' };
                    })
              ])
              (moved r)
      go none = MatchesRound.dead
      go (some r) = onward

  pub fill-MatchesRound :
      (st : Sending P) (w : ℤ) → MatchesRound (fill st w) (Send.fill (as_env st) (as_socket st) w)
  unfolding fill Send.fill
  fill-MatchesRound st w =
      let can_read = OBuffer.can_read st.client.o_msg in
      if-both₂ MatchesRound (leb_ℤ can_read (ℤ.pos 0))
        (subst
          (λ (r : Env P × ClientSocket).
            MatchesRound (next_message (drop_message st)) (Send.next_message r.0 r.1))
          (drop_message-same st) (next_message-MatchesRound (drop_message st)))
        (move_bytes-MatchesRound st (pos_part (if ltb_ℤ can_read w then can_read else w)))

  stop_with-MatchesRound :
      {r : Result (Sending P)} {r' : Call P}
      → Matches r r'
      → MatchesRound (stop_with r) (Send.stop_with r')
  unfolding stop_with Send.stop_with
  stop_with-MatchesRound Matches.dead = MatchesRound.dead
  stop_with-MatchesRound Matches.endless = MatchesRound.dead
  stop_with-MatchesRound Matches.same = MatchesRound.same
  stop_with-MatchesRound (Matches.hung a b c) = MatchesRound.hung a b c

  pub flushed-MatchesRound :
      (w : ℤ) {r : Result (Sending P)} {r' : Call P}
      → Matches r r'
      → MatchesRound (flushed r w) (Send.flushed r' w)
  unfolding flushed Send.flushed
  flushed-MatchesRound w Matches.dead = MatchesRound.dead
  flushed-MatchesRound w Matches.endless = MatchesRound.dead
  flushed-MatchesRound w (Matches.same {n = zero} {st = st}) =
      stop_with-MatchesRound (cannot_write-Matches st)
  flushed-MatchesRound w (Matches.same {n = suc n} {st = st}) = fill-MatchesRound st w
  flushed-MatchesRound w (Matches.hung a b c) = MatchesRound.hung a b c

  pub last_flush-Matches :
      (K : Kernel) {r : Result (Sending P)} {r' : Call P}
      → Matches r r'
      → Matches (last_flush r) (Send.last_flush K r')
  unfolding last_flush Send.last_flush
  last_flush-Matches K Matches.dead = Matches.dead
  last_flush-Matches K Matches.endless = Matches.endless
  last_flush-Matches K (Matches.same {n = zero} {st = st}) = cannot_write-Matches st
  last_flush-Matches K (Matches.same {n = suc n} {st = st}) = Matches.same {st = st}
  last_flush-Matches K (Matches.hung a b c) = Matches.hung a b c
