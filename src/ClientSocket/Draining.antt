-- ===== src/ClientSocket/Draining.antt =====
-- A call of `ProcessorSend` with a kernel that takes bytes whenever it is asked.
use select_mode_network.Base.{
  ℕ, zero, suc, ◌+◌, ◌-◌, ◌≤◌, ◌<◌, ◌≡◌, subst, ap, sym, ◌∙◌, some, [], ◌++◌, arith, true, false,
  Bool-cases, inl, inr, length, length-append, append-nil,
}
use select_mode_network.Base.Int.{ℤ, ltb_ℤ}
use select_mode_network.Buffer.IoBuffer
use select_mode_network.Buffer.Unread.{io_unread, length-io_unread}
use select_mode_network.Memory.Api.{MemPool}
use select_mode_network.ClientSocket.State.{Env, Sender, ClientSocket, Call, returned}
use select_mode_network.ClientSocket.Send.{
  Kernel, Round, last_flush, finish, send_loop, processor_send,
}
use select_mode_network.ClientSocket.Pending.{pending, message_rest, SValid, Kept}
use select_mode_network.ClientSocket.Flush.{Flushed, took, later, hung, send_to_kernel_buf-Flushed}
use select_mode_network.ClientSocket.Advance.{Kept-trans}
use select_mode_network.ClientSocket.Deliver.{
  measure, Rounded, stays, leaves, nearer, through, Kept-refl, round-Rounded, processor_send-open,
  proceed,
}
use select_mode_network.ClientSocket.Progress.{
  Willing, Went, onward, emptied, Grew, grew, send_to_kernel_buf-Grew, round-Went,
}

has_bytes :
    (c : ClientSocket)
    → ltb_ℤ (ℤ.pos 0) (IoBuffer.can_read c.send.io_send) ≡ true
    → c.send.io_send.read_pos < c.send.io_send.write_pos
unfolding IoBuffer.can_read
has_bytes c e = ground arith

module _ {P : MemPool} where
  -- What `ProcessorSend` leads to: a byte has been sent, or none is pending.
  pub data Progress (env : Env P) (s : Sender) : Call P → Type 0 where
    sends :
        {env' : Env P} {c' : ClientSocket}
        → Kept env s env' c'.send
        → length (pending env' c'.send) ≤ length (pending env s) - 1
        → Progress env s (returned (ℤ.pos 0) env' c')

  -- What has been sent is no longer pending.
  Kept-lengths :
      (env env' : Env P) (s s' : Sender)
      → Kept env s env' s'
      → length s'.sent + length (pending env' s') ≡ length s.sent + length (pending env s)
  Kept-lengths env env' s s' k =
      sym (length-append s'.sent (pending env' s'))
      ∙ ap length k.same
      ∙ length-append s.sent (pending env s)

  Progress-after :
      {env env' : Env P} {s s' : Sender} {r : Call P}
      → Kept env s env' s'
      → length s.sent ≤ length s'.sent
      → Progress env' s' r
      → Progress env s r
  Progress-after {env} {env'} {s} {s'} k h (sends l m) =
      sends (Kept-trans k l) (omega (arith, Kept-lengths env env' s s' k, m))

  -- A buffer without bytes behind an empty queue: nothing is pending.
  pending_empty :
      (env : Env P) (c : ClientSocket)
      → SValid env c.send
      → c.send.send_queue ≡ []
      → ltb_ℤ (ℤ.pos 0) (IoBuffer.can_read c.send.io_send) ≡ false
      → length (pending env c.send) ≡ 0
  unfolding IoBuffer.can_read
  pending_empty env c v q e =
      let u = io_unread c.send.send_buf c.send.io_send in
      ap length (ap (λ t. u ++ message_rest env.heap c.send.o_msg.pos t) q ∙ append-nil u)
      ∙ length-io_unread c.send.send_buf c.send.io_send v.buffer
      ∙ no_bytes
    where
      no_bytes : c.send.io_send.write_pos - c.send.io_send.read_pos ≡ 0
      no_bytes = ground (arith, v.buffer)

  module _ (K : Kernel) (will : Willing K) where
    last_flush-Progress :
        {env : Env P} {c : ClientSocket} {r : Call P}
        → Flushed env c r
        → Grew (length c.send.sent) r
        → Progress env c.send (last_flush K r)
    unfolding last_flush
    last_flush-Progress {env} {c} (took {env' = env'} {c' = c'} k a b d e) (grew h) =
        sends {env' = env'} {c' = c'} k (omega (arith, Kept-lengths env env' c.send c'.send k))
    last_flush-Progress (later k) g = elim g [ ]
    last_flush-Progress (hung k) g = elim g [ ]

    finish-Progress :
        (env : Env P) (c : ClientSocket)
        → SValid env c.send
        → c.send.send_queue ≡ []
        → Progress env c.send (finish K env c)
    unfolding finish
    finish-Progress env c v q =
        elim (Bool-cases (ltb_ℤ (ℤ.pos 0) (IoBuffer.can_read c.send.io_send))) [
          | inl some_left ↦ rw some_left (
              last_flush-Progress (send_to_kernel_buf-Flushed K will.takes_at_most env c v)
                (send_to_kernel_buf-Grew K will env c v.buffer v.at_front (has_bytes c some_left)))
          | inr empty ↦ rw empty (
              sends {env' = env} {c' = c} (Kept-refl env c.send v)
                (omega (arith, pending_empty env c v q empty)))
        ]

    proceed-Progress :
        (fuel : ℕ) (env : Env P) (c : ClientSocket) {r : Round P}
        → ((env' : Env P) (c' : ClientSocket)
            → SValid env' c'.send
            → measure env' c'.send < fuel
            → Progress env' c'.send (send_loop K fuel env' c'))
        → measure env c.send < suc fuel
        → Rounded env c.send r
        → Went (length c.send.sent) r
        → Progress env c.send (proceed K will.takes_at_most fuel r)
    unfolding proceed
    proceed-Progress fuel env c rest h (stays k) w = elim w [ ]
    proceed-Progress fuel env c rest h (leaves k) w = elim w [ ]
    proceed-Progress fuel env c rest h (nearer {env' = env'} {c' = c'} k m) (onward w) =
        Progress-after k w (rest env' c' k.valid (omega arith))
    proceed-Progress fuel env c rest h (through {env' = env'} {c' = c'} k) (emptied w q) =
        Progress-after k w (finish-Progress env' c' k.valid q)

    send_loop-Progress :
        (fuel : ℕ) (env : Env P) (c : ClientSocket)
        → SValid env c.send
        → measure env c.send < fuel
        → Progress env c.send (send_loop K fuel env c)
    unfolding send_loop proceed
    send_loop-Progress zero env c v h = absurd (omega arith)
    send_loop-Progress (suc fuel) env c v h =
        proceed-Progress fuel env c (λ env' c' v' m. send_loop-Progress fuel env' c' v' m) h
          (round-Rounded K will.takes_at_most env c v) (round-Went K will env c v)

    -- `ProcessorSend` with enough fuel sends a byte, or nothing was pending.
    pub processor_send-Progress :
        (fuel : ℕ) (env : Env P) (c : ClientSocket) (fd : ℕ)
        → c.send.sock ≡ some fd
        → SValid env c.send
        → measure env c.send < fuel
        → Progress env c.send (processor_send K fuel env c)
    processor_send-Progress fuel env c fd is_open v h =
        subst (λ r. Progress env c.send r)
          (sym (processor_send-open K will.takes_at_most fuel env c fd is_open))
          (send_loop-Progress fuel env c v h)
