-- ===== src/ClientSocket/Progress.antt =====
-- The rounds of `ProcessorSend` with a kernel that takes bytes whenever it is asked.
use select_mode_network.Base.{
  ℕ, suc, ◌+◌, ◌-◌, ◌≤◌, ◌<◌, ◌≡◌, refl, subst, sym, List, [], ◌∷◌, arith, ltb, lt→leb, lt→ltb,
  true, false, Bool-cases, Option-cases, inl, inr, length, take, length-append, length-take,
  if◌then◌else◌,
}
use select_mode_network.Base.Int.{ℤ, ltb_ℤ, leb_ℤ, pos_part}
use select_mode_network.Buffer.OBuffer
use select_mode_network.Buffer.OBuffer.{OBuffer}
use select_mode_network.Buffer.IoBuffer
use select_mode_network.Buffer.IoBuffer.{IoBuffer}
use select_mode_network.Buffer.Unread.{IoValid}
use select_mode_network.Memory.Api.{MemPool}
use select_mode_network.Queue.Api
use select_mode_network.ClientSocket.State.{Env, ClientSocket, QmSend, Call, returned}
use select_mode_network.ClientSocket.Send.{
  Kernel, Round, fails, again, ends, flushed, round, drop_message, next_message, move_bytes, fill,
  send_to_kernel_buf, block, after_send, sent_bytes,
}
use select_mode_network.ClientSocket.Pending.{SValid, TakesAtMost}
use select_mode_network.ClientSocket.Flush.{move_read_pos_lem, can_read_lem}

-- `select` never fails, the socket may always be written, and `send` takes at least a byte of those
-- that it is given.
pub record Willing (K : Kernel) : Type 0 where
  pub selects : (t : ℕ) → ltb_ℤ (K.select t) (ℤ.pos 0) ≡ false
  pub writes : (t : ℕ) → K.writable t ≡ true
  pub sends : (t len : ℕ) → 0 < len → 0 < pos_part (K.send t len)
  pub takes_at_most : TakesAtMost K

queue_empty : (qs : List QmSend) → ltb 0 (length qs) ≡ false → qs ≡ []
queue_empty [] e = refl
queue_empty (q ∷ qs) e = absurd (cc (e, lt→ltb 0 (suc (length qs)) (omega arith)))

module _ {P : MemPool} where
  -- What a round of the loops leads to, if at least `n` bytes had been sent before.
  pub data Went (n : ℕ) : Round P → Type 0 where
    broke : Went n fails
    onward : {env' : Env P} {c' : ClientSocket} → n ≤ length c'.send.sent → Went n (again env' c')
    emptied :
        {env' : Env P} {c' : ClientSocket}
        → n ≤ length c'.send.sent
        → c'.send.send_queue ≡ []
        → Went n (ends env' c')

  next_message-Went :
      (n : ℕ) (env : Env P) (c : ClientSocket)
      → n ≤ length c.send.sent
      → Went n (next_message env c)
  unfolding next_message Api.has_data
  next_message-Went n env c h = elim (Bool-cases (ltb 0 (length c.send.send_queue))) [
    | inl some_left ↦ rw some_left (onward h)
    | inr empty ↦ rw empty (emptied h (queue_empty c.send.send_queue empty))
  ]

  move_bytes-Went :
      (n : ℕ) (env : Env P) (c : ClientSocket) (len : ℕ)
      → n ≤ length c.send.sent
      → Went n (move_bytes env c len)
  unfolding move_bytes
  move_bytes-Went n env c len h =
      let s = c.send in
      elim (Option-cases
        (OBuffer.read_bytes_io (block env s.o_msg.buf) s.o_msg s.send_buf s.io_send len)) [
          | inl e ↦ rw (e, move_bytes) broke
          | inr (r, e) ↦ rw (e, move_bytes) (onward h)
        ]

  drop_message-sent :
      (env : Env P) (c : ClientSocket) → (drop_message env c).1.send.sent ≡ c.send.sent
  unfolding drop_message
  drop_message-sent env c = ground arith

  -- A round that moves bytes into the buffer sends nothing.
  fill-Went :
      (n : ℕ) (env : Env P) (c : ClientSocket) (w : ℤ)
      → n ≤ length c.send.sent
      → Went n (fill env c w)
  unfolding fill
  fill-Went n env c w h =
      let can_read = OBuffer.can_read c.send.o_msg in
      elim (Bool-cases (leb_ℤ can_read (ℤ.pos 0))) [
        | inl read ↦ rw read (
            next_message-Went n (drop_message env c).0 (drop_message env c).1
              (subst (λ t. n ≤ length t) (sym (drop_message-sent env c)) h))
        | inr left ↦
            rw left
              (move_bytes-Went n env c (pos_part (if ltb_ℤ can_read w then can_read else w)) h)
      ]

  -- The kernel has taken at least a byte.
  pub data Grew (n : ℕ) : Call P → Type 0 where
    grew :
        {env' : Env P} {c' : ClientSocket}
        → n < length c'.send.sent
        → Grew n (returned (ℤ.pos 1) env' c')

  sent_bytes-Grew :
      (env : Env P) (c : ClientSocket) (k : ℕ)
      → IoValid c.send.send_buf c.send.io_send
      → c.send.io_send.read_pos ≡ 0
      → 0 < k
      → k ≤ c.send.io_send.write_pos - c.send.io_send.read_pos
      → Grew (length c.send.sent) (sent_bytes env c k)
  unfolding sent_bytes
  sent_bytes-Grew env c k v front p h =
      rw (move_read_pos_lem c.send.send_buf c.send.io_send k h v.behind, sent_bytes)
        (grew (
          omega (
            arith,
            length-append c.send.sent (take k c.send.send_buf),
            length-take k c.send.send_buf,
            v.within,
            v.holds,
          )))

  after_send-Grew :
      (env : Env P) (c : ClientSocket) (n : ℤ)
      → IoValid c.send.send_buf c.send.io_send
      → c.send.io_send.read_pos ≡ 0
      → 0 < pos_part n
      → pos_part n ≤ c.send.io_send.write_pos - c.send.io_send.read_pos
      → Grew (length c.send.sent) (after_send env c n)
  unfolding after_send
  after_send-Grew env c (ℤ.negsuc m) v front p h = absurd (omega arith)
  after_send-Grew env c (ℤ.pos k) v front p h =
      rw (lt→leb (k + 0) 0 (omega arith)) (sent_bytes-Grew env c k v front p h)

  -- With bytes in the buffer a willing kernel takes some of them.
  pub send_to_kernel_buf-Grew :
      (K : Kernel)
      → Willing K
      → (env : Env P) (c : ClientSocket) → IoValid c.send.send_buf c.send.io_send
      → c.send.io_send.read_pos ≡ 0
      → c.send.io_send.read_pos < c.send.io_send.write_pos
      → Grew (length c.send.sent) (send_to_kernel_buf K env c)
  unfolding send_to_kernel_buf
  send_to_kernel_buf-Grew K will env c v front some_left =
      let t = env.clock in
      let total = pos_part (IoBuffer.can_read c.send.io_send) in
      rw (will.selects t, will.writes t)
        (after_send-Grew (record env { clock = t + 1 }) c (K.send t total) v front
          (will.sends t total (omega (arith, can_read_lem c)))
          (omega (arith, will.takes_at_most t total, can_read_lem c)))

  -- A buffer without room has bytes in it.
  full_buffer :
      (env : Env P) (c : ClientSocket)
      → SValid env c.send
      → leb_ℤ (IoBuffer.can_write c.send.io_send) (ℤ.pos 0) ≡ true
      → c.send.io_send.read_pos < c.send.io_send.write_pos
  unfolding IoBuffer.can_write
  full_buffer env c v full = ground (arith, v.buffer, v.at_front, v.full_size)

  flushed-Went : (n : ℕ) {r : Call P} (w : ℤ) → Grew n r → Went n (flushed r w)
  unfolding flushed
  flushed-Went n w (grew {env' = env'} {c' = c'} h) = fill-Went n env' c' w (omega arith)

  pub round-Went :
      (K : Kernel)
      → Willing K
      → (env : Env P) (c : ClientSocket) → SValid env c.send
      → Went (length c.send.sent) (round K env c)
  unfolding round
  round-Went K will env c v =
      let io = c.send.io_send in
      let n = length c.send.sent in
      let w = IoBuffer.can_write io in
      elim (Bool-cases (leb_ℤ w (ℤ.pos 0))) [
        | inl full ↦ rw full (
            flushed-Went n w
              (send_to_kernel_buf-Grew K will env c v.buffer v.at_front (full_buffer env c v full)))
        | inr room ↦ rw room (fill-Went n env c w (omega arith))
      ]
