-- ===== src/ClientSocket/Deliver.antt =====
-- `ProcessorSend` as a whole: it ends, and what the kernel took and what is still pending are the
-- bytes that were to be sent.
use select_mode_network.Base.{
  ℕ, zero, suc, ◌+◌, ◌-◌, ◌*◌, ◌≤◌, ◌<◌, ◌≡◌, refl, subst, ap, sym, ◌∙◌, none, some, arith, ltb,
  le→leb, lt→leb, Bool-cases, inl, inr, length, dec_lt,
}
use select_mode_network.Base.Int.{ℤ, ltb_ℤ}
use select_mode_network.Buffer.IoBuffer
use select_mode_network.Buffer.IoBuffer.{IoBuffer}
use select_mode_network.Memory.Api.{MemPool}
use select_mode_network.Protocol.{max_accumulate_count}
use select_mode_network.Queue.Api
use select_mode_network.ClientSocket.State.{
  Env, Sender, ClientSocket, Call, close, returned, aborted,
}
use select_mode_network.ClientSocket.Send.{
  Kernel, Round, stop_with, fails, stops, again, ends, hang_up, cannot_write, flushed, round,
  last_flush, finish, send_loop, processor_send,
}
use select_mode_network.ClientSocket.Pending.{
  message_rest, SValid, Kept, Cut, Delivered, going, over, TakesAtMost,
}
use select_mode_network.ClientSocket.Flush.{
  Flushed, took, later, hung, send_to_kernel_buf-Flushed, hang_up-Cut,
}
use select_mode_network.ClientSocket.Advance.{
  null_flag, load, full_flag, idle_flag, Filled, more, done, Kept-trans,
}
use select_mode_network.ClientSocket.Fill.{fill-Filled}

-- How far the loops are from their end: the bytes and messages left, and the buffer if it is full.
abbrev pub measure : {P : MemPool} → Env P → Sender → ℕ
measure env s = load env s + full_flag s

module _ {P : MemPool} where
  -- A cut after steps that keep everything is a cut of the whole.
  pub Cut-after :
      {env₁ env₂ env₃ : Env P} {s₁ s₂ s₃ : Sender}
      → Kept env₁ s₁ env₂ s₂
      → Cut env₂ s₂ env₃ s₃
      → Cut env₁ s₁ env₃ s₃
  Cut-after k l = record { closed = l.closed; lost = l.lost; prefix = l.prefix ∙ k.same }

  Delivered-after :
      {env₁ env₂ : Env P} {s₁ s₂ : Sender} {r : Call P}
      → Kept env₁ s₁ env₂ s₂
      → Delivered env₂ s₂ r
      → Delivered env₁ s₁ r
  Delivered-after k (going l) = going (Kept-trans k l)
  Delivered-after k (over l) = over (Cut-after k l)

  pub Kept-refl : (env : Env P) (s : Sender) → SValid env s → Kept env s env s
  Kept-refl env s v = record { open_still = refl; same = refl; valid = v }

  cannot_write-Delivered :
      (env : Env P) (c : ClientSocket)
      → SValid env c.send
      → Delivered env c.send (cannot_write env c)
  unfolding cannot_write hang_up
  cannot_write-Delivered env c v =
      elim (Bool-cases (ltb max_accumulate_count (Api.size c.send.send_queue))) [
        | inl many ↦
            rw many
              (over {env' = (close env c).0} {c' = (close env c).1} (hang_up-Cut env env c refl))
        | inr few ↦ rw few (going {env' = env} {c' = c} (Kept-refl env c.send v))
      ]

  -- What a round may lead to.
  pub data Rounded (env : Env P) (s : Sender) : Round P → Type 0 where
    stays :
        {env' : Env P} {c' : ClientSocket}
        → Kept env s env' c'.send
        → Rounded env s (stops (ℤ.pos 0) env' c')
    leaves :
        {env' : Env P} {c' : ClientSocket}
        → Cut env s env' c'.send
        → Rounded env s (stops (ℤ.negsuc 0) env' c')
    nearer :
        {env' : Env P} {c' : ClientSocket}
        → Kept env s env' c'.send
        → measure env' c'.send < measure env s
        → Rounded env s (again env' c')
    through :
        {env' : Env P} {c' : ClientSocket} → Kept env s env' c'.send → Rounded env s (ends env' c')

  Rounded-of_Filled :
      {env : Env P} {s : Sender} {w : ℕ} {r : Round P}
      → idle_flag w ≤ full_flag s
      → Filled env s w r
      → Rounded env s r
  Rounded-of_Filled h (more k m) = nearer k (omega arith)
  Rounded-of_Filled h (done k) = through k

  stop_with-Rounded :
      {env : Env P} {s : Sender} {r : Call P} → Delivered env s r → Rounded env s (stop_with r)
  unfolding stop_with
  stop_with-Rounded (going k) = stays k
  stop_with-Rounded (over k) = leaves k

  -- With the buffer full before, and the room that it had then, which is none.
  flushed-Rounded :
      {env : Env P} {c : ClientSocket} {r : Call P}
      → Flushed env c r
      → full_flag c.send ≡ 1
      → Rounded env c.send (flushed r (ℤ.pos 0))
  unfolding flushed
  flushed-Rounded {env} {c} (took {env' = env'} {c' = c'} k room o q h) full =
      Rounded-after k (load-eq o q h) full (fill-Filled env' 0 c' k.valid room (omega arith))
    where
      load-eq :
          c'.send.o_msg ≡ c.send.o_msg
          → c'.send.send_queue ≡ c.send.send_queue
          → env'.heap ≡ env.heap
          → load env' c'.send ≡ load env c.send
      load-eq o q h i =
          2 * length (message_rest (h i) (o i).pos (q i)) + 2 * length (q i) + null_flag (o i).buf

      Rounded-after :
          {r : Round P}
          → Kept env c.send env' c'.send
          → load env' c'.send ≡ load env c.send
          → full_flag c.send ≡ 1
          → Filled env' c'.send 0 r
          → Rounded env c.send r
      Rounded-after k e full (more l m) = nearer (Kept-trans k l) (omega arith)
      Rounded-after k e full (done l) = through (Kept-trans k l)
  flushed-Rounded (later {env' = env'} {c' = c'} k) full =
      stop_with-Rounded (Delivered-after k (cannot_write-Delivered env' c' k.valid))
  flushed-Rounded (hung k) full = leaves k

idle_flag_pos : (w : ℕ) → 0 < w → idle_flag w ≡ 0
idle_flag_pos zero h = absurd (omega arith)
idle_flag_pos (suc w) h = refl

module _ {P : MemPool} (K : Kernel) (law : TakesAtMost K) where
  -- What the buffer can take is a number of bytes: none when it is full.
  can_write_lem :
      (env : Env P) (c : ClientSocket)
      → SValid env c.send
      → IoBuffer.can_write c.send.io_send ≡ ℤ.pos (c.send.io_send.end - c.send.io_send.write_pos)
  unfolding IoBuffer.can_write
  can_write_lem env c v = ground (arith, v.buffer)

  pub round-Rounded :
      (env : Env P) (c : ClientSocket) → SValid env c.send → Rounded env c.send (round K env c)
  unfolding round
  round-Rounded env c v =
      let io = c.send.io_send in
      let e = can_write_lem env c v in
      elim (dec_lt io.write_pos io.end) [
        | yes room ↦
            let w = io.end - io.write_pos in
            rw (e, lt→leb (w + 0) 0 (omega arith))
              (Rounded-of_Filled {w = w} (omega (arith, idle_flag_pos w (omega arith)))
                (fill-Filled env w c v room (omega arith)))
        | no full ↦
            let none_left : io.end - io.write_pos ≡ 0 = omega arith in
            rw (e, none_left)
              (flushed-Rounded (send_to_kernel_buf-Flushed K law env c v)
                (rw (le→leb io.end io.write_pos (omega arith)) refl))
      ]

  last_flush-Delivered :
      {env : Env P} {c : ClientSocket} {r : Call P}
      → Flushed env c r
      → Delivered env c.send (last_flush K r)
  unfolding last_flush
  last_flush-Delivered (took {env' = env'} {c' = c'} k room o q h) = going {env' = env'} {c' = c'} k
  last_flush-Delivered (later {env' = env'} {c' = c'} k) =
      Delivered-after k (cannot_write-Delivered env' c' k.valid)
  last_flush-Delivered (hung {env' = env'} {c' = c'} k) = over {env' = env'} {c' = c'} k

  finish-Delivered :
      (env : Env P) (c : ClientSocket) → SValid env c.send → Delivered env c.send (finish K env c)
  unfolding finish
  finish-Delivered env c v =
      elim (Bool-cases (ltb_ℤ (ℤ.pos 0) (IoBuffer.can_read c.send.io_send))) [
        | inl some_left ↦
            rw some_left (last_flush-Delivered (send_to_kernel_buf-Flushed K law env c v))
        | inr empty ↦ rw empty (going {env' = env} {c' = c} (Kept-refl env c.send v))
      ]

  -- The loops behind a round.
  unfoldable pub proceed : ℕ → Round P → Call P
  proceed fuel r = elim r [
    | fails ↦ aborted
    | stops n env' c' ↦ returned n env' c'
    | again env' c' ↦ send_loop K fuel env' c'
    | ends env' c' ↦ finish K env' c'
  ]

  proceed-Delivered :
      (fuel : ℕ) (env : Env P) (c : ClientSocket) {r : Round P}
      → ((env' : Env P) (c' : ClientSocket)
          → SValid env' c'.send
          → measure env' c'.send < fuel
          → Delivered env' c'.send (send_loop K fuel env' c'))
      → measure env c.send < suc fuel
      → Rounded env c.send r
      → Delivered env c.send (proceed fuel r)
  unfolding proceed
  proceed-Delivered fuel env c rest h (stays {env' = env'} {c' = c'} k) =
      going {env' = env'} {c' = c'} k
  proceed-Delivered fuel env c rest h (leaves {env' = env'} {c' = c'} k) =
      over {env' = env'} {c' = c'} k
  proceed-Delivered fuel env c rest h (nearer {env' = env'} {c' = c'} k m) =
      Delivered-after k (rest env' c' k.valid (omega arith))
  proceed-Delivered fuel env c rest h (through {env' = env'} {c' = c'} k) =
      Delivered-after k (finish-Delivered env' c' k.valid)

  send_loop-Delivered :
      (fuel : ℕ) (env : Env P) (c : ClientSocket)
      → SValid env c.send
      → measure env c.send < fuel
      → Delivered env c.send (send_loop K fuel env c)
  unfolding send_loop proceed
  send_loop-Delivered zero env c v h = absurd (omega arith)
  send_loop-Delivered (suc fuel) env c v h =
      proceed-Delivered fuel env c (λ env' c' v' m. send_loop-Delivered fuel env' c' v' m) h
        (round-Rounded env c v)

  -- `ProcessorSend` is its loops on an open socket.
  pub processor_send-open :
      (fuel : ℕ) (env : Env P) (c : ClientSocket) (fd : ℕ)
      → c.send.sock ≡ some fd
      → processor_send K fuel env c ≡ send_loop K fuel env c
  unfolding processor_send
  processor_send-open fuel env c fd is_open =
      ap (λ t. elim t [ none ↦ returned (ℤ.negsuc 0) env c | some _ ↦ send_loop K fuel env c ])
        is_open

  -- With enough fuel, `ProcessorSend` on an open socket ends without a failed assertion. It either
  -- returns 0 with the socket still open, and the bytes that the kernel took followed by those still
  -- pending are what they were before the call; or it returns -1 with the socket closed, and the
  -- bytes that the kernel took are a front part of those.
  pub processor_send-Delivered :
      (fuel : ℕ) (env : Env P) (c : ClientSocket) (fd : ℕ)
      → c.send.sock ≡ some fd
      → SValid env c.send
      → measure env c.send < fuel
      → Delivered env c.send (processor_send K fuel env c)
  processor_send-Delivered fuel env c fd is_open v h =
      subst (λ r. Delivered env c.send r) (sym (processor_send-open fuel env c fd is_open))
        (send_loop-Delivered fuel env c v h)
