-- ===== src/ClientSocket/Flush.antt =====
-- `SendToKernelBuf`: what the kernel takes leaves the front of the buffer.
use select_mode_network.Base.{
  ℕ, zero, suc, ◌+◌, ◌-◌, ◌≤◌, ◌<◌, ◌≡◌, refl, ap, sym, ◌∙◌, none, some, List, [], ◌∷◌, ◌++◌, arith,
  le→leb, lt→leb, Bool-cases, inl, inr, append_assoc, take, drop, read_at,
}
use select_mode_network.Base.Int.{ℤ, pos_part, ltb_ℤ}
use select_mode_network.Base.Arrays.{read_at-add}
use select_mode_network.Buffer.Data.{Bytes}
use select_mode_network.Buffer.IoBuffer
use select_mode_network.Buffer.IoBuffer.{IoBuffer}
use select_mode_network.Buffer.Unread.{io_unread, io_move_data_to_front_lem}
use select_mode_network.Memory.Api.{MemPool}
use select_mode_network.ClientSocket.State.{
  Env, Sender, ClientSocket, QmSend, Call, close, returned,
}
use select_mode_network.ClientSocket.Send.{
  Kernel, hang_up, sent_bytes, after_send, send_to_kernel_buf,
}
use select_mode_network.ClientSocket.Pending.{
  pending, message_rest, Stored, SValid, Kept, Cut, TakesAtMost,
}

-- Taking the first `k` unread bytes off a buffer that is read from its front.
module _ (mem : Bytes) (io : IoBuffer) (k : ℕ) (h : k ≤ io.write_pos - io.read_pos) where
  abbrev pub taken : IoBuffer
  taken = record io { read_pos = io.read_pos + k }

  pub move_read_pos_lem : io.read_pos ≤ io.write_pos → IoBuffer.move_read_pos k io ≡ some taken
  unfolding IoBuffer.move_read_pos
  move_read_pos_lem b = ground arith

  front_split : io.read_pos ≡ 0 → io_unread mem io ≡ take k mem ++ io_unread mem taken
  front_split e =
      ap (λ n. read_at mem io.read_pos n) (omega arith)
      ∙ read_at-add mem io.read_pos k (io.write_pos - (io.read_pos + k))
      ∙ ap (λ p. take k (drop p mem) ++ io_unread mem taken) e

pub can_read_lem :
    (c : ClientSocket)
    → pos_part (IoBuffer.can_read c.send.io_send)
      ≡ c.send.io_send.write_pos - c.send.io_send.read_pos
unfolding IoBuffer.can_read
can_read_lem c = ground arith

module _ {P : MemPool} where
  -- What `SendToKernelBuf` may lead to. When it returns 1 there is room in the buffer.
  pub data Flushed (env : Env P) (c : ClientSocket) : Call P → Type 0 where
    took :
        {env' : Env P} {c' : ClientSocket}
        → Kept env c.send env' c'.send
        → c'.send.io_send.write_pos < c'.send.io_send.end
        → c'.send.o_msg ≡ c.send.o_msg
        → c'.send.send_queue ≡ c.send.send_queue
        → env'.heap ≡ env.heap
        → Flushed env c (returned (ℤ.pos 1) env' c')
    later :
        {env' : Env P} {c' : ClientSocket}
        → Kept env c.send env' c'.send
        → Flushed env c (returned (ℤ.pos 0) env' c')
    hung :
        {env' : Env P} {c' : ClientSocket}
        → Cut env c.send env' c'.send
        → Flushed env c (returned (ℤ.negsuc 0) env' c')

  pub close-Cut : (env : Env P) (c : ClientSocket) → (close env c).1.send.sock ≡ none
  unfolding close
  close-Cut env c = ground arith

  pub close-sent : (env : Env P) (c : ClientSocket) → (close env c).1.send.sent ≡ c.send.sent
  unfolding close
  close-sent env c = ground arith

  pub hang_up-Cut :
      (env env₀ : Env P) (c : ClientSocket)
      → pending env c.send ≡ pending env₀ c.send
      → Cut env₀ c.send (close env c).0 (close env c).1.send
  hang_up-Cut env env₀ c e = record {
    closed = close-Cut env c;
    lost = pending env₀ c.send;
    prefix = ap (λ t. t ++ pending env₀ c.send) (close-sent env c);
  }

  sent_bytes-took :
      (env : Env P) (c : ClientSocket) (k : ℕ)
      → SValid env c.send
      → 0 < k
      → k ≤ c.send.io_send.write_pos - c.send.io_send.read_pos
      → Flushed env c (sent_bytes env c k)
  unfolding sent_bytes
  sent_bytes-took env c k v p h =
      let s = c.send in
      let mem = s.send_buf in
      let io = s.io_send in
      let moved = io_move_data_to_front_lem mem (taken mem io k h) (omega arith) in
      let rest = message_rest env.heap s.o_msg.pos s.send_queue in
      let left_over = io_unread mem (taken mem io k h) in
      let same =
        ap (λ t. (s.sent ++ take k mem) ++ (t ++ rest)) moved.same
        ∙ append_assoc s.sent (take k mem) (left_over ++ rest)
        ∙ ap (λ t. s.sent ++ t)
            (sym (append_assoc (take k mem) left_over rest)
              ∙ ap (λ t. t ++ rest) (sym (front_split mem io k h v.at_front))) in
      rw (move_read_pos_lem mem io k h (omega arith), sent_bytes)
        (took
          (record {
            open_still = refl;
            same = same;
            valid = record {
              buffer = moved.valid;
              at_front = moved.read_pos;
              full_size = moved.end ∙ v.full_size;
              stored = v.stored;
              facing = v.facing;
            };
          })
          (omega (arith, moved.write_pos, moved.end)) refl refl refl)

  Kept-clock :
      (env : Env P) (s : Sender) (n : ℕ) → SValid env s → Kept env s (record env { clock = n }) s
  Kept-clock env s n v = record {
    open_still = refl;
    same = refl;
    valid = record {
      buffer = v.buffer;
      at_front = v.at_front;
      full_size = v.full_size;
      stored = Stored-clock env n s.send_queue v.stored;
      facing = v.facing;
    };
  }
    where
      Stored-clock :
          (env : Env P) (n : ℕ) (qs : List QmSend)
          → Stored env qs
          → Stored (record env { clock = n }) qs
      Stored-clock env n [] h = tt
      Stored-clock env n (q ∷ qs) h = (h.0, h.1, h.2, Stored-clock env n qs h.3)

  after_send-Flushed :
      (env : Env P) (c : ClientSocket) (n : ℤ)
      → SValid env c.send
      → pos_part n ≤ c.send.io_send.write_pos - c.send.io_send.read_pos
      → Flushed env c (after_send env c n)
  unfolding after_send hang_up
  after_send-Flushed env c (ℤ.negsuc m) v h =
      rw (le→leb 0 (0 + suc m) (omega arith))
        (hung {env' = (close env c).0} {c' = (close env c).1} (hang_up-Cut env env c refl))
  after_send-Flushed env c (ℤ.pos zero) v h =
      hung {env' = (close env c).0} {c' = (close env c).1} (hang_up-Cut env env c refl)
  after_send-Flushed env c (ℤ.pos (suc k)) v h =
      rw (lt→leb (suc k + 0) 0 (omega arith)) (sent_bytes-took env c (suc k) v (omega arith) h)

  -- Only the clock differs, so what is pending does not.
  Flushed-clock :
      (env : Env P) (n : ℕ) (c : ClientSocket) (r : Call P)
      → Flushed (record env { clock = n }) c r
      → Flushed env c r
  Flushed-clock env n c r (took k a b d e) =
      took (record { open_still = k.open_still; same = k.same; valid = k.valid }) a b d e
  Flushed-clock env n c r (later k) =
      later (record { open_still = k.open_still; same = k.same; valid = k.valid })
  Flushed-clock env n c r (hung k) =
      hung (record { closed = k.closed; lost = k.lost; prefix = k.prefix })

  pub send_to_kernel_buf-Flushed :
      (K : Kernel)
      → TakesAtMost K
      → (env : Env P) (c : ClientSocket) → SValid env c.send
      → Flushed env c (send_to_kernel_buf K env c)
  unfolding send_to_kernel_buf hang_up
  send_to_kernel_buf-Flushed K law env c v =
      let t = env.clock in
      let later_on = Kept-clock env c.send (t + 1) v in
      let total = pos_part (IoBuffer.can_read c.send.io_send) in
      elim (Bool-cases (ltb_ℤ (K.select t) (ℤ.pos 0))) [
        | inl failed ↦ rw failed (
            let env' = record env { clock = t + 1 } in
            hung {env' = (close env' c).0} {c' = (close env' c).1} (hang_up-Cut env' env c refl))
        | inr fine ↦ rw fine (elim (Bool-cases (K.writable t)) [
          | inl ready ↦ rw ready (
              Flushed-clock env (t + 1) c _ (
                after_send-Flushed (record env { clock = t + 1 }) c (K.send t total) later_on.valid
                  (omega (arith, law t total, can_read_lem c))))
          | inr busy ↦ rw busy (later later_on)
        ])
      ]
