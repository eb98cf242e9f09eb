-- ===== src/ClientSocket/Advance.antt =====
-- The messages of the queue pass under `_oMsg` one after another, and no byte is lost on the way.
use select_mode_network.Base.{
  ℕ, zero, suc, ◌+◌, ◌*◌, ◌≤◌, ◌<◌, ◌≡◌, Bool, refl, ap, sym, ◌∙◌, none, some, List, [], ◌∷◌, ◌++◌,
  arith, if◌then◌else◌, lt→ltb, leb, lt→leb, inl, inr, length, drop, length-append, drop-all,
}
use select_mode_network.Base.Int.{ℤ}
use select_mode_network.Buffer.Data.{Bytes, Ptr}
use select_mode_network.Buffer.OBuffer
use select_mode_network.Buffer.OBuffer.{OBuffer}
use select_mode_network.Buffer.Unread.{io_unread}
use select_mode_network.Memory.Api.{MemPool}
use select_mode_network.Queue.Api
use select_mode_network.ClientSocket.State.{
  Env, Sender, ClientSocket, QmSend, count_queue, free_block,
}
use select_mode_network.ClientSocket.Send.{Round, again, ends, next_message}
use select_mode_network.ClientSocket.Pending.{
  queue_bytes, message_rest, Apart, Stored, SValid, Kept,
}

-- The socket with its queue and `_oMsg` written out.
abbrev pub shape : ClientSocket → List QmSend → OBuffer → ClientSocket
shape c queue o = record c { send = record send { send_queue = queue; o_msg = o } }
  where
    open c use {send}

abbrev pub nowhere : OBuffer
nowhere = record { buf = none; pos = 0; end = 0 }

abbrev pub on_message : QmSend → ℕ → OBuffer
on_message q pos = record { buf = some q.data_at; pos = pos; end = q.size }

-- How far the loops are from their end, but for a full buffer.
abbrev pub null_flag : Ptr → ℕ
null_flag none = 1
null_flag (some _) = 0

abbrev pub load : {P : MemPool} → Env P → Sender → ℕ
load env s =
    2 * length (message_rest env.heap s.o_msg.pos s.send_queue)
    + 2 * length s.send_queue
    + null_flag s.o_msg.buf

abbrev pub full_flag : Sender → ℕ
full_flag s = if leb s.io_send.end s.io_send.write_pos then 1 else 0

abbrev pub idle_flag : ℕ → ℕ
idle_flag zero = 1
idle_flag (suc _) = 0

-- What `fill` leads to, with room for `w` bytes by the number that it is given.
pub data Filled {P : MemPool} (env : Env P) (s : Sender) (w : ℕ) : Round P → Type 0 where
  more :
      {env' : Env P} {c' : ClientSocket}
      → Kept env s env' c'.send
      → load env' c'.send + full_flag c'.send < load env s + idle_flag w
      → Filled env s w (again env' c')
  done :
      {env' : Env P} {c' : ClientSocket} → Kept env s env' c'.send → Filled env s w (ends env' c')

message_rest_zero :
    (heap : ℕ → Bytes) (qs : List QmSend) → message_rest heap 0 qs ≡ queue_bytes heap qs
message_rest_zero heap [] = refl
message_rest_zero heap (q ∷ qs) = refl

module _ {P : MemPool} where
  Stored-free :
      (env : Env P) (q : QmSend) (counted : Bool) (n : ℤ) (qs : List QmSend)
      → Apart q.data_at qs
      → Stored env qs
      → Stored (free_block (record env { counters = count_queue counted n env.counters }) q) qs
  unfolding free_block
  Stored-free env q counted n [] a h = tt
  Stored-free env q counted n (x ∷ qs) a h = (
    h.0,
    P.free_old env.pool q.data_at q.size x.data_at h.1 (λ e. a.0 (sym e)),
    h.2,
    Stored-free env q counted n qs a.1 h.3,
  )

  heap-free :
      (env : Env P) (q : QmSend) (counted : Bool) (n : ℤ)
      → (free_block (record env { counters = count_queue counted n env.counters }) q).heap
        ≡ env.heap
  unfolding free_block
  heap-free env q counted n = refl

  pub Kept-trans :
      {env₁ env₂ env₃ : Env P} {s₁ s₂ s₃ : Sender}
      → Kept env₁ s₁ env₂ s₂
      → Kept env₂ s₂ env₃ s₃
      → Kept env₁ s₁ env₃ s₃
  Kept-trans k l = record {
    open_still = l.open_still ∙ k.open_still;
    same = l.same ∙ k.same;
    valid = l.valid;
  }

  -- The next message comes under `_oMsg`, which points nowhere.
  pub next_message-Filled :
      (env : Env P) (c : ClientSocket) (queue : List QmSend) (w : ℕ)
      → SValid env (shape c queue nowhere).send
      → c.send.io_send.write_pos < c.send.io_send.end
      → Filled env (shape c queue nowhere).send w (next_message env (shape c queue nowhere))
  unfolding next_message Api.has_data Api.front OBuffer.set_buffer
  next_message-Filled env c [] w v room =
      done (record { open_still = refl; same = refl; valid = v })
  next_message-Filled env c (q ∷ qs) w v room = rw (lt→ltb 0 (suc (length qs)) (omega arith)) (
      more {env' = env} {c' = shape c (q ∷ qs) (on_message q 0)}
        (record {
          open_still = refl;
          same = refl;
          valid = record {
            buffer = v.buffer;
            at_front = v.at_front;
            full_size = v.full_size;
            stored = v.stored;
            facing = inr (q, qs, refl, refl, refl, omega arith);
          };
        })
        (rw (lt→leb c.send.io_send.end c.send.io_send.write_pos room) (omega arith)))

  pub Filled-after :
      {env env₁ : Env P} {s s₁ : Sender} {w : ℕ} {r : Round P}
      → Kept env s env₁ s₁
      → load env₁ s₁ ≤ load env s
      → Filled env₁ s₁ w r
      → Filled env s w r
  Filled-after k h (more l m) = more (Kept-trans k l) (omega arith)
  Filled-after k h (done l) = done (Kept-trans k l)

  module _ (env : Env P) (c : ClientSocket) (q : QmSend) (qs : List QmSend) (pos w : ℕ)
      (v : SValid env (shape c (q ∷ qs) (on_message q pos)).send)
      (room : c.send.io_send.write_pos < c.send.io_send.end) where
    abbrev pub freed : Env P
    freed =
        free_block (record env { counters = count_queue c.send.counted (ℤ.negsuc 0) env.counters })
          q

    read_out : q.size ≤ pos → drop pos (env.heap q.data_at) ≡ []
    read_out h = drop-all pos _ (omega arith)

    pub drop_message-Kept :
        q.size ≤ pos
        → Kept env (shape c (q ∷ qs) (on_message q pos)).send freed (shape c qs nowhere).send
    unfolding free_block
    drop_message-Kept h = record {
      open_still = refl;
      same =
          ap (λ t. c.send.sent ++ (io_unread c.send.send_buf c.send.io_send ++ t))
            (message_rest_zero env.heap qs
              ∙ ap (λ t. t ++ queue_bytes env.heap qs) (sym (read_out h)));
      valid = record {
        buffer = v.buffer;
        at_front = v.at_front;
        full_size = v.full_size;
        stored = Stored-free env q c.send.counted (ℤ.negsuc 0) qs v.stored.2 v.stored.3;
        facing = inl (refl, refl, refl);
      };
    }

    pub drop_message-load :
        load freed (shape c qs nowhere).send ≤ load env (shape c (q ∷ qs) (on_message q pos)).send
    unfolding free_block
    drop_message-load = omega (
      arith,
      ap length (message_rest_zero env.heap qs),
      length-append (drop pos (env.heap q.data_at)) (queue_bytes env.heap qs),
    )
