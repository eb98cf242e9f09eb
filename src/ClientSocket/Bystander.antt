-- ===== src/ClientSocket/Bystander.antt =====
-- A message queued on one socket leaves the others as they are: its block was not in use.
use select_mode_network.Base.{
  ℕ, ◌≤◌, ◌≡◌, refl, subst, ap, ap₂, sym, ◌∙◌, some, List, [], ◌∷◌, ◌++◌, length, take, drop,
}
use select_mode_network.Base.Int.{ℤ}
use select_mode_network.Buffer.Data.{Bytes, ushort_of}
use select_mode_network.Buffer.Unread.{io_unread}
use select_mode_network.Memory.Api.{MemPool}
use select_mode_network.ClientSocket.State.{Env, Sender, QmSend, Counters}
use select_mode_network.ClientSocket.Send.{enqueue, count_send, send_msg}
use select_mode_network.ClientSocket.Pending.{queue_bytes, message_rest, pending, Stored, SValid}
use select_mode_network.ClientSocket.Queued.{
  store_other, not_fresh, fresh, heap', env', send_data-open, send_msg-open,
}

-- The sender `t` has to send what it had, and is as well-formed.
pub record Untouched {P : MemPool} (env : Env P) (t : Sender) (env' : Env P) : Type 0 where
  pub same : pending env' t ≡ pending env t
  pub valid : SValid env' t

module _ {P : MemPool} (env : Env P) (src : Bytes) (len : ℕ) (fits : len ≤ length src)
    (k : Counters) where
  abbrev after : Env P
  after = env' env src len fits k

  same_block : (a : ℕ) → P.Live env.pool a → heap' env src len fits a ≡ env.heap a
  same_block a live =
      store_other env.heap (fresh env src len fits) (take len src) a
        (not_fresh env src len fits a live)

  queue_bytes-same :
      (qs : List QmSend) → Stored env qs → queue_bytes after.heap qs ≡ queue_bytes env.heap qs
  queue_bytes-same [] h = refl
  queue_bytes-same (q ∷ qs) h =
      ap₂ (λ t u. t ++ u) (same_block q.data_at h.1) (queue_bytes-same qs h.3)

  message_rest-same :
      (pos : ℕ) (qs : List QmSend)
      → Stored env qs
      → message_rest after.heap pos qs ≡ message_rest env.heap pos qs
  message_rest-same pos [] h = refl
  message_rest-same pos (q ∷ qs) h =
      ap₂ (λ t u. drop pos t ++ u) (same_block q.data_at h.1) (queue_bytes-same qs h.3)

  Stored-same : (qs : List QmSend) → Stored env qs → Stored after qs
  Stored-same [] h = tt
  Stored-same (q ∷ qs) h = (
    ap length (same_block q.data_at h.1) ∙ h.0,
    P.alloc_old env.pool len q.data_at h.1,
    h.2,
    Stored-same qs h.3,
  )

  after-Untouched : (t : Sender) → SValid env t → Untouched env t after
  after-Untouched t v = record {
    same =
        ap (λ x. io_unread t.send_buf t.io_send ++ x)
          (message_rest-same t.o_msg.pos t.send_queue v.stored);
    valid = record {
      buffer = v.buffer;
      at_front = v.at_front;
      full_size = v.full_size;
      stored = Stored-same t.send_queue v.stored;
      facing = v.facing;
    };
  }

module _ {P : MemPool} where
  -- `SendMsg` on an open socket, and another sender.
  pub send_msg-Untouched :
      (env : Env P) (s : Sender) (msg : Bytes) (fd : ℕ)
      → s.sock ≡ some fd
      → SValid env s
      → ushort_of msg ≤ length msg
      → (t : Sender) → SValid env t
      → Untouched env t (send_msg env s msg).1
  unfolding enqueue
  send_msg-Untouched env s msg fd is_open v fits t w =
      subst (λ (r : ℤ × Env P × Sender). Untouched env t r.1)
        (sym (
          send_msg-open env s msg fd is_open
          ∙ send_data-open env s v msg (ushort_of msg) fits fd is_open))
        (after-Untouched env msg (ushort_of msg) fits (count_send s.counted env.counters) t w)
