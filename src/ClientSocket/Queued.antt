-- ===== src/ClientSocket/Queued.antt =====
-- `SendData` and `SendMsg`: the message joins the end of what is pending.
use select_mode_network.Base.{
  ℕ, ◌≤◌, ◌≡◌, ◌≢◌, refl, subst, ap, ap₂, sym, ◌∙◌, none, some, List, [], ◌∷◌, ◌++◌, arith, inl,
  inr, append_assoc, append-nil, length, take, drop, length-take,
}
use select_mode_network.Base.Int.{ℤ}
use select_mode_network.Buffer.Data.{Bytes, ushort_of}
use select_mode_network.Buffer.OBuffer.{OBuffer}
use select_mode_network.Buffer.Unread.{io_unread}
use select_mode_network.Memory.Api.{MemPool}
use select_mode_network.Queue.Api
use select_mode_network.ClientSocket.State.{Env, Sender, QmSend}
use select_mode_network.ClientSocket.Send.{store, enqueue, count_send, send_data, send_msg}
use select_mode_network.ClientSocket.Pending.{
  queue_bytes, message_rest, pending, Apart, Stored, Facing, SValid,
}
use select_mode_network.ClientSocket.State.{Counters}

pub store_same : (heap : ℕ → Bytes) (p : ℕ) (bytes : Bytes) → store heap p bytes p ≡ bytes
store_same heap p bytes = ground arith

pub store_other :
    (heap : ℕ → Bytes) (p : ℕ) (bytes : Bytes) (a : ℕ) → a ≢ p → store heap p bytes a ≡ heap a
store_other heap p bytes a h = ground arith

-- A message joins the queue in a block that was not in use.
module _ {P : MemPool} (env : Env P) (src : Bytes) (len : ℕ) (fits : len ≤ length src) where
  abbrev pub fresh : ℕ
  fresh = (P.alloc env.pool len).0

  abbrev pub heap' : ℕ → Bytes
  heap' = store env.heap fresh (take len src)

  abbrev pub env' : Counters → Env P
  env' k = record env { counters = k; pool = (P.alloc env.pool len).1; heap = heap' }

  abbrev joined : QmSend
  joined = record { size = len; data_at = fresh }

  pub not_fresh : (a : ℕ) → P.Live env.pool a → a ≢ fresh
  not_fresh a live e = P.alloc_fresh env.pool len (subst (λ t. P.Live env.pool t) e live)

  queue_bytes-joined :
      (qs : List QmSend)
      → Stored env qs
      → queue_bytes heap' (qs ++ (joined ∷ [])) ≡ queue_bytes env.heap qs ++ take len src
  queue_bytes-joined [] h =
      ap (λ t. t ++ []) (store_same env.heap fresh (take len src)) ∙ append-nil _
  queue_bytes-joined (q ∷ qs) h =
      ap₂ (λ t u. t ++ u)
        (store_other env.heap fresh (take len src) q.data_at (not_fresh q.data_at h.1))
        (queue_bytes-joined qs h.3)
      ∙ sym (append_assoc (env.heap q.data_at) (queue_bytes env.heap qs) (take len src))

  Apart-joined : (a : ℕ) (qs : List QmSend) → a ≢ fresh → Apart a qs → Apart a (qs ++ (joined ∷ []))
  Apart-joined a [] n h = (n, tt)
  Apart-joined a (q ∷ qs) n h = (h.0, Apart-joined a qs n h.1)

  Stored-joined :
      (k : Counters) (qs : List QmSend) → Stored env qs → Stored (env' k) (qs ++ (joined ∷ []))
  Stored-joined k [] h = (
    ap length (store_same env.heap fresh (take len src)) ∙ omega (arith, length-take len src, fits),
    P.alloc_new env.pool len,
    tt,
    tt,
  )
  Stored-joined k (q ∷ qs) h = (
    ap length (store_other env.heap fresh (take len src) q.data_at (not_fresh q.data_at h.1)) ∙ h.0,
    P.alloc_old env.pool len q.data_at h.1,
    Apart-joined q.data_at qs (not_fresh q.data_at h.1) h.2,
    Stored-joined k qs h.3,
  )

  message_rest-joined :
      (pos : ℕ) (q : QmSend) (qs : List QmSend)
      → Stored env (q ∷ qs)
      → message_rest heap' pos ((q ∷ qs) ++ (joined ∷ []))
        ≡ message_rest env.heap pos (q ∷ qs) ++ take len src
  message_rest-joined pos q qs h =
      ap₂ (λ t u. drop pos t ++ u)
        (store_other env.heap fresh (take len src) q.data_at (not_fresh q.data_at h.1))
        (queue_bytes-joined qs h.3)
      ∙ sym (append_assoc (drop pos (env.heap q.data_at)) (queue_bytes env.heap qs) (take len src))

-- The message `bytes` has been queued behind everything else, and nothing has been sent.
pub record Joined {P : MemPool} (env : Env P) (s : Sender) (bytes : Bytes) (env' : Env P)
    (s' : Sender) : Type 0 where
  pub open_still : s'.sock ≡ s.sock
  pub sent_still : s'.sent ≡ s.sent
  pub behind : pending env' s' ≡ pending env s ++ bytes
  pub valid : SValid env' s'

module _ {P : MemPool} (env : Env P) (s : Sender) (v : SValid env s) (src : Bytes) (len : ℕ)
    (fits : len ≤ length src) where
  rest-joined :
      (o : OBuffer) (queue : List QmSend)
      → Stored env queue
      → Facing o queue
      → message_rest (heap' env src len fits) o.pos (queue ++ (joined env src len fits ∷ []))
        ≡ message_rest env.heap o.pos queue ++ take len src
  rest-joined o (q ∷ qs) h f = message_rest-joined env src len fits o.pos q qs h
  rest-joined o [] h (inl (_, at_zero, _)) =
      ap₂ (λ t p. drop p t ++ []) (store_same env.heap (fresh env src len fits) (take len src))
        at_zero
      ∙ append-nil _
  rest-joined o [] h (inr (_, _, e, _, _, _)) = absurd (cc e)

  Facing-joined :
      (x : QmSend) (o : OBuffer) (queue : List QmSend)
      → Facing o queue
      → Facing o (queue ++ (x ∷ []))
  Facing-joined x o queue (inl h) = inl h
  Facing-joined x o queue (inr (q, qs, e, a, b, d)) =
      inr (q, qs ++ (x ∷ []), ap (λ t. t ++ (x ∷ [])) e, a, b, d)

  enqueue-Joined :
      (k : Counters)
      → let r = enqueue (record env { counters = k }) s src len in
        Joined env s (take len src) r.0 r.1
  unfolding enqueue Api.push
  enqueue-Joined k = record {
    open_still = refl;
    sent_still = refl;
    behind =
        ap (λ t. io_unread s.send_buf s.io_send ++ t)
          (rest-joined s.o_msg s.send_queue v.stored v.facing)
        ∙ sym (append_assoc (io_unread s.send_buf s.io_send) _ (take len src));
    valid = record {
      buffer = v.buffer;
      at_front = v.at_front;
      full_size = v.full_size;
      stored = Stored-joined env src len fits k s.send_queue v.stored;
      facing = Facing-joined (joined env src len fits) s.o_msg s.send_queue v.facing;
    };
  }

  abbrev pub queued : Env P × Sender
  queued = enqueue (record env { counters = count_send s.counted env.counters }) s src len

  pub send_data-open :
      (fd : ℕ) → s.sock ≡ some fd → send_data env s src len ≡ (ℤ.pos 0, queued.0, queued.1)
  unfolding send_data
  send_data-open fd is_open =
      ap (λ t. elim t [ none ↦ (ℤ.negsuc 0, env, s) | some _ ↦ (ℤ.pos 0, queued.0, queued.1) ])
        is_open

  queued-Joined : Joined env s (take len src) queued.0 queued.1
  queued-Joined = enqueue-Joined (count_send s.counted env.counters)

-- What a call of `SendData` or `SendMsg` with the message `bytes` returns.
abbrev pub Accepted : {P : MemPool} → Env P → Sender → Bytes → ℤ × Env P × Sender → Type 0
Accepted env s bytes r = (r.0 ≡ ℤ.pos 0) × Joined env s bytes r.1 r.2

module _ {P : MemPool} where
  -- On an open socket, `SendData` of `len` of the bytes at `src` returns 0: the first `len` of them
  -- join the end of what is pending, of which nothing else changes, nothing is sent, and the socket
  -- stays open and well-formed.
  pub send_data-Joined :
      (env : Env P) (s : Sender) (src : Bytes) (len fd : ℕ)
      → s.sock ≡ some fd
      → SValid env s
      → len ≤ length src
      → Accepted env s (take len src) (send_data env s src len)
  send_data-Joined env s src len fd is_open v fits =
      subst (λ r. Accepted env s (take len src) r)
        (sym (send_data-open env s v src len fits fd is_open))
        (refl, queued-Joined env s v src len fits)

  pub send_msg-open :
      (env : Env P) (s : Sender) (msg : Bytes) (fd : ℕ)
      → s.sock ≡ some fd
      → send_msg env s msg ≡ send_data env s msg (ushort_of msg)
  unfolding send_msg
  send_msg-open env s msg fd is_open =
      ap
        (λ t. elim t [ none ↦ (ℤ.negsuc 0, env, s) | some _ ↦ send_data env s msg (ushort_of msg) ])
        is_open

  -- On an open socket, `SendMsg` returns 0, and queues as many bytes of the message as the message
  -- itself says in its first two.
  pub send_msg-Joined :
      (env : Env P) (s : Sender) (msg : Bytes) (fd : ℕ)
      → s.sock ≡ some fd
      → SValid env s
      → ushort_of msg ≤ length msg
      → Accepted env s (take (ushort_of msg) msg) (send_msg env s msg)
  send_msg-Joined env s msg fd is_open v fits =
      subst (λ r. Accepted env s (take (ushort_of msg) msg) r)
        (sym (send_msg-open env s msg fd is_open))
        (send_data-Joined env s msg (ushort_of msg) fd is_open v fits)
