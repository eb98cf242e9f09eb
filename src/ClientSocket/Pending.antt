-- ===== src/ClientSocket/Pending.antt =====
-- The bytes that a socket still has to send, and the invariant of its sending half.
use select_mode_network.Base.{ℕ, ◌≤◌, ◌≡◌, ◌≢◌, ◌⊎◌, none, some, List, [], ◌∷◌, ◌++◌, length, drop}
use select_mode_network.Base.Int.{ℤ, pos_part}
use select_mode_network.Buffer.Data.{Bytes}
use select_mode_network.Buffer.OBuffer.{OBuffer}
use select_mode_network.Buffer.Unread.{IoValid, io_unread}
use select_mode_network.Memory.Api.{MemPool}
use select_mode_network.Protocol.{buffer_size}
use select_mode_network.ClientSocket.State.{Env, Sender, ClientSocket, QmSend, Call, returned}
use select_mode_network.ClientSocket.Send.{Kernel}

-- The messages of a queue, one after another.
abbrev pub queue_bytes : (ℕ → Bytes) → List QmSend → Bytes
queue_bytes heap [] = []
queue_bytes heap (q ∷ qs) = heap q.data_at ++ queue_bytes heap qs

-- The same, of which the first `pos` bytes of the first message have gone to `_sendBuf`.
abbrev pub message_rest : (ℕ → Bytes) → ℕ → List QmSend → Bytes
message_rest heap pos [] = []
message_rest heap pos (q ∷ qs) = drop pos (heap q.data_at) ++ queue_bytes heap qs

abbrev pub Apart : ℕ → List QmSend → Type 0
Apart a [] = Unit {0}
Apart a (q ∷ qs) = (a ≢ q.data_at) × Apart a qs

-- `_oMsg` points nowhere, or into the first message of the queue.
abbrev pub Facing : OBuffer → List QmSend → Type 0
Facing o queue =
    ((o.buf ≡ none) × (o.pos ≡ 0) × (o.end ≡ 0))
    ⊎ ((q : QmSend) × (qs : List QmSend) × (queue ≡ q ∷ qs)
        × (o.buf ≡ some q.data_at)
        × (o.end ≡ q.size)
        × (o.pos ≤ o.end))

module _ {P : MemPool} where
  abbrev pub pending : Env P → Sender → Bytes
  pending env s = io_unread s.send_buf s.io_send ++ message_rest env.heap s.o_msg.pos s.send_queue

  -- Each block of the queue is in use, holds its message, and is in the queue once.
  abbrev pub Stored : Env P → List QmSend → Type 0
  Stored env [] = Unit {0}
  Stored env (q ∷ qs) =
      (length (env.heap q.data_at) ≡ q.size)
      × P.Live env.pool q.data_at
      × Apart q.data_at qs
      × Stored env qs

  pub record SValid (env : Env P) (s : Sender) : Type 0 where
    pub buffer : IoValid s.send_buf s.io_send
    pub at_front : s.io_send.read_pos ≡ 0
    pub full_size : s.io_send.end ≡ buffer_size
    pub stored : Stored env s.send_queue
    pub facing : Facing s.o_msg s.send_queue

  -- The socket is open as before, and no byte has been lost, doubled or moved.
  pub record Kept (env : Env P) (s : Sender) (env' : Env P) (s' : Sender) : Type 0 where
    pub open_still : s'.sock ≡ s.sock
    pub same : s'.sent ++ pending env' s' ≡ s.sent ++ pending env s
    pub valid : SValid env' s'

  -- The socket has been closed; what the kernel took is a front part of what was to be sent.
  pub record Cut (env : Env P) (s : Sender) (env' : Env P) (s' : Sender) : Type 0 where
    pub closed : s'.sock ≡ none
    pub lost : Bytes
    pub prefix : s'.sent ++ lost ≡ s.sent ++ pending env s

  -- What a call of `ProcessorSend` may lead to.
  pub data Delivered (env : Env P) (s : Sender) : Call P → Type 0 where
    going :
        {env' : Env P} {c' : ClientSocket}
        → Kept env s env' c'.send
        → Delivered env s (returned (ℤ.pos 0) env' c')
    over :
        {env' : Env P} {c' : ClientSocket}
        → Cut env s env' c'.send
        → Delivered env s (returned (ℤ.negsuc 0) env' c')

-- `send` never takes more than it is given.
abbrev pub TakesAtMost : Kernel → Type 0
TakesAtMost K = (t len : ℕ) → pos_part (K.send t len) ≤ len
