-- ===== src/ClientSocket/Send.antt =====
-- The sending half of CommonLib/ClientSocket.cpp: `SendMsg` and `SendData` queue a copy of the
-- message, and `ProcessorSend` moves the queue through `_sendBuf` into the kernel.
use select_mode_network.Base.{
  ℕ, zero, suc, ◌+◌, Bool, none, some, [], ◌++◌, if◌then◌else◌, ltb, ◌==◌, take,
}
use select_mode_network.Base.Int.{ℤ, pos_part, leb_ℤ, ltb_ℤ}
use select_mode_network.Buffer.Data.{Bytes, Ptr, ushort_of}
use select_mode_network.Buffer.OBuffer
use select_mode_network.Buffer.OBuffer.{OBuffer}
use select_mode_network.Buffer.IoBuffer
use select_mode_network.Buffer.IoBuffer.{IoBuffer}
use select_mode_network.Memory.Api.{MemPool}
use select_mode_network.Protocol.{max_accumulate_count}
use select_mode_network.Queue.Api
use select_mode_network.ClientSocket.State.{
  Env, Sender, ClientSocket, Counters, QmSend, no_send, count_queue, free_block, Call, close,
}
use select_mode_network.ClientSocket.State

-- The kernel's answers, by the number of the call of `select`: its result, whether the socket may
-- be written, and the result of `send` on so many bytes.
pub record Kernel : Type 0 where
  pub select : ℕ → ℤ
  pub writable : ℕ → Bool
  pub send : ℕ → ℕ → ℤ

unfoldable pub count_send : Bool → Counters → Counters
unfolding count_queue
count_send counted k =
    let k' = count_queue counted (ℤ.pos 1) k in
    if counted then record k' { send_times = k'.send_times + 1 } else k'

abbrev pub store : (ℕ → Bytes) → ℕ → Bytes → ℕ → Bytes
store heap p bytes a = if a == p then bytes else heap a

-- The block that a pointer into the pool points to.
abbrev pub block : {P : MemPool} → Env P → Ptr → Bytes
block env none = []
block env (some p) = env.heap p

module _ {P : MemPool} where
  -- `Alloc`, `memcpy`, and `push`.
  unfoldable pub enqueue : Env P → Sender → Bytes → ℕ → Env P × Sender
  enqueue env s src len =
      let (p, pool') = P.alloc env.pool len in
      (
        record env { pool = pool'; heap = store env.heap p (take len src) },
        record s { send_queue = Api.push s.send_queue (record { size = len; data_at = p }) },
      )

  unfoldable pub send_data : Env P → Sender → Bytes → ℕ → ℤ × Env P × Sender
  unfolding enqueue count_send
  send_data env s src len = elim s.sock [
    | none ↦ (ℤ.negsuc 0, env, s)
    | some _ ↦
        let (env', s') =
          enqueue (record env { counters = count_send s.counted env.counters }) s src len in
        (ℤ.pos 0, env', s')
  ]

  -- The length that a message is sent with is its first field.
  unfoldable pub send_msg : Env P → Sender → Bytes → ℤ × Env P × Sender
  send_msg env s msg = elim s.sock [
    | none ↦ (ℤ.negsuc 0, env, s)
    | some _ ↦ send_data env s msg (ushort_of msg)
  ]

-- What a round of `ProcessorSend` leads to: a `return`, another round, or the end of both loops.
pub data Round (P : MemPool) : Type 0 where
  fails : Round P
  stops : ℤ → Env P → ClientSocket → Round P
  again ends : Env P → ClientSocket → Round P

module _ {P : MemPool} where
  unfoldable pub hang_up : Env P → ClientSocket → Call P
  hang_up env c = let (env', c') = close env c in State.returned (ℤ.negsuc 0) env' c'

  -- `send` took `k` bytes from the front of `_sendBuf`.
  unfoldable pub sent_bytes : Env P → ClientSocket → ℕ → Call P
  sent_bytes env c k = elim (IoBuffer.move_read_pos k c.send.io_send) [
    | none ↦ State.aborted
    | some io ↦
        let s = c.send in
        let (buf', io') = IoBuffer.move_data_to_front s.send_buf io in
        State.returned (ℤ.pos 1) env (record c {
          send = record s { send_buf = buf'; io_send = io'; sent = s.sent ++ take k s.send_buf };
        })
  ]

  -- `send` returned `n`.
  unfoldable pub after_send : Env P → ClientSocket → ℤ → Call P
  unfolding hang_up sent_bytes
  after_send env c n = if leb_ℤ n (ℤ.pos 0) then hang_up env c else sent_bytes env c (pos_part n)

module _ {P : MemPool} (K : Kernel) where
  unfoldable pub send_to_kernel_buf : Env P → ClientSocket → Call P
  unfolding after_send hang_up
  send_to_kernel_buf env c =
      let t = env.clock in
      let env' = record env { clock = t + 1 } in
      if ltb_ℤ (K.select t) (ℤ.pos 0)
      then hang_up env' c
      else if K.writable t
      then after_send env' c (K.send t (pos_part (IoBuffer.can_read c.send.io_send)))
      else State.returned (ℤ.pos 0) env' c

module _ {P : MemPool} where
  -- The kernel takes nothing for now: give up only if the queue has grown too long.
  unfoldable pub cannot_write : Env P → ClientSocket → Call P
  unfolding hang_up
  cannot_write env c =
      if ltb max_accumulate_count (Api.size c.send.send_queue)
      then hang_up env c
      else State.returned (ℤ.pos 0) env c

  -- `_oMsg` has been read to its end: the message goes off the queue, and its block is freed.
  unfoldable pub drop_message : Env P → ClientSocket → Env P × ClientSocket
  unfolding free_block
  drop_message env c = elim (OBuffer.get_buffer c.send.o_msg) [
    | none ↦ (env, c)
    | some _ ↦
        let (q, rest) = Api.pop no_send c.send.send_queue in
        (
          free_block
              (record env { counters = count_queue c.send.counted (ℤ.negsuc 0) env.counters }) q,
          record c {
            send = record send { send_queue = rest; o_msg = OBuffer.set_buffer none 0 send.o_msg };
          },
        )
  ]
    where
      open c use {send}

  -- The outer loop: the next message goes under `_oMsg`, if there is one.
  unfoldable pub next_message : Env P → ClientSocket → Round P
  next_message env c =
      if Api.has_data c.send.send_queue
      then (let q = Api.front no_send c.send.send_queue in
          let s = c.send in
          again env (record c {
            send = record s { o_msg = OBuffer.set_buffer (some q.data_at) q.size s.o_msg };
          }))
      else ends env c

  -- `_oMsg.readBytes(&_ioSend, writeLen)`
  unfoldable pub move_bytes : Env P → ClientSocket → ℕ → Round P
  move_bytes env c len =
      let s = c.send in
      elim (OBuffer.read_bytes_io (block env s.o_msg.buf) s.o_msg s.send_buf s.io_send len) [
        | none ↦ fails
        | some (buf', io', o') ↦
            again env (record c { send = record s { send_buf = buf'; io_send = io'; o_msg = o' } })
      ]

  -- The inner loop behind the test of `canWrite`, whose value may be from before the kernel took
  -- bytes.
  unfoldable pub fill : Env P → ClientSocket → ℤ → Round P
  unfolding drop_message next_message move_bytes
  fill env c can_write =
      let can_read = OBuffer.can_read c.send.o_msg in
      if leb_ℤ can_read (ℤ.pos 0)
      then (let (env', c') = drop_message env c in next_message env' c')
      else move_bytes env c (pos_part (if ltb_ℤ can_read can_write then can_read else can_write))

  -- `return`, with what a call returned.
  unfoldable pub stop_with : Call P → Round P
  stop_with State.aborted = fails
  stop_with State.starved = fails
  stop_with (State.returned n env c) = stops n env c

  -- A call that does not return 1 ends `ProcessorSend`.
  unfoldable pub flushed : Call P → ℤ → Round P
  unfolding fill cannot_write stop_with
  flushed State.aborted can_write = fails
  flushed State.starved can_write = fails
  flushed (State.returned (ℤ.negsuc _) env c) can_write = stops (ℤ.negsuc 0) env c
  flushed (State.returned (ℤ.pos zero) env c) can_write = stop_with (cannot_write env c)
  flushed (State.returned (ℤ.pos (suc _)) env c) can_write = fill env c can_write

module _ {P : MemPool} (K : Kernel) where
  unfoldable pub round : Env P → ClientSocket → Round P
  unfolding flushed fill
  round env c =
      let can_write = IoBuffer.can_write c.send.io_send in
      if leb_ℤ can_write (ℤ.pos 0)
      then flushed (send_to_kernel_buf K env c) can_write
      else fill env c can_write

  -- Behind the loops: what is in the buffer goes out if the kernel takes it.
  unfoldable pub last_flush : Call P → Call P
  unfolding cannot_write
  last_flush State.aborted = State.aborted
  last_flush State.starved = State.starved
  last_flush (State.returned (ℤ.negsuc _) env c) = State.returned (ℤ.negsuc 0) env c
  last_flush (State.returned (ℤ.pos zero) env c) = cannot_write env c
  last_flush (State.returned (ℤ.pos (suc _)) env c) = State.returned (ℤ.pos 0) env c

  unfoldable pub finish : Env P → ClientSocket → Call P
  unfolding last_flush
  finish env c =
      if ltb_ℤ (ℤ.pos 0) (IoBuffer.can_read c.send.io_send)
      then last_flush (send_to_kernel_buf K env c)
      else State.returned (ℤ.pos 0) env c

  unfoldable pub send_loop : ℕ → Env P → ClientSocket → Call P
  unfolding round finish
  send_loop zero env c = State.starved
  send_loop (suc fuel) env c = elim (round env c) [
    | fails ↦ State.aborted
    | stops n env' c' ↦ State.returned n env' c'
    | again env' c' ↦ send_loop fuel env' c'
    | ends env' c' ↦ finish env' c'
  ]

  unfoldable pub processor_send : ℕ → Env P → ClientSocket → Call P
  unfolding send_loop
  processor_send fuel env c = elim c.send.sock [
    | none ↦ State.returned (ℤ.negsuc 0) env c
    | some _ ↦ send_loop fuel env c
  ]
