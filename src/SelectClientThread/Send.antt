-- ===== src/SelectClientThread/Send.antt =====
-- `SelectClient_Thread::ProcessorSend` and `SendThread`, which move the sending queue through
-- `_sendBuf` into the kernel.
use select_mode_network.Base.{ℕ, zero, suc, ◌+◌, none, some, [], ◌++◌, if◌then◌else◌, ltb, take}
use select_mode_network.Base.Int.{ℤ, pos_part, leb_ℤ, ltb_ℤ}
use select_mode_network.Buffer.Data.{Bytes, Ptr}
use select_mode_network.Buffer.OBuffer
use select_mode_network.Buffer.OBuffer.{OBuffer}
use select_mode_network.Buffer.IoBuffer
use select_mode_network.Buffer.IoBuffer.{IoBuffer}
use select_mode_network.Memory.Api.{MemPool}
use select_mode_network.Protocol.{max_accumulate_count}
use select_mode_network.Queue.Api
use select_mode_network.ClientSocket.State.{no_send}
use select_mode_network.ClientSocket.Send.{Kernel}
use select_mode_network.SelectClient.State.{Wire}
use select_mode_network.SelectClientThread.State.{
  ThreadEnv, SelectClientThread, count_sending, close,
}
use select_mode_network.SelectClientThread.Receive.{Result, starved, aborted, returned}

-- The client with what it shares, and what went to the kernel; `clock` counts the calls of `select`.
pub record Sending (P : MemPool) : Type 0 where
  pub env : ThreadEnv P
  pub client : SelectClientThread
  pub wire : Wire

-- What a round of `SendThread` leads to: a `return`, another round, or the end of both loops.
pub data SendRound (P : MemPool) : Type 0 where
  fails : SendRound P
  stops : ℤ → Sending P → SendRound P
  again ends : Sending P → SendRound P

module _ {P : MemPool} where
  unfoldable pub hang_up : Sending P → Result (Sending P)
  hang_up st =
      let (env', c') = close st.env st.client in
      returned (ℤ.negsuc 0) (record st { env = env'; client = c' })

  -- `send` took `k` bytes from the front of `_sendBuf`.
  unfoldable pub sent_bytes : Sending P → ℕ → Result (Sending P)
  sent_bytes st k = elim (IoBuffer.move_read_pos k st.client.io_send) [
    | none ↦ aborted
    | some io ↦
        let c = st.client in
        let w = st.wire in
        let (buf', io') = IoBuffer.move_data_to_front c.send_buf io in
        returned (ℤ.pos 1) (record st {
          client = record c { send_buf = buf'; io_send = io' };
          wire = record w { sent = w.sent ++ take k c.send_buf };
        })
  ]

  -- `send` returned `n`.
  unfoldable pub after_send : Sending P → ℤ → Result (Sending P)
  unfolding hang_up sent_bytes
  after_send st n = if leb_ℤ n (ℤ.pos 0) then hang_up st else sent_bytes st (pos_part n)

module _ {P : MemPool} (K : Kernel) where
  unfoldable pub processor_send : Sending P → Result (Sending P)
  unfolding after_send hang_up
  processor_send st =
      let w = st.wire in
      let t = w.clock in
      let st' = record st { wire = record w { clock = t + 1 } } in
      if ltb_ℤ (K.select t) (ℤ.pos 0)
      then hang_up st'
      else if K.writable t
      then after_send st' (K.send t (pos_part (IoBuffer.can_read st.client.io_send)))
      else returned (ℤ.pos 0) st'

module _ {P : MemPool} where
  -- The kernel takes nothing for now: give up only if the queue has grown too long.
  unfoldable pub cannot_write : Sending P → Result (Sending P)
  unfolding hang_up
  cannot_write st =
      if ltb max_accumulate_count (Api.size st.client.send_queue)
      then hang_up st
      else returned (ℤ.pos 0) st

  -- `_oMsg` has been read to its end: the message goes off the queue, and its block is freed.
  unfoldable pub drop_message : Sending P → Sending P
  drop_message st = elim (OBuffer.get_buffer st.client.o_msg) [
    | none ↦ st
    | some _ ↦
        let c = st.client in
        let env' = count_sending (ℤ.negsuc 0) st.env in
        let (q, rest) = Api.pop no_send c.send_queue in
        record st {
          env = record env' { pool = P.free env'.pool q.data_at q.size };
          client = record c { send_queue = rest; o_msg = OBuffer.set_buffer none 0 c.o_msg };
        }
  ]

  -- The outer loop: the next message goes under `_oMsg`, if there is one.
  unfoldable pub next_message : Sending P → SendRound P
  next_message st =
      let c = st.client in
      let q = Api.front no_send c.send_queue in
      if Api.has_data c.send_queue
      then again (record st {
        client = record c { o_msg = OBuffer.set_buffer (some q.data_at) q.size c.o_msg };
      })
      else ends st

  -- The block that a pointer into the pool points to.
  unfoldable pub block : ThreadEnv P → Ptr → Bytes
  block env none = []
  block env (some p) = env.heap p

  -- `_oMsg.readBytes(&_ioSend, writeLen)`
  unfoldable pub move_bytes : Sending P → ℕ → SendRound P
  unfolding block
  move_bytes st len =
      let c = st.client in
      elim (OBuffer.read_bytes_io (block st.env c.o_msg.buf) c.o_msg c.send_buf c.io_send len) [
        | none ↦ fails
        | some (buf', io', o') ↦
            again (record st { client = record c { send_buf = buf'; io_send = io'; o_msg = o' } })
      ]

  -- The inner loop behind the test of `canWrite`, whose value may be from before the kernel took
  -- bytes.
  unfoldable pub fill : Sending P → ℤ → SendRound P
  unfolding drop_message next_message move_bytes
  fill st can_write =
      let can_read = OBuffer.can_read st.client.o_msg in
      if leb_ℤ can_read (ℤ.pos 0)
      then next_message (drop_message st)
      else move_bytes st (pos_part (if ltb_ℤ can_read can_write then can_read else can_write))

  -- `return`, with what a call returned.
  unfoldable pub stop_with : Result (Sending P) → SendRound P
  stop_with aborted = fails
  stop_with starved = fails
  stop_with (returned n st) = stops n st

  -- Behind `ProcessorSend` in the inner loop: it goes on only if bytes went out.
  unfoldable pub flushed : Result (Sending P) → ℤ → SendRound P
  unfolding fill cannot_write stop_with
  flushed aborted can_write = fails
  flushed starved can_write = fails
  flushed (returned (ℤ.negsuc _) st) can_write = stops (ℤ.negsuc 0) st
  flushed (returned (ℤ.pos zero) st) can_write = stop_with (cannot_write st)
  flushed (returned (ℤ.pos (suc _)) st) can_write = fill st can_write

  -- Behind the loops: what is in the buffer goes out if the kernel takes it.
  unfoldable pub last_flush : Result (Sending P) → Result (Sending P)
  unfolding cannot_write
  last_flush aborted = aborted
  last_flush starved = starved
  last_flush (returned (ℤ.negsuc _) st) = returned (ℤ.negsuc 0) st
  last_flush (returned (ℤ.pos zero) st) = cannot_write st
  last_flush (returned (ℤ.pos (suc _)) st) = returned (ℤ.pos 0) st

module _ {P : MemPool} (K : Kernel) where
  unfoldable pub round : Sending P → SendRound P
  unfolding flushed fill
  round st =
      let can_write = IoBuffer.can_write st.client.io_send in
      if leb_ℤ can_write (ℤ.pos 0)
      then flushed (processor_send K st) can_write
      else fill st can_write

  unfoldable pub finish : Sending P → Result (Sending P)
  unfolding last_flush
  finish st =
      if ltb_ℤ (ℤ.pos 0) (IoBuffer.can_read st.client.io_send)
      then last_flush (processor_send K st)
      else returned (ℤ.pos 0) st

  unfoldable pub send_loop : ℕ → Sending P → Result (Sending P)
  unfolding round finish
  send_loop zero st = starved
  send_loop (suc fuel) st = elim (round st) [
    | fails ↦ aborted
    | stops n st' ↦ returned n st'
    | again st' ↦ send_loop fuel st'
    | ends st' ↦ finish st'
  ]

  unfoldable pub send_thread : ℕ → Sending P → Result (Sending P)
  unfolding send_loop
  send_thread fuel st = elim st.client.sock [
    | none ↦ returned (ℤ.negsuc 0) st
    | some _ ↦ send_loop fuel st
  ]
