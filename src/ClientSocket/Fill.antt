-- ===== src/ClientSocket/Fill.antt =====
-- One round of the inner loop of `ProcessorSend`, with room in `_sendBuf`.
use select_mode_network.Base.{
  ℕ, zero, suc, ◌+◌, ◌-◌, ◌*◌, ◌≤◌, ◌<◌, ◌≡◌, refl, subst, ap, sym, ◌∙◌, some, List, ◌∷◌, ◌++◌,
  arith, if◌then◌else◌, leb, le→leb, lt→leb, tests, Bool-cases, inl, inr, append_assoc, length,
  take, drop, length-append, length-drop, take-append-drop, drop-drop, dec_lt,
}
use select_mode_network.Base.Int.{ℤ, pos_part, ltb_ℤ}
use select_mode_network.Buffer.Data.{Bytes}
use select_mode_network.Buffer.OBuffer
use select_mode_network.Buffer.OBuffer.{OBuffer}
use select_mode_network.Buffer.IoBuffer
use select_mode_network.Buffer.IoBuffer.{IoBuffer}
use select_mode_network.Buffer.Unread.{IoValid, io_unread, io_write_bytes_lem}
use select_mode_network.Memory.Api.{MemPool}
use select_mode_network.Queue.Api
use select_mode_network.ClientSocket.State.{Env, ClientSocket, QmSend}
use select_mode_network.ClientSocket.Send.{again, drop_message, next_message, move_bytes, fill}
use select_mode_network.ClientSocket.Pending.{queue_bytes, SValid}
use select_mode_network.ClientSocket.Advance.{
  shape, nowhere, on_message, idle_flag, Filled, more, next_message-Filled, Filled-after, freed,
  drop_message-Kept, drop_message-load,
}

-- The length of the piece that a round moves.
chunk : ℕ → ℕ → ℕ
chunk m w = pos_part (if ltb_ℤ (ℤ.pos m) (ℤ.pos w) then ℤ.pos m else ℤ.pos w)

chunk_bounds : (m w : ℕ) → 0 < m → (chunk m w ≤ m) × (chunk m w ≤ w) × (0 < chunk m w + idle_flag w)
unfolding chunk
chunk_bounds m zero h = ground arith
chunk_bounds m (suc w) h = ground arith

module _ {P : MemPool} (env : Env P) (c : ClientSocket) (q : QmSend) (qs : List QmSend) (pos w : ℕ)
    (v : SValid env (shape c (q ∷ qs) (on_message q pos)).send)
    (room : c.send.io_send.write_pos < c.send.io_send.end)
    (fits : w ≤ c.send.io_send.end - c.send.io_send.write_pos) where
  abbrev now : ClientSocket
  now = shape c (q ∷ qs) (on_message q pos)

  abbrev freed_now : Env P
  freed_now = freed env c q qs pos w v room

  abbrev mem : Bytes
  mem = env.heap q.data_at

  read_bytes_io_lem :
      (k : ℕ) (buf' : Bytes) (io' : IoBuffer)
      → k ≤ q.size - pos
      → pos ≤ q.size
      → IoBuffer.write_bytes c.send.send_buf c.send.io_send (drop pos mem) k ≡ some (buf', io')
      → OBuffer.read_bytes_io mem (on_message q pos) c.send.send_buf c.send.io_send k
        ≡ some (buf', io', on_message q (pos + k))
  unfolding OBuffer.read_bytes_io
  read_bytes_io_lem k buf' io' h i e = ground (arith, e)

  sizes :
      (k : ℕ)
      → length (drop (pos + k) mem ++ queue_bytes env.heap qs)
        ≡ q.size - (pos + k) + length (queue_bytes env.heap qs)
  sizes k = omega (
    arith,
    length-append (drop (pos + k) mem) (queue_bytes env.heap qs),
    length-drop (pos + k) mem,
    v.stored.0,
  )

  sizes_now :
      length (drop pos mem ++ queue_bytes env.heap qs)
      ≡ q.size - pos + length (queue_bytes env.heap qs)
  sizes_now = omega (
    arith,
    length-append (drop pos mem) (queue_bytes env.heap qs),
    length-drop pos mem,
    v.stored.0,
  )

  nearer :
      (k : ℕ) (io' : IoBuffer)
      → k ≤ q.size - pos
      → pos ≤ q.size
      → 0 < k + idle_flag w
      → io'.end ≡ c.send.io_send.end
      → io'.write_pos ≡ c.send.io_send.write_pos + k
      → 2 * length (drop (pos + k) mem ++ queue_bytes env.heap qs)
          + 2 * suc (length qs)
          + 0
          + (if leb io'.end io'.write_pos then 1 else 0)
        < 2 * length (drop pos mem ++ queue_bytes env.heap qs)
          + 2 * suc (length qs)
          + 0
          + idle_flag w
  nearer k io' below i progress same_end written = elim (Bool-cases (leb io'.end io'.write_pos)) [
    | inl full ↦ rw full (omega (tests, sizes k, sizes_now))
    | inr free ↦ rw free (omega (arith, sizes k, sizes_now))
  ]

  -- The state after `k` bytes have moved from the message to the buffer.
  moved-Filled :
      (k : ℕ) (buf' : Bytes) (io' : IoBuffer)
      → k ≤ q.size - pos
      → pos ≤ q.size
      → 0 < k + idle_flag w
      → io_unread buf' io' ≡ io_unread c.send.send_buf c.send.io_send ++ take k (drop pos mem)
      → IoValid buf' io'
      → io'.end ≡ c.send.io_send.end
      → io'.read_pos ≡ c.send.io_send.read_pos
      → io'.write_pos ≡ c.send.io_send.write_pos + k
      → Filled env now.send w (
          again env (record now {
            send = record now.send {
              send_buf = buf';
              io_send = io';
              o_msg = on_message q (pos + k);
            };
          }))
  moved-Filled k buf' io' below i progress grown io_valid same_end same_read written =
      let u = io_unread c.send.send_buf c.send.io_send in
      let rest = queue_bytes env.heap qs in
      let joined : (u ++ take k (drop pos mem)) ++ (drop (pos + k) mem ++ rest)
          ≡ u ++ (drop pos mem ++ rest) =
        append_assoc u _ _
        ∙ ap (λ t. u ++ t) (sym (append_assoc (take k (drop pos mem)) _ rest))
        ∙ ap (λ t. u ++ ((take k (drop pos mem) ++ t) ++ rest)) (sym (drop-drop k pos mem))
        ∙ ap (λ t. u ++ (t ++ rest)) (take-append-drop k (drop pos mem)) in
      more
        (record {
          open_still = refl;
          same =
              ap (λ t. c.send.sent ++ (t ++ (drop (pos + k) mem ++ rest))) grown
              ∙ ap (λ t. c.send.sent ++ t) joined;
          valid = record {
            buffer = io_valid;
            at_front = same_read ∙ v.at_front;
            full_size = same_end ∙ v.full_size;
            stored = v.stored;
            facing = inr (q, qs, refl, refl, refl, omega arith);
          };
        })
        (nearer k io' below i progress same_end written)

  move_bytes-Filled :
      pos < q.size → Filled env now.send w (move_bytes env now (chunk (q.size - pos) w))
  unfolding move_bytes
  move_bytes-Filled more_left =
      let k = chunk (q.size - pos) w in
      let (below, in_room, some_or_none) = chunk_bounds (q.size - pos) w (omega arith) in
      let s = c.send in
      let (buf', io', e, grown, io_valid, same_end, written, same_read, _, _) =
        io_write_bytes_lem s.send_buf s.io_send v.buffer (drop pos mem) k (omega arith)
          (omega (arith, length-drop pos mem, v.stored.0)) in
      rw (read_bytes_io_lem k buf' io' below (omega arith) e, move_bytes)
        (moved-Filled k buf' io' below (omega arith) some_or_none grown io_valid same_end same_read
          written)

  can_read_now : pos ≤ q.size → OBuffer.can_read (on_message q pos) ≡ ℤ.pos (q.size - pos)
  unfolding OBuffer.can_read
  can_read_now h = ground arith

  drop_message-now : drop_message env now ≡ (freed_now, shape c qs nowhere)
  unfolding drop_message OBuffer.get_buffer OBuffer.set_buffer Api.pop
  drop_message-now = refl

  inside : pos ≤ q.size
  inside = elim v.facing [ inl (null, _, _) ↦ absurd (cc null) | inr (_, _, _, _, _, h) ↦ h ]

  fill-moves : pos < q.size → fill env now (ℤ.pos w) ≡ move_bytes env now (chunk (q.size - pos) w)
  unfolding fill chunk
  fill-moves h = rw (can_read_now inside, lt→leb (q.size - pos + 0) 0 (omega arith))

  fill-drops : q.size ≤ pos → fill env now (ℤ.pos w) ≡ next_message freed_now (shape c qs nowhere)
  unfolding fill
  fill-drops h =
      rw (can_read_now inside, le→leb (q.size - pos + 0) 0 (omega arith), drop_message-now)

  -- A round on a message: the next piece of it moves, or it goes and the next one comes.
  pub fill-on_message : Filled env now.send w (fill env now (ℤ.pos w))
  fill-on_message = elim (dec_lt pos q.size) [
    | yes more_left ↦ rw (fill-moves more_left) (move_bytes-Filled more_left)
    | no finished ↦
        let kept = drop_message-Kept env c q qs pos w v room (omega arith) in
        rw (fill-drops (omega arith)) (
          Filled-after kept (drop_message-load env c q qs pos w v room)
            (next_message-Filled freed_now c qs w kept.valid room))
  ]

-- A round with room in the buffer, whatever `_oMsg` points to.
module _ {P : MemPool} (env : Env P) (w : ℕ) where
  nowhere-Filled :
      (c : ClientSocket) (queue : List QmSend)
      → SValid env (shape c queue nowhere).send
      → c.send.io_send.write_pos < c.send.io_send.end
      → Filled env (shape c queue nowhere).send w (fill env (shape c queue nowhere) (ℤ.pos w))
  unfolding fill drop_message OBuffer.can_read OBuffer.get_buffer
  nowhere-Filled c queue v room = next_message-Filled env c queue w v room

  -- What is shown of a socket with its queue and `_oMsg` written out.
  abbrev Shown : ClientSocket → List QmSend → OBuffer → Type 0
  Shown c queue o =
      SValid env (shape c queue o).send
      → Filled env (shape c queue o).send w (fill env (shape c queue o) (ℤ.pos w))

  pub fill-Filled :
      (c : ClientSocket)
      → SValid env c.send
      → c.send.io_send.write_pos < c.send.io_send.end
      → w ≤ c.send.io_send.end - c.send.io_send.write_pos
      → Filled env c.send w (fill env c (ℤ.pos w))
  fill-Filled c v room fits = elim v.facing [
    | inl (a, b, d) ↦
        let o : c.send.o_msg ≡ nowhere = λ i. record { buf = a i; pos = b i; end = d i } in
        subst (λ t. Shown c c.send.send_queue t) (sym o)
          (λ v'. nowhere-Filled c c.send.send_queue v' room) v
    | inr (q, qs, e, a, b, d) ↦
        let at = c.send.o_msg.pos in
        let o : c.send.o_msg ≡ on_message q at = λ i. record { buf = a i; pos = at; end = b i } in
        subst (λ t. Shown c c.send.send_queue t) (sym o)
          (subst (λ t. Shown c t (on_message q at)) (sym e)
            (λ v'. fill-on_message env c q qs at w v' room fits))
          v
  ]
