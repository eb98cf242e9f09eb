-- ===== src/ClientSocket/Received.antt =====
-- One call of `ClientSocket::ProcessorRecv` handles the messages that are complete and keeps the
-- rest, and many calls handle the messages of the stream, in whatever pieces it arrives.
use select_mode_network.Base.{
  ℕ, ◌+◌, ◌-◌, ◌≤◌, ◌<◌, ◌≡◌, refl, ap, sym, ◌∙◌, Option, some, List, ◌++◌, arith, lt→leb, length,
  take, drop, read_at, write_at, length-write_at,
}
use select_mode_network.Base.Int.{ℤ, pos_part}
use select_mode_network.Base.Arrays.{read_at-write_at_end}
use select_mode_network.Buffer.Data.{Bytes}
use select_mode_network.Buffer.OBuffer
use select_mode_network.Buffer.OBuffer.{OBuffer}
use select_mode_network.Buffer.Unread.{OValid, o_unread, o_move_data_to_front_lem, length-o_unread}
use select_mode_network.Memory.Api.{MemPool}
use select_mode_network.Protocol.{buffer_size, package_max_size}
use select_mode_network.Framing.Cuts.{partial, front, partial_bound, left, refused, stuck, Cuts}
use select_mode_network.Framing.Handled.{
  recv_loop-left, recv_loop-refused, recv_loop-stuck, Cuts-left_front,
}
use select_mode_network.Framing.Loop.{handle_all}
use select_mode_network.ClientSocket.State.{
  Env, Sender, Receiver, ClientSocket, Call, own_array, close,
}
use select_mode_network.ClientSocket.State
use select_mode_network.ClientSocket.Receive.{
  handle_message, processor_recv, receive, keep_rest, hang_up, after_loop, count_recv,
}

-- The bytes kept from the calls before, and the room that they leave.
abbrev pub retained_by : Receiver → Bytes
retained_by r = take r.retain_size r.recv_buf

abbrev pub retained : ClientSocket → Bytes
retained c = retained_by c.recv

pub record ReceiverValid (r : Receiver) : Type 0 where
  pub array : length r.recv_buf ≡ buffer_size
  pub room : r.retain_size < package_max_size
  pub waits : front (retained_by r) ≡ partial

abbrev pub RValid : ClientSocket → Type 0
RValid c = ReceiverValid c.recv

read_at_front : (mem : Bytes) (pos end : ℕ) → pos ≡ 0 → take end mem ≡ read_at mem pos (end - pos)
read_at_front mem pos end h =
    let e : end ≡ end - pos = omega arith in
    ap (λ k. take k mem) e ∙ ap (λ k. take (end - pos) (drop k mem)) (sym h)

can_read_front : (o : OBuffer) → o.pos ≡ 0 → pos_part (OBuffer.can_read o) ≡ o.end
unfolding OBuffer.can_read
can_read_front o h = ground arith

-- What `recv` has put behind the retained bytes, under the cursor of the loop.
pub arrived :
    (r : Receiver) (bytes : Bytes)
    → ReceiverValid r
    → length bytes ≤ buffer_size - r.retain_size
    → let mem = write_at r.recv_buf r.retain_size bytes in
      let o = OBuffer.set_buffer own_array (length bytes + r.retain_size) r.o_recv in
      (o_unread mem o ≡ retained_by r ++ bytes) × OValid mem o × (length mem ≡ buffer_size)
unfolding OBuffer.set_buffer
arrived r bytes v fits =
    let buf = r.recv_buf in
    let w = r.retain_size in
    let size = length-write_at buf w bytes (omega arith) in
    (
      ap (λ n. take n (write_at buf w bytes)) (omega arith)
          ∙ read_at-write_at_end buf bytes 0 w (omega arith) (omega arith)
          ∙ ap (λ n. take n buf ++ bytes) (omega arith),
      record { within = omega arith; holds = omega (arith, size) },
      size ∙ v.array,
    )

-- What stays of the received bytes, behind the loop.
pub record Keeps (mem : Bytes) (o : OBuffer) (rest : Bytes) (r : Receiver) : Type 0 where
  pub same : retained_by r ≡ rest
  pub valid : ReceiverValid r

-- The receiver with the unread bytes moved to the front.
abbrev pub keeping : Bytes × OBuffer → Receiver
keeping (mem, o) = record {
  o_recv = o;
  retain_size = pos_part (OBuffer.can_read o);
  recv_buf = mem;
}

pub move_data_to_front-Keeps :
    (mem : Bytes) (o : OBuffer) (rest : Bytes)
    → OValid mem o
    → o_unread mem o ≡ rest
    → length mem ≡ buffer_size
    → front rest ≡ partial
    → Keeps mem o rest (keeping (OBuffer.move_data_to_front mem o))
move_data_to_front-Keeps mem o rest v e size small =
    let moved = o_move_data_to_front_lem mem o v in
    let r' = OBuffer.move_data_to_front mem o in
    let can = can_read_front r'.1 moved.pos in
    let kept : take (pos_part (OBuffer.can_read r'.1)) r'.0 ≡ rest =
      ap (λ k. take k r'.0) can ∙ read_at_front r'.0 r'.1.pos r'.1.end moved.pos ∙ moved.same ∙ e in
    record {
      same = kept;
      valid = record {
        array = moved.size ∙ size;
        room =
            omega (
              arith,
              can,
              moved.end,
              length-o_unread mem o v,
              ap length e,
              partial_bound rest small,
            );
        waits = ap front kept ∙ small;
      };
    }

module _ {P : MemPool} (on_msg_handle : Env P × Sender → Bytes → Env P × Sender) where
  abbrev pub counted_recv : Env P → ClientSocket → Env P
  counted_recv env c = record env { counters = count_recv c.send.counted env.counters }

  -- What a call that returns 0 has done.
  pub record Handled (env : Env P) (c : ClientSocket) (ms : List Bytes) (r : Bytes)
      (result : Call P) : Type 0 where
    pub env' : Env P
    pub c' : ClientSocket
    pub returns : result ≡ State.returned (ℤ.pos 0) env' c'
    pub keeps : retained c' ≡ r
    pub handles :
        (env', c'.send) ≡ handle_all (handle_message on_msg_handle) (counted_recv env c, c.send) ms
    pub valid : RValid c'

  keep_rest-Handled :
      (env : Env P) (c : ClientSocket) (ms : List Bytes) (r mem : Bytes) (o : OBuffer)
      → OValid mem o
      → o_unread mem o ≡ r
      → length mem ≡ buffer_size
      → front r ≡ partial
      → Handled env c ms r (
          keep_rest on_msg_handle mem o c
            (handle_all (handle_message on_msg_handle) (counted_recv env c, c.send) ms))
  unfolding keep_rest
  keep_rest-Handled env c ms r mem o v e size small =
      let kept = move_data_to_front-Keeps mem o r v e size small in
      record {
        env' = _;
        c' = _;
        returns = refl;
        keeps = kept.same;
        handles = refl;
        valid = kept.valid;
      }

  module _ (fuel : ℕ) (recv : ℕ → Option Bytes) (env : Env P) (c : ClientSocket) (bytes : Bytes)
      (v : RValid c) (got : recv (buffer_size - c.recv.retain_size) ≡ some bytes)
      (some_bytes : 0 < length bytes) (fits : length bytes ≤ buffer_size - c.recv.retain_size) where
    -- `recv` returned a positive count, and the call goes on to the loop.
    goes_on :
        processor_recv on_msg_handle fuel recv env c
        ≡ receive on_msg_handle fuel (counted_recv env c) c bytes
    unfolding processor_recv
    goes_on = rw (got, lt→leb (length bytes) 0 some_bytes, processor_recv)

    -- If the retained and the received bytes are cut into messages with a rest left over, the call
    -- returns 0, has handled these messages in order, retains the rest, and keeps the invariant.
    pub processor_recv-left :
        {ms : List Bytes} {r : Bytes}
        → Cuts (retained c ++ bytes) ms (left r)
        → length ms < fuel
        → Handled env c ms r (processor_recv on_msg_handle fuel recv env c)
    unfolding receive
    processor_recv-left {ms} {r} cuts enough =
        let (unread, valid, size) = arrived c.recv bytes v fits in
        let (o', runs, rest, valid') =
          recv_loop-left (handle_message on_msg_handle) _ cuts fuel _ (counted_recv env c, c.send)
            valid unread enough in
        rw (goes_on, receive, runs, after_loop)
          (keep_rest-Handled env c ms r _ o' valid' rest size (Cuts-left_front cuts))

    -- If the bytes are cut into messages up to a length above the maximum, the messages before it are
    -- handled, the socket is closed and the call returns -1.
    pub processor_recv-refused :
        {ms : List Bytes}
        → Cuts (retained c ++ bytes) ms refused
        → length ms < fuel
        → let w = handle_all (handle_message on_msg_handle) (counted_recv env c, c.send) ms in
          (r : Receiver) × (processor_recv on_msg_handle fuel recv env c
            ≡ State.returned
                (ℤ.negsuc 0)
                (close w.0 (record c { recv = r; send = w.1 })).0
                (close w.0 (record c { recv = r; send = w.1 })).1)
    unfolding receive hang_up
    processor_recv-refused {ms} cuts enough =
        let (unread, valid, size) = arrived c.recv bytes v fits in
        let (o', runs) =
          recv_loop-refused (handle_message on_msg_handle) _ cuts fuel _
            (counted_recv env c, c.send) valid unread enough in
        (
          record {
            o_recv = o';
            retain_size = 0;
            recv_buf = write_at c.recv.recv_buf c.recv.retain_size bytes;
          },
          rw (goes_on, receive, runs, after_loop),
        )

    -- If the bytes are cut into messages up to one of length 0, the call does not return, whatever
    -- the fuel.
    pub processor_recv-stuck :
        {ms : List Bytes}
        → Cuts (retained c ++ bytes) ms stuck
        → processor_recv on_msg_handle fuel recv env c ≡ State.starved
    unfolding receive
    processor_recv-stuck cuts =
        let (unread, valid, size) = arrived c.recv bytes v fits in
        let runs =
          recv_loop-stuck (handle_message on_msg_handle) _ fuel cuts _ (counted_recv env c, c.send)
            valid unread in
        rw (goes_on, receive, runs, after_loop)
