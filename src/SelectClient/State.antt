-- ===== src/SelectClient/State.antt =====
-- The fields of `SelectClient` and its operations. What a subclass does with a message (`OnRecvMsg`)
-- is a parameter.
use select_mode_network.Base.{
  ℕ, zero, suc, ◌+◌, ◌-◌, ◌%◌, Bool, true, false, Option, none, some, ◌++◌, if◌then◌else◌, ltb, leb,
  length, take, drop, write_at,
}
use select_mode_network.Base.Int.{ℤ, pos_part, leb_ℤ, ltb_ℤ}
use select_mode_network.Buffer.Data.{Bytes, ushort_of}
use select_mode_network.Buffer.OBuffer
use select_mode_network.Buffer.OBuffer.{OBuffer}
use select_mode_network.Protocol.{buffer_size}
use select_mode_network.Framing.Loop.{Received, recv_loop}
use select_mode_network.Framing.Loop
use select_mode_network.ClientSocket.State.{Receiver, own_array}

-- `sent` has no counterpart in the source: the bytes that the kernel took from this client. `clock`
-- counts the calls of `send`.
pub record Wire : Type 0 where
  pub clock : ℕ
  pub sent : Bytes

pub record SelectClient : Type 0 where
  pub sock : Option ℕ
  pub recv : Receiver

-- What a member function that may fail returns.
pub data Result (A : Type 0) : Type 0 where
  aborted starved : Result A
  returned : ℤ → A → Result A

unfoldable pub close : SelectClient → SelectClient
close c = elim c.sock [ none ↦ c | some _ ↦ record c { sock = none } ]

unfoldable pub is_run : SelectClient → Bool
is_run c = elim c.sock [ none ↦ false | some _ ↦ true ]

-- The constructor; the array is not initialised.
unfoldable pub init : Bytes → SelectClient
init recv_buf = record {
  sock = none;
  recv = record { o_recv = OBuffer.init; retain_size = 0; recv_buf = recv_buf };
}

-- `socket` gives the new socket, if any, and `connects` says whether `connect` succeeds.
unfoldable pub connect : Option ℕ → Bool → SelectClient → ℤ × SelectClient
unfolding close
connect socket connects c =
    let opened = record (close c) { sock = socket } in
    elim socket [
      | none ↦ (ℤ.negsuc 0, opened)
      | some _ ↦ if connects then (ℤ.pos 0, opened) else (ℤ.negsuc 0, close opened)
    ]

-- `dataLen -= sendLen` on an `unsigned short`
abbrev pub less : ℕ → ℕ → ℕ
less len k = (len + 65536 - k) % 65536

-- The loop of `SendData`, where `send` gives the result of the call of that number on so many bytes.
unfoldable pub send_loop : (ℕ → ℕ → ℤ) → ℕ → Bytes → ℕ → ℕ → Wire → Result Wire
send_loop send zero bytes offset len w = starved
send_loop send (suc fuel) bytes offset len w =
    let n = send w.clock len in
    let k = pos_part n in
    let w' : Wire = record { clock = w.clock + 1; sent = w.sent ++ take k (drop offset bytes) } in
    let rest = send_loop send fuel bytes (offset + k) (less len k) w' in
    if ltb 0 len
    then (if leb_ℤ n (ℤ.pos 0)
        then returned (ℤ.negsuc 0) (record w { clock = w.clock + 1 })
        else rest)
    else returned (ℤ.pos 0) w

unfoldable pub send_data : (ℕ → ℕ → ℤ) → ℕ → SelectClient → Bytes → ℕ → Wire → Result Wire
unfolding send_loop
send_data send fuel c bytes len w = elim c.sock [
  | none ↦ returned (ℤ.negsuc 0) w
  | some _ ↦ send_loop send fuel bytes 0 len w
]

unfoldable pub send_msg : (ℕ → ℕ → ℤ) → ℕ → SelectClient → Bytes → Wire → Result Wire
unfolding send_data
send_msg send fuel c msg w = send_data send fuel c msg (ushort_of msg) w

module _ {W : Type 0} (on_recv_msg : W → Bytes → W) where
  -- Behind the loop. A length above the maximum is a failed assertion here.
  unfoldable pub after_loop : Bytes → Received W → Result (Receiver × W)
  after_loop mem Loop.starved = starved
  after_loop mem Loop.aborted = aborted
  after_loop mem (Loop.oversized o w) = aborted
  after_loop mem (Loop.drained o w) =
      let (mem', o') = OBuffer.move_data_to_front mem o in
      returned (ℤ.pos 0)
        (record { o_recv = o'; retain_size = pos_part (OBuffer.can_read o'); recv_buf = mem' }, w)

  unfoldable pub receive : ℕ → Receiver → Bytes → W → Result (Receiver × W)
  unfolding after_loop
  receive fuel r bytes w =
      let mem = write_at r.recv_buf r.retain_size bytes in
      let o = OBuffer.set_buffer own_array (length bytes + r.retain_size) r.o_recv in
      after_loop mem (recv_loop on_recv_msg fuel mem o w)

  -- `recv` is given the room in the buffer; `none` is an error.
  unfoldable pub processor_recv : ℕ → (ℕ → Option Bytes) → Receiver → W → Result (Receiver × W)
  unfolding receive
  processor_recv fuel recv r w = elim (recv (buffer_size - r.retain_size)) [
    | none ↦ returned (ℤ.negsuc 0) (r, w)
    | some bytes ↦
        if leb (length bytes) 0 then returned (ℤ.negsuc 0) (r, w) else receive fuel r bytes w
  ]

  -- `OnRun` behind a call of `processorRecv`
  unfoldable pub after_recv : SelectClient → Result (Receiver × W) → Result (SelectClient × W)
  unfolding close
  after_recv c aborted = aborted
  after_recv c starved = starved
  after_recv c (returned (ℤ.pos n) (r, w)) = returned (ℤ.pos 0) (record c { recv = r }, w)
  after_recv c (returned (ℤ.negsuc n) (r, w)) =
      returned (ℤ.negsuc 0) (close (record c { recv = r }), w)

  -- `select` returned `n`, and said whether there is something to read.
  unfoldable pub on_run :
      ℕ → ℤ → Bool → (ℕ → Option Bytes) → SelectClient → W → Result (SelectClient × W)
  unfolding processor_recv after_recv close
  on_run fuel n readable recv c w = elim c.sock [
    | none ↦ returned (ℤ.negsuc 0) (c, w)
    | some _ ↦
        if ltb_ℤ n (ℤ.pos 0)
        then returned (ℤ.negsuc 0) (close c, w)
        else if readable
        then after_recv c (processor_recv fuel recv c.recv w)
        else returned (ℤ.pos 0) (c, w)
  ]
