-- ===== src/EasyTcp/MsgBuf.antt =====
-- `RecvData`, which the server and the client have a copy of each: the second buffer, and the loop
-- that takes the messages off its front. `memcpy` is a parameter, as C says nothing of what it leaves
-- if its regions overlap, and so is what is done with a message, on a state of the caller's.
use select_mode_network.Base.{
  ℕ, zero, suc, ◌+◌, ◌-◌, ◌*◌, Option, none, some, List, [], ◌∷◌, if◌then◌else◌, ltb, leb, length,
  take, write_at, replicate,
}
use select_mode_network.Base.Int.{ℤ}
use select_mode_network.Buffer.Data.{Bytes}
use select_mode_network.EasyTcp.Header.{header_size, data_length_of}

-- RECV_BUFF_SZIE
abbrev pub recv_size : ℕ
recv_size = 10240

abbrev pub msg_size : ℕ
msg_size = recv_size * 5

-- `_szMsgBuf` and `_lastPos`
pub record MsgBuf : Type 0 where
  pub bytes : Bytes
  pub last_pos : ℕ

unfoldable pub empty : MsgBuf
empty = record { bytes = replicate msg_size 0; last_pos = 0 }

-- What `RecvData` leads to: -1, or 0. `fault` is an access outside the buffer, with the state before
-- it, and `starved` a loop whose fuel ran out.
pub data Received (W : Type 0) : Type 0 where
  fault : W → Received W
  starved gone : Received W
  kept : MsgBuf → W → Received W

-- What `memcpy` makes of an array: where it writes, from where it reads, and how many bytes.
abbrev pub Memcpy : Type 0
Memcpy = Bytes → ℕ → ℕ → ℕ → Bytes

-- What the handler of a message may read: its bytes, and a header whatever length it says.
unfoldable pub message_at : Bytes → ℕ → Bytes
message_at bytes n = if ltb n header_size then take header_size bytes else take n bytes

-- The messages handled one after another.
unfoldable pub handle_each : {W : Type 0} → (W → Bytes → W) → W → List Bytes → W
handle_each on_net_msg w [] = w
handle_each on_net_msg w (m ∷ ms) = handle_each on_net_msg (on_net_msg w m) ms

module _ {W : Type 0} (memcpy : Memcpy) (on_net_msg : W → Bytes → W) where
  -- A negative length passes the test of the source: the message is handled, and `memcpy` then reads
  -- before the buffer.
  unfoldable pub split_loop : ℕ → MsgBuf → W → Received W
  unfolding message_at
  split_loop zero b w = starved
  split_loop (suc fuel) b w =
      if ltb b.last_pos header_size then kept b w else elim (data_length_of b.bytes) [
        | ℤ.negsuc _ ↦ fault (on_net_msg w (message_at b.bytes 0))
        | ℤ.pos n ↦
            let size = b.last_pos - n in
            let next =
              split_loop fuel (record { bytes = memcpy b.bytes 0 n size; last_pos = size })
                (on_net_msg w (message_at b.bytes n)) in
            if leb n b.last_pos then next else kept b w
      ]

  -- Behind `recv`: the bytes go to the end of what is in the buffer.
  unfoldable pub append_split : ℕ → MsgBuf → Bytes → W → Received W
  unfolding split_loop
  append_split fuel b chunk w =
      if ltb msg_size (b.last_pos + length chunk)
      then fault w
      else split_loop fuel
          (record {
            bytes = write_at b.bytes b.last_pos chunk;
            last_pos = b.last_pos + length chunk;
          })
          w

  -- `recv` is given the size of the first buffer; `none` is an error.
  unfoldable pub recv_data : ℕ → (ℕ → Option Bytes) → MsgBuf → W → Received W
  unfolding append_split
  recv_data fuel recv b w = elim (recv recv_size) [
    | none ↦ gone
    | some chunk ↦ if leb (length chunk) 0 then gone else append_split fuel b chunk w
  ]
