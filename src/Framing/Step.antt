-- ===== src/Framing/Step.antt =====
-- One round of the receive loops: look at the header, and take the message off if it is complete.
use select_mode_network.Base.{ℕ, Bool, false, none, some, ltb, if◌then◌else◌}
use select_mode_network.Base.Int.{ℤ, ltb_ℤ}
use select_mode_network.Buffer.Data.{Bytes}
use select_mode_network.Buffer.OBuffer
use select_mode_network.Buffer.OBuffer.{OBuffer}
use select_mode_network.Protocol.{package_max_size, head_size}

-- `n < size` where `size` is a `size_t`: a negative `n` becomes a huge number.
unfoldable pub lt_size : ℤ → ℕ → Bool
lt_size (ℤ.pos n) size = ltb n size
lt_size (ℤ.negsuc n) size = false

pub data Round : Type 0 where
  -- no complete message: `break`
  wait : OBuffer → Round
  -- the length field is above `PACKAGE_MAX_SIZE`
  oversize : OBuffer → Round
  -- a message, taken off the buffer
  packed : Bytes → OBuffer → Round
  -- a failed assertion
  fault : Round

-- `if (msgLen > canReadSize) break; ... readBytes(_package, msgLen);`
take_package : Bytes → ℤ → ℕ → OBuffer → Round
take_package mem n len o =
    if ltb_ℤ n (ℤ.pos len)
    then wait o
    else elim (OBuffer.read_bytes mem o len) [ none ↦ fault | some (out, o') ↦ packed out o' ]

check_length : Bytes → ℤ → ℕ → OBuffer → Round
unfolding take_package
check_length mem n len o =
    if ltb package_max_size len then oversize o else elim (OBuffer.move_read_pos (ℤ.negsuc 1) o) [
      | none ↦ fault
      | some o' ↦ take_package mem n len o'
    ]

unfoldable pub read_package : Bytes → OBuffer → Round
unfolding check_length lt_size
read_package mem o =
    let n = OBuffer.can_read o in
    if lt_size n head_size then wait o else elim (OBuffer.read_ushort mem o) [
      | none ↦ fault
      | some (len, o') ↦ check_length mem n len o'
    ]
