-- ===== src/Buffer/OBuffer.antt =====
-- `class OBuffer`, the cursor that reads. `end` is the source's `_endPos + 1`. `none` is a failed
-- assertion, and in `move_read_pos` a cursor that would stand before its array.
use select_mode_network.Base.{ℕ, ◌+◌, Option, none, some, if◌then◌else◌, drop, read_at, write_at}
use select_mode_network.Base.Int.{ℤ, sub_ℕ, pos_part, leb_ℤ, ◌+ℤ◌}
use select_mode_network.Buffer.Data.{Bytes, Ptr, ushort_of}
use select_mode_network.Buffer.IBuffer
use select_mode_network.Buffer.IBuffer.{IBuffer}
use select_mode_network.Buffer.IoBuffer
use select_mode_network.Buffer.IoBuffer.{IoBuffer}

pub record OBuffer : Type 0 where
  pub buf : Ptr
  pub pos : ℕ
  pub end : ℕ

unfoldable pub init : OBuffer
init = record { buf = none; pos = 0; end = 0 }

unfoldable pub set_buffer : Ptr → ℕ → OBuffer → OBuffer
set_buffer buf size b = record { buf = buf; pos = 0; end = size }

unfoldable pub get_buffer : OBuffer → Ptr
get_buffer b = b.buf

unfoldable pub get_buffer_size : OBuffer → ℕ
get_buffer_size b = b.end

unfoldable pub reset : OBuffer → OBuffer
reset b = record b { pos = 0 }

unfoldable pub can_read : OBuffer → ℤ
can_read b = sub_ℕ b.end b.pos

unfoldable pub has_read : OBuffer → ℕ
has_read b = b.pos

unfoldable pub read_ushort : Bytes → OBuffer → Option (ℕ × OBuffer)
unfolding can_read
read_ushort mem b =
    if leb_ℤ (ℤ.pos 2) (can_read b)
    then some (ushort_of (drop b.pos mem), record b { pos = b.pos + 2 })
    else none

-- Both `readBytes(len)`, whose result points at these bytes, and `readBytes(dst, len)`.
unfoldable pub read_bytes : Bytes → OBuffer → ℕ → Option (Bytes × OBuffer)
unfolding can_read
read_bytes mem b len =
    if leb_ℤ (ℤ.pos len) (can_read b)
    then some (read_at mem b.pos len, record b { pos = b.pos + len })
    else none

-- `readBytes(IBuffer*, len)`: `dst` is the array of the cursor `i`.
unfoldable pub read_bytes_into :
    Bytes → OBuffer → Bytes → IBuffer → ℕ → Option (Bytes × IBuffer × OBuffer)
unfolding can_read
read_bytes_into mem b dst i len =
    if leb_ℤ (ℤ.pos len) (can_read b)
    then elim (IBuffer.write_bytes dst i (drop b.pos mem) len) [
      | none ↦ none
      | some (dst', i') ↦ some (dst', i', record b { pos = b.pos + len })
    ]
    else none

-- `readBytes(IOBuffer*, len)`: `dst` is the array of the cursor `i`.
unfoldable pub read_bytes_io :
    Bytes → OBuffer → Bytes → IoBuffer → ℕ → Option (Bytes × IoBuffer × OBuffer)
unfolding can_read
read_bytes_io mem b dst i len =
    if leb_ℤ (ℤ.pos len) (can_read b)
    then elim (IoBuffer.write_bytes dst i (drop b.pos mem) len) [
      | none ↦ none
      | some (dst', i') ↦ some (dst', i', record b { pos = b.pos + len })
    ]
    else none

unfoldable pub move_read_pos : ℤ → OBuffer → Option OBuffer
move_read_pos m b = elim (ℤ.pos b.pos +ℤ m) [
  | ℤ.pos p ↦ some (record b { pos = p })
  | ℤ.negsuc _ ↦ none
]

unfoldable pub move_data_to_front : Bytes → OBuffer → Bytes × OBuffer
unfolding can_read
move_data_to_front mem b =
    if leb_ℤ (can_read b) (ℤ.pos 0) then (mem, record b { pos = 0; end = 0 }) else (
      write_at mem 0 (read_at mem b.pos (pos_part (can_read b))),
      record b { pos = 0; end = pos_part (can_read b) },
    )
