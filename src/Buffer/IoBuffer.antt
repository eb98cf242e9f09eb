-- ===== src/Buffer/IoBuffer.antt =====
-- `class IOBuffer`, the cursor that writes at one place and reads at another. `end` is the source's
-- `_endPos + 1`. A failed assertion is `none`.
use select_mode_network.Base.{
  ℕ, ◌+◌, Option, none, some, if◌then◌else◌, take, drop, read_at, write_at,
}
use select_mode_network.Base.Int.{ℤ, sub_ℕ, pos_part, leb_ℤ}
use select_mode_network.Buffer.Data.{Bytes, Ptr, ushort_of}
use select_mode_network.Buffer.IBuffer
use select_mode_network.Buffer.IBuffer.{IBuffer}

pub record IoBuffer : Type 0 where
  pub buf : Ptr
  pub end : ℕ
  pub write_pos : ℕ
  pub read_pos : ℕ

unfoldable pub init : IoBuffer
init = record { buf = none; end = 0; write_pos = 0; read_pos = 0 }

unfoldable pub set_buffer : Ptr → ℕ → IoBuffer → IoBuffer
set_buffer buf len b = record { buf = buf; end = len; write_pos = 0; read_pos = 0 }

unfoldable pub can_write : IoBuffer → ℤ
can_write b = sub_ℕ b.end b.write_pos

unfoldable pub can_read : IoBuffer → ℤ
can_read b = sub_ℕ b.write_pos b.read_pos

unfoldable pub has_write : IoBuffer → ℕ
has_write b = b.write_pos

unfoldable pub has_read : IoBuffer → ℕ
has_read b = b.read_pos

unfoldable pub write_bytes : Bytes → IoBuffer → Bytes → ℕ → Option (Bytes × IoBuffer)
unfolding can_write
write_bytes mem b src len =
    if leb_ℤ (ℤ.pos len) (can_write b)
    then some (write_at mem b.write_pos (take len src), record b { write_pos = b.write_pos + len })
    else none

unfoldable pub reset : IoBuffer → IoBuffer
reset b = record b { write_pos = 0; read_pos = 0 }

unfoldable pub read_ushort : Bytes → IoBuffer → Option (ℕ × IoBuffer)
unfolding can_read
read_ushort mem b =
    if leb_ℤ (ℤ.pos 2) (can_read b)
    then some (ushort_of (drop b.read_pos mem), record b { read_pos = b.read_pos + 2 })
    else none

-- Both `readBytes(len)`, whose result points at these bytes, and `readBytes(dst, len)`.
unfoldable pub read_bytes : Bytes → IoBuffer → ℕ → Option (Bytes × IoBuffer)
unfolding can_read
read_bytes mem b len =
    if leb_ℤ (ℤ.pos len) (can_read b)
    then some (read_at mem b.read_pos len, record b { read_pos = b.read_pos + len })
    else none

-- `readBytes(IBuffer*, len)`: `dst` is the array of the cursor `i`.
unfoldable pub read_bytes_into :
    Bytes → IoBuffer → Bytes → IBuffer → ℕ → Option (Bytes × IBuffer × IoBuffer)
unfolding can_read
read_bytes_into mem b dst i len =
    if leb_ℤ (ℤ.pos len) (can_read b)
    then elim (IBuffer.write_bytes dst i (drop b.read_pos mem) len) [
      | none ↦ none
      | some (dst', i') ↦ some (dst', i', record b { read_pos = b.read_pos + len })
    ]
    else none

unfoldable pub seek_read_pos : ℕ → IoBuffer → IoBuffer
seek_read_pos p b = record b { read_pos = p }

unfoldable pub get_read_pos : IoBuffer → ℕ
get_read_pos b = b.read_pos

unfoldable pub move_read_pos : ℕ → IoBuffer → Option IoBuffer
unfolding can_read
move_read_pos len b =
    if leb_ℤ (ℤ.pos len) (can_read b) then some (record b { read_pos = b.read_pos + len }) else none

unfoldable pub move_data_to_front : Bytes → IoBuffer → Bytes × IoBuffer
unfolding can_read
move_data_to_front mem b =
    if leb_ℤ (can_read b) (ℤ.pos 0) then (mem, record b { read_pos = 0; write_pos = 0 }) else (
      write_at mem 0 (read_at mem b.read_pos (pos_part (can_read b))),
      record b { read_pos = 0; write_pos = pos_part (can_read b) },
    )
