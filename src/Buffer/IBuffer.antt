-- ===== src/Buffer/IBuffer.antt =====
-- `class IBuffer`, the cursor that writes. `end` is the source's `_endPos + 1`: the -1 of a cursor
-- with no array is 0. A failed assertion is `none`.
use select_mode_network.Base.{ℕ, ◌+◌, ◌&&◌, Option, none, some, ltb, if◌then◌else◌, take, write_at}
use select_mode_network.Base.Int.{ℤ, sub_ℕ, pos_part, leb_ℤ}
use select_mode_network.Buffer.Data.{Bytes, Ptr, ushort_bytes}

pub record IBuffer : Type 0 where
  pub buf : Ptr
  pub pos : ℕ
  pub end : ℕ

unfoldable pub init : IBuffer
init = record { buf = none; pos = 0; end = 0 }

unfoldable pub set_buffer : Ptr → ℕ → IBuffer → IBuffer
set_buffer buf size b = record { buf = buf; pos = 0; end = size }

unfoldable pub reset : IBuffer → IBuffer
reset b = record b { pos = 0 }

unfoldable pub can_write : IBuffer → ℤ
can_write b = sub_ℕ b.end b.pos

unfoldable pub has_write : IBuffer → ℕ
has_write b = b.pos

-- `src` is what stands at the source pointer; `mem` is the array of the cursor.
unfoldable pub write_bytes : Bytes → IBuffer → Bytes → ℕ → Option (Bytes × IBuffer)
unfolding can_write
write_bytes mem b src len =
    if leb_ℤ (ℤ.pos len) (can_write b)
    then some (write_at mem b.pos (take len src), record b { pos = b.pos + len })
    else none

unfoldable pub write_ushort : Bytes → IBuffer → ℕ → Option (Bytes × IBuffer)
unfolding can_write
write_ushort mem b n =
    if leb_ℤ (ℤ.pos 2) (can_write b)
    then some (write_at mem b.pos (ushort_bytes n), record b { pos = b.pos + 2 })
    else none

unfoldable pub seek : ℤ → IBuffer → Option IBuffer
seek p b =
    if leb_ℤ (ℤ.pos 0) p && ltb (pos_part p) b.end
    then some (record b { pos = pos_part p })
    else none
