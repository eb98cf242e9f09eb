-- ===== src/Buffer/Unread.antt =====
-- What the cursors of CommonLib/IOBuffer.h still have to read, and how the operations change it.
use select_mode_network.Base.{
  ℕ, dec_lt, ◌+◌, ◌-◌, ◌≤◌, ◌<◌, ◌≡◌, refl, ◌∙◌, ap, none, some, ◌++◌, arith, length, take, read_at,
  write_at, length-write_at, length-take,
}
use select_mode_network.Base.Arrays.{
  length-read_at, read_at-add, read_at-write_at_front, read_at-write_at_end,
}
use select_mode_network.Buffer.Data.{Bytes}
use select_mode_network.Buffer.IoBuffer
use select_mode_network.Buffer.IoBuffer.{IoBuffer}
use select_mode_network.Buffer.OBuffer
use select_mode_network.Buffer.OBuffer.{OBuffer}

-- The cursor stands inside its array.
pub record OValid (mem : Bytes) (b : OBuffer) : Type 0 where
  pub within : b.pos ≤ b.end
  pub holds : b.end ≤ length mem

abbrev pub o_unread : Bytes → OBuffer → Bytes
o_unread mem b = read_at mem b.pos (b.end - b.pos)

pub record IoValid (mem : Bytes) (b : IoBuffer) : Type 0 where
  pub behind : b.read_pos ≤ b.write_pos
  pub within : b.write_pos ≤ b.end
  pub holds : b.end ≤ length mem

abbrev pub io_unread : Bytes → IoBuffer → Bytes
io_unread mem b = read_at mem b.read_pos (b.write_pos - b.read_pos)

module _ (mem : Bytes) (b : OBuffer) (v : OValid mem b) where
  pub length-o_unread : length (o_unread mem b) ≡ b.end - b.pos
  length-o_unread = length-read_at mem b.pos (b.end - b.pos) (omega arith)

  -- A read of no more than there is succeeds, takes that many bytes off the front of what is unread,
  -- and moves only the position, by as much.
  pub o_read_bytes_lem :
      (len : ℕ)
      → len ≤ b.end - b.pos
      → (out : Bytes) × (b' : OBuffer) × (OBuffer.read_bytes mem b len ≡ some (out, b'))
        × (o_unread mem b ≡ out ++ o_unread mem b')
        × (length out ≡ len)
        × OValid mem b'
        × (b'.buf ≡ b.buf)
        × (b'.end ≡ b.end)
        × (b'.pos ≡ b.pos + len)
  unfolding OBuffer.read_bytes
  o_read_bytes_lem len h = (
    read_at mem b.pos len,
    record b { pos = b.pos + len },
    ground arith,
    ap (λ n. read_at mem b.pos n) (omega arith) ∙ read_at-add mem b.pos len (b.end - (b.pos + len)),
    length-read_at mem b.pos len (omega arith),
    omega arith,
    refl,
    refl,
    refl,
  )

  -- A longer read fails.
  pub o_read_bytes_short : (len : ℕ) → b.end - b.pos < len → OBuffer.read_bytes mem b len ≡ none
  unfolding OBuffer.read_bytes
  o_read_bytes_short len h = ground arith

-- What moving the unread bytes to the front of the array leaves.
pub record OMoved (mem : Bytes) (b : OBuffer) (r : Bytes × OBuffer) : Type 0 where
  pub same : o_unread r.0 r.1 ≡ o_unread mem b
  pub pos : r.1.pos ≡ 0
  pub end : r.1.end ≡ b.end - b.pos
  pub size : length r.0 ≡ length mem
  pub valid : OValid r.0 r.1

module _ (mem : Bytes) (b : OBuffer) (v : OValid mem b) where
  o_move_nothing :
      b.end ≤ b.pos → OBuffer.move_data_to_front mem b ≡ (mem, record b { pos = 0; end = 0 })
  unfolding OBuffer.move_data_to_front
  o_move_nothing h = ground arith

  o_move_rest :
      b.pos < b.end
      → OBuffer.move_data_to_front mem b
        ≡ (write_at mem 0 (o_unread mem b), record b { pos = 0; end = b.end - b.pos })
  unfolding OBuffer.move_data_to_front
  o_move_rest h = ground arith

  -- With the cursor inside its array, the unread bytes and the size of the array stay, the position
  -- is 0, the end is the number of unread bytes, and the cursor is inside the array.
  pub o_move_data_to_front_lem : OMoved mem b (OBuffer.move_data_to_front mem b)
  o_move_data_to_front_lem = elim (dec_lt b.pos b.end) [
    | yes more ↦
        let fits : 0 + length (o_unread mem b) ≤ length mem =
          omega (arith, length-o_unread mem b v) in
        rw (o_move_rest more) (record {
          same = read_at-write_at_front mem _ _ (omega (arith, length-o_unread mem b v));
          pos = refl;
          end = refl;
          size = length-write_at mem 0 _ fits;
          valid = omega (arith, length-write_at mem 0 _ fits);
        })
    | no empty ↦ rw (o_move_nothing (omega arith)) (record {
      same = let e : b.end - b.pos ≡ 0 = omega arith in rw e refl;
      pos = refl;
      end = omega arith;
      size = refl;
      valid = omega arith;
    })
  ]

module _ (mem : Bytes) (b : IoBuffer) (v : IoValid mem b) where
  pub length-io_unread : length (io_unread mem b) ≡ b.write_pos - b.read_pos
  length-io_unread = length-read_at mem b.read_pos (b.write_pos - b.read_pos) (omega arith)

  -- A write of `len` bytes that fits behind the write position succeeds, appends the first `len`
  -- bytes of the source to what is unread, moves only the write position, and keeps the size of the
  -- array.
  pub io_write_bytes_lem :
      (src : Bytes) (len : ℕ)
      → len ≤ b.end - b.write_pos
      → len ≤ length src
      → (mem' : Bytes) × (b' : IoBuffer) × (IoBuffer.write_bytes mem b src len ≡ some (mem', b'))
        × (io_unread mem' b' ≡ io_unread mem b ++ take len src)
        × IoValid mem' b'
        × (b'.end ≡ b.end)
        × (b'.write_pos ≡ b.write_pos + len)
        × (b'.read_pos ≡ b.read_pos)
        × (length mem' ≡ length mem)
        × (b'.buf ≡ b.buf)
  unfolding IoBuffer.write_bytes
  io_write_bytes_lem src len h k =
      let taken : length (take len src) ≡ len = omega (arith, length-take len src) in
      let fits : b.write_pos + length (take len src) ≤ length mem = omega arith in
      let kept = length-write_at mem b.write_pos (take len src) fits in
      (
        write_at mem b.write_pos (take len src),
        record b { write_pos = b.write_pos + len },
        ground arith,
        ap (λ n. read_at (write_at mem b.write_pos (take len src)) b.read_pos n) (omega arith)
            ∙ read_at-write_at_end mem (take len src) b.read_pos b.write_pos (omega arith)
                (omega arith),
        omega arith,
        refl,
        refl,
        refl,
        kept,
        refl,
      )

  pub io_read_bytes_lem :
      (len : ℕ)
      → len ≤ b.write_pos - b.read_pos
      → (out : Bytes) × (b' : IoBuffer) × (IoBuffer.read_bytes mem b len ≡ some (out, b'))
        × (io_unread mem b ≡ out ++ io_unread mem b')
        × (length out ≡ len)
        × IoValid mem b'
  unfolding IoBuffer.read_bytes
  io_read_bytes_lem len h = (
    read_at mem b.read_pos len,
    record b { read_pos = b.read_pos + len },
    ground arith,
    ap (λ n. read_at mem b.read_pos n) (omega arith)
        ∙ read_at-add mem b.read_pos len (b.write_pos - (b.read_pos + len)),
    length-read_at mem b.read_pos len (omega arith),
    omega arith,
  )

-- What moving the unread bytes to the front of the array leaves.
pub record IoMoved (mem : Bytes) (b : IoBuffer) (r : Bytes × IoBuffer) : Type 0 where
  pub same : io_unread r.0 r.1 ≡ io_unread mem b
  pub read_pos : r.1.read_pos ≡ 0
  pub write_pos : r.1.write_pos ≡ b.write_pos - b.read_pos
  pub end : r.1.end ≡ b.end
  pub size : length r.0 ≡ length mem
  pub valid : IoValid r.0 r.1

module _ (mem : Bytes) (b : IoBuffer) (v : IoValid mem b) where
  io_move_nothing :
      b.write_pos ≤ b.read_pos
      → IoBuffer.move_data_to_front mem b ≡ (mem, record b { read_pos = 0; write_pos = 0 })
  unfolding IoBuffer.move_data_to_front
  io_move_nothing h = ground arith

  io_move_rest :
      b.read_pos < b.write_pos
      → IoBuffer.move_data_to_front mem b ≡ (
        write_at mem 0 (io_unread mem b),
        record b { read_pos = 0; write_pos = b.write_pos - b.read_pos },
      )
  unfolding IoBuffer.move_data_to_front
  io_move_rest h = ground arith

  -- With the cursor inside its array, the unread bytes and the size of the array stay, the read
  -- position is 0, the write position the number of unread bytes, and the cursor inside the array.
  pub io_move_data_to_front_lem : IoMoved mem b (IoBuffer.move_data_to_front mem b)
  io_move_data_to_front_lem = elim (dec_lt b.read_pos b.write_pos) [
    | yes more ↦
        let fits : 0 + length (io_unread mem b) ≤ length mem =
          omega (arith, length-io_unread mem b v) in
        rw (io_move_rest more) (record {
          same = read_at-write_at_front mem _ _ (omega (arith, length-io_unread mem b v));
          read_pos = refl;
          write_pos = refl;
          end = refl;
          size = length-write_at mem 0 _ fits;
          valid = omega (arith, length-write_at mem 0 _ fits);
        })
    | no empty ↦ rw (io_move_nothing (omega arith)) (record {
      same = let e : b.write_pos - b.read_pos ≡ 0 = omega arith in rw e refl;
      read_pos = refl;
      write_pos = omega arith;
      end = refl;
      size = refl;
      valid = omega arith;
    })
  ]
