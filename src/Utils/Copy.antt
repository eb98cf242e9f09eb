-- ===== src/Utils/Copy.antt =====
-- `writeBuffer` copies the message, or as much of it as fits.
use select_mode_network.Base.{
  ℕ, ◌≤◌, ◌≡◌, refl, ◌∙◌, arith, if◌then◌else◌, ltb, length, take, replicate, write_at,
  length-write_at, length-replicate, length-take, lt→ltb, le→ltb, dec_lt, take-append_length,
}
use select_mode_network.Buffer.Data.{Bytes, ushort_of}
use select_mode_network.Protocol.{head_size}
use select_mode_network.Utils.Strings.{write_buffer}

-- What a copy into a buffer of `size` bytes leaves.
pub record Copied (size : ℕ) (msg : Bytes) (r : ℕ × Bytes) : Type 0 where
  pub fits : r.0 ≤ size
  pub within : r.0 ≤ ushort_of msg
  pub keeps_size : length r.1 ≡ size
  pub same : take r.0 r.1 ≡ take r.0 msg

copied :
    (size k : ℕ) (msg : Bytes)
    → k ≤ size
    → k ≤ ushort_of msg
    → k ≤ length msg
    → Copied size msg (k, write_at (replicate size 0) 0 (take k msg))
copied size k msg h i j =
    let zeros : Bytes = replicate size 0 in
    let taken : length (take k msg) ≡ k = omega (arith, length-take k msg) in
    let room : length zeros ≡ size = length-replicate size 0 in
    record {
      fits = h;
      within = i;
      keeps_size = length-write_at zeros 0 (take k msg) (omega arith) ∙ room;
      same = take-append_length k (take k msg) _ (omega arith);
    }

-- `writeBuffer` of a message at least as long as its first field says returns 0 for a buffer smaller
-- than the head of a message, and else the smaller of the two sizes; so many bytes of the message
-- stand at the front of the buffer, whose size stays.
pub write_buffer-Copied :
    (size : ℕ) (msg : Bytes)
    → ushort_of msg ≤ length msg
    → Copied size msg (write_buffer size msg)
      × ((write_buffer size msg).0 ≡ (
          if ltb size head_size
          then 0
          else (if ltb (ushort_of msg) size then ushort_of msg else size)))
unfolding write_buffer
write_buffer-Copied size msg h = elim (dec_lt size head_size) [
  | yes small ↦ rw (lt→ltb size head_size small) (
    record {
      fits = omega arith;
      within = omega arith;
      keeps_size = length-replicate size 0;
      same = refl;
    },
    refl,
  )
  | no enough ↦ rw (le→ltb size head_size (omega arith)) (elim (dec_lt (ushort_of msg) size) [
    | yes less ↦
        rw (lt→ltb (ushort_of msg) size less)
          (copied size (ushort_of msg) msg (omega arith) (omega arith) h, refl)
    | no more ↦
        rw (le→ltb (ushort_of msg) size (omega arith))
          (copied size size msg (omega arith) (omega arith) (omega arith), refl)
  ])
]
