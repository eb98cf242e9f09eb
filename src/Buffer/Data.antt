-- ===== src/Buffer/Data.antt =====
-- What the cursors of CommonLib/IOBuffer.h point into. A cursor does not own its array, and the
-- owner of the array uses it beside the cursor, so the array is passed along with the cursor.
use select_mode_network.Base.{
  ℕ, ◌+◌, ◌*◌, ◌/◌, ◌%◌, ◌<◌, ◌≡◌, Option, List, [], ◌∷◌, arith, get_or, ◌++◌,
}

-- A byte is a number below 256; bytes are moved and joined into 16-bit numbers, no more.
abbrev pub Bytes : Type 0
Bytes = List ℕ

-- `none` is the null pointer.
abbrev pub Ptr : Type 0
Ptr = Option ℕ

-- `*((USHORT*)p)`: the two bytes at the front, the low one first (the byte order of x86).
unfoldable pub ushort_of : Bytes → ℕ
ushort_of a = get_or a 0 0 + 256 * get_or a 1 0

-- The two bytes that `*((USHORT*)p) = data` stores.
unfoldable pub ushort_bytes : ℕ → Bytes
ushort_bytes n = (n % 256) ∷ (n / 256 % 256) ∷ []

-- A 16-bit number is read back as it was stored, whatever follows it.
pub ushort_of-ushort_bytes :
    (n : ℕ) (rest : Bytes) → n < 65536 → ushort_of (ushort_bytes n ++ rest) ≡ n
unfolding ushort_of ushort_bytes
ushort_of-ushort_bytes n rest h = omega arith
