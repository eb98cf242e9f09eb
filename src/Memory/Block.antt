-- ===== src/Memory/Block.antt =====
-- `struct MemoryBlock` of CommonLib/MemoryPool.cpp: an array of units, of which the free ones are
-- chained by the numbers that stand in them. A unit is its index: the address that `popUnit` returns
-- is two bytes behind the start of the unit. A failed assertion is `none`.
use select_mode_network.Base.{ℕ, suc, ◌+◌, ◌%◌, Option, none, some, if◌then◌else◌, ltb, leb, ◌==◌}

-- `link i` is the number at the address of unit `i`. The number before it, by which the pool finds
-- the block, is the index of the unit and is written once, by `reset`.
pub record MemoryBlock : Type 0 where
  pub free : ℕ
  pub first : ℕ
  pub unit_num : ℕ
  pub link : ℕ → ℕ

-- `(USHORT)-1`
abbrev pub no_unit : ℕ
no_unit = 65535

unfoldable pub reset : MemoryBlock → MemoryBlock
reset b = record b {
  free = b.unit_num;
  first = 0;
  link = λ i. if ltb i b.unit_num then suc i else b.link i;
}

-- The constructor, on memory that holds some numbers.
unfoldable pub init : (ℕ → ℕ) → ℕ → MemoryBlock
unfolding reset
init memory unit_num = reset (record { free = 0; first = 0; unit_num = unit_num; link = memory })

-- `_nFree--` and `_nFree++`, on an `unsigned short`
abbrev pub decrement : ℕ → ℕ
decrement n = (n + 65535) % 65536

abbrev pub increment : ℕ → ℕ
increment n = (n + 1) % 65536

unfoldable pub pop_unit : MemoryBlock → Option (ℕ × MemoryBlock)
pop_unit b =
    if ltb b.first b.unit_num
    then some (
      b.first,
      record b {
        free = decrement b.free;
        first = if leb (decrement b.free) 0 then no_unit else b.link b.first;
      },
    )
    else none

unfoldable pub push_unit : ℕ → MemoryBlock → Option MemoryBlock
push_unit n b =
    if ltb n b.unit_num
    then some (record b {
      free = increment b.free;
      first = n;
      link = λ i. if i == n then b.first else b.link i;
    })
    else none
