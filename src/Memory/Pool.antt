-- ===== src/Memory/Pool.antt =====
-- `class MemoryPool` of CommonLib/MemoryPool.cpp: a doubly linked list of blocks. The fields of the
-- blocks are functions of their addresses. The address of a unit is that of its block and its
-- number, by which `Free` finds the block again. A failed assertion or an access through a null
-- pointer is `none`.
use select_mode_network.Base.{
  ℕ, zero, suc, ◌+◌, ◌*◌, ◌%◌, ◌≢◌, Bool, Option, none, some, if◌then◌else◌, ltb, leb, ◌==◌, ◌&&◌,
  not,
}
use select_mode_network.Buffer.Data.{Ptr}
use select_mode_network.Memory.Block.{MemoryBlock, init, reset, pop_unit, push_unit}

-- `operator new` and `operator delete`: an address that `new` returns is not in use, and stays in
-- use until it is deleted.
pub record BlockHeap : Type 1 where
  pub State : Type 0
  pub Live : State → ℕ → Type 0
  pub new : State → ℕ → ℕ × State
  pub delete : State → ℕ → State
  pub new_fresh : (s : State) (size : ℕ) → ¬ Live s (new s size).0
  pub new_live : (s : State) (size : ℕ) → Live (new s size).1 (new s size).0
  pub new_old : (s : State) (size a : ℕ) → Live s a → Live (new s size).1 a
  pub delete_old : (s : State) (p a : ℕ) → Live s a → a ≢ p → Live (delete s p) a

pub record MemoryPool (H : BlockHeap) : Type 0 where
  pub unit_size : ℕ
  pub init_unit_num : ℕ
  pub grow_unit_num : ℕ
  pub head : Ptr
  pub init_head : ℕ
  pub block : ℕ → MemoryBlock
  pub next : ℕ → Ptr
  pub pre : ℕ → Ptr
  pub heap : H.State

-- A field of one block written.
abbrev pub put {ℓ} : {A : Type ℓ} → (ℕ → A) → ℕ → A → ℕ → A
put f p x a = if a == p then x else f a

-- The same through a pointer, if it is not null.
abbrev pub put_at {ℓ} : {A : Type ℓ} → (ℕ → A) → Ptr → A → ℕ → A
put_at f none x = f
put_at f (some p) x = put f p x

-- `sizeof(MemoryBlock)`
abbrev pub block_size : ℕ
block_size = 48

abbrev pub is_initial : {H : BlockHeap} → MemoryPool H → ℕ → Bool
is_initial m a = a == m.init_head

abbrev pub is_empty : MemoryBlock → Bool
is_empty b = b.free == b.unit_num

module _ {H : BlockHeap} where
  -- `new MemoryBlock`, in memory that holds some numbers.
  unfoldable pub new_block : MemoryPool H → ℕ → ℕ × MemoryPool H
  new_block m num =
      let (a, heap') = H.new m.heap (block_size + m.unit_size * num) in
      (
        a,
        record m {
          block = put m.block a (init (m.block a).link num);
          next = put m.next a none;
          pre = put m.pre a none;
          heap = heap';
        },
      )

  unfoldable pub delete_block : MemoryPool H → ℕ → MemoryPool H
  delete_block m a = record m { heap = H.delete m.heap a }

  -- Block `a` put before the head `h`.
  unfoldable pub link_front : MemoryPool H → ℕ → ℕ → MemoryPool H
  link_front m a h = record m {
    next = put m.next a (some h);
    pre = put (put m.pre a none) h (some a);
    head = some a;
  }

  -- Block `a`, which has the block `p` before it, taken out of the list.
  unfoldable pub unlink : MemoryPool H → ℕ → ℕ → MemoryPool H
  unlink m a p = record m { next = put m.next p (m.next a); pre = put_at m.pre (m.next a) (some p) }

  unfoldable pub pop_at : MemoryPool H → ℕ → Option ((ℕ × ℕ) × MemoryPool H)
  pop_at m a = elim (pop_unit (m.block a)) [
    | none ↦ none
    | some (i, b) ↦ some ((a, i), record m { block = put m.block a b })
  ]

  -- A new block with a number of units at the head of the list.
  unfoldable pub grow : MemoryPool H → ℕ → ℕ × MemoryPool H
  unfolding new_block link_front
  grow m h = let (a, m') = new_block m m.grow_unit_num in (a, link_front m' a h)

  -- `Alloc` with the head `h`.
  unfoldable pub alloc_at : MemoryPool H → ℕ → Option ((ℕ × ℕ) × MemoryPool H)
  unfolding pop_at grow
  alloc_at m h =
      if ltb 0 (m.block h).free then pop_at m h else (let (a, m') = grow m h in pop_at m' a)

  unfoldable pub alloc : MemoryPool H → Option ((ℕ × ℕ) × MemoryPool H)
  unfolding alloc_at
  alloc m = elim m.head [ none ↦ none | some h ↦ alloc_at m h ]

  -- The end of `Free` for a block that is empty and not the first one.
  unfoldable pub drop_block : MemoryPool H → ℕ → Option (MemoryPool H)
  unfolding unlink delete_block
  drop_block m a = elim (m.pre a) [
    | some p ↦ some (delete_block (unlink m a p) a)
    | none ↦ elim (m.next a) [
      | none ↦ none
      | some n ↦ some (delete_block (record m { head = some n; pre = put m.pre n none }) a)
    ]
  ]

  -- Block `a` moved before the head `h`, if it is not the head.
  unfoldable pub bring : MemoryPool H → ℕ → ℕ → MemoryPool H
  unfolding unlink link_front
  bring m a h = elim (m.pre a) [ none ↦ m | some p ↦ link_front (unlink m a p) a h ]

  -- The end of `Free` for a block that stays: it becomes the head if the head is full.
  unfoldable pub raise : MemoryPool H → ℕ → Option (MemoryPool H)
  unfolding bring
  raise m a = elim m.head [
    | none ↦ none
    | some h ↦ some (if leb (m.block h).free 0 then bring m a h else m)
  ]

  unfoldable pub free : MemoryPool H → ℕ × ℕ → Option (MemoryPool H)
  unfolding drop_block raise
  free m (a, i) = elim (push_unit i (m.block a)) [
    | none ↦ none
    | some b ↦
        let m' : MemoryPool H = record m { block = put m.block a b } in
        if is_empty b && not (is_initial m a) then drop_block m' a else raise m' a
  ]

  -- The loop of `FreeAll`; `none` if the fuel runs out.
  unfoldable pub free_from : ℕ → MemoryPool H → Ptr → Option (MemoryPool H)
  free_from n m none = some m
  free_from zero m (some a) = none
  free_from (suc n) m (some a) =
      free_from n (record m { block = put m.block a (reset (m.block a)) }) (m.next a)

  unfoldable pub free_all : ℕ → MemoryPool H → Option (MemoryPool H)
  unfolding free_from
  free_all n m = free_from n m m.head

  -- The loop of `dispose`: the next block is read before the block is deleted.
  unfoldable pub dispose_from : ℕ → MemoryPool H → Ptr → Option (MemoryPool H)
  unfolding delete_block
  dispose_from n m none = some m
  dispose_from zero m (some a) = none
  dispose_from (suc n) m (some a) = dispose_from n (delete_block m a) (m.next a)

  unfoldable pub dispose : ℕ → MemoryPool H → Option (MemoryPool H)
  unfolding dispose_from
  dispose n m = elim (dispose_from n m m.head) [
    | none ↦ none
    | some m' ↦ some (record m' { head = none })
  ]

-- The members that the constructor sets from its arguments.
abbrev pub configured : {H : BlockHeap} → MemoryPool H → ℕ → ℕ → ℕ → MemoryPool H
configured old size num more = record old {
  unit_size = (size + 2) % 65536;
  init_unit_num = num;
  grow_unit_num = more;
}

module _ {H : BlockHeap} where
  -- The first block.
  unfoldable pub start : MemoryPool H → MemoryPool H
  unfolding new_block
  start m = let (a, m') = new_block m m.init_unit_num in record m' { head = some a; init_head = a }

  -- The constructor, on an object and a heap that hold some values.
  unfoldable pub create : MemoryPool H → ℕ → ℕ → ℕ → Option (MemoryPool H)
  unfolding start
  create old size num more =
      if leb 4 ((size + 2) % 65536) && leb 1 num && leb 1 more
      then some (start (configured old size num more))
      else none

-- `struct MemInfo`: `UINT` has 32 bits and `USHORT` 16.
pub record MemInfo : Type 0 where
  pub total_mem : ℕ
  pub free_mem : ℕ
  pub total_unit : ℕ
  pub free_unit : ℕ
  pub block_num : ℕ

module _ {H : BlockHeap} where
  -- What one block adds. The blocks of a pool have units of one size.
  unfoldable pub add_info : MemoryPool H → ℕ → MemInfo → MemInfo
  add_info m a info = record {
    total_mem = (info.total_mem + (m.block a).unit_num * m.unit_size) % 4294967296;
    free_mem = (info.free_mem + (m.block a).free * m.unit_size) % 4294967296;
    total_unit = (info.total_unit + (m.block a).unit_num) % 65536;
    free_unit = (info.free_unit + (m.block a).free) % 65536;
    block_num = (info.block_num + 1) % 65536;
  }

  unfoldable pub info_from : ℕ → MemoryPool H → Ptr → MemInfo → Option MemInfo
  unfolding add_info
  info_from n m none info = some info
  info_from zero m (some a) info = none
  info_from (suc n) m (some a) info = info_from n m (m.next a) (add_info m a info)

  unfoldable pub get_info : ℕ → MemoryPool H → MemInfo → Option MemInfo
  unfolding info_from
  get_info n m info = info_from n m m.head info
