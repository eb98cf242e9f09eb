-- ===== src/Memory/PoolTests.antt =====
-- A pool of two blocks: the head has one unit in use, the initial block two.
use select_mode_network.Base.{
  ℕ, suc, ◌+◌, ◌≡◌, ◌<◌, refl, some, none, [], ◌∷◌, List, if◌then◌else◌, ◌==◌, arith, inl, inr,
  subst, sym,
}
use select_mode_network.Memory.Block.{MemoryBlock, no_unit}
use select_mode_network.Memory.FreeList.{Frees}
use select_mode_network.Memory.Members.{In}
use select_mode_network.Memory.Pool.{
  BlockHeap, MemoryPool, MemInfo, alloc, free, free_all, get_info,
}
use select_mode_network.Memory.Blocks.{Holds, InUse}
use select_mode_network.Memory.Blocks
use select_mode_network.Memory.Nodes.{PoolState, memory_nodes}
use select_mode_network.Memory.VarPool.{VarMemPool}
use select_mode_network.Memory.Serving.{Allocator, units_of}
use select_mode_network.Memory.Requests.{Serves, alloc-Serves}
use select_mode_network.Queue.Api
use select_mode_network.Queue.Linked
use select_mode_network.Queue.Linked.{MyQueue}
use select_mode_network.Queue.Refine.{Represents}
use select_mode_network.Queue.Append.{push-Represents}
use select_mode_network.Memory.Taking.{Takes}
use select_mode_network.Memory.Growing.{alloc-Takes}
use select_mode_network.Memory.Returning.{TakesBack, free-TakesBack}
use select_mode_network.Memory.Walking.{Nothing, free_all-Nothing}
use select_mode_network.Memory.Counting.{Counts, get_info-Counts}

-- A heap that hands out one address after another.
abbrev rising : BlockHeap
rising = record {
  State = ℕ;
  Live = λ s a. a < s;
  new = λ s size. (s, suc (s + size));
  delete = λ s p. s;
  new_fresh = λ s size h. absurd (omega arith);
  new_live = λ s size. omega arith;
  new_old = λ s size a h. omega arith;
  delete_old = λ s p a h n. h;
}

abbrev half : MemoryBlock
half = record { free = 1; first = 1; unit_num = 2; link = λ i. suc i }

abbrev full : MemoryBlock
full = record { free = 0; first = no_unit; unit_num = 2; link = λ i. suc i }

abbrev pool : MemoryPool rising
pool = record {
  unit_size = 12;
  init_unit_num = 2;
  grow_unit_num = 2;
  head = some 100;
  init_head = 7;
  block = λ a. if a == 100 then half else full;
  next = λ a. if a == 100 then some 7 else none;
  pre = λ a. if a == 100 then none else some 100;
  heap = 200;
}

abbrev frees : ℕ → List ℕ
frees a = if a == 100 then 1 ∷ [] else []

abbrev blocks : List ℕ
blocks = 100 ∷ (7 ∷ [])

-- A property of each block of the pool.
each : (P : ℕ → Type 0) → P 100 → P 7 → (a : ℕ) → In a blocks → P a
each P p q a (inl s) = subst P (sym s) p
each P p q a (inr (inl s)) = subst P (sym s) q
each P p q a (inr (inr i)) = elim i [ ]

half-Frees : Frees half (1 ∷ [])
half-Frees = record {
  count = refl;
  sixteen = omega arith;
  chain = (refl, tt);
  distinct = (tt, tt);
  below = (omega arith, tt);
}

full-Frees : Frees full []
full-Frees = record { count = refl; sixteen = omega arith; chain = tt; distinct = tt; below = tt }

pool-Holds : Holds pool blocks frees
pool-Holds = record {
  linked = (refl, refl, (refl, refl, refl));
  distinct = (((λ e. omega arith), tt), (tt, tt));
  frees = each (λ a. Frees (pool.block a) (frees a)) half-Frees full-Frees;
  sized =
      each (λ a. (0 < (pool.block a).unit_num) × ((pool.block a).unit_num < 65536))
        (omega arith, omega arith) (omega arith, omega arith);
  live = each (λ a. a < 200) (omega arith) (omega arith);
  initial = inr (inl refl);
  grows = (omega arith, omega arith);
}

abbrev Used : ℕ → ℕ → Type 0
Used = InUse pool.block blocks frees

pool-Represents : Blocks.Represents pool Used
pool-Represents = record {
  blocks = blocks;
  frees = frees;
  holds = pool-Holds;
  used = λ a i u. u;
  only = λ a i u. u;
}

alloc-Takes_example : Takes Used (alloc pool)
alloc-Takes_example = alloc-Takes pool Used pool-Represents

-- The unit in use of the head is freed, and with it its block.
free-TakesBack_example : TakesBack Used 100 0 (free pool (100, 0))
free-TakesBack_example =
    free-TakesBack pool Used pool-Represents 100 0 (inl refl, omega arith, ((λ e. omega arith), tt))

free_all-Nothing_example :
    (m' : MemoryPool rising) × (free_all 2 pool ≡ some m') × Blocks.Represents m' Nothing
unfolding pool-Represents
free_all-Nothing_example = free_all-Nothing pool Used pool-Represents 2 (omega arith)

abbrev zeroed : MemInfo
zeroed = record { total_mem = 0; free_mem = 0; total_unit = 0; free_unit = 0; block_num = 0 }

get_info-Counts_example :
    (after : MemInfo) × (get_info 2 pool zeroed ≡ some after)
    × Counts pool blocks frees zeroed after
unfolding pool-Represents
get_info-Counts_example =
    get_info-Counts pool Used pool-Represents 2 zeroed
      (record {
        total_mem = omega arith;
        free_mem = omega arith;
        total_unit = omega arith;
        free_unit = omega arith;
        block_num = omega arith;
      })
      (omega arith)

-- A queue whose nodes are units of the pool.
abbrev pool_state : PoolState rising
pool_state = record { pool = pool; blocks = blocks; frees = frees; holds = pool-Holds }

abbrev queue : MyQueue (memory_nodes rising) ℕ
queue = Linked.init (λ a. record { value = 0; next = none }) pool_state

queue-Represents : Represents queue []
unfolding Linked.init
queue-Represents = record {
  at = [];
  stands = record { chain = refl; ends = refl; counts = refl; owned = tt; small = omega arith };
  holds = refl;
}

queue_pushed :
    (q' : MyQueue (memory_nodes rising) ℕ) × (Linked.push queue 5 ≡ some q')
    × Represents q' (Api.push [] 5)
queue_pushed = push-Represents queue 5 [] queue-Represents (omega arith)

-- Seven such pools beside an allocator that hands out one address after another.
abbrev allocator : Allocator
allocator = record {
  system = record { State = ℕ; malloc = λ s size. (s, suc (s + size)); free = λ s p. s };
  Live = λ s a. a < s;
  fresh = λ s size h. absurd (omega arith);
  new = λ s size. omega arith;
  old = λ s size a h. omega arith;
  free_old = λ s p a h n. h;
}

abbrev seven_pools : VarMemPool (units_of (memory_nodes rising)) allocator.system
seven_pools = record { pools = λ i. pool_state; system = 0 }

alloc-Serves_example : Serves (memory_nodes rising) allocator seven_pools 100
alloc-Serves_example = alloc-Serves (memory_nodes rising) allocator 100 seven_pools
