-- ===== src/Memory/Tests.antt =====
-- Pools and a system that hand out one address after another.
use select_mode_network.Base.{ℕ, suc, ◌+◌, ◌*◌, arith}
use select_mode_network.Memory.VarPool.{UnitPool, System, VarMemPool}
use select_mode_network.Memory.SizeClass.{Served, alloc-Served}

abbrev units : UnitPool
units = record { State = ℕ; alloc = λ s. (s, suc s); free = λ s p. s }

abbrev malloc_only : System
malloc_only = record { State = ℕ; malloc = λ s size. (s, s + size); free = λ s p. s }

abbrev pools : VarMemPool units malloc_only
pools = record { pools = λ i. 1000 * i; system = 100000 }

alloc-Served_example : (i : ℕ) × Served pools 100 i
alloc-Served_example = alloc-Served pools 100 (omega arith)
