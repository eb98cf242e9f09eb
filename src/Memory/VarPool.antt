-- ===== src/Memory/VarPool.antt =====
-- CommonLib/VarMemPool.h and CommonLib/VarMemPool.cpp: seven pools of units of one size each. The
-- pools (`IMemPool`) and the system's `malloc` and `free` are parameters.
use select_mode_network.Base.{
  ℕ, zero, suc, ◌+◌, ◌-◌, ◌/◌, Option, none, some, [], ◌∷◌, if◌then◌else◌, ltb, leb, ◌==◌, get_or,
}
use select_mode_network.Memory.Pool.{MemInfo}

-- `IMemPool`, but for `GetInfo`
pub record UnitPool : Type 1 where
  pub State : Type 0
  pub alloc : State → ℕ × State
  pub free : State → ℕ → State

-- The system's allocator.
pub record System : Type 1 where
  pub State : Type 0
  pub malloc : State → ℕ → ℕ × State
  pub free : State → ℕ → State

abbrev pub pool_num : ℕ
pool_num = 7

-- `poolConfig[i].unitSize`
abbrev pub unit_size : ℕ → ℕ
unit_size i = get_or (16 ∷ 32 ∷ 64 ∷ 128 ∷ 256 ∷ 512 ∷ 1024 ∷ []) i 0

-- `poolConfig[i].unitNum`
abbrev pub unit_num : ℕ
unit_num = 1000

-- The loop of `getPool`, which returns the index of the pool; `none` if the fuel runs out.
unfoldable pub search : (ℕ → ℕ) → ℕ → ℕ → ℕ → ℕ → Option ℕ
search sizes zero size d u = none
search sizes (suc fuel) size d u =
    let m = d + (u - d) / 2 in
    let fits = leb size (sizes m) in
    let found = search sizes fuel size (if fits then d else m) (if fits then m else u) in
    if ltb 1 (u - d) then found else some u

unfoldable pub get_pool : ℕ → Option ℕ
unfolding search
get_pool size = search unit_size pool_num size 0 (pool_num - 1)

pub record VarMemPool (U : UnitPool) (S : System) : Type 0 where
  pub pools : ℕ → U.State
  pub system : S.State

-- One pool of the array replaced.
abbrev pub update {ℓ} : {A : Type ℓ} → (ℕ → A) → ℕ → A → ℕ → A
update f i x j = if j == i then x else f j

module _ {U : UnitPool} {S : System} where
  -- `_poolArr[i]->Alloc()`
  unfoldable pub alloc_at : VarMemPool U S → ℕ → ℕ × VarMemPool U S
  alloc_at v i =
      let (p, pool') = U.alloc (v.pools i) in (p, record v { pools = update v.pools i pool' })

  -- `_poolArr[i]->Free(p)`
  unfoldable pub free_at : VarMemPool U S → ℕ → ℕ → VarMemPool U S
  free_at v i p = record v { pools = update v.pools i (U.free (v.pools i) p) }

  unfoldable pub alloc : VarMemPool U S → ℕ → Option (ℕ × VarMemPool U S)
  unfolding alloc_at
  alloc v size =
      if ltb (unit_size (pool_num - 1)) size
      then (let (p, system') = S.malloc v.system size in some (p, record v { system = system' }))
      else if leb size (unit_size 0)
      then some (alloc_at v 0)
      else elim (get_pool size) [ none ↦ none | some i ↦ some (alloc_at v i) ]

  unfoldable pub free : VarMemPool U S → ℕ → ℕ → Option (VarMemPool U S)
  unfolding free_at
  free v p size =
      if ltb (unit_size (pool_num - 1)) size
      then some (record v { system = S.free v.system p })
      else if leb size (unit_size 0)
      then some (free_at v 0 p)
      else elim (get_pool size) [ none ↦ none | some i ↦ some (free_at v i p) ]

module _ {U : UnitPool} {S : System} where
  -- The constructor: `make` is `Factory::createMemPool` for pools of one safety.
  unfoldable pub create : (ℕ → ℕ → ℕ → U.State) → S.State → VarMemPool U S
  create make system = record { pools = λ i. make (unit_size i) unit_num unit_num; system = system }

  -- The loop of `GetInfo` from pool `i` on, over `n` pools; `add` is the `GetInfo` of a pool.
  unfoldable pub info_of :
      (U.State → MemInfo → MemInfo) → VarMemPool U S → ℕ → ℕ → MemInfo → MemInfo
  info_of add v zero i info = info
  info_of add v (suc n) i info = info_of add v n (suc i) (add (v.pools i) info)

  unfoldable pub get_info : (U.State → MemInfo → MemInfo) → VarMemPool U S → MemInfo → MemInfo
  unfolding info_of
  get_info add v info = info_of add v pool_num 0 info
