-- ===== src/Memory/Nodes.antt =====
-- The units of a `MemoryPool` as the nodes of the linked queue. A unit is numbered by its
-- block and its place in it. `Free` of a unit that is not in use, which the source leaves open,
-- does nothing here.
use select_mode_network.Base.{
  ℕ, ◌+◌, ◌*◌, ◌/◌, ◌%◌, ◌<◌, ◌≡◌, ◌≢◌, ◌⊎◌, inl, inr, refl, subst, List, arith, length, dec_lt,
}
use select_mode_network.Queue.Linked.{NodePool}
use select_mode_network.Memory.Block.{MemoryBlock}
use select_mode_network.Memory.Members.{in_or_not, NotIn-absurd}
use select_mode_network.Memory.Pool.{BlockHeap, MemoryPool, alloc}
use select_mode_network.Memory.Blocks.{Holds, InUse, Represents}
use select_mode_network.Memory.Taking.{Takes}
use select_mode_network.Memory.Growing.{alloc-Takes}
use select_mode_network.Memory.Returning.{free-TakesBack}
use select_mode_network.Memory.Walking.{free_all-Nothing}

-- A pool with its blocks and their free units.
pub record PoolState (H : BlockHeap) : Type 0 where
  pub pool : MemoryPool H
  pub blocks : List ℕ
  pub frees : ℕ → List ℕ
  pub holds : Holds pool blocks frees

abbrev pub number_of : ℕ → ℕ → ℕ
number_of a i = a * 65536 + i

pub decided :
    (block : ℕ → MemoryBlock) (bs : List ℕ) (fs : ℕ → List ℕ) (a i : ℕ)
    → InUse block bs fs a i ⊎ ¬ InUse block bs fs a i
decided block bs fs a i = elim (in_or_not a bs) [
  | inr out ↦ inr (λ u. NotIn-absurd a bs out u.0)
  | inl k ↦ elim (dec_lt i (block a).unit_num) [
    | no h ↦ inr (λ u. h u.1)
    | yes h ↦ elim (in_or_not i (fs a)) [
      | inl free ↦ inr (λ u. NotIn-absurd i (fs a) u.2 free)
      | inr used ↦ inl (k, h, used)
    ]
  ]
]

pub number_parts :
    (P : ℕ → ℕ → Type 0) (a i : ℕ)
    → i < 65536
    → P a i
    → P (number_of a i / 65536) (number_of a i % 65536)
number_parts P a i h p =
    let block : a ≡ number_of a i / 65536 = omega arith in
    let unit : i ≡ number_of a i % 65536 = omega arith in
    subst (λ t. P t (number_of a i % 65536)) block (subst (λ t. P a t) unit p)

pub parts_number :
    (P : ℕ → ℕ → Type 0) (a i : ℕ)
    → i < 65536
    → P (number_of a i / 65536) (number_of a i % 65536)
    → P a i
parts_number P a i h p =
    let block : number_of a i / 65536 ≡ a = omega arith in
    let unit : number_of a i % 65536 ≡ i = omega arith in
    subst (λ t. P t i) block (subst (λ t. P (number_of a i / 65536) t) unit p)

module _ {H : BlockHeap} where
  abbrev pub InUseAt : PoolState H → ℕ → ℕ → Type 0
  InUseAt s a i = InUse s.pool.block s.blocks s.frees a i

  abbrev pub represented : (s : PoolState H) → Represents s.pool (InUseAt s)
  represented s = record {
    blocks = s.blocks;
    frees = s.frees;
    holds = s.holds;
    used = λ a i u. u;
    only = λ a i u. u;
  }

  abbrev pub state_of : {U : ℕ → ℕ → Type 0} → (m : MemoryPool H) → Represents m U → PoolState H
  state_of m r = record { pool = m; blocks = r.blocks; frees = r.frees; holds = r.holds }

  abbrev pub Live : PoolState H → ℕ → Type 0
  Live s n = InUseAt s (n / 65536) (n % 65536)

  abbrev pub taken : (s : PoolState H) → Takes {H = H} (InUseAt s) (alloc s.pool)
  taken s = alloc-Takes s.pool (InUseAt s) (represented s)

  abbrev pub after_alloc : PoolState H → PoolState H
  after_alloc s = state_of (taken s).after (taken s).represents

  -- The unit that `Alloc` returns has a place below 65536.
  pub small_unit : (s : PoolState H) → (taken s).unit < 65536
  small_unit s =
      let t = taken s in
      let u = t.represents.used t.block t.unit (inl (refl, refl)) in
      let sized = (t.represents.holds.sized t.block u.0).1 in let below = u.1 in omega arith

  unfoldable pub free_decided : (s : PoolState H) (n : ℕ) → Live s n ⊎ ¬ Live s n → PoolState H
  free_decided s n (inr o) = s
  free_decided s n (inl u) =
      let t = free-TakesBack s.pool (InUseAt s) (represented s) (n / 65536) (n % 65536) u in
      state_of t.after t.represents

  pub free_decided-old :
      (s : PoolState H) (n a : ℕ) (d : Live s n ⊎ ¬ Live s n)
      → Live s a
      → a ≢ n
      → Live (free_decided s n d) a
  unfolding free_decided
  free_decided-old s n a (inr o) u h = u
  free_decided-old s n a (inl v) u h =
      let t = free-TakesBack s.pool (InUseAt s) (represented s) (n / 65536) (n % 65536) v in
      t.represents.used (a / 65536) (a % 65536) (u, (λ e. other e))
    where
      other : ¬ ((a / 65536 ≡ n / 65536) × (a % 65536 ≡ n % 65536))
      other e = h (omega (arith, e.0, e.1))

-- The units of a `MemoryPool` as nodes.
abbrev pub memory_nodes : BlockHeap → NodePool
memory_nodes H = record {
  State = PoolState H;
  Live = Live;
  alloc = λ s. (number_of (taken s).block (taken s).unit, after_alloc s);
  free = λ s n. free_decided s n (decided s.pool.block s.blocks s.frees (n / 65536) (n % 65536));
  free_all = λ s.
      let (m, e, r) =
        free_all-Nothing s.pool (InUseAt s) (represented s) (length s.blocks) (omega arith) in
      state_of m r;
  alloc_fresh = λ s u.
      (taken s).fresh (parts_number (InUseAt s) (taken s).block (taken s).unit (small_unit s) u);
  alloc_new = λ s.
      number_parts (InUseAt (after_alloc s)) (taken s).block (taken s).unit (small_unit s)
        ((taken s).represents.used (taken s).block (taken s).unit (inl (refl, refl)));
  alloc_old = λ s a u. (taken s).represents.used (a / 65536) (a % 65536) (inr u);
  free_old = λ s p a u h.
      free_decided-old s p a (decided s.pool.block s.blocks s.frees (p / 65536) (p % 65536)) u h;
}
