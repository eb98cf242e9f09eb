-- ===== src/Memory/Blocks.antt =====
-- The blocks of a `MemoryPool` and the units that are in use.
use select_mode_network.Base.{NotIn, ℕ, ◌<◌, ◌≡◌, ◌≢◌, subst, sym, ap, ◌∙◌, none, List, ℕ_discrete}
use select_mode_network.Memory.Block.{MemoryBlock}
use select_mode_network.Memory.FreeList.{Frees, Distinct}
use select_mode_network.Memory.Members.{In}
use select_mode_network.Memory.Pool.{BlockHeap, MemoryPool, put}
use select_mode_network.Memory.Links.{Linked, put-same, put-other}

-- The blocks of the pool are `bs`, from the head on, and `fs a` the free units of block `a`.
pub record Holds {H : BlockHeap} (m : MemoryPool H) (bs : List ℕ) (fs : ℕ → List ℕ) : Type 0 where
  pub linked : Linked m.next m.pre none m.head bs
  pub distinct : Distinct bs
  pub frees : (a : ℕ) → In a bs → Frees (m.block a) (fs a)
  pub sized : (a : ℕ) → In a bs → (0 < (m.block a).unit_num) × ((m.block a).unit_num < 65536)
  pub live : (a : ℕ) → In a bs → H.Live m.heap a
  pub initial : In m.init_head bs
  pub grows : (0 < m.grow_unit_num) × (m.grow_unit_num < 65536)

-- Unit `i` of block `a` is not free.
abbrev pub InUse : (ℕ → MemoryBlock) → List ℕ → (ℕ → List ℕ) → ℕ → ℕ → Type 0
InUse block bs fs a i = In a bs × (i < (block a).unit_num) × NotIn i (fs a)

-- The units in use are those of which `U` holds.
pub record Represents {H : BlockHeap} (m : MemoryPool H) (U : ℕ → ℕ → Type 0) : Type 0 where
  pub blocks : List ℕ
  pub frees : ℕ → List ℕ
  pub holds : Holds m blocks frees
  pub used : (a i : ℕ) → U a i → InUse m.block blocks frees a i
  pub only : (a i : ℕ) → InUse m.block blocks frees a i → U a i

-- A block replaced by one of the same size.
pub Holds-put :
    {H : BlockHeap} (m : MemoryPool H) (bs : List ℕ) (fs : ℕ → List ℕ) (a : ℕ) (b : MemoryBlock)
    (l : List ℕ)
    → Holds m bs fs
    → Frees b l
    → b.unit_num ≡ (m.block a).unit_num
    → Holds (record m { block = put m.block a b }) bs (put fs a l)
Holds-put {H} m bs fs a b l v f e = record {
  linked = v.linked;
  distinct = v.distinct;
  frees = λ c k. at c k;
  sized = λ c k. size c k;
  live = v.live;
  initial = v.initial;
  grows = v.grows;
}
  where
    at : (c : ℕ) → In c bs → Frees (put m.block a b c) (put fs a l c)
    at c k = elim (ℕ_discrete c a) [
      | yes s ↦
          subst (λ t. Frees (put m.block a b t) (put fs a l t)) (sym s)
            (subst (λ t. Frees t (put fs a l a)) (sym (put-same m.block a b))
              (subst (λ t. Frees b t) (sym (put-same fs a l)) f))
      | no h ↦
          subst (λ t. Frees t (put fs a l c)) (sym (put-other m.block a c b h))
            (subst (λ t. Frees (m.block c) t) (sym (put-other fs a c l h)) (v.frees c k))
    ]

    size :
        (c : ℕ)
        → In c bs
        → (0 < (put m.block a b c).unit_num) × ((put m.block a b c).unit_num < 65536)
    size c k = elim (ℕ_discrete c a) [
      | yes s ↦
          subst (λ t. (0 < t) × (t < 65536))
            (sym e
              ∙ ap (λ t. t.unit_num) (sym (put-same m.block a b))
              ∙ ap (λ t. (put m.block a b t).unit_num) (sym s))
            (subst (λ t. (0 < (m.block t).unit_num) × ((m.block t).unit_num < 65536)) s
              (v.sized c k))
      | no h ↦
          subst (λ t. (0 < t.unit_num) × (t.unit_num < 65536)) (sym (put-other m.block a c b h))
            (v.sized c k)
    ]

module _ (block : ℕ → MemoryBlock) (bs : List ℕ) (fs : ℕ → List ℕ) (a : ℕ) (b : MemoryBlock)
    (l : List ℕ) where
  -- What is in use after the replacement, in block `a` and in another.
  pub InUse-put_same :
      (i : ℕ)
      → b.unit_num ≡ (block a).unit_num
      → InUse (put block a b) bs (put fs a l) a i
      → (i < (block a).unit_num) × NotIn i l
  InUse-put_same i e u = (
    subst (λ n. i < n) (ap (λ t. t.unit_num) (put-same block a b) ∙ e) u.1,
    subst (λ t. NotIn i t) (put-same fs a l) u.2,
  )

  pub put_same-InUse :
      (i : ℕ)
      → b.unit_num ≡ (block a).unit_num
      → In a bs
      → i < (block a).unit_num
      → NotIn i l
      → InUse (put block a b) bs (put fs a l) a i
  put_same-InUse i e k h n = (
    k,
    subst (λ n. i < n) (sym (ap (λ t. t.unit_num) (put-same block a b) ∙ e)) h,
    subst (λ t. NotIn i t) (sym (put-same fs a l)) n,
  )

  pub InUse-put_other :
      (c i : ℕ) → c ≢ a → InUse (put block a b) bs (put fs a l) c i → InUse block bs fs c i
  InUse-put_other c i h u = (
    u.0,
    subst (λ t. i < t.unit_num) (put-other block a c b h) u.1,
    subst (λ t. NotIn i t) (put-other fs a c l h) u.2,
  )

  pub put_other-InUse :
      (c i : ℕ) → c ≢ a → InUse block bs fs c i → InUse (put block a b) bs (put fs a l) c i
  put_other-InUse c i h u = (
    u.0,
    subst (λ t. i < t.unit_num) (sym (put-other block a c b h)) u.1,
    subst (λ t. NotIn i t) (sym (put-other fs a c l h)) u.2,
  )
