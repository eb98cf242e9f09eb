-- ===== src/Memory/Taking.antt =====
-- What `MemoryPool::Alloc` is to do, and the taking of a unit off a block.
use select_mode_network.Base.{
  NotIn, ℕ, ◌≡◌, ◌⊎◌, inl, inr, refl, subst, sym, some, List, ◌∷◌, ℕ_discrete, Option,
}
use select_mode_network.Memory.Block.{MemoryBlock, pop_unit}
use select_mode_network.Memory.FreeList.{Frees, Distinct, pop_unit-Frees}
use select_mode_network.Memory.Members.{In}
use select_mode_network.Memory.Pool.{BlockHeap, MemoryPool, put, pop_at}
use select_mode_network.Memory.Blocks.{
  InUse, Represents, Holds-put, InUse-put_same, put_same-InUse, InUse-put_other, put_other-InUse,
}

-- A unit that is not in use is handed out, and is the only one that is in use besides.
pub record Takes {H : BlockHeap} (U : ℕ → ℕ → Type 0) (r : Option ((ℕ × ℕ) × MemoryPool H))
    : Type 0 where
  pub block : ℕ
  pub unit : ℕ
  pub after : MemoryPool H
  pub runs : r ≡ some ((block, unit), after)
  pub fresh : ¬ U block unit
  pub represents : Represents after (λ c j. (c ≡ block) × (j ≡ unit) ⊎ U c j)

pop_at-of_pop :
    {H : BlockHeap} (m : MemoryPool H) (a i : ℕ) (b : MemoryBlock)
    → pop_unit (m.block a) ≡ some (i, b)
    → pop_at m a ≡ some ((a, i), record m { block = put m.block a b })
unfolding pop_at
pop_at-of_pop m a i b e = rw (e, pop_at) refl

pub pop_at-Takes :
    {H : BlockHeap} (m : MemoryPool H) (U : ℕ → ℕ → Type 0) (r : Represents m U) (a i : ℕ)
    (is : List ℕ)
    → In a r.blocks
    → r.frees a ≡ i ∷ is
    → Takes U (pop_at m a)
pop_at-Takes {H} m U r a i is k e =
    let f : Frees (m.block a) (i ∷ is) = subst (λ t. Frees (m.block a) t) e (r.holds.frees a k) in
    let (b, popped, f', num) = pop_unit-Frees (m.block a) i is f in
    record {
      block = a;
      unit = i;
      after = record m { block = put m.block a b };
      runs = pop_at-of_pop m a i b popped;
      fresh = λ u. absurd ((subst (λ t. NotIn i t) e (r.used a i u).2).0 refl);
      represents = record {
        blocks = r.blocks;
        frees = put r.frees a is;
        holds = Holds-put m r.blocks r.frees a b is r.holds f' num;
        used = λ c j h. into b f num f'.distinct c j h;
        only = λ c j h. out b num c j h;
      };
    }
  where
    into :
        (b : MemoryBlock)
        → Frees (m.block a) (i ∷ is)
        → b.unit_num ≡ (m.block a).unit_num
        → Distinct is
        → (c j : ℕ) → (c ≡ a) × (j ≡ i) ⊎ U c j
        → InUse (put m.block a b) r.blocks (put r.frees a is) c j
    into b f num d c j (inl (s, t)) =
        subst (λ x. InUse (put m.block a b) r.blocks (put r.frees a is) x j) (sym s)
          (subst (λ x. InUse (put m.block a b) r.blocks (put r.frees a is) a x) (sym t)
            (put_same-InUse m.block r.blocks r.frees a b is i num k f.below.0 f.distinct.0))
    into b f num d c j (inr u) = elim (ℕ_discrete c a) [
      | no h ↦ put_other-InUse m.block r.blocks r.frees a b is c j h (r.used c j u)
      | yes s ↦
          let v : InUse m.block r.blocks r.frees a j =
            subst (λ x. InUse m.block r.blocks r.frees x j) s (r.used c j u) in
          subst (λ x. InUse (put m.block a b) r.blocks (put r.frees a is) x j) (sym s)
            (put_same-InUse m.block r.blocks r.frees a b is j num k v.1
              (subst (λ t. NotIn j t) e v.2).1)
    ]

    out :
        (b : MemoryBlock)
        → b.unit_num ≡ (m.block a).unit_num
        → (c j : ℕ) → InUse (put m.block a b) r.blocks (put r.frees a is) c j
        → (c ≡ a) × (j ≡ i) ⊎ U c j
    out b num c j u = elim (ℕ_discrete c a) [
      | no h ↦ inr (r.only c j (InUse-put_other m.block r.blocks r.frees a b is c j h u))
      | yes s ↦
          let v =
            InUse-put_same m.block r.blocks r.frees a b is j num
              (subst (λ x. InUse (put m.block a b) r.blocks (put r.frees a is) x j) s u) in
          elim (ℕ_discrete j i) [
            | yes t ↦ inl (s, t)
            | no h ↦ inr (
                subst (λ x. U x j) (sym s)
                  (r.only a j (k, v.0, subst (λ t. NotIn j t) (sym e) (h, v.1))))
          ]
    ]
