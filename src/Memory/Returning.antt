-- ===== src/Memory/Returning.antt =====
-- `MemoryPool::Free` of a unit that is in use.
use select_mode_network.Base.{
  NotIn, ℕ, ◌<◌, ◌≡◌, ◌≢◌, inl, inr, subst, sym, ap, ◌∙◌, some, none, List, ◌∷◌, arith, Option,
  ℕ_discrete, true, Bool-cases, ◌&&◌, not, if◌then◌else◌,
}
use select_mode_network.Memory.Block.{MemoryBlock, push_unit}
use select_mode_network.Memory.FreeList.{push_unit-Frees}
use select_mode_network.Memory.Members.{In, length-Distinct}
use select_mode_network.Memory.Pool.{
  BlockHeap, MemoryPool, put, raise, drop_block, free, is_empty, is_initial,
}
use select_mode_network.Memory.Links.{put-same}
use select_mode_network.Memory.Blocks.{
  Holds, InUse, Represents, Holds-put, InUse-put_same, put_same-InUse, InUse-put_other,
  put_other-InUse,
}
use select_mode_network.Memory.Relinking.{Keeps, raise-Keeps}
use select_mode_network.Memory.Dropping.{drop_block-Keeps}

-- The pool takes a unit back, and all the others are as before.
pub record TakesBack {H : BlockHeap} (U : ℕ → ℕ → Type 0) (a i : ℕ) (r : Option (MemoryPool H))
    : Type 0 where
  pub after : MemoryPool H
  pub runs : r ≡ some after
  pub represents : Represents after (λ c j. U c j × ¬ ((c ≡ a) × (j ≡ i)))

module _ {H : BlockHeap} (m : MemoryPool H) (a : ℕ) where
  abbrev stored : MemoryBlock → MemoryPool H
  stored b = record m { block = put m.block a b }

  -- `Free` behind `pushUnit`.
  abbrev finish : MemoryBlock → Option (MemoryPool H)
  finish b =
      if is_empty b && not (is_initial (stored b) a)
      then drop_block (stored b) a
      else raise (stored b) a

  free-of_push :
      (i : ℕ) (b : MemoryBlock) → push_unit i (m.block a) ≡ some b → free m (a, i) ≡ finish b
  unfolding free
  free-of_push i b e =
      ap (λ t. elim t as (λ x. Option (MemoryPool H)) [ none ↦ none | some b ↦ finish b ]) e

module _ {H : BlockHeap} (m : MemoryPool H) (a : ℕ) (b : MemoryBlock) where
  abbrev pool : MemoryPool H
  pool = stored m a b

  finish-Keeps :
      (bs : List ℕ) (fs : ℕ → List ℕ) → Holds pool bs fs → In a bs → Keeps pool bs fs (finish m a b)
  finish-Keeps bs fs v k = elim (Bool-cases (is_empty b && not (is_initial pool a))) [
    | inl e ↦
        subst (λ t. Keeps pool bs fs (if t then drop_block pool a else raise pool a)) (sym e)
          (drop_block-Keeps pool bs fs a v k
            (ap (λ t. t.free) (put-same m.block a b)
              ∙ counts e
              ∙ sym (ap (λ t. t.unit_num) (put-same m.block a b)))
            (apart e))
    | inr e ↦
        subst (λ t. Keeps pool bs fs (if t then drop_block pool a else raise pool a)) (sym e)
          (raise-Keeps pool bs fs a v k)
  ]
    where
      counts : (is_empty b && not (is_initial pool a)) ≡ true → b.free ≡ b.unit_num
      counts e = ground arith

      apart : (is_empty b && not (is_initial pool a)) ≡ true → a ≢ m.init_head
      apart e = ground arith

module _ {H : BlockHeap} (m : MemoryPool H) (U : ℕ → ℕ → Type 0) (r : Represents m U) (a i : ℕ)
    (u : U a i) where
  -- What is in use once unit `i` of block `a` is the first of its free units.
  module _ (b : MemoryBlock) (num : b.unit_num ≡ (m.block a).unit_num) where
    abbrev back : ℕ → List ℕ
    back = put r.frees a (i ∷ r.frees a)

    into : (c j : ℕ) → U c j × ¬ ((c ≡ a) × (j ≡ i)) → InUse (put m.block a b) r.blocks back c j
    into c j (v, o) = elim (ℕ_discrete c a) [
      | no h ↦ put_other-InUse m.block r.blocks r.frees a b (i ∷ r.frees a) c j h (r.used c j v)
      | yes s ↦
          let w : InUse m.block r.blocks r.frees a j =
            subst (λ x. InUse m.block r.blocks r.frees x j) s (r.used c j v) in
          subst (λ x. InUse (put m.block a b) r.blocks back x j) (sym s)
            (put_same-InUse m.block r.blocks r.frees a b (i ∷ r.frees a) j num w.0 w.1
              ((λ t. o (s, t)), w.2))
    ]

    out : (c j : ℕ) → InUse (put m.block a b) r.blocks back c j → U c j × ¬ ((c ≡ a) × (j ≡ i))
    out c j w = elim (ℕ_discrete c a) [
      | no h ↦ (
        r.only c j (InUse-put_other m.block r.blocks r.frees a b (i ∷ r.frees a) c j h w),
        (λ t. h t.0),
      )
      | yes s ↦
          let x : (j < (m.block a).unit_num) × NotIn j (i ∷ r.frees a) =
            InUse-put_same m.block r.blocks r.frees a b (i ∷ r.frees a) j num
              (subst (λ t. InUse (put m.block a b) r.blocks back t j) s w) in
          (subst (λ t. U t j) (sym s) (r.only a j ((r.used a i u).0, x.0, x.1.1)), (λ t. x.1.0 t.1))
    ]

  -- The pool takes back every unit that is in use.
  pub free-TakesBack : TakesBack U a i (free m (a, i))
  free-TakesBack =
      let (k, below, absent) = r.used a i u in
      let f = r.holds.frees a k in
      let most =
        length-Distinct (m.block a).unit_num (i ∷ r.frees a) (absent, f.distinct)
          (below, f.below) in
      let small = (r.holds.sized a k).1 in
      let (b, pushed, f', num) =
        push_unit-Frees (m.block a) i (r.frees a) f below absent (omega arith) in
      let done =
        finish-Keeps m a b r.blocks (back b num)
          (Holds-put m r.blocks r.frees a b (i ∷ r.frees a) r.holds f' num) k in
      record {
        after = done.after;
        runs = free-of_push m a i b pushed ∙ done.runs;
        represents = record {
          blocks = done.blocks;
          frees = back b num;
          holds = done.holds;
          used = λ c j v. done.stay c j (into b num c j v);
          only = λ c j v. out b num c j (done.only c j v);
        };
      }
