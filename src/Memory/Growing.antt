-- ===== src/Memory/Growing.antt =====
-- `MemoryPool::Alloc`, with the block that it adds if the head is full.
use select_mode_network.Base.{
  NotIn, ℕ, zero, suc, ◌+◌, ◌*◌, ◌≤◌, ◌<◌, ◌≡◌, ◌≢◌, inl, inr, refl, subst, sym, ap, ◌∙◌, some,
  none, List, [], ◌∷◌, arith, length, Option, lt→ltb, le→ltb,
}
use select_mode_network.Memory.Block.{MemoryBlock, reset, init}
use select_mode_network.Memory.FreeList.{Frees, reset-Frees, count_from}
use select_mode_network.Memory.Members.{In, NotIn-of_apart, NotIn-apart}
use select_mode_network.Memory.Pool.{
  BlockHeap, MemoryPool, put, pop_at, grow, alloc, alloc_at, block_size, new_block, link_front,
}
use select_mode_network.Memory.Links.{put-same, put-other, link_front-Linked, Linked-other}
use select_mode_network.Memory.Blocks.{Holds, InUse, Represents}
use select_mode_network.Memory.Taking.{Takes, pop_at-Takes}

count_from-all : (j n k : ℕ) → n ≤ j → j < n + k → ¬ NotIn j (count_from n k)
count_from-all j n zero h l out = absurd (omega arith)
count_from-all j n (suc k) h l out =
    let far : j ≢ n = out.0 in count_from-all j (suc n) k (omega arith) (omega arith) out.1

-- A new block has no unit in use.
pub init-Frees : (link : ℕ → ℕ) (num : ℕ) → num < 65536 → Frees (init link num) (count_from 0 num)
unfolding init
init-Frees link num h = reset-Frees (record { free = 0; first = 0; unit_num = num; link = link }) h

pub unit_num-init : (link : ℕ → ℕ) (num : ℕ) → (init link num).unit_num ≡ num
unfolding init reset
unit_num-init link num = refl

pub none_in_use : (num j : ℕ) → j < num → ¬ NotIn j (count_from 0 num)
none_in_use num j h = count_from-all j 0 num (omega arith) (omega arith)

-- The address of the block that `grow` adds.
abbrev pub added : {H : BlockHeap} → MemoryPool H → ℕ
added {H} m = (H.new m.heap (block_size + m.unit_size * m.grow_unit_num)).0

-- After `grow` the new block is the head, with all its units free.
module _ {H : BlockHeap} (m : MemoryPool H) (h : ℕ) (xs : List ℕ) (fs : ℕ → List ℕ)
    (v : Holds m (h ∷ xs) fs) where
  added-NotIn : NotIn (added m) (h ∷ xs)
  added-NotIn =
      NotIn-of_apart (added m) (h ∷ xs)
        (λ k. H.new_fresh m.heap (block_size + m.unit_size * m.grow_unit_num) (v.live (added m) k))

  abbrev grown : MemoryBlock
  grown = init (m.block (added m)).link m.grow_unit_num

  abbrev grown_frees : ℕ → List ℕ
  grown_frees = put fs (added m) (count_from 0 m.grow_unit_num)

  -- A property of each block that holds of the new one too.
  each :
      (P : ℕ → MemoryBlock → List ℕ → Type 0)
      → P (added m) grown (count_from 0 m.grow_unit_num)
      → ((c : ℕ) → In c (h ∷ xs) → P c (m.block c) (fs c))
      → (c : ℕ) → In c (added m ∷ (h ∷ xs))
      → P c (put m.block (added m) grown c) (grown_frees c)
  each P here there c (inl s) =
      subst (λ t. P t (put m.block (added m) grown t) (grown_frees t)) (sym s)
        (subst (λ t. P (added m) t (grown_frees (added m))) (sym (put-same m.block (added m) grown))
          (subst (λ t. P (added m) grown t)
            (sym (put-same fs (added m) (count_from 0 m.grow_unit_num))) here))
  each P here there c (inr k) =
      let far : c ≢ added m = λ s. NotIn-apart (added m) c (h ∷ xs) added-NotIn k (sym s) in
      subst (λ t. P c t (grown_frees c)) (sym (put-other m.block (added m) c grown far))
        (subst (λ t. P c (m.block c) t)
          (sym (put-other fs (added m) c (count_from 0 m.grow_unit_num) far)) (there c k))

  pub grow-Holds : Holds (grow m h).1 (added m ∷ (h ∷ xs)) grown_frees
  unfolding grow new_block link_front
  grow-Holds = record {
    linked =
        link_front-Linked (put m.next (added m) none) (put m.pre (added m) none) (added m) h xs
          m.head
          (Linked-other m.next m.pre (put m.next (added m) none) (put m.pre (added m) none) none
            m.head (h ∷ xs)
            (λ c k.
              let far : c ≢ added m = λ s. NotIn-apart (added m) c (h ∷ xs) added-NotIn k (sym s) in
              (put-other m.next (added m) c none far, put-other m.pre (added m) c none far))
            v.linked)
          v.distinct added-NotIn;
    distinct = (added-NotIn, v.distinct);
    frees = each (λ c b l. Frees b l) (init-Frees _ m.grow_unit_num v.grows.1) v.frees;
    sized =
        each (λ c b l. (0 < b.unit_num) × (b.unit_num < 65536))
          (subst (λ t. (0 < t) × (t < 65536))
            (sym (unit_num-init (m.block (added m)).link m.grow_unit_num)) v.grows)
          v.sized;
    live =
        each (λ c b l. H.Live (grow m h).1.heap c)
          (H.new_live m.heap (block_size + m.unit_size * m.grow_unit_num))
          (λ c k. H.new_old m.heap (block_size + m.unit_size * m.grow_unit_num) c (v.live c k));
    initial = inr v.initial;
    grows = v.grows;
  }

  pub InUse-grow :
      (c j : ℕ)
      → InUse (grow m h).1.block (added m ∷ (h ∷ xs)) grown_frees c j
      → InUse m.block (h ∷ xs) fs c j
  unfolding grow new_block link_front
  InUse-grow c j u =
      each (λ c b l. j < b.unit_num → NotIn j l → InUse m.block (h ∷ xs) fs c j)
        (λ k n. absurd (
          none_in_use m.grow_unit_num j
            (subst (λ t. j < t) (unit_num-init (m.block (added m)).link m.grow_unit_num) k) n))
        (λ c k l n. (k, l, n)) c u.0 u.1 u.2

  pub grow-InUse :
      (c j : ℕ)
      → InUse m.block (h ∷ xs) fs c j
      → InUse (grow m h).1.block (added m ∷ (h ∷ xs)) grown_frees c j
  unfolding grow new_block link_front
  grow-InUse c j u =
      let far : c ≢ added m = λ s. NotIn-apart (added m) c (h ∷ xs) added-NotIn u.0 (sym s) in
      (
        inr u.0,
        subst (λ t. j < t.unit_num) (sym (put-other m.block (added m) c grown far)) u.1,
        subst (λ t. NotIn j t) (sym (put-other fs (added m) c (count_from 0 m.grow_unit_num) far))
            u.2,
      )

module _ {H : BlockHeap} (m : MemoryPool H) (h : ℕ) (xs : List ℕ) (fs : ℕ → List ℕ)
    (v : Holds m (h ∷ xs) fs) where
  take_added :
      (U : ℕ → ℕ → Type 0)
      → ((a i : ℕ) → U a i → InUse m.block (h ∷ xs) fs a i)
      → ((a i : ℕ) → InUse m.block (h ∷ xs) fs a i → U a i)
      → Takes U (pop_at (grow m h).1 (added m))
  take_added U to from =
      let r : Represents (grow m h).1 U = record {
        blocks = added m ∷ (h ∷ xs);
        frees = put fs (added m) (count_from 0 m.grow_unit_num);
        holds = grow-Holds m h xs fs v;
        used = λ c j u. grow-InUse m h xs fs v c j (to c j u);
        only = λ c j u. from c j (InUse-grow m h xs fs v c j u);
      } in
      units m.grow_unit_num v.grows.0 r refl (put-same fs (added m) (count_from 0 m.grow_unit_num))
    where
      units :
          (num : ℕ)
          → 0 < num
          → (r : Represents (grow m h).1 U) → r.blocks ≡ added m ∷ (h ∷ xs)
          → r.frees (added m) ≡ count_from 0 num
          → Takes U (pop_at (grow m h).1 (added m))
      units zero k r b e = absurd (omega arith)
      units (suc num) k r b e =
          pop_at-Takes (grow m h).1 U r (added m) 0 (count_from 1 num)
            (subst (λ t. In (added m) t) (sym b) (inl refl)) e

alloc-at_head :
    {H : BlockHeap} (m : MemoryPool H) (h : ℕ) → m.head ≡ some h → alloc m ≡ alloc_at m h
unfolding alloc
alloc-at_head {H} m h e =
    ap
      (λ t. elim t as (λ x. Option ((ℕ × ℕ) × MemoryPool H)) [
        | none ↦ none
        | some h ↦ alloc_at m h
      ])
      e

alloc_at-has_free :
    {H : BlockHeap} (m : MemoryPool H) (h : ℕ) → 0 < (m.block h).free → alloc_at m h ≡ pop_at m h
unfolding alloc_at
alloc_at-has_free m h k = rw (lt→ltb 0 (m.block h).free k) refl

alloc_at-full :
    {H : BlockHeap} (m : MemoryPool H) (h : ℕ)
    → (m.block h).free ≡ 0
    → alloc_at m h ≡ pop_at (grow m h).1 (added m)
unfolding alloc_at grow new_block
alloc_at-full m h k = rw (le→ltb 0 (m.block h).free (omega (arith, k))) refl

-- While it has blocks, a pool serves every `Alloc`: with a unit that is not in use.
pub alloc-Takes :
    {H : BlockHeap} (m : MemoryPool H) (U : ℕ → ℕ → Type 0) → Represents m U → Takes U (alloc m)
alloc-Takes {H} m U r = go r.blocks r.frees r.holds r.used r.only
  where
    go :
        (bs : List ℕ) (fs : ℕ → List ℕ)
        → Holds m bs fs
        → ((a i : ℕ) → U a i → InUse m.block bs fs a i)
        → ((a i : ℕ) → InUse m.block bs fs a i → U a i)
        → Takes U (alloc m)
    go [] fs v to from = elim v.initial [ ]
    go (h ∷ xs) fs v to from =
        subst (λ t. Takes U t) (sym (alloc-at_head m h v.linked.0))
          (at_head (fs h) refl (v.frees h (inl refl)))
      where
        at_head : (l : List ℕ) → fs h ≡ l → Frees (m.block h) (fs h) → Takes U (alloc_at m h)
        at_head [] e f =
            subst (λ t. Takes U t) (sym (alloc_at-full m h (f.count ∙ ap (λ t. length t) e)))
              (take_added m h xs fs v U to from)
        at_head (i ∷ is) e f =
            subst (λ t. Takes U t)
              (sym (alloc_at-has_free m h (omega (arith, f.count, ap (λ t. length t) e))))
              (pop_at-Takes m U
                (record { blocks = h ∷ xs; frees = fs; holds = v; used = to; only = from }) h i is
                (inl refl) e)
