-- ===== src/Memory/FreeList.antt =====
-- The chain of a `MemoryBlock` is the list of its free units.
use select_mode_network.Base.{
  NotIn, ℕ, zero, suc, ◌+◌, ◌≤◌, ◌<◌, ◌≡◌, ◌≢◌, refl, subst, sym, some, List, [], ◌∷◌, arith,
  length, ltb, lt→ltb, leb, lt→leb, if◌then◌else◌, ◌==◌, ap,
}
use select_mode_network.Memory.Block.{
  MemoryBlock, reset, pop_unit, push_unit, no_unit, decrement, increment,
}

-- `fs` are the units from `n` on along the chain.
abbrev pub Chain : (ℕ → ℕ) → ℕ → List ℕ → Type 0
Chain link n [] = Unit {0}
Chain link n (x ∷ xs) = (n ≡ x) × Chain link (link x) xs

abbrev pub Distinct : List ℕ → Type 0
Distinct [] = Unit {0}
Distinct (x ∷ xs) = NotIn x xs × Distinct xs

abbrev pub Below : ℕ → List ℕ → Type 0
Below n [] = Unit {0}
Below n (x ∷ xs) = (x < n) × Below n xs

-- The free units of a block are `fs`.
pub record Frees (b : MemoryBlock) (fs : List ℕ) : Type 0 where
  pub count : b.free ≡ length fs
  pub sixteen : length fs < 65536
  pub chain : Chain b.link b.first fs
  pub distinct : Distinct fs
  pub below : Below b.unit_num fs

-- A link outside a chain does not matter to it.
Chain-other :
    (link : ℕ → ℕ) (n m k : ℕ) (fs : List ℕ)
    → NotIn n fs
    → Chain link k fs
    → Chain (λ i. if i == n then m else link i) k fs
Chain-other link n m k [] h c = tt
Chain-other link n m k (x ∷ xs) h c = (
  c.0,
  subst (λ t. Chain (λ i. if i == n then m else link i) t xs) (other x (λ e. h.0 (sym e)))
      (Chain-other link n m (link x) xs h.1 c.1),
)
  where
    other : (x : ℕ) → x ≢ n → link x ≡ (if x == n then m else link x)
    other x e = ground arith

-- `popUnit` on a block with free units takes the first of them.
pub pop_unit-Frees :
    (b : MemoryBlock) (x : ℕ) (xs : List ℕ)
    → Frees b (x ∷ xs)
    → (b' : MemoryBlock) × (pop_unit b ≡ some (x, b')) × Frees b' xs × (b'.unit_num ≡ b.unit_num)
unfolding pop_unit
pop_unit-Frees b x xs v = (
  record b {
    free = decrement b.free;
    first = if leb (decrement b.free) 0 then no_unit else b.link b.first;
  },
  rw (lt→ltb b.first b.unit_num (omega (arith, v.chain.0, v.below.0)))
      (ap (λ t. some (t, popped)) v.chain.0),
  record {
    count = omega (arith, v.count, v.sixteen);
    sixteen = omega (arith, v.sixteen);
    chain =
        subst (λ t. Chain b.link (if leb (decrement b.free) 0 then no_unit else b.link t) xs)
          (sym v.chain.0) (after xs v.count v.sixteen v.chain.1);
    distinct = v.distinct.1;
    below = v.below.1;
  },
  refl,
)
  where
    popped : MemoryBlock
    popped = record b {
      free = decrement b.free;
      first = if leb (decrement b.free) 0 then no_unit else b.link b.first;
    }

    after :
        (ys : List ℕ)
        → b.free ≡ suc (length ys)
        → suc (length ys) < 65536
        → Chain b.link (b.link x) ys
        → Chain b.link (if leb (decrement b.free) 0 then no_unit else b.link x) ys
    after [] e s c = tt
    after (y ∷ ys) e s c = rw (lt→leb (decrement b.free) 0 (omega arith)) c

-- `pushUnit` of a unit of the block that is not free makes it the first of the free units.
pub push_unit-Frees :
    (b : MemoryBlock) (n : ℕ) (fs : List ℕ)
    → Frees b fs
    → n < b.unit_num
    → NotIn n fs
    → suc (length fs) < 65536
    → (b' : MemoryBlock) × (push_unit n b ≡ some b')
      × Frees b' (n ∷ fs)
      × (b'.unit_num ≡ b.unit_num)
unfolding push_unit
push_unit-Frees b n fs v h out room = (
  record b { free = increment b.free; first = n; link = λ i. if i == n then b.first else b.link i },
  rw (lt→ltb n b.unit_num h) refl,
  record {
    count = omega (arith, v.count, room);
    sixteen = room;
    chain = (
      refl,
      subst (λ t. Chain (λ i. if i == n then b.first else b.link i) t fs) (here n)
          (Chain-other b.link n b.first b.first fs out v.chain),
    );
    distinct = (out, v.distinct);
    below = (h, v.below);
  },
  refl,
)
  where
    here : (n : ℕ) → b.first ≡ (if n == n then b.first else b.link n)
    here n = ground arith

-- The numbers from `n` on, `k` of them.
abbrev pub count_from : ℕ → ℕ → List ℕ
count_from n zero = []
count_from n (suc k) = n ∷ count_from (suc n) k

length-count_from : (n k : ℕ) → length (count_from n k) ≡ k
length-count_from n zero = refl
length-count_from n (suc k) = ap suc (length-count_from (suc n) k)

count_from-NotIn : (m n k : ℕ) → m < n → NotIn m (count_from n k)
count_from-NotIn m n zero h = tt
count_from-NotIn m n (suc k) h = ((λ e. omega arith), count_from-NotIn m (suc n) k (omega arith))

count_from-Distinct : (n k : ℕ) → Distinct (count_from n k)
count_from-Distinct n zero = tt
count_from-Distinct n (suc k) =
    (count_from-NotIn n (suc n) k (omega arith), count_from-Distinct (suc n) k)

count_from-Below : (n k m : ℕ) → n + k ≤ m → Below m (count_from n k)
count_from-Below n zero m h = tt
count_from-Below n (suc k) m h = (omega arith, count_from-Below (suc n) k m (omega arith))

count_from-Chain :
    (link : ℕ → ℕ) (n k m : ℕ)
    → n + k ≤ m
    → Chain (λ i. if ltb i m then suc i else link i) n (count_from n k)
count_from-Chain link n zero m h = tt
count_from-Chain link n (suc k) m h =
    (refl, rw (lt→ltb n m (omega arith)) (count_from-Chain link (suc n) k m (omega arith)))

-- After `reset` all the units of the block are free, in their order.
pub reset-Frees : (b : MemoryBlock) → b.unit_num < 65536 → Frees (reset b) (count_from 0 b.unit_num)
unfolding reset
reset-Frees b h = record {
  count = sym (length-count_from 0 b.unit_num);
  sixteen = omega (arith, length-count_from 0 b.unit_num);
  chain = count_from-Chain b.link 0 b.unit_num b.unit_num (omega arith);
  distinct = count_from-Distinct 0 b.unit_num;
  below = count_from-Below 0 b.unit_num b.unit_num (omega arith);
}
