-- ===== src/Memory/Walking.antt =====
-- The constructor of `MemoryPool`, and the loops over its blocks that free all units or delete the
-- blocks.
use select_mode_network.Base.{
  ℕ, zero, suc, ◌+◌, ◌*◌, ◌%◌, ◌≤◌, ◌<◌, ◌≡◌, inl, inr, refl, subst, sym, ap, ◌∙◌, some, none, List,
  [], ◌∷◌, arith, length, Option, ℕ_discrete, le→leb,
}
use select_mode_network.Buffer.Data.{Ptr}
use select_mode_network.Memory.Block.{MemoryBlock, reset, init}
use select_mode_network.Memory.FreeList.{Frees, reset-Frees, count_from}
use select_mode_network.Memory.Members.{In}
use select_mode_network.Memory.Pool.{
  BlockHeap, MemoryPool, put, free_from, free_all, dispose_from, dispose, delete_block, create,
  start, configured, new_block, block_size,
}
use select_mode_network.Memory.Links.{Linked, put-same}
use select_mode_network.Memory.Blocks.{
  Holds, InUse, Represents, Holds-put, InUse-put_same, InUse-put_other,
}
use select_mode_network.Memory.Growing.{init-Frees, unit_num-init, none_in_use}

-- No unit is in use.
abbrev pub Nothing : ℕ → ℕ → Type 0
Nothing a i = ⊥

reset_unit_num : (b : MemoryBlock) → (reset b).unit_num ≡ b.unit_num
unfolding reset
reset_unit_num b = refl

-- From `p` on, along the blocks `xs`; the units of the blocks before are free.
free_from-Nothing :
    {H : BlockHeap} (n : ℕ) (m : MemoryPool H) (bs : List ℕ) (fs : ℕ → List ℕ) (before p : Ptr)
    (xs : List ℕ)
    → Holds m bs fs
    → Linked m.next m.pre before p xs
    → ((c : ℕ) → In c xs → In c bs)
    → ((c j : ℕ) → InUse m.block bs fs c j → In c xs)
    → length xs ≤ n
    → (m' : MemoryPool H) × (free_from n m p ≡ some m') × Represents m' Nothing
unfolding free_from
free_from-Nothing n m bs fs before p [] v l part used h = (
  m,
  ap (λ t. free_from n m t) l,
  record {
    blocks = bs;
    frees = fs;
    holds = v;
    used = λ c j u. elim u [ ];
    only = λ c j u. used c j u;
  },
)
free_from-Nothing zero m bs fs before p (x ∷ xs) v l part used h = absurd (omega arith)
free_from-Nothing {H} (suc n) m bs fs before p (x ∷ xs) v l part used h =
    let b = reset (m.block x) in
    let k = part x (inl refl) in
    let num = (m.block x).unit_num in
    let (m', e, r) =
      free_from-Nothing n (record m { block = put m.block x b }) bs (put fs x (count_from 0 num))
        (some x) (m.next x) xs
        (Holds-put m bs fs x b (count_from 0 num) v (reset-Frees (m.block x) (v.sized x k).1)
          (reset_unit_num (m.block x)))
        l.2 (λ c i. part c (inr i)) (λ c j u. still c j u) (omega arith) in
    (m', ap (λ t. free_from (suc n) m t) l.0 ∙ e, r)
  where
    still :
        (c j : ℕ)
        → InUse
            (put m.block x (reset (m.block x)))
            bs
            (put fs x (count_from 0 (m.block x).unit_num))
            c
            j
        → In c xs
    still c j u = elim (ℕ_discrete c x) [
      | no o ↦
          elim (used c j (
            InUse-put_other m.block bs fs x (reset (m.block x)) (count_from 0 (m.block x).unit_num)
              c j o u)) [ inl s ↦ absurd (o s) | inr i ↦ i ]
      | yes s ↦
          let w =
            InUse-put_same m.block bs fs x (reset (m.block x)) (count_from 0 (m.block x).unit_num) j
              (reset_unit_num (m.block x))
              (subst
                (λ t.
                  InUse (put m.block x (reset (m.block x))) bs
                    (put fs x (count_from 0 (m.block x).unit_num)) t j)
                s u) in
          absurd (none_in_use (m.block x).unit_num j w.0 w.1)
    ]

-- With a round for each block, `FreeAll` returns, and then no unit is in use.
pub free_all-Nothing :
    {H : BlockHeap} (m : MemoryPool H) (U : ℕ → ℕ → Type 0) (r : Represents m U) (n : ℕ)
    → length r.blocks ≤ n
    → (m' : MemoryPool H) × (free_all n m ≡ some m') × Represents m' Nothing
unfolding free_all
free_all-Nothing m U r n h =
    free_from-Nothing n m r.blocks r.frees none m.head r.blocks r.holds r.holds.linked (λ c i. i)
      (λ c j u. u.0) h

-- Each of some blocks deleted.
abbrev pub delete_each : (H : BlockHeap) → H.State → List ℕ → H.State
delete_each H s [] = s
delete_each H s (x ∷ xs) = delete_each H (H.delete s x) xs

dispose_from-each :
    {H : BlockHeap} (n : ℕ) (m : MemoryPool H) (before p : Ptr) (xs : List ℕ)
    → Linked m.next m.pre before p xs
    → length xs ≤ n
    → dispose_from n m p ≡ some (record m { heap = delete_each H m.heap xs })
unfolding dispose_from delete_block
dispose_from-each {H} n m before p [] l h = ap (λ t. dispose_from n m t) l
dispose_from-each zero m before p (x ∷ xs) l h = absurd (omega arith)
dispose_from-each (suc n) m before p (x ∷ xs) l h =
    ap (λ t. dispose_from (suc n) m t) l.0
    ∙ dispose_from-each n (delete_block m x) (some x) (m.next x) xs l.2 (omega arith)

-- With a round for each block, `dispose` returns: it has deleted every block once, and the pool has
-- none.
pub dispose-each :
    {H : BlockHeap} (m : MemoryPool H) (U : ℕ → ℕ → Type 0) (r : Represents m U) (n : ℕ)
    → length r.blocks ≤ n
    → dispose n m ≡ some (record m { head = none; heap = delete_each H m.heap r.blocks })
unfolding dispose
dispose-each {H} m U r n h =
    ap
      (λ t. elim t as (λ x. Option (MemoryPool H)) [
        | none ↦ none
        | some m' ↦ some (record m' { head = none })
      ])
      (dispose_from-each n m none m.head r.blocks r.holds.linked h)

-- The address of the first block.
abbrev pub placed : {H : BlockHeap} → MemoryPool H → ℕ
placed {H} m = (H.new m.heap (block_size + m.unit_size * m.init_unit_num)).0

pub start-Nothing :
    {H : BlockHeap} (m : MemoryPool H)
    → (0 < m.init_unit_num) × (m.init_unit_num < 65536)
    → (0 < m.grow_unit_num) × (m.grow_unit_num < 65536)
    → Represents (start m) Nothing
unfolding start new_block
start-Nothing {H} m n g =
    let num = m.init_unit_num in
    let size = block_size + m.unit_size * num in
    let a = (H.new m.heap size).0 in
    let b = init (m.block a).link num in
    let same : put m.block a b a ≡ b = put-same m.block a b in
    record {
      blocks = a ∷ [];
      frees = λ c. count_from 0 num;
      holds = record {
        linked = (refl, put-same m.pre a none, put-same m.next a none);
        distinct = (tt, tt);
        frees =
            λ c k. at (λ t. Frees t (count_from 0 num)) (init-Frees (m.block a).link num n.1) c k;
        sized = λ c k.
            at (λ t. (0 < t.unit_num) × (t.unit_num < 65536))
              (subst (λ t. (0 < t) × (t < 65536)) (sym (unit_num-init (m.block a).link num)) n) c k;
        live = λ c k. elim k [
          | inl s ↦ subst (λ t. H.Live (H.new m.heap size).1 t) (sym s) (H.new_live m.heap size)
          | inr i ↦ elim i [ ]
        ];
        initial = inl refl;
        grows = g;
      };
      used = λ c j u. elim u [ ];
      only = λ c j u.
          at (λ t. j < t.unit_num → ⊥)
            (λ h. none_in_use num j (subst (λ t. j < t) (unit_num-init (m.block a).link num) h) u.2)
            c u.0 u.1;
    }
  where
    at :
        (P : MemoryBlock → Type 0)
        → P (init (m.block (placed m)).link m.init_unit_num)
        → (c : ℕ) → In c (placed m ∷ [])
        → P (put m.block (placed m) (init (m.block (placed m)).link m.init_unit_num) c)
    at P p c (inr i) = elim i [ ]
    at P p c (inl s) =
        let b = init (m.block (placed m)).link m.init_unit_num in
        subst (λ t. P (put m.block (placed m) b t)) (sym s)
          (subst P (sym (put-same m.block (placed m) b)) p)

-- The constructor with sizes that it takes makes a pool in which no unit is in use.
pub create-Nothing :
    {H : BlockHeap} (old : MemoryPool H) (size num more : ℕ)
    → 2 ≤ size
    → size + 2 < 65536
    → (0 < num) × (num < 65536)
    → (0 < more) × (more < 65536)
    → (m : MemoryPool H) × (create old size num more ≡ some m) × Represents m Nothing
unfolding create
create-Nothing {H} old size num more h k n g = (
  start (configured old size num more),
  rw
      (
        le→leb 4 ((size + 2) % 65536) (omega arith),
        le→leb 1 num (omega (arith, n.0)),
        le→leb 1 more (omega (arith, g.0)),
      )
      refl,
  start-Nothing (configured old size num more) n g,
)
