-- ===== src/Memory/Dropping.antt =====
-- The end of `MemoryPool::Free` that deletes a block.
use select_mode_network.Base.{
  NotIn, ℕ, ◌<◌, ◌≡◌, ◌≢◌, inl, inr, refl, subst, sym, ap, ◌∙◌, some, none, List, [], ◌∷◌, arith,
  Option,
}
use select_mode_network.Buffer.Data.{Ptr}
use select_mode_network.Memory.Block.{MemoryBlock}
use select_mode_network.Memory.FreeList.{Frees}
use select_mode_network.Memory.Members.{
  In, NotIn-apart, without, In-without, without-In, without-NotIn, without-Distinct,
  length-Distinct,
}
use select_mode_network.Memory.Pool.{BlockHeap, MemoryPool, put, drop_block, unlink, delete_block}
use select_mode_network.Memory.Links.{unlink-Linked, drop_head-Linked}
use select_mode_network.Memory.Blocks.{Holds}
use select_mode_network.Memory.Relinking.{Keeps}

-- A block that counts all its units as free has none in use.
all_free :
    (b : MemoryBlock) (l : List ℕ) (j : ℕ)
    → Frees b l
    → b.free ≡ b.unit_num
    → j < b.unit_num
    → ¬ NotIn j l
all_free b l j f e h n =
    let most = length-Distinct b.unit_num (j ∷ l) (n, f.distinct) (h, f.below) in
    absurd (omega (arith, most, f.count, e))

abbrev head_dropped : {H : BlockHeap} → MemoryPool H → ℕ → ℕ → MemoryPool H
head_dropped m a n = delete_block (record m { head = some n; pre = put m.pre n none }) a

module _ {H : BlockHeap} (m : MemoryPool H) (a : ℕ) where
  abbrev by_next : Ptr → Option (MemoryPool H)
  by_next none = none
  by_next (some n) = some (head_dropped m a n)

  abbrev by_pre : Ptr → Option (MemoryPool H)
  by_pre none = by_next (m.next a)
  by_pre (some p) = some (delete_block (unlink m a p) a)

  drop_block-links : drop_block m a ≡ by_pre (m.pre a)
  unfolding drop_block
  drop_block-links = ground arith

-- The head goes, and the block behind it is the new head.
drop_head-Keeps :
    {H : BlockHeap} (m : MemoryPool H) (a : ℕ) (xs : List ℕ) (fs : ℕ → List ℕ)
    → Holds m (a ∷ xs) fs
    → (m.block a).free ≡ (m.block a).unit_num
    → a ≢ m.init_head
    → Keeps m (a ∷ xs) fs (drop_block m a)
unfolding delete_block
drop_head-Keeps m a [] fs v e o = elim v.initial [ inl s ↦ absurd (o (sym s)) | inr k ↦ elim k [ ] ]
drop_head-Keeps {H} m a (n ∷ ys) fs v e o =
    let (is_next, l) = drop_head-Linked m.next m.pre a n ys m.head v.linked v.distinct.1 in
    record {
      after = head_dropped m a n;
      runs = drop_block-links m a ∙ ap (by_pre m a) v.linked.1 ∙ ap (by_next m a) is_next;
      blocks = n ∷ ys;
      holds = record {
        linked = l;
        distinct = v.distinct.1;
        frees = λ c k. v.frees c (inr k);
        sized = λ c k. v.sized c (inr k);
        live = λ c k.
            H.delete_old m.heap a c (v.live c (inr k))
              (λ s. NotIn-apart a c (n ∷ ys) v.distinct.0 k (sym s));
        initial = elim v.initial [ inl s ↦ absurd (o (sym s)) | inr k ↦ k ];
        grows = v.grows;
      };
      stay = λ c j u. (tail c j u.0 u.1 u.2, u.1, u.2);
      only = λ c j u. (inr u.0, u.1, u.2);
    }
  where
    tail :
        (c j : ℕ) → In c (a ∷ (n ∷ ys)) → j < (m.block c).unit_num → NotIn j (fs c) → In c (n ∷ ys)
    tail c j (inr k) h out = k
    tail c j (inl s) h out = absurd (
        all_free (m.block a) (fs a) j (v.frees a (inl refl)) e
          (subst (λ t. j < (m.block t).unit_num) s h) (subst (λ t. NotIn j (fs t)) s out))

module _ {H : BlockHeap} (m : MemoryPool H) (a h : ℕ) (xs : List ℕ) (fs : ℕ → List ℕ)
    (v : Holds m (h ∷ xs) fs) (k : In a xs) where
  others : (c : ℕ) → In c (h ∷ xs) → c ≢ a → In c (h ∷ without a xs)
  others c (inl s) o = inl s
  others c (inr i) o = inr (In-without a c xs i o)

  others_back : (c : ℕ) → In c (h ∷ without a xs) → In c (h ∷ xs) × (c ≢ a)
  others_back c (inl s) = (inl s, (λ t. NotIn-apart h a xs v.distinct.0 k (sym s ∙ t)))
  others_back c (inr i) = let (j, o) = without-In a c xs i in (inr j, o)

  -- A block behind the head goes.
  drop_tail-Keeps :
      (m.block a).free ≡ (m.block a).unit_num
      → a ≢ m.init_head
      → Keeps m (h ∷ xs) fs (drop_block m a)
  unfolding delete_block unlink
  drop_tail-Keeps e o =
      let (q, is_pre, i, l) = unlink-Linked m.next m.pre a none m.head h xs v.linked v.distinct k in
      record {
        after = delete_block (unlink m a q) a;
        runs = drop_block-links m a ∙ ap (by_pre m a) is_pre;
        blocks = h ∷ without a xs;
        holds = record {
          linked = l;
          distinct = (without-NotIn a h xs v.distinct.0, without-Distinct a xs v.distinct.1);
          frees = λ c t. v.frees c (others_back c t).0;
          sized = λ c t. v.sized c (others_back c t).0;
          live =
              λ c t. let (b, apart) = others_back c t in H.delete_old m.heap a c (v.live c b) apart;
          initial = others m.init_head v.initial (λ s. o (sym s));
          grows = v.grows;
        };
        stay = λ c j u. (
          others c u.0 (λ s.
              all_free (m.block a) (fs a) j (v.frees a (inr k)) e
                (subst (λ t. j < (m.block t).unit_num) s u.1) (subst (λ t. NotIn j (fs t)) s u.2)),
          u.1,
          u.2,
        );
        only = λ c j u. ((others_back c u.0).0, u.1, u.2);
      }

-- A block that is empty and not the first one can be dropped: the assertion holds.
pub drop_block-Keeps :
    {H : BlockHeap} (m : MemoryPool H) (bs : List ℕ) (fs : ℕ → List ℕ) (a : ℕ)
    → Holds m bs fs
    → In a bs
    → (m.block a).free ≡ (m.block a).unit_num
    → a ≢ m.init_head
    → Keeps m bs fs (drop_block m a)
drop_block-Keeps m [] fs a v k e o = elim k [ ]
drop_block-Keeps m (h ∷ xs) fs a v (inl s) e o =
    subst (λ t. Keeps m (t ∷ xs) fs (drop_block m a)) s
      (drop_head-Keeps m a xs fs (subst (λ t. Holds m (t ∷ xs) fs) (sym s) v) e o)
drop_block-Keeps m (h ∷ xs) fs a v (inr k) e o = drop_tail-Keeps m a h xs fs v k e o
