-- ===== src/Memory/Counting.antt =====
-- The numbers of `MemoryPool::GetInfo`.
use select_mode_network.Base.{
  ℕ, zero, suc, ◌+◌, ◌*◌, ◌%◌, ◌≤◌, ◌<◌, ◌≡◌, inl, inr, refl, ap, ◌∙◌, some, none, List, [], ◌∷◌,
  arith, length,
}
use select_mode_network.Buffer.Data.{Ptr}
use select_mode_network.Memory.Members.{In}
use select_mode_network.Memory.Pool.{BlockHeap, MemoryPool, MemInfo, add_info, info_from, get_info}
use select_mode_network.Memory.Links.{Linked}
use select_mode_network.Memory.Blocks.{Represents}

-- The sum of a number of each block.
abbrev pub total : (ℕ → ℕ) → List ℕ → ℕ
total f [] = 0
total f (x ∷ xs) = f x + total f xs

-- `after` has a number of each of the blocks more than `before`.
pub record Counts {H : BlockHeap} (m : MemoryPool H) (bs : List ℕ) (fs : ℕ → List ℕ)
    (before after : MemInfo) : Type 0 where
  pub total_mem :
      after.total_mem
      ≡ (before.total_mem + total (λ a. (m.block a).unit_num * m.unit_size) bs) % 4294967296
  pub free_mem :
      after.free_mem ≡ (before.free_mem + total (λ a. length (fs a) * m.unit_size) bs) % 4294967296
  pub total_unit :
      after.total_unit ≡ (before.total_unit + total (λ a. (m.block a).unit_num) bs) % 65536
  pub free_unit : after.free_unit ≡ (before.free_unit + total (λ a. length (fs a)) bs) % 65536
  pub block_num : after.block_num ≡ (before.block_num + length bs) % 65536

-- The numbers are values of their types.
pub record Fits (info : MemInfo) : Type 0 where
  pub total_mem : info.total_mem < 4294967296
  pub free_mem : info.free_mem < 4294967296
  pub total_unit : info.total_unit < 65536
  pub free_unit : info.free_unit < 65536
  pub block_num : info.block_num < 65536

add_info-Fits :
    {H : BlockHeap} (m : MemoryPool H) (a : ℕ) (info : MemInfo) → Fits (add_info m a info)
unfolding add_info
add_info-Fits m a info = record {
  total_mem = omega arith;
  free_mem = omega arith;
  total_unit = omega arith;
  free_unit = omega arith;
  block_num = omega arith;
}

module _ {H : BlockHeap} (m : MemoryPool H) (fs : ℕ → List ℕ) where
  Counts-cons :
      (x : ℕ) (xs : List ℕ) (before after : MemInfo)
      → (m.block x).free ≡ length (fs x)
      → Counts m xs fs (add_info m x before) after
      → Counts m (x ∷ xs) fs before after
  unfolding add_info
  Counts-cons x xs before after e c = record {
    total_mem = omega (arith, c.total_mem);
    free_mem = omega (arith, c.free_mem, ap (λ (t : ℕ). t * m.unit_size) e);
    total_unit = omega (arith, c.total_unit);
    free_unit = omega (arith, c.free_unit, e);
    block_num = omega (arith, c.block_num);
  }

  info_from-Counts :
      (n : ℕ) (before p : Ptr) (xs : List ℕ) (info : MemInfo)
      → Fits info
      → ((a : ℕ) → In a xs → (m.block a).free ≡ length (fs a))
      → Linked m.next m.pre before p xs
      → length xs ≤ n
      → (after : MemInfo) × (info_from n m p info ≡ some after) × Counts m xs fs info after
  unfolding info_from
  info_from-Counts n before p [] info f free l h = (
    info,
    ap (λ t. info_from n m t info) l,
    record {
      total_mem = omega (arith, f.total_mem);
      free_mem = omega (arith, f.free_mem);
      total_unit = omega (arith, f.total_unit);
      free_unit = omega (arith, f.free_unit);
      block_num = omega (arith, f.block_num);
    },
  )
  info_from-Counts zero before p (x ∷ xs) info f free l h = absurd (omega arith)
  info_from-Counts (suc n) before p (x ∷ xs) info f free l h =
      let (after, e, c) =
        info_from-Counts n (some x) (m.next x) xs (add_info m x info) (add_info-Fits m x info)
          (λ a i. free a (inr i)) l.2 (omega arith) in
      (
        after,
        ap (λ t. info_from (suc n) m t info) l.0 ∙ e,
        Counts-cons x xs info after (free x (inl refl)) c,
      )

-- With a round for each block, `GetInfo` returns: it adds the number of blocks, of their units and
-- of their free units, and the bytes of these, in numbers of 16 and of 32 bits.
pub get_info-Counts :
    {H : BlockHeap} (m : MemoryPool H) (U : ℕ → ℕ → Type 0) (r : Represents m U) (n : ℕ)
    (info : MemInfo)
    → Fits info
    → length r.blocks ≤ n
    → (after : MemInfo) × (get_info n m info ≡ some after) × Counts m r.blocks r.frees info after
unfolding get_info
get_info-Counts m U r n info f h =
    info_from-Counts m r.frees n none m.head r.blocks info f (λ a i. (r.holds.frees a i).count)
      r.holds.linked h
