-- ===== src/Memory/SizeClass.antt =====
-- `VarMemPool` serves a size from the smallest of its pools that fits, and gives it back there.
use select_mode_network.Base.{
  ℕ, zero, suc, ◌+◌, ◌-◌, ◌/◌, ◌≤◌, ◌<◌, ◌≡◌, refl, some, arith, le→leb, lt→leb, le→ltb, lt→ltb,
  dec_lt,
}
use select_mode_network.Memory.VarPool.{
  UnitPool, System, VarMemPool, pool_num, unit_size, search, get_pool, alloc, free, alloc_at,
  free_at,
}

-- The search ends between a size that is too small and one that fits.
search_lem :
    (sizes : ℕ → ℕ) (fuel size d u : ℕ)
    → d < u
    → u ≤ d + fuel
    → sizes d < size
    → size ≤ sizes u
    → (i : ℕ) × (search sizes fuel size d u ≡ some (suc i))
      × (i < u)
      × (sizes i < size)
      × (size ≤ sizes (suc i))
unfolding search
search_lem sizes zero size d u h k below above = absurd (omega arith)
search_lem sizes (suc fuel) size d zero h k below above = absurd (omega arith)
search_lem sizes (suc fuel) size d (suc u) h k below above = elim (dec_lt 1 (suc u - d)) [
  | yes wide ↦
      let m = d + (suc u - d) / 2 in
      let lo : d < m = omega arith in
      let hi : m < suc u = omega arith in
      elim (dec_lt (sizes m) size) [
        | yes small ↦
            let (i, e, a, b, c) =
              search_lem sizes fuel size m (suc u) (omega arith) (omega arith) small above in
            (i, rw (lt→ltb 1 (suc u - d) wide, lt→leb size (sizes m) small) e, a, b, c)
        | no big ↦
            let (i, e, a, b, c) =
              search_lem sizes fuel size d m (omega arith) (omega arith) below (omega arith) in
            (
              i,
              rw (lt→ltb 1 (suc u - d) wide, le→leb size (sizes m) (omega arith)) e,
              omega arith,
              b,
              c,
            )
      ]
  | no narrow ↦
      let same : d ≡ u = omega arith in
      (u, rw (le→ltb 1 (suc u - d) (omega arith)) refl, omega arith, rw (← same) below, above)
]

unit_size_step : (i : ℕ) → suc i < pool_num → unit_size i ≤ unit_size (suc i)
unit_size_step zero h = omega arith
unit_size_step (suc zero) h = omega arith
unit_size_step (suc (suc zero)) h = omega arith
unit_size_step (suc (suc (suc zero))) h = omega arith
unit_size_step (suc (suc (suc (suc zero)))) h = omega arith
unit_size_step (suc (suc (suc (suc (suc zero))))) h = omega arith
unit_size_step (suc (suc (suc (suc (suc (suc i)))))) h = absurd (omega arith)

unit_size_mono : (j i : ℕ) → j ≤ i → i < pool_num → unit_size j ≤ unit_size i
unit_size_mono j zero h k = let e : j ≡ 0 = omega arith in rw e (omega arith)
unit_size_mono j (suc i) h k = elim (dec_lt j (suc i)) [
  | yes less ↦ omega (arith, unit_size_mono j i (omega arith) (omega arith), unit_size_step i k)
  | no same ↦ let e : j ≡ suc i = omega arith in rw e (omega arith)
]

-- The pool that serves a size.
pub record Smallest (size i : ℕ) : Type 0 where
  pub in_range : i < pool_num
  pub fits : size ≤ unit_size i
  pub smallest : (j : ℕ) → j < i → unit_size j < size

-- Only one pool is the smallest.
pub Smallest-unique : (size i j : ℕ) → Smallest size i → Smallest size j → i ≡ j
Smallest-unique size i j a b = elim (dec_lt i j) [
  | yes less ↦ absurd (omega (arith, a.fits, b.smallest i less))
  | no h ↦ elim (dec_lt j i) [
    | yes more ↦ absurd (omega (arith, b.fits, a.smallest j more))
    | no k ↦ omega arith
  ]
]

get_pool_lem :
    (size : ℕ)
    → unit_size 0 < size
    → size ≤ unit_size (pool_num - 1)
    → (i : ℕ) × (get_pool size ≡ some i) × Smallest size i
unfolding get_pool
get_pool_lem size h k =
    let (i, e, a, b, c) =
      search_lem unit_size pool_num size 0 (pool_num - 1) (omega arith) (omega arith) h k in
    (
      suc i,
      e,
      record {
        in_range = omega arith;
        fits = c;
        smallest = λ j l. omega (arith, unit_size_mono j i (omega arith) (omega arith));
      },
    )

module _ {U : UnitPool} {S : System} (v : VarMemPool U S) (size : ℕ) where
  -- What `Alloc` and `Free` do with a size.
  abbrev pub Served : ℕ → Type 0
  Served i =
      Smallest size i
      × (alloc v size ≡ some (alloc_at v i))
      × ((w : VarMemPool U S) (p : ℕ) → free w p size ≡ some (free_at w i p))

  -- A size up to the largest of the pools is served from the smallest pool that it fits, and a block
  -- of that size is given back to the same pool, whatever has happened in between.
  pub alloc-Served : size ≤ unit_size (pool_num - 1) → (i : ℕ) × Served i
  unfolding alloc free
  alloc-Served h = elim (dec_lt (unit_size 0) size) [
    | yes more ↦
        let (i, e, s) = get_pool_lem size more h in
        (
          i,
          (
            s,
            rw (le→ltb (unit_size (pool_num - 1)) size h, lt→leb size (unit_size 0) more, e) refl,
            λ w p.
                rw (le→ltb (unit_size (pool_num - 1)) size h, lt→leb size (unit_size 0) more, e)
                  refl,
          ),
        )
    | no less ↦ (
      0,
      (
        record {
          in_range = omega arith;
          fits = omega arith;
          smallest = λ j l. absurd (omega arith);
        },
        rw (le→ltb (unit_size (pool_num - 1)) size h, le→leb size (unit_size 0) (omega arith)) refl,
        λ w p.
            rw (le→ltb (unit_size (pool_num - 1)) size h, le→leb size (unit_size 0) (omega arith))
              refl,
      ),
    )
  ]
