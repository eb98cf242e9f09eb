-- ===== src/Memory/Requests.antt =====
-- Requests of one size to `VarMemPool`.
use select_mode_network.Base.{
  ℕ, ◌-◌, ◌/◌, ◌%◌, ◌≤◌, ◌<◌, ◌≡◌, ◌≢◌, inl, inr, refl, sym, ap, ◌∙◌, some, arith, lt→ltb,
  if◌then◌else◌, ◌==◌, ==_iff,
}
use select_mode_network.Queue.Linked.{NodePool}
use select_mode_network.Memory.VarPool.{
  VarMemPool, alloc, free, alloc_at, free_at, unit_size, pool_num,
}
use select_mode_network.Memory.SizeClass.{Smallest-unique, alloc-Served}
use select_mode_network.Memory.Serving.{
  Allocator, units_of, address_of, size_cases, LiveIn, served, freed, served-fresh, served-new,
  served-old, freed-old,
}

-- What requests of a size lead to: `tag` is the pool, or the system, that serves it.
pub record Serves (N : NodePool) (A : Allocator) (v : VarMemPool (units_of N) A.system) (size : ℕ)
    : Type 0 where
  pub tag : ℕ
  pub place : ℕ
  pub after : VarMemPool (units_of N) A.system
  pub gives : alloc v size ≡ some (place, after)
  pub fresh : ¬ LiveIn N A v (address_of tag place)
  pub new : LiveIn N A after (address_of tag place)
  pub old : (n : ℕ) → LiveIn N A v n → LiveIn N A after n
  pub takes :
      (w : VarMemPool (units_of N) A.system) (q : ℕ)
      → (w' : VarMemPool (units_of N) A.system) × (free w q size ≡ some w')
        × ((n : ℕ) → LiveIn N A w n → n ≢ address_of tag q → LiveIn N A w' n)

chosen :
    {S : Type 0} (f : ℕ → S) (w : S) {x t y q : ℕ}
    → x ≡ t
    → y ≡ q
    → (if x == t then f y else w) ≡ f q
chosen f w {x} {t} {y} {q} e k = ap (λ b. if b then f y else w) ((==_iff x t).1 e) ∙ ap f k

module _ (N : NodePool) (A : Allocator) (size : ℕ) where
  abbrev Pool : Type 0
  Pool = VarMemPool (units_of N) A.system

  freed-large :
      (h : 1024 < size) (w : Pool) (q : ℕ)
      → freed N A w (address_of 7 q) size (inl h) ≡ record w { system = A.system.free w.system q }
  unfolding freed
  freed-large h w q =
      let tag : address_of 7 q % 8 ≡ 7 = omega arith in
      let place : address_of 7 q / 8 ≡ q = omega arith in
      chosen (λ a. record w { system = A.system.free w.system a }) w tag place

  freed-small :
      (h : size ≤ 1024) (w : Pool) (q : ℕ)
      → freed N A w (address_of (alloc-Served w size h).0 q) size (inr h)
        ≡ free_at w (alloc-Served w size h).0 q
  unfolding freed
  freed-small h w q =
      let i = (alloc-Served w size h).0 in
      let range = (alloc-Served w size h).1.0.in_range in
      let tag : address_of i q % 8 ≡ i = omega arith in
      let place : address_of i q / 8 ≡ q = omega arith in chosen (λ a. free_at w i a) w tag place

  -- The pool that a size is served from is the same at all times.
  same_pool : (h : size ≤ 1024) (v w : Pool) → (alloc-Served w size h).0 ≡ (alloc-Served v size h).0
  same_pool h v w =
      let (i, s) = alloc-Served w size h in
      let (j, t) = alloc-Served v size h in Smallest-unique size i j s.0 t.0

  large-Serves : (v : Pool) (h : 1024 < size) → Serves N A v size
  unfolding alloc free served
  large-Serves v h = record {
    tag = 7;
    place = (A.system.malloc v.system size).0;
    after = record v { system = (A.system.malloc v.system size).1 };
    gives = rw (lt→ltb (unit_size (pool_num - 1)) size h) refl;
    fresh = served-fresh N A v size (inl h);
    new = served-new N A v size (inl h);
    old = λ n. served-old N A v size n (inl h);
    takes = λ w q. (
      freed N A w (address_of 7 q) size (inl h),
      rw (lt→ltb (unit_size (pool_num - 1)) size h) (ap some (sym (freed-large h w q))),
      (λ n l o. freed-old N A w (address_of 7 q) size n (inl h) l o),
    );
  }

  small-Serves : (v : Pool) (h : size ≤ 1024) → Serves N A v size
  unfolding served alloc_at
  small-Serves v h =
      let (i, s) = alloc-Served v size h in
      record {
        tag = i;
        place = (N.alloc (v.pools i)).0;
        after = (alloc_at v i).1;
        gives = s.1;
        fresh = served-fresh N A v size (inr h);
        new = served-new N A v size (inr h);
        old = λ n. served-old N A v size n (inr h);
        takes = λ w q.
            let j = (alloc-Served w size h).0 in
            (
              freed N A w (address_of j q) size (inr h),
              (alloc-Served w size h).1.2 w q ∙ ap some (sym (freed-small h w q)),
              (λ n l o.
                  freed-old N A w (address_of j q) size n (inr h) l
                    (λ e. o (e ∙ ap (λ t. address_of t q) (same_pool h v w)))),
            );
      }

  -- Whatever the state, `Alloc` of any size returns an address that is not in use, which is in use
  -- afterwards with those of before; and `Free` of an address of that size, at any time, returns and
  -- leaves all others in use.
  pub alloc-Serves : (v : Pool) → Serves N A v size
  alloc-Serves v = elim (size_cases size) [ inl h ↦ large-Serves v h | inr h ↦ small-Serves v h ]
