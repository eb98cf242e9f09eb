-- ===== src/Memory/Serving.antt =====
-- `VarMemPool` over pools of units and the system's allocator as the memory pool of the sockets. An
-- address is a number that shows which of the pools, or the system, it is from.
-- `Free` with a size of another pool, which the source leaves open, does nothing here.
use select_mode_network.Base.{
  ℕ, ◌+◌, ◌*◌, ◌/◌, ◌%◌, ◌≤◌, ◌<◌, ◌≡◌, ◌≢◌, ◌⊎◌, inl, inr, refl, subst, arith, dec_lt, ℕ_discrete,
  if◌then◌else◌, ◌==◌, ==_iff, Bool, true, false,
}
use select_mode_network.Memory.Api.{MemPool}
use select_mode_network.Queue.Linked.{NodePool}
use select_mode_network.Memory.VarPool.{UnitPool, System, VarMemPool, update, alloc_at, free_at}
use select_mode_network.Memory.SizeClass.{alloc-Served}

-- The system's allocator: an address that it returns is not in use, and stays in use until it is
-- freed.
pub record Allocator : Type 1 where
  pub system : System
  pub Live : system.State → ℕ → Type 0
  pub fresh : (s : system.State) (size : ℕ) → ¬ Live s (system.malloc s size).0
  pub new : (s : system.State) (size : ℕ) → Live (system.malloc s size).1 (system.malloc s size).0
  pub old : (s : system.State) (size a : ℕ) → Live s a → Live (system.malloc s size).1 a
  pub free_old : (s : system.State) (p a : ℕ) → Live s a → a ≢ p → Live (system.free s p) a

abbrev pub units_of : NodePool → UnitPool
units_of N = record { State = N.State; alloc = N.alloc; free = N.free }

abbrev pub address_of : ℕ → ℕ → ℕ
address_of t a = a * 8 + t

abbrev pub BySize : ℕ → Type 0
BySize size = (1024 < size) ⊎ (size ≤ 1024)

pub size_cases : (size : ℕ) → BySize size
size_cases size = elim (dec_lt 1024 size) [ yes h ↦ inl h | no h ↦ inr (omega arith) ]

module _ (N : NodePool) (A : Allocator) where
  abbrev pub Pools : Type 0
  Pools = VarMemPool (units_of N) A.system

  -- Block `a` of pool `t`, or of the system, is in use.
  abbrev pub LiveAt : Pools → ℕ → ℕ → Type 0
  LiveAt v t a = ((t ≡ 7) × A.Live v.system a) ⊎ ((t ≢ 7) × N.Live (v.pools t) a)

  abbrev pub LiveIn : Pools → ℕ → Type 0
  LiveIn v n = LiveAt v (n % 8) (n / 8)

  at_address : (v : Pools) (t a : ℕ) → t < 8 → LiveAt v t a → LiveIn v (address_of t a)
  at_address v t a h l =
      let tag : t ≡ address_of t a % 8 = omega arith in
      let block : a ≡ address_of t a / 8 = omega arith in
      subst (λ x. LiveAt v x (address_of t a / 8)) tag (subst (λ x. LiveAt v t x) block l)

  address_at : (v : Pools) (t a : ℕ) → t < 8 → LiveIn v (address_of t a) → LiveAt v t a
  address_at v t a h l =
      let tag : address_of t a % 8 ≡ t = omega arith in
      let block : address_of t a / 8 ≡ a = omega arith in
      subst (λ x. LiveAt v x a) tag (subst (λ x. LiveAt v (address_of t a % 8) x) block l)

  -- `Alloc`, which `alloc-Served` shows to be one of these.
  unfoldable pub served : (v : Pools) (size : ℕ) → BySize size → ℕ × Pools
  unfolding alloc_at
  served v size (inl h) =
      let (p, s) = A.system.malloc v.system size in (address_of 7 p, record v { system = s })
  served v size (inr h) =
      let (i, _) = alloc-Served v size h in let (p, v') = alloc_at v i in (address_of i p, v')

  -- `Free` of an address, of the size that it was allocated with.
  unfoldable pub freed : (v : Pools) (n size : ℕ) → BySize size → Pools
  unfolding free_at
  freed v n size (inl h) =
      if n % 8 == 7 then record v { system = A.system.free v.system (n / 8) } else v
  freed v n size (inr h) =
      let (i, _) = alloc-Served v size h in if n % 8 == i then free_at v i (n / 8) else v

  -- The pool of index `i` replaced by one that still has a block.
  LiveAt-update :
      (v : Pools) (i t a : ℕ) (pool : N.State)
      → LiveAt v t a
      → (t ≡ i → N.Live (v.pools i) a → N.Live pool a)
      → LiveAt (record v { pools = update v.pools i pool }) t a
  LiveAt-update v i t a pool (inl l) f = inl l
  LiveAt-update v i t a pool (inr (o, l)) f = elim (ℕ_discrete t i) [
    | yes e ↦ inr (o, subst (λ x. N.Live x a) (hit e) (f e (subst (λ x. N.Live (v.pools x) a) e l)))
    | no d ↦ inr (o, subst (λ x. N.Live x a) (miss d) l)
  ]
    where
      hit : t ≡ i → pool ≡ update v.pools i pool t
      hit e = ground arith

      miss : t ≢ i → v.pools t ≡ update v.pools i pool t
      miss d = ground arith

  pub served-fresh : (v : Pools) (size : ℕ) (d : BySize size) → ¬ LiveIn v (served v size d).0
  unfolding served alloc_at
  served-fresh v size (inl h) l =
      elim (address_at v 7 (A.system.malloc v.system size).0 (omega arith) l) [
        | inl (e, k) ↦ A.fresh v.system size k
        | inr (o, k) ↦ o refl
      ]
  served-fresh v size (inr h) l =
      let (i, s) = alloc-Served v size h in
      elim (address_at v i (N.alloc (v.pools i)).0 (omega (arith, s.0.in_range)) l) [
        | inl (e, k) ↦ absurd (omega (arith, s.0.in_range, e))
        | inr (o, k) ↦ N.alloc_fresh (v.pools i) k
      ]

  pub served-new :
      (v : Pools) (size : ℕ) (d : BySize size) → LiveIn (served v size d).1 (served v size d).0
  unfolding served alloc_at
  served-new v size (inl h) =
      at_address (record v { system = (A.system.malloc v.system size).1 }) 7
        (A.system.malloc v.system size).0 (omega arith) (inl (refl, A.new v.system size))
  served-new v size (inr h) =
      let (i, s) = alloc-Served v size h in
      let pool = (N.alloc (v.pools i)).1 in
      let a = (N.alloc (v.pools i)).0 in
      at_address (record v { pools = update v.pools i pool }) i a (omega (arith, s.0.in_range))
        (inr (
          (λ e. absurd (omega (arith, s.0.in_range, e))),
          subst (λ x. N.Live x a) (here i pool) (N.alloc_new (v.pools i)),
        ))
    where
      here : (i : ℕ) (pool : N.State) → pool ≡ update v.pools i pool i
      here i pool = ground arith

  pub served-old :
      (v : Pools) (size n : ℕ) (d : BySize size) → LiveIn v n → LiveIn (served v size d).1 n
  unfolding served alloc_at
  served-old v size n (inl h) (inl (e, l)) = inl (e, A.old v.system size (n / 8) l)
  served-old v size n (inl h) (inr l) = inr l
  served-old v size n (inr h) l =
      let (i, _) = alloc-Served v size h in
      LiveAt-update v i (n % 8) (n / 8) (N.alloc (v.pools i)).1 l
        (λ e k. N.alloc_old (v.pools i) (n / 8) k)

  either :
      (v v' : Pools) (n : ℕ) (b : Bool)
      → LiveIn v n
      → (b ≡ true → LiveIn v' n)
      → LiveIn (if b then v' else v) n
  either v v' n true l f = f refl
  either v v' n false l f = l

  pub freed-old :
      (v : Pools) (p size n : ℕ) (d : BySize size)
      → LiveIn v n
      → n ≢ p
      → LiveIn (freed v p size d) n
  unfolding freed free_at
  freed-old v p size n (inl h) l o =
      let v' = record v { system = A.system.free v.system (p / 8) } in
      either v v' n (p % 8 == 7) l (λ e. gone l ((==_iff (p % 8) 7).0 e))
    where
      gone :
          LiveIn v n → p % 8 ≡ 7 → LiveIn (record v { system = A.system.free v.system (p / 8) }) n
      gone (inl (e, k)) s =
          inl (e, A.free_old v.system (p / 8) (n / 8) k (λ f. o (omega (arith, e, s, f))))
      gone (inr k) s = inr k
  freed-old v p size n (inr h) l o =
      let (i, _) = alloc-Served v size h in
      let v' = free_at v i (p / 8) in
      either v v' n (p % 8 == i) l (λ e. gone i ((==_iff (p % 8) i).0 e))
    where
      gone : (i : ℕ) → p % 8 ≡ i → LiveIn (free_at v i (p / 8)) n
      gone i s =
          LiveAt-update v i (n % 8) (n / 8) (N.free (v.pools i) (p / 8)) l
            (λ e k. N.free_old (v.pools i) (p / 8) (n / 8) k (λ f. o (omega (arith, e, s, f))))

-- What the sockets ask of a memory pool.
abbrev pub serving : NodePool → Allocator → MemPool
serving N A = record {
  State = Pools N A;
  Live = LiveIn N A;
  alloc = λ v size. served N A v size (size_cases size);
  free = λ v p size. freed N A v p size (size_cases size);
  alloc_fresh = λ v size. served-fresh N A v size (size_cases size);
  alloc_new = λ v size. served-new N A v size (size_cases size);
  alloc_old = λ v size a. served-old N A v size a (size_cases size);
  free_old = λ v p size a. freed-old N A v p size a (size_cases size);
}
