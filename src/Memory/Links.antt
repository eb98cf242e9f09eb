-- ===== src/Memory/Links.antt =====
-- The doubly linked list of the blocks of a `MemoryPool`.
use select_mode_network.Base.{
  some-injective, NotIn, ℕ, ◌≡◌, ◌≢◌, inl, inr, refl, subst, sym, ap, ◌∙◌, none, some, List, [],
  ◌∷◌, arith,
}
use select_mode_network.Buffer.Data.{Ptr}
use select_mode_network.Memory.FreeList.{Distinct}
use select_mode_network.Memory.Members.{In, without, NotIn-apart, without-head, without-cons}
use select_mode_network.Memory.Pool.{put, put_at}

-- From `p` the blocks `bs` are linked forwards, and backwards to `before`.
abbrev pub Linked : (ℕ → Ptr) → (ℕ → Ptr) → Ptr → Ptr → List ℕ → Type 0
Linked next pre before p [] = p ≡ none
Linked next pre before p (x ∷ xs) =
    (p ≡ some x) × (pre x ≡ before) × Linked next pre (some x) (next x) xs

pub put-same : {A : Type 0} (f : ℕ → A) (a : ℕ) (x : A) → put f a x a ≡ x
put-same f a x = ground arith

pub put-other : {A : Type 0} (f : ℕ → A) (a b : ℕ) (x : A) → b ≢ a → put f a x b ≡ f b
put-other f a b x h = ground arith

-- A change of the links of other blocks does not matter.
pub Linked-other :
    (next pre next' pre' : ℕ → Ptr) (before p : Ptr) (xs : List ℕ)
    → ((a : ℕ) → In a xs → (next' a ≡ next a) × (pre' a ≡ pre a))
    → Linked next pre before p xs
    → Linked next' pre' before p xs
Linked-other next pre next' pre' before p [] same l = l
Linked-other next pre next' pre' before p (x ∷ xs) same l =
    let (n, q) = same x (inl refl) in
    (
      l.0,
      q ∙ l.1,
      subst (λ t. Linked next' pre' (some x) t xs) (sym n)
          (Linked-other next pre next' pre' (some x) (next x) xs (λ a m. same a (inr m)) l.2),
    )

-- The block that follows `a` is in the list.
next-In :
    (next pre : ℕ → Ptr) (before p : Ptr) (a n : ℕ) (xs : List ℕ)
    → Linked next pre before p xs
    → In a xs
    → next a ≡ some n
    → Distinct xs
    → In n xs × (n ≢ a)
next-In next pre before p a n [] l m e d = elim m [ ]
next-In next pre before p a n (x ∷ []) l (inl s) e d = absurd (cc (e, l.2, ap next s))
next-In next pre before p a n (x ∷ (y ∷ ys)) l (inl s) e d =
    let y_is : n ≡ y = some-injective (sym e ∙ ap next s ∙ l.2.0) in
    (inr (inl y_is), (λ h. d.0.0 (sym s ∙ sym h ∙ y_is)))
next-In next pre before p a n (x ∷ xs) l (inr m) e d =
    let (i, h) = next-In next pre (some x) (next x) a n xs l.2 m e d.1 in (inr i, h)

-- Block `a` is taken out from behind block `q`.
module _ (next pre : ℕ → Ptr) (a : ℕ) where
  abbrev pub next_after : ℕ → ℕ → Ptr
  next_after q = put next q (next a)

  abbrev pub pre_after : ℕ → ℕ → Ptr
  pre_after q = put_at pre (next a) (some q)

  pre_after-same : (q n : ℕ) → next a ≡ some n → pre_after q n ≡ some q
  pre_after-same q n e = ap (λ k. put_at pre k (some q) n) e ∙ put-same pre n (some q)

  pre_after-other : (q b : ℕ) → next a ≢ some b → pre_after q b ≡ pre b
  pre_after-other q b = go (next a)
    where
      go : (k : Ptr) → k ≢ some b → put_at pre k (some q) b ≡ pre b
      go none h = refl
      go (some n) h = put-other pre n b (some q) (λ s. h (ap some (sym s)))

  -- No block of the list leads back to the block before it.
  never_back :
      (before p : Ptr) (x : ℕ) (xs : List ℕ)
      → Linked next pre before p xs
      → Distinct (x ∷ xs)
      → In a xs
      → next a ≢ some x
  never_back before p x xs l d m e =
      NotIn-apart x x xs d.0 (next-In next pre before p a x xs l m e d.1).0 refl

  unlink_next :
      (before p : Ptr) (x : ℕ) (ys : List ℕ)
      → Linked next pre before p (x ∷ (a ∷ ys))
      → Distinct (x ∷ (a ∷ ys))
      → Linked (next_after x) (pre_after x) before p (x ∷ ys)
  unlink_next before p x ys l d =
      let back = never_back (some x) (next x) x (a ∷ ys) l.2 d (inl refl) in
      (l.0, pre_after-other x x back ∙ l.1, rest ys l.2.2 d)
    where
      rest :
          (ys : List ℕ)
          → Linked next pre (some a) (next a) ys
          → Distinct (x ∷ (a ∷ ys))
          → Linked (next_after x) (pre_after x) (some x) (next_after x x) ys
      rest [] l d = put-same next x (next a) ∙ l
      rest (n ∷ zs) l d =
          let far : n ≢ x = λ s. d.0.1.0 (sym s) in
          (
            put-same next x (next a) ∙ l.0,
            pre_after-same x n l.0,
            subst (λ t. Linked (next_after x) (pre_after x) (some n) t zs)
                (sym (put-other next x n (next a) far))
                (Linked-other next pre (next_after x) (pre_after x) (some n) (next n) zs
                  (λ b m. (
                    put-other next x b (next a) (λ s. NotIn-apart x b zs d.0.1.1 m (sym s)),
                    pre_after-other x b
                        (λ e. NotIn-apart n b zs d.1.1.0 m (some-injective (sym l.0 ∙ e))),
                  ))
                  l.2),
          )

  pub unlink-Linked :
      (before p : Ptr) (x : ℕ) (xs : List ℕ)
      → Linked next pre before p (x ∷ xs)
      → Distinct (x ∷ xs)
      → In a xs
      → (q : ℕ) × (pre a ≡ some q)
        × In q (x ∷ xs)
        × Linked (next_after q) (pre_after q) before p (x ∷ without a xs)
  unlink-Linked before p x [] l d m = elim m [ ]
  unlink-Linked before p x (y ∷ ys) l d (inl s) = (
    x,
    ap pre s ∙ l.2.1,
    inl refl,
    subst (λ zs. Linked (next_after x) (pre_after x) before p (x ∷ zs))
        (sym (without-head a ys (subst (λ t. NotIn t ys) (sym s) d.1.0))
          ∙ ap (λ t. without a (t ∷ ys)) s)
        (unlink_next before p x ys (subst (λ t. Linked next pre before p (x ∷ (t ∷ ys))) (sym s) l)
          (subst (λ t. Distinct (x ∷ (t ∷ ys))) (sym s) d)),
  )
  unlink-Linked before p x (y ∷ ys) l d (inr m) =
      let (q, e, i, l') = unlink-Linked (some x) (next x) y ys l.2 d.1 m in
      let far : x ≢ q = NotIn-apart x q (y ∷ ys) d.0 i in
      let back = never_back (some x) (next x) x (y ∷ ys) l.2 d (inr m) in
      (
        q,
        e,
        inr i,
        subst (λ zs. Linked (next_after q) (pre_after q) before p (x ∷ zs))
            (sym (without-cons a y ys (NotIn-apart y a ys d.1.0 m)))
            (
              l.0,
              pre_after-other q x back ∙ l.1,
              subst (λ t. Linked (next_after q) (pre_after q) (some x) t (y ∷ without a ys))
                  (sym (put-other next q x (next a) far)) l',
            ),
      )

-- Block `a` is put before the head `h`.
pub link_front-Linked :
    (next pre : ℕ → Ptr) (a h : ℕ) (xs : List ℕ) (p : Ptr)
    → Linked next pre none p (h ∷ xs)
    → Distinct (h ∷ xs)
    → NotIn a (h ∷ xs)
    → Linked (put next a (some h)) (put (put pre a none) h (some a)) none (some a) (a ∷ (h ∷ xs))
link_front-Linked next pre a h xs p l d n =
    let next' = put next a (some h) in
    let pre' = put (put pre a none) h (some a) in
    (
      refl,
      put-other (put pre a none) h a (some a) n.0 ∙ put-same pre a none,
      (
        put-same next a (some h),
        put-same (put pre a none) h (some a),
        subst (λ t. Linked next' pre' (some h) t xs)
            (sym (put-other next a h (some h) (λ s. n.0 (sym s))))
            (Linked-other next pre next' pre' (some h) (next h) xs
              (λ b m.
                let far : b ≢ a = λ s. NotIn-apart a b xs n.1 m (sym s) in
                (
                  put-other next a b (some h) far,
                  put-other (put pre a none) h b (some a) (λ s. NotIn-apart h b xs d.0 m (sym s))
                      ∙ put-other pre a b none far,
                ))
              l.2),
      ),
    )

-- The head is taken out.
pub drop_head-Linked :
    (next pre : ℕ → Ptr) (a n : ℕ) (xs : List ℕ) (p : Ptr)
    → Linked next pre none p (a ∷ (n ∷ xs))
    → Distinct (n ∷ xs)
    → (next a ≡ some n) × Linked next (put pre n none) none (some n) (n ∷ xs)
drop_head-Linked next pre a n xs p l d = (
  l.2.0,
  (
    refl,
    put-same pre n none,
    Linked-other next pre next (put pre n none) (some n) (next n) xs
        (λ b m. (refl, put-other pre n b none (λ s. NotIn-apart n b xs d.0 m (sym s)))) l.2.2,
  ),
)

-- Only the head has no block before it.
pub pre-of_tail :
    (next pre : ℕ → Ptr) (before p : Ptr) (a : ℕ) (xs : List ℕ)
    → Linked next pre before p xs
    → In a xs
    → pre a ≡ none
    → (p ≡ some a) × (before ≡ none)
pre-of_tail next pre before p a [] l m e = elim m [ ]
pre-of_tail next pre before p a (x ∷ xs) l (inl s) e =
    (l.0 ∙ ap some (sym s), sym l.1 ∙ ap pre (sym s) ∙ e)
pre-of_tail next pre before p a (x ∷ xs) l (inr m) e =
    absurd (cc ((pre-of_tail next pre (some x) (next x) a xs l.2 m e).1))
