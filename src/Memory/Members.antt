-- ===== src/Memory/Members.antt =====
-- Membership in lists of numbers without repetition, and how long they can be.
use select_mode_network.Base.{
  NotIn, ℕ, zero, suc, ◌≤◌, ◌<◌, ◌≡◌, ◌≢◌, ◌⊎◌, inl, inr, refl, subst, sym, ◌∙◌, List, [], ◌∷◌,
  arith, length, ℕ_discrete, if◌then◌else◌, ◌==◌,
}
use select_mode_network.Memory.FreeList.{Distinct, Below}

abbrev pub In : ℕ → List ℕ → Type 0
In a [] = ⊥
In a (x ∷ xs) = (a ≡ x) ⊎ In a xs

abbrev pub without : ℕ → List ℕ → List ℕ
without a [] = []
without a (x ∷ xs) = let rest = without a xs in if x == a then rest else x ∷ rest

pub in_or_not : (a : ℕ) (xs : List ℕ) → In a xs ⊎ NotIn a xs
in_or_not a [] = inr tt
in_or_not a (x ∷ xs) = elim (ℕ_discrete a x) [
  | yes e ↦ inl (inl e)
  | no h ↦ elim (in_or_not a xs) [ inl m ↦ inl (inr m) | inr n ↦ inr (h, n) ]
]

pub NotIn-apart : (a b : ℕ) (xs : List ℕ) → NotIn a xs → In b xs → a ≢ b
NotIn-apart a b [] n m same = elim m [ ]
NotIn-apart a b (x ∷ xs) n (inl e) same = n.0 (same ∙ e)
NotIn-apart a b (x ∷ xs) n (inr m) same = NotIn-apart a b xs n.1 m same

pub NotIn-of_apart : (a : ℕ) (xs : List ℕ) → ¬ In a xs → NotIn a xs
NotIn-of_apart a xs h = elim (in_or_not a xs) [ inl m ↦ absurd (h m) | inr n ↦ n ]

pub NotIn-absurd : (a : ℕ) (xs : List ℕ) → NotIn a xs → ¬ In a xs
NotIn-absurd a xs n m = NotIn-apart a a xs n m refl

pub In-Below : (n a : ℕ) (xs : List ℕ) → Below n xs → In a xs → a < n
In-Below n a [] b m = elim m [ ]
In-Below n a (x ∷ xs) b (inl e) = omega (arith, b.0, e)
In-Below n a (x ∷ xs) b (inr m) = In-Below n a xs b.1 m

without-same : (a : ℕ) (xs : List ℕ) → NotIn a xs → without a xs ≡ xs
without-same a [] n = refl
without-same a (x ∷ xs) n = ground (arith, without-same a xs n.1)

pub without-head : (a : ℕ) (xs : List ℕ) → NotIn a xs → without a (a ∷ xs) ≡ xs
without-head a xs n = ground (arith, without-same a xs n)

pub without-cons : (a x : ℕ) (xs : List ℕ) → x ≢ a → without a (x ∷ xs) ≡ x ∷ without a xs
without-cons a x xs h = ground arith

without-all :
    (P : List ℕ → Type 0) (a x : ℕ) (xs : List ℕ)
    → (x ≡ a → P (without a xs))
    → (x ≢ a → P (x ∷ without a xs))
    → P (without a (x ∷ xs))
without-all P a x xs f g = elim (ℕ_discrete x a) [
  | yes e ↦ subst P (here e) (f e)
  | no h ↦ subst P (sym (without-cons a x xs h)) (g h)
]
  where
    here : x ≡ a → without a xs ≡ without a (x ∷ xs)
    here e = ground arith

pub In-without : (a b : ℕ) (xs : List ℕ) → In b xs → b ≢ a → In b (without a xs)
In-without a b [] m h = elim m [ ]
In-without a b (x ∷ xs) (inl e) h = without-all (In b) a x xs (λ s. absurd (h (e ∙ s))) (λ o. inl e)
In-without a b (x ∷ xs) (inr m) h =
    without-all (In b) a x xs (λ s. In-without a b xs m h) (λ o. inr (In-without a b xs m h))

pub without-In : (a b : ℕ) (xs : List ℕ) → In b (without a xs) → In b xs × (b ≢ a)
without-In a b [] = λ m. elim m [ ]
without-In a b (x ∷ xs) =
    let ih = without-In a b xs in
    without-all (λ l. In b l → In b (x ∷ xs) × (b ≢ a)) a x xs
      (λ s m. let (i, h) = ih m in (inr i, h))
      (λ o m. elim m [
        | inl e ↦ (inl e, (λ same. o (sym e ∙ same)))
        | inr k ↦ let (i, h) = ih k in (inr i, h)
      ])

pub NotIn-without : (a : ℕ) (xs : List ℕ) → NotIn a (without a xs)
NotIn-without a xs = NotIn-of_apart a (without a xs) (λ m. (without-In a a xs m).1 refl)

pub without-NotIn : (a b : ℕ) (xs : List ℕ) → NotIn b xs → NotIn b (without a xs)
without-NotIn a b xs n =
    NotIn-of_apart b (without a xs) (λ m. NotIn-absurd b xs n (without-In a b xs m).0)

pub without-Distinct : (a : ℕ) (xs : List ℕ) → Distinct xs → Distinct (without a xs)
without-Distinct a [] d = tt
without-Distinct a (x ∷ xs) d =
    without-all Distinct a x xs (λ s. without-Distinct a xs d.1)
      (λ o. (without-NotIn a x xs d.0, without-Distinct a xs d.1))

length-without : (a : ℕ) (xs : List ℕ) → Distinct xs → length xs ≤ suc (length (without a xs))
length-without a [] d = omega arith
length-without a (x ∷ xs) d = elim (ℕ_discrete x a) [
  | yes e ↦
      subst (λ t. length (x ∷ xs) ≤ suc (length (without t (x ∷ xs)))) e
        (subst (λ l. length (x ∷ xs) ≤ suc (length l)) (sym (without-head x xs d.0)) (omega arith))
  | no h ↦
      let ih = length-without a xs d.1 in
      subst (λ l. length (x ∷ xs) ≤ suc (length l)) (sym (without-cons a x xs h)) (omega arith)
]

without-Below : (n : ℕ) (xs : List ℕ) → Below (suc n) xs → Below n (without n xs)
without-Below n [] b = tt
without-Below n (x ∷ xs) b =
    without-all (Below n) n x xs (λ s. without-Below n xs b.1)
      (λ o. (omega (arith, b.0), without-Below n xs b.1))

-- Different numbers below `n` are at most `n`.
pub length-Distinct : (n : ℕ) (xs : List ℕ) → Distinct xs → Below n xs → length xs ≤ n
length-Distinct zero [] d b = omega arith
length-Distinct zero (x ∷ xs) d b = absurd (omega (arith, b.0))
length-Distinct (suc n) xs d b =
    let ih = length-Distinct n (without n xs) (without-Distinct n xs d) (without-Below n xs b) in
    let k = length-without n xs d in omega arith
