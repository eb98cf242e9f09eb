-- ===== src/Utils/Compare.antt =====
-- `strcmp_ex` returns 0 exactly if the strings have a front of that length in common.
use select_mode_network.Base.{
  ℕ, zero, suc, ◌+◌, ◌≤◌, ◌<◌, ◌≡◌, ◌≢◌, ◌↔◌, ◌⊎◌, inl, inr, refl, ap, [], ◌∷◌, arith,
  if◌then◌else◌, ◌==◌, ==_iff, true, false, get_or, length, take, drop, lt→ltb, le→ltb, dec_lt,
  ℕ_discrete, ==_refl,
}
use select_mode_network.Base.Int.{ℤ}
use select_mode_network.Buffer.Data.{Bytes}
use select_mode_network.Utils.Strings.{scan, compare_front, strcmp_ex}

ne→== : (a b : ℕ) → a ≢ b → (a == b) ≡ false
ne→== a b h = ground arith

first_ne : (a b : ℕ) (xs ys : Bytes) → a ≢ b → (a ∷ xs) ≢ (b ∷ ys)
first_ne a b xs ys h e = h (ap (λ l. get_or l 0 0) e)

rest_ne : (a b : ℕ) (xs ys : Bytes) → xs ≢ ys → (a ∷ xs) ≢ (b ∷ ys)
rest_ne a b xs ys h e = h (ap (λ l. drop 1 l) e)

-- The loop passes all the characters if they agree, and stops before the end if they do not.
scan-cases :
    (n i : ℕ) (s t : Bytes)
    → n ≤ length s
    → n ≤ length t
    → ((scan n i s t ≡ i + n + 1) × (take n s ≡ take n t))
      ⊎ ((scan n i s t ≤ i + n) × (take n s ≢ take n t))
unfolding scan
scan-cases zero i s t h k = inl (omega arith, refl)
scan-cases (suc n) i [] t h k = absurd (omega arith)
scan-cases (suc n) i (a ∷ s) [] h k = absurd (omega arith)
scan-cases (suc n) i (a ∷ s) (b ∷ t) h k = elim (ℕ_discrete a b) [
  | no differ ↦ rw (ne→== a b differ) (inr (omega arith, first_ne a b (take n s) (take n t) differ))
  | yes same ↦
      rw (same, ==_refl b)
        (elim (scan-cases n (suc i) s t (omega arith) (omega arith)) [
          | inl (e, agree) ↦ inl (omega (arith, e), ap (λ l. b ∷ l) agree)
          | inr (e, differ) ↦ inr (omega (arith, e), rest_ne b b (take n s) (take n t) differ)
        ])
]

abbrev pub SameFront : Bytes → Bytes → ℕ → Type 0
SameFront s t n = (n ≤ length s) × (n ≤ length t) × (take n s ≡ take n t)

failed_ne : ℤ.negsuc 0 ≢ ℤ.pos 0
failed_ne e = absurd (cc e)

compare_front-short :
    (s t : Bytes) (n : ℕ) → (length s < n) ⊎ (length t < n) → compare_front s t n ≡ ℤ.negsuc 0
unfolding compare_front
compare_front-short s t n (inl h) = rw (lt→ltb (length s) n h) refl
compare_front-short s t n (inr h) = elim (dec_lt (length s) n) [
  | yes k ↦ rw (lt→ltb (length s) n k) refl
  | no k ↦ rw (le→ltb (length s) n (omega arith), lt→ltb (length t) n h) refl
]

compare_front-long :
    (s t : Bytes) (n : ℕ)
    → n ≤ length s
    → n ≤ length t
    → compare_front s t n ≡ (if scan n 0 s t == n + 1 then ℤ.pos 0 else ℤ.negsuc 0)
unfolding compare_front
compare_front-long s t n h k = rw (le→ltb (length s) n h, le→ltb (length t) n k) refl

pub compare_front-SameFront :
    (s t : Bytes) (n : ℕ) → (compare_front s t n ≡ ℤ.pos 0) ↔ SameFront s t n
compare_front-SameFront s t n = elim (dec_lt (length s) n) [
  | yes h ↦
      rw (compare_front-short s t n (inl h))
        ((λ e. absurd (failed_ne e)), (λ f. absurd (omega (arith, f.0))))
  | no h ↦ elim (dec_lt (length t) n) [
    | yes k ↦
        rw (compare_front-short s t n (inr k))
          ((λ e. absurd (failed_ne e)), (λ f. absurd (omega (arith, f.1))))
    | no k ↦
        rw (compare_front-long s t n (omega arith) (omega arith))
          (elim (scan-cases n 0 s t (omega arith) (omega arith)) [
            | inl (e, agree) ↦
                let e' : (scan n 0 s t == n + 1) ≡ true =
                  (==_iff (scan n 0 s t) (n + 1)).1 (omega (arith, e)) in
                rw e' ((λ f. (omega arith, omega arith, agree)), (λ f. refl))
            | inr (e, differ) ↦
                let e' : (scan n 0 s t == n + 1) ≡ false =
                  ne→== (scan n 0 s t) (n + 1) (λ f. omega (arith, e, f)) in
                rw e' ((λ f. absurd (failed_ne f)), (λ f. absurd (differ f.2)))
          ])
  ]
]

-- `strcmp_ex` with a length that is not negative returns 0 exactly if both strings are at least that
-- long and agree up to it; with the length -1, if the second string is a front of the first.
pub strcmp_ex-SameFront :
    (s t : Bytes) (n : ℕ)
    → ((strcmp_ex s t (ℤ.pos n) ≡ ℤ.pos 0) ↔ SameFront s t n)
      × ((strcmp_ex s t (ℤ.negsuc 0) ≡ ℤ.pos 0) ↔ SameFront s t (length t))
unfolding strcmp_ex
strcmp_ex-SameFront s t n = (compare_front-SameFront s t n, compare_front-SameFront s t (length t))
