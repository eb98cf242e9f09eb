-- ===== src/Base/Arrays.antt =====
-- What a part of an array holds after a write into the array.
use Prim.Native.Nat.{ℕ, zero, suc, ◌+◌, ◌-◌, ◌≤◌}
use mathlib.Core.Path.{◌≡◌, refl, ap, ◌∙◌, sym}
use mathlib.Core.List.{List, [], ◌∷◌, ◌++◌, append_assoc}
use native.Mathlib.Omega.{arith}
use select_mode_network.Base.Lists.{
  length, take, drop, read_at, write_at, length-append, length-take, length-drop, drop-drop,
  take-append_length, drop-append, take-add,
}

module _ {ℓ} {A : Type ℓ} where
  take-nil : (n : ℕ) → take {A = A} n [] ≡ []
  take-nil zero = refl
  take-nil (suc n) = refl

  pub drop-take : (m n : ℕ) (xs : List A) → drop m (take n xs) ≡ take (n - m) (drop m xs)
  drop-take zero n xs = ap (λ k. take k xs) (omega arith)
  drop-take (suc m) zero xs = let e : zero - suc m ≡ 0 = omega arith in rw e
  drop-take (suc m) (suc n) [] = sym (take-nil (suc n - suc m))
  drop-take (suc m) (suc n) (x ∷ xs) = drop-take m n xs ∙ ap (λ k. take k (drop m xs)) (omega arith)

  pub length-read_at :
      (a : List A) (pos len : ℕ) → pos + len ≤ length a → length (read_at a pos len) ≡ len
  length-read_at a pos len h = omega (arith, length-take len (drop pos a), length-drop pos a)

  -- A part of an array is a front part and what follows it.
  pub read_at-add :
      (a : List A) (pos m n : ℕ) → read_at a pos (m + n) ≡ read_at a pos m ++ read_at a (pos + m) n
  read_at-add a pos m n =
      take-add m n (drop pos a) ∙ ap (λ t. read_at a pos m ++ take n t) (drop-drop m pos a)

  -- A write at the front is read back.
  pub read_at-write_at_front :
      (a src : List A) (n : ℕ) → n ≡ length src → read_at (write_at a 0 src) 0 n ≡ src
  read_at-write_at_front a src n h = take-append_length n src _ h

  -- A write right behind what has been read extends it.
  pub read_at-write_at_end :
      (a src : List A) (r w : ℕ)
      → r ≤ w
      → w ≤ length a
      → read_at (write_at a w src) r (w - r + length src) ≡ read_at a r (w - r) ++ src
  read_at-write_at_end a src r w h k =
      ap (λ t. take (w - r + length src) t)
        (drop-append r (take w a) _ (omega (arith, length-take w a)))
      ∙ ap (λ t. take (w - r + length src) (t ++ (src ++ drop (w + length src) a)))
          (drop-take r w a)
      ∙ ap (λ t. take (w - r + length src) t) (sym (append_assoc (read_at a r (w - r)) src _))
      ∙ take-append_length (w - r + length src) (read_at a r (w - r) ++ src) _
          (omega (arith, length-append (read_at a r (w - r)) src, length-read_at a r (w - r)))
