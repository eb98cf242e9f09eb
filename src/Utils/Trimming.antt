-- ===== src/Utils/Trimming.antt =====
-- `strtrim` at a single character.
use select_mode_network.Base.{
  ℕ, zero, suc, ◌+◌, ◌≤◌, ◌<◌, ◌≡◌, ◌≢◌, inl, inr, refl, sym, ap, ◌∙◌, none, some, [], ◌∷◌, ◌++◌,
  append_assoc, arith, length, drop, if◌then◌else◌, ◌==◌, length-append, drop-append_length,
  take-append_length,
}
use select_mode_network.Buffer.Data.{Bytes}
use select_mode_network.Utils.Splitting.{find_from, find, erase, strtrim}
use select_mode_network.Utils.Runs.{Lacks, find_from-cases}

abbrev pub without_char : ℕ → Bytes → Bytes
without_char c [] = []
without_char c (x ∷ s) = let rest = without_char c s in if c == x then rest else x ∷ rest

pub without_char-Lacks : (c : ℕ) (s : Bytes) → Lacks c s → without_char c s ≡ s
without_char-Lacks c [] l = refl
without_char-Lacks c (x ∷ s) l =
    let ih = without_char-Lacks c s l.1 in let o : c ≢ x = l.0 in ground arith

pub without_char-append :
    (c : ℕ) (s t : Bytes) → without_char c (s ++ t) ≡ without_char c s ++ without_char c t
without_char-append c [] t = refl
without_char-append c (x ∷ s) t = let ih = without_char-append c s t in ground arith

without_char-at : (c : ℕ) (p t : Bytes) → without_char c (p ++ (c ∷ t)) ≡ without_char c (p ++ t)
without_char-at c p t =
    without_char-append c p (c ∷ t)
    ∙ ap (λ k. without_char c p ++ k) (here c)
    ∙ sym (without_char-append c p t)
  where
    here : (c : ℕ) → without_char c (c ∷ t) ≡ without_char c t
    here c = ground arith

pub find-first : (s pat : Bytes) → find s pat 0 ≡ find_from pat s 0
unfolding find
find-first s pat = ground arith

module _ (fuel : ℕ) (src mark : Bytes) where
  strtrim-last : find src mark 0 ≡ none → strtrim (suc fuel) src mark ≡ some src
  unfolding strtrim
  strtrim-last e = ground arith

  strtrim-next :
      (pos : ℕ)
      → find src mark 0 ≡ some pos
      → strtrim (suc fuel) src mark ≡ strtrim fuel (erase src pos (length mark)) mark
  unfolding strtrim
  strtrim-next pos e = ground arith

erase-run : (c : ℕ) (p t : Bytes) → erase (p ++ (c ∷ t)) (length p) 1 ≡ p ++ t
erase-run c p t =
    ap (λ k. k ++ drop (length p + 1) (p ++ (c ∷ t))) (take-append_length (length p) p (c ∷ t) refl)
    ∙ ap (λ k. p ++ k)
        (ap (λ s. drop (length p + 1) s) (sym (append_assoc p (c ∷ []) t))
          ∙ drop-append_length (length p + 1) (p ++ (c ∷ [])) t
              (omega (arith, length-append p (c ∷ []))))

-- `strtrim` at a single character, with more fuel than characters, ends: the character is gone and
-- the others are as before.
pub strtrim-without_char :
    (fuel : ℕ) (src : Bytes) (c : ℕ)
    → length src < fuel
    → strtrim fuel src (c ∷ []) ≡ some (without_char c src)
strtrim-without_char zero src c h = absurd (omega arith)
strtrim-without_char (suc fuel) src c h = elim (find_from-cases c src 0) [
  | inl (l, e) ↦
      strtrim-last fuel src (c ∷ []) (find-first src (c ∷ []) ∙ e)
      ∙ ap some (sym (without_char-Lacks c src l))
  | inr (p, t, e, l, f) ↦
      let shorter : erase src (0 + length p) 1 ≡ p ++ t =
        ap (λ k. erase src k 1) {x = 0 + length p} {y = length p} (omega arith)
        ∙ ap (λ s. erase s (length p) 1) e
        ∙ erase-run c p t in
      strtrim-next fuel src (c ∷ []) (0 + length p) (find-first src (c ∷ []) ∙ f)
      ∙ ap (λ s. strtrim fuel s (c ∷ [])) shorter
      ∙ strtrim-without_char fuel (p ++ t) c
          (omega (arith, ap length e, length-append p (c ∷ t), length-append p t))
      ∙ ap some (sym (ap (λ s. without_char c s) e ∙ without_char-at c p t))
]

pub length-without_char : (c : ℕ) (s : Bytes) → length (without_char c s) ≤ length s
length-without_char c [] = omega arith
length-without_char c (x ∷ s) = let ih = length-without_char c s in ground arith
