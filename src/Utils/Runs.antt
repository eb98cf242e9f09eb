-- ===== src/Utils/Runs.antt =====
-- The runs of the characters of a text other than one, by which `strsplit` is described.
use select_mode_network.Base.{
  ℕ, suc, ◌+◌, ◌<◌, ◌≡◌, ◌≢◌, ◌⊎◌, inl, inr, refl, sym, ap, ◌∙◌, none, some, List, [], ◌∷◌, ◌++◌,
  append-nil, append_assoc, arith, length, if◌then◌else◌, ◌==◌, ℕ_discrete, ==_refl,
}
use select_mode_network.Buffer.Data.{Bytes}
use select_mode_network.Utils.Splitting.{find_from}

-- `c` is not among the characters.
abbrev pub Lacks : ℕ → Bytes → Type 0
Lacks c [] = Unit {0}
Lacks c (x ∷ s) = (c ≢ x) × Lacks c s

-- A part that is empty is left out.
abbrev pub emit : Bytes → List Bytes → List Bytes
emit [] ps = ps
emit (x ∷ s) ps = (x ∷ s) ∷ ps

-- The runs of characters other than `c`, in order, behind the part `cur` of the first one.
abbrev pub runs_from : ℕ → Bytes → Bytes → List Bytes
runs_from c [] cur = emit cur []
runs_from c (x ∷ s) cur =
    let fresh = runs_from c s [] in
    let longer = runs_from c s (cur ++ (x ∷ [])) in if c == x then emit cur fresh else longer

abbrev pub runs : ℕ → Bytes → List Bytes
runs c s = runs_from c s []

pub runs_from-run :
    (c : ℕ) (p t cur : Bytes) → Lacks c p → runs_from c (p ++ t) cur ≡ runs_from c t (cur ++ p)
runs_from-run c [] t cur h = ap (λ k. runs_from c t k) (sym (append-nil cur))
runs_from-run c (x ∷ p) t cur h =
    step h.0
    ∙ runs_from-run c p t (cur ++ (x ∷ [])) h.1
    ∙ ap (λ k. runs_from c t k) (append_assoc cur (x ∷ []) p)
  where
    step : c ≢ x → runs_from c (x ∷ (p ++ t)) cur ≡ runs_from c (p ++ t) (cur ++ (x ∷ []))
    step o = ground arith

runs_from-at : (c : ℕ) (t cur : Bytes) → runs_from c (c ∷ t) cur ≡ emit cur (runs c t)
runs_from-at c t cur = rw (==_refl c) refl

-- What `find` of one character finds.
pub find_from-cases :
    (c : ℕ) (s : Bytes) (n : ℕ)
    → (Lacks c s × (find_from (c ∷ []) s n ≡ none))
      ⊎ ((p : Bytes) × (t : Bytes) × (s ≡ p ++ (c ∷ t))
          × Lacks c p
          × (find_from (c ∷ []) s n ≡ some (n + length p)))
unfolding find_from
find_from-cases c [] n = inl (tt, refl)
find_from-cases c (x ∷ s) n = elim (ℕ_discrete c x) [
  | yes e ↦ inr ([], s, ap (λ t. t ∷ s) (sym e), tt, hit e)
  | no o ↦ elim (find_from-cases c s (suc n)) [
    | inl (l, e) ↦ inl ((o, l), miss o ∙ e)
    | inr (p, t, e, l, f) ↦
        inr (x ∷ p, t, ap (λ k. x ∷ k) e, (o, l), miss o ∙ f ∙ ap some (omega arith))
  ]
]
  where
    hit : c ≡ x → find_from (c ∷ []) (x ∷ s) n ≡ some (n + 0)
    hit e = ground arith

    miss : c ≢ x → find_from (c ∷ []) (x ∷ s) n ≡ find_from (c ∷ []) s (suc n)
    miss o = ground arith

pub runs-Lacks : (c : ℕ) (s : Bytes) → Lacks c s → runs c s ≡ emit s []
runs-Lacks c s l = ap (λ t. runs c t) (sym (append-nil s)) ∙ runs_from-run c s [] [] l

pub emit_some : (s : Bytes) → 0 < length s → emit s [] ≡ s ∷ []
emit_some [] h = absurd (omega arith)
emit_some (x ∷ s) h = refl

-- A run with the character behind it.
pub runs-run : (c : ℕ) (p t : Bytes) → Lacks c p → runs c (p ++ (c ∷ t)) ≡ emit p (runs c t)
runs-run c p t l = runs_from-run c p (c ∷ t) [] l ∙ runs_from-at c t p

pub emit-append : (p : Bytes) (ps : List Bytes) → emit p [] ++ ps ≡ emit p ps
emit-append [] ps = refl
emit-append (x ∷ p) ps = refl
