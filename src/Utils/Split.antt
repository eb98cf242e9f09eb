-- ===== src/Utils/Split.antt =====
-- `strsplit` at a single character: the runs of other characters.
use select_mode_network.Base.{
  ℕ, zero, suc, ◌+◌, ◌-◌, ◌≤◌, ◌<◌, ◌≡◌, inl, inr, refl, sym, ap, ap₂, ◌∙◌, true, false, none, some,
  List, [], ◌∷◌, ◌++◌, append-nil, append_assoc, arith, length, take, drop, if◌then◌else◌, ltb,
  ◌==◌, lt→ltb, le→ltb, dec_lt, Option, length-append, length-drop, drop-drop, drop-append_length,
  take-append_length, take-all, drop-all,
}
use select_mode_network.Buffer.Data.{Bytes}
use select_mode_network.Utils.Splitting.{find_from, find, substr, split_loop, split_end, strsplit}
use select_mode_network.Utils.Runs.{
  Lacks, emit, runs, find_from-cases, runs-Lacks, emit_some, runs-run, emit-append,
}

module _ (src : Bytes) (c beg n : ℕ) (res : List Bytes) where
  abbrev sep : Bytes
  sep = c ∷ []

  split_loop-end :
      ltb beg (length src) ≡ false → split_loop (suc n) src sep beg res ≡ some (beg, res)
  unfolding split_loop
  split_loop-end e = ground arith

  split_loop-last :
      ltb beg (length src) ≡ true
      → find src sep beg ≡ none
      → split_loop (suc n) src sep beg res ≡ some (beg, res)
  unfolding split_loop
  split_loop-last e f = ground arith

  split_loop-next :
      (at : ℕ)
      → ltb beg (length src) ≡ true
      → find src sep beg ≡ some at
      → split_loop (suc n) src sep beg res
        ≡ split_loop n src sep
            (if beg == at then beg + 1 else at + 1)
            (if beg == at then res else res ++ (substr src beg (at - beg) ∷ []))
  unfolding split_loop
  split_loop-next at e f = ground arith

  find-inside : beg ≤ length src → find src sep beg ≡ find_from sep (drop beg src) beg
  unfolding find
  find-inside h = rw (le→ltb (length src) beg h) refl

-- The text from `beg` on is a run, the character, and the rest.
module _ (src : Bytes) (c beg : ℕ) (res : List Bytes) (p t : Bytes)
    (e : drop beg src ≡ p ++ (c ∷ t)) (l : Lacks c p) where
  piece_begin : (if beg == beg + length p then beg + 1 else beg + length p + 1) ≡ beg + length p + 1
  piece_begin = ground arith

  piece_taken : substr src beg (beg + length p - beg) ≡ p
  piece_taken =
      ap (λ s. take (beg + length p - beg) s) e
      ∙ take-append_length (beg + length p - beg) p (c ∷ t) (omega arith)

  piece_result :
      (if beg == beg + length p then res else res ++ (substr src beg (beg + length p - beg) ∷ []))
      ≡ res ++ emit p []
  piece_result = ap (λ s. if beg == beg + length p then res else res ++ (s ∷ [])) piece_taken ∙ go p
    where
      go : (p : Bytes) → (if beg == beg + length p then res else res ++ (p ∷ [])) ≡ res ++ emit p []
      go [] = ground (arith, append-nil res)
      go (x ∷ p) = ground arith

  piece_rest : drop (beg + length p + 1) src ≡ t
  piece_rest =
      ap (λ k. drop k src) (omega arith)
      ∙ sym (drop-drop (length p + 1) beg src)
      ∙ ap (λ s. drop (length p + 1) s) (e ∙ sym (append_assoc p (c ∷ []) t))
      ∙ drop-append_length (length p + 1) (p ++ (c ∷ [])) t
          (omega (arith, length-append p (c ∷ [])))

  piece_runs :
      (res ++ emit p []) ++ runs c (drop (beg + length p + 1) src) ≡ res ++ runs c (drop beg src)
  piece_runs =
      ap (λ s. (res ++ emit p []) ++ runs c s) piece_rest
      ∙ append_assoc res (emit p []) (runs c t)
      ∙ ap (λ s. res ++ s)
          (emit-append p (runs c t) ∙ sym (runs-run c p t l) ∙ ap (λ s. runs c s) (sym e))

-- From `beg` on the loop finds the runs that are left.
split_loop-runs :
    (src : Bytes) (c n beg : ℕ) (res : List Bytes)
    → length src - beg < n
    → (r : ℕ × List Bytes) × (split_loop n src (c ∷ []) beg res ≡ some r)
      × (split_end src r ≡ res ++ runs c (drop beg src))
unfolding split_end
split_loop-runs src c zero beg res h = absurd (omega arith)
split_loop-runs src c (suc n) beg res h = elim (dec_lt beg (length src)) [
  | no over ↦ (
    (beg, res),
    split_loop-end src c beg n res (le→ltb beg (length src) (omega arith)),
    rw (le→ltb beg (length src) (omega arith), drop-all beg src (omega arith))
        (sym (append-nil res)),
  )
  | yes inside ↦
      let more = lt→ltb beg (length src) inside in
      let looks = find-inside src c beg n res (omega arith) in
      elim (find_from-cases c (drop beg src) beg) [
        | inl (l, e) ↦ (
          (beg, res),
          split_loop-last src c beg n res more (looks ∙ e),
          rw more (
              ap (λ t. res ++ t)
                (ap (λ t. t ∷ [])
                    (take-all (length src - beg) (drop beg src)
                      (omega (arith, length-drop beg src)))
                  ∙ sym (emit_some (drop beg src) (omega (arith, length-drop beg src)))
                  ∙ sym (runs-Lacks c (drop beg src) l))),
        )
        | inr (p, t, e, l, f) ↦
            let (r, g, k) =
              piece p t e l (λ beg' res' m. split_loop-runs src c n beg' res' m) inside h in
            (r, split_loop-next src c beg n res (beg + length p) more (looks ∙ f) ∙ g, k)
      ]
]
  where
    piece :
        (p t : Bytes)
        → drop beg src ≡ p ++ (c ∷ t)
        → Lacks c p
        → ((beg' : ℕ) (res' : List Bytes)
            → length src - beg' < n
            → (r : ℕ × List Bytes) × (split_loop n src (c ∷ []) beg' res' ≡ some r)
              × (split_end src r ≡ res' ++ runs c (drop beg' src)))
        → beg < length src
        → length src - beg < suc n
        → (r : ℕ × List Bytes) × (split_loop n src
              (c ∷ [])
              (if beg == beg + length p then beg + 1 else beg + length p + 1)
              (if beg == beg + length p
                then res
                else res ++ (substr src beg (beg + length p - beg) ∷ []))
            ≡ some r)
          × (split_end src r ≡ res ++ runs c (drop beg src))
    piece p t e l rest inside h =
        let (r, f, k) = rest (beg + length p + 1) (res ++ emit p []) (omega arith) in
        (
          r,
          ap₂ (λ a b. split_loop n src (c ∷ []) a b) (piece_begin src c beg res p t e l)
                (piece_result src c beg res p t e l)
              ∙ f,
          k ∙ piece_runs src c beg res p t e l,
        )

-- `strsplit` at a single character, with more fuel than characters, ends and returns the runs of
-- the other characters, in order.
pub strsplit-runs :
    (fuel : ℕ) (src : Bytes) (c : ℕ)
    → length src < fuel
    → strsplit fuel src (c ∷ []) ≡ some (runs c src)
unfolding strsplit
strsplit-runs fuel src c h =
    let (r, e, k) = split_loop-runs src c fuel 0 [] (omega arith) in
    ap (λ t. elim t as (λ x. Option (List Bytes)) [ none ↦ none | some r ↦ some (split_end src r) ])
      e
    ∙ ap some k
