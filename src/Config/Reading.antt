-- ===== src/Config/Reading.antt =====
-- What `ConfigHelp::init` reads of the lines of its file.
use select_mode_network.Base.{
  ℕ, zero, suc, ◌+◌, ◌≤◌, ◌<◌, ◌≡◌, ◌≢◌, inl, inr, refl, sym, ap, ◌∙◌, Option, none, some, List, [],
  ◌∷◌, ◌++◌, arith, length, take, if◌then◌else◌, ◌==◌, length-append, take-append_length,
}
use select_mode_network.Base.Int.{ℤ}
use select_mode_network.Buffer.Data.{Bytes}
use select_mode_network.Utils.Splitting.{find, substr, strsplit}
use select_mode_network.Utils.Runs.{Lacks, runs, find_from-cases}
use select_mode_network.Utils.Split.{strsplit-runs}
use select_mode_network.Utils.Trimming.{
  without_char, find-first, strtrim-without_char, length-without_char,
}
use select_mode_network.Config.Options.{
  Record, hash, equals, before_comment, two_parts, assign, read_trimmed, read_line, read_lines,
  init,
}

-- The text up to the first `c`.
abbrev pub until : ℕ → Bytes → Bytes
until c [] = []
until c (x ∷ s) = let rest = until c s in if c == x then [] else x ∷ rest

pub until-Lacks : (c : ℕ) (s : Bytes) → Lacks c s → until c s ≡ s
until-Lacks c [] l = refl
until-Lacks c (x ∷ s) l = let ih = until-Lacks c s l.1 in let o : c ≢ x = l.0 in ground arith

until-run : (c : ℕ) (p t : Bytes) → Lacks c p → until c (p ++ (c ∷ t)) ≡ p
until-run c [] t l = ground arith
until-run c (x ∷ p) t l = let ih = until-run c p t l.1 in let o : c ≢ x = l.0 in ground arith

length-until : (c : ℕ) (s : Bytes) → length (until c s) ≤ length s
length-until c [] = omega arith
length-until c (x ∷ s) = let ih = length-until c s in ground arith

-- What a line says: spaces do not count, nor what follows a `#`, and of the parts between the `=`
-- that are not empty the first is the key and the second the value.
abbrev pub said : Bytes → Option (Bytes × Bytes)
said line = two_parts (runs b'=' (until b'#' (without_char b' ' line)))

-- `before_comment` by what `find` returns.
abbrev cut_at : Bytes → Option ℕ → Option Bytes
cut_at line none = some line
cut_at line (some zero) = none
cut_at line (some (suc n)) = some (substr line 0 (suc n))

before_comment-find : (line : Bytes) → before_comment line ≡ cut_at line (find line hash 0)
unfolding before_comment
before_comment-find line = go (find line hash 0)
  where
    go :
        (o : Option ℕ)
        → (elim o as (λ x. Option Bytes) [
          | none ↦ some line
          | some zero ↦ none
          | some (suc n) ↦ some (substr line 0 (suc n))
        ])
          ≡ cut_at line o
    go none = refl
    go (some zero) = refl
    go (some (suc n)) = refl

nothing_said : {r : Record} → some r ≡ some (assign (two_parts []) r)
unfolding assign two_parts
nothing_said = refl

module _ (fuel : ℕ) (r : Record) (line : Bytes) where
  -- `read_trimmed` by the text before the comment.
  abbrev parsed : Option Bytes → Option Record
  parsed none = some r
  parsed (some content) = elim (strsplit fuel content equals) [
    | none ↦ none
    | some res ↦ some (assign (two_parts res) r)
  ]

  read_trimmed-comment : read_trimmed fuel r line ≡ parsed (before_comment line)
  unfolding read_trimmed
  read_trimmed-comment = ground arith

  parsed-runs :
      (content : Bytes)
      → length content < fuel
      → parsed (some content) ≡ some (assign (two_parts (runs b'=' content)) r)
  parsed-runs content h =
      ap
        (λ t. elim t as (λ x. Option Record) [
          | none ↦ none
          | some res ↦ some (assign (two_parts res) r)
        ])
        (strsplit-runs fuel content b'=' h)

  -- A line without spaces is cut at its comment and split at its `=`.
  read_trimmed-runs :
      length line < fuel
      → read_trimmed fuel r line ≡ some (assign (two_parts (runs b'=' (until b'#' line))) r)
  read_trimmed-runs h = elim (find_from-cases b'#' line 0) [
    | inl (l, e) ↦
        read_trimmed-comment
        ∙ ap parsed (before_comment-find line ∙ ap (cut_at line) (find-first line hash ∙ e))
        ∙ parsed-runs line h
        ∙ ap (λ s. some (assign (two_parts (runs b'=' s)) r)) (sym (until-Lacks b'#' line l))
    | inr (p, t, e, l, f) ↦
        read_trimmed-comment
        ∙ ap parsed (before_comment-find line ∙ ap (cut_at line) (find-first line hash ∙ f))
        ∙ cut p t e l
        ∙ ap (λ s. some (assign (two_parts (runs b'=' s)) r))
            (sym (ap (λ s. until b'#' s) e ∙ until-run b'#' p t l))
  ]
    where
      cut :
          (p t : Bytes)
          → line ≡ p ++ (b'#' ∷ t)
          → Lacks b'#' p
          → parsed (cut_at line (some (0 + length p))) ≡ some (assign (two_parts (runs b'=' p)) r)
      cut [] t e l = nothing_said
      cut (x ∷ p) t e l =
          ap (λ k. parsed (cut_at line (some k))) {x = 0 + suc (length p)} {y = suc (length p)}
            (omega arith)
          ∙ ap (λ s. parsed (some s))
              (ap (λ s. take (suc (length p)) s) e
                ∙ take-append_length (suc (length p)) (x ∷ p) (b'#' ∷ t) refl)
          ∙ parsed-runs (x ∷ p) (omega (arith, ap length e, length-append (x ∷ p) (b'#' ∷ t)))

-- Each line changes the record by what it says.
read_line-said : (r : Record) (line : Bytes) → read_line r line ≡ some (assign (said line) r)
unfolding read_line
read_line-said r line =
    let fuel = suc (length line) in
    ap
      (λ t. elim t as (λ x. Option Record) [
        | none ↦ none
        | some trimmed ↦ read_trimmed fuel r trimmed
      ])
      (strtrim-without_char fuel line b' ' (omega arith))
    ∙ read_trimmed-runs fuel r (without_char b' ' line)
        (omega (arith, length-without_char b' ' line))

abbrev pub all_said : Record → List Bytes → Record
all_said r [] = r
all_said r (line ∷ ls) = all_said (assign (said line) r) ls

read_lines-said : (r : Record) (ls : List Bytes) → read_lines r ls ≡ some (all_said r ls)
unfolding read_lines
read_lines-said r [] = refl
read_lines-said r (line ∷ ls) =
    ap (λ t. elim t as (λ x. Option Record) [ none ↦ none | some r' ↦ read_lines r' ls ])
      (read_line-said r line)
    ∙ read_lines-said (assign (said line) r) ls

-- `init` of a file that opens returns 0, with what its lines say one after another.
pub init-said : (r : Record) (ls : List Bytes) → init r (some ls) ≡ some (ℤ.pos 0, all_said [] ls)
unfolding init
init-said r ls =
    ap (λ t. elim t as (λ x. Option (ℤ × Record)) [ none ↦ none | some r' ↦ some (ℤ.pos 0, r') ])
      (read_lines-said [] ls)
