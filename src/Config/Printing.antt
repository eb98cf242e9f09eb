-- ===== src/Config/Printing.antt =====
-- Options that are written as lines, for `ConfigHelp` to read.
use select_mode_network.Base.{
  ℕ, ◌<◌, ◌≡◌, ◌≢◌, refl, ap, ◌∙◌, Bool, true, false, Option, none, some, List, [], ◌∷◌, ◌++◌, map,
  arith, length, if◌then◌else◌,
}
use select_mode_network.Base.Int.{ℤ}
use select_mode_network.Buffer.Data.{Bytes}
use select_mode_network.Utils.Runs.{Lacks, runs, runs-Lacks, runs-run, emit}
use select_mode_network.Utils.Trimming.{without_char-Lacks}
use select_mode_network.Config.Options.{
  Record, same_text, lookup, two_parts, assign, set_option, init, get_string,
}
use select_mode_network.Config.Reading.{until, until-Lacks, said, all_said, init-said}

-- A text that can stand on a line as a key or a value.
pub record Clean (s : Bytes) : Type 0 where
  pub filled : 0 < length s
  pub no_space : Lacks b' ' s
  pub no_hash : Lacks b'#' s
  pub no_equals : Lacks b'=' s

abbrev pub AllClean : List (Bytes × Bytes) → Type 0
AllClean [] = Unit {0}
AllClean ((k, v) ∷ es) = Clean k × Clean v × AllClean es

abbrev pub printed : Bytes × Bytes → Bytes
printed (k, v) = k ++ (b'=' ∷ v)

-- The value of the last option with the key.
abbrev pub last_value : Bytes → List (Bytes × Bytes) → Option Bytes
last_value key [] = none
last_value key ((k, v) ∷ es) = elim (last_value key es) [
  | some w ↦ some w
  | none ↦ if same_text key k then some v else none
]

Lacks-append : (c : ℕ) (p t : Bytes) → Lacks c p → c ≢ b'=' → Lacks c t → Lacks c (p ++ (b'=' ∷ t))
Lacks-append c [] t l o m = (o, m)
Lacks-append c (x ∷ p) t l o m = (l.0, Lacks-append c p t l.1 o m)

emit_two :
    (k v : Bytes) → 0 < length k → 0 < length v → two_parts (emit k (emit v [])) ≡ some (k, v)
unfolding two_parts
emit_two [] v h i = absurd (omega arith)
emit_two (x ∷ k) [] h i = absurd (omega arith)
emit_two (x ∷ k) (y ∷ v) h i = refl

-- A line that is written for an option says that option.
said-printed : (k v : Bytes) → Clean k → Clean v → said (printed (k, v)) ≡ some (k, v)
said-printed k v a b =
    let line = k ++ (b'=' ∷ v) in
    ap (λ s. two_parts (runs b'=' (until b'#' s)))
      (without_char-Lacks b' ' line
        (Lacks-append b' ' k v a.no_space (λ e. omega arith) b.no_space))
    ∙ ap (λ s. two_parts (runs b'=' s))
        (until-Lacks b'#' line (Lacks-append b'#' k v a.no_hash (λ e. omega arith) b.no_hash))
    ∙ ap two_parts (runs-run b'=' k v a.no_equals ∙ ap (emit k) (runs-Lacks b'=' v b.no_equals))
    ∙ emit_two k v a.filled b.filled

-- A value that is found, or else what stood in the record before.
abbrev or_before : Option Bytes → Option Bytes → Option Bytes
or_before none old = old
or_before (some v) old = some v

lookup-all_said :
    (key : Bytes) (r : Record) (es : List (Bytes × Bytes))
    → AllClean es
    → lookup key (all_said r (map printed es)) ≡ or_before (last_value key es) (lookup key r)
unfolding assign
lookup-all_said key r [] c = refl
lookup-all_said key r ((k, v) ∷ es) c =
    ap (λ t. lookup key (all_said (assign t r) (map printed es))) (said-printed k v c.0 c.1)
    ∙ lookup-all_said key (set_option k v r) es c.2
    ∙ last (last_value key es) (same_text key k)
  where
    last :
        (o : Option Bytes) (b : Bool)
        → or_before o (if b then some v else lookup key r)
          ≡ or_before
              (elim o as (λ x. Option Bytes) [
                | some w ↦ some w
                | none ↦ if b then some v else none
              ])
              (lookup key r)
    last (some w) b = refl
    last none true = refl
    last none false = refl

or_before-nothing : (o : Option Bytes) → or_before o none ≡ o
or_before-nothing none = refl
or_before-nothing (some v) = refl

-- What a file has of some options.
pub record Loads (es : List (Bytes × Bytes)) (r : Option (ℤ × Record)) : Type 0 where
  pub options : Record
  pub loaded : r ≡ some (ℤ.pos 0, options)
  pub reads : (key : Bytes) → get_string options key ≡ last_value key es

-- A file with a line `key=value` for each option, where keys and values are not empty and have no
-- space, `#` or `=`: `init` returns 0 whatever was there before, and then `getString` returns for
-- every key the value of the last line with it, and fails its assertion if there is none.
pub init-printed :
    (old : Record) (es : List (Bytes × Bytes))
    → AllClean es
    → Loads es (init old (some (map printed es)))
unfolding get_string
init-printed old es c = record {
  options = all_said [] (map printed es);
  loaded = init-said old (map printed es);
  reads = λ key. lookup-all_said key [] es c ∙ or_before-nothing (last_value key es);
}
