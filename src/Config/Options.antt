-- ===== src/Config/Options.antt =====
-- `ConfigHelp`. The lines of the file are a parameter: `none` stands for a file that does not open.
-- A loop that runs out of fuel is `none`, and so is a failed assertion.
use select_mode_network.Base.{
  ℕ, zero, suc, ◌+◌, ◌-◌, ◌*◌, Bool, true, false, ◌&&◌, ◌||◌, Option, none, some, List, [], ◌∷◌,
  if◌then◌else◌, leb, ◌==◌, length,
}
use select_mode_network.Base.Int.{ℤ}
use select_mode_network.Buffer.Data.{Bytes}
use select_mode_network.Utils.Splitting.{find, substr, strsplit, strtrim}

abbrev pub same_text : Bytes → Bytes → Bool
same_text [] [] = true
same_text [] (y ∷ t) = false
same_text (x ∷ s) [] = false
same_text (x ∷ s) (y ∷ t) = (x == y) && same_text s t

-- `std::map`: the newest value of a key stands first.
abbrev pub Record : Type 0
Record = List (Bytes × Bytes)

abbrev pub set_option : Bytes → Bytes → Record → Record
set_option key val r = (key, val) ∷ r

abbrev pub lookup : Bytes → Record → Option Bytes
lookup key [] = none
lookup key ((k, v) ∷ r) = let rest = lookup key r in if same_text key k then some v else rest

abbrev pub space : Bytes
space = b' ' ∷ []

abbrev pub hash : Bytes
hash = b'#' ∷ []

abbrev pub equals : Bytes
equals = b'=' ∷ []

-- The text before a comment; `none` where the whole line is one.
unfoldable pub before_comment : Bytes → Option Bytes
before_comment line = elim (find line hash 0) [
  | none ↦ some line
  | some zero ↦ none
  | some (suc n) ↦ some (substr line 0 (suc n))
]

-- The first two parts, if there are two.
unfoldable pub two_parts : List Bytes → Option (Bytes × Bytes)
two_parts [] = none
two_parts (k ∷ []) = none
two_parts (k ∷ (v ∷ rest)) = some (k, v)

unfoldable pub assign : Option (Bytes × Bytes) → Record → Record
assign none r = r
assign (some (k, v)) r = set_option k v r

-- The loop body of `init` behind `strtrim`.
unfoldable pub read_trimmed : ℕ → Record → Bytes → Option Record
unfolding before_comment two_parts assign
read_trimmed fuel r line = elim (before_comment line) [
  | none ↦ some r
  | some content ↦ elim (strsplit fuel content equals) [
    | none ↦ none
    | some res ↦ some (assign (two_parts res) r)
  ]
]

-- The loop body of `init`.
unfoldable pub read_line : Record → Bytes → Option Record
unfolding read_trimmed
read_line r line =
    let fuel = suc (length line) in
    elim (strtrim fuel line space) [ none ↦ none | some trimmed ↦ read_trimmed fuel r trimmed ]

unfoldable pub read_lines : Record → List Bytes → Option Record
unfolding read_line
read_lines r [] = some r
read_lines r (line ∷ ls) = elim (read_line r line) [ none ↦ none | some r' ↦ read_lines r' ls ]

unfoldable pub init : Record → Option (List Bytes) → Option (ℤ × Record)
unfolding read_lines
init r none = some (ℤ.negsuc 0, r)
init r (some lines) = elim (read_lines [] lines) [ none ↦ none | some r' ↦ some (ℤ.pos 0, r') ]

unfoldable pub get_string : Record → Bytes → Option Bytes
get_string r key = lookup key r

-- `std::atoi`, below the range of `int`.
abbrev pub digits : Bytes → ℕ → ℕ
digits [] n = n
digits (c ∷ s) n =
    let rest = digits s (n * 10 + (c - 48)) in if leb 48 c && leb c 57 then rest else n

abbrev pub negated : ℕ → ℤ
negated zero = ℤ.pos 0
negated (suc n) = ℤ.negsuc n

abbrev pub signed : Bytes → ℤ
signed [] = ℤ.pos 0
signed (c ∷ s) =
    if c == b'-'
    then negated (digits s 0)
    else ℤ.pos (if c == b'+' then digits s 0 else digits (c ∷ s) 0)

abbrev pub is_space : ℕ → Bool
is_space c = (c == 32) || leb 9 c && leb c 13

abbrev pub atoi : Bytes → ℤ
atoi [] = ℤ.pos 0
atoi (c ∷ s) = let rest = atoi s in if is_space c then rest else signed (c ∷ s)

unfoldable pub get_int : Record → Bytes → Option ℤ
unfolding get_string
get_int r key = elim (get_string r key) [ none ↦ none | some val ↦ some (atoi val) ]
