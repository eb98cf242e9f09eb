-- ===== src/Utils/Splitting.antt =====
-- `strsplit` and `strtrim` of CommonLib/Utils.cpp, with what they use of `std::string`. A loop that
-- runs out of fuel is `none`.
use select_mode_network.Base.{
  ℕ, zero, suc, ◌+◌, ◌-◌, Bool, true, false, ◌&&◌, Option, none, some, List, [], ◌∷◌, ◌++◌,
  if◌then◌else◌, ltb, ◌==◌, length, take, drop,
}
use select_mode_network.Buffer.Data.{Bytes}

abbrev pub starts : Bytes → Bytes → Bool
starts [] s = true
starts (p ∷ pat) [] = false
starts (p ∷ pat) (c ∷ s) = (p == c) && starts pat s

-- The first place of `pat` in `s`, whose first character is number `n`.
unfoldable pub find_from : Bytes → Bytes → ℕ → Option ℕ
find_from pat [] n = if starts pat [] then some n else none
find_from pat (c ∷ s) n =
    let rest = find_from pat s (suc n) in if starts pat (c ∷ s) then some n else rest

-- `src.find(pat, pos)`
unfoldable pub find : Bytes → Bytes → ℕ → Option ℕ
unfolding find_from
find src pat pos = if ltb (length src) pos then none else find_from pat (drop pos src) pos

-- `src.substr(pos, len)`
abbrev pub substr : Bytes → ℕ → ℕ → Bytes
substr src pos len = take len (drop pos src)

-- `src.erase(pos, len)`
abbrev pub erase : Bytes → ℕ → ℕ → Bytes
erase src pos len = take pos src ++ drop (pos + len) src

-- The loop of `strsplit`.
unfoldable pub split_loop : ℕ → Bytes → Bytes → ℕ → List Bytes → Option (ℕ × List Bytes)
unfolding find
split_loop zero src split beg_pos res = none
split_loop (suc fuel) src split beg_pos res = elim (ltb beg_pos (length src)) [
  | false ↦ some (beg_pos, res)
  | true ↦ elim (find src split beg_pos) [
    | none ↦ some (beg_pos, res)
    | some find_pos ↦
        let here = beg_pos == find_pos in
        split_loop fuel src split (if here then beg_pos + length split else find_pos + length split)
          (if here then res else res ++ (substr src beg_pos (find_pos - beg_pos) ∷ []))
  ]
]

-- The rest of the string, if it is not empty.
unfoldable pub split_end : Bytes → ℕ × List Bytes → List Bytes
split_end src (beg_pos, res) =
    if ltb beg_pos (length src)
    then res ++ (substr src beg_pos (length src - beg_pos) ∷ [])
    else res

unfoldable pub strsplit : ℕ → Bytes → Bytes → Option (List Bytes)
unfolding split_loop split_end
strsplit fuel src split = elim (split_loop fuel src split 0 []) [
  | none ↦ none
  | some r ↦ some (split_end src r)
]

unfoldable pub strtrim : ℕ → Bytes → Bytes → Option Bytes
unfolding find
strtrim zero src mark = none
strtrim (suc fuel) src mark = elim (find src mark 0) [
  | none ↦ some src
  | some pos ↦ strtrim fuel (erase src pos (length mark)) mark
]
