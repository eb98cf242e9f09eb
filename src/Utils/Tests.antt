-- ===== src/Utils/Tests.antt =====
-- Two strings with a front in common, and a message of seven bytes.
use select_mode_network.Base.{refl, some, ◌≤◌, ◌≡◌, ◌↔◌, [], ◌∷◌, arith, if◌then◌else◌, ltb, length}
use select_mode_network.Base.Int.{ℤ}
use select_mode_network.Buffer.Data.{Bytes, ushort_of}
use select_mode_network.Protocol.{head_size}
use select_mode_network.Utils.Strings.{strcmp_ex, write_buffer}
use select_mode_network.Utils.Compare.{SameFront, strcmp_ex-SameFront}
use select_mode_network.Utils.Splitting.{strsplit}
use select_mode_network.Utils.Runs.{runs}
use select_mode_network.Utils.Split.{strsplit-runs}
use select_mode_network.Utils.Copy.{Copied, write_buffer-Copied}

abbrev abc : Bytes
abc = 97 ∷ 98 ∷ 99 ∷ []

abbrev abd : Bytes
abd = 97 ∷ 98 ∷ 100 ∷ []

strcmp_ex-SameFront_example :
    ((strcmp_ex abc abd (ℤ.pos 2) ≡ ℤ.pos 0) ↔ SameFront abc abd 2)
    × ((strcmp_ex abc abd (ℤ.negsuc 0) ≡ ℤ.pos 0) ↔ SameFront abc abd (length abd))
strcmp_ex-SameFront_example = strcmp_ex-SameFront abc abd 2

abbrev message : Bytes
message = 7 ∷ 0 ∷ 1 ∷ 0 ∷ 2 ∷ 0 ∷ 5 ∷ []

seven : ushort_of message ≤ length message
unfolding ushort_of
seven = omega arith

write_buffer-Copied_example :
    Copied 10 message (write_buffer 10 message)
    × ((write_buffer 10 message).0 ≡ (
        if ltb 10 head_size
        then 0
        else (if ltb (ushort_of message) 10 then ushort_of message else 10)))
write_buffer-Copied_example = write_buffer-Copied 10 message seven

abbrev listed : Bytes
listed = 44 ∷ 97 ∷ 98 ∷ 44 ∷ 44 ∷ 99 ∷ []

strsplit-runs_example : strsplit 7 listed (44 ∷ []) ≡ some (runs 44 listed)
strsplit-runs_example = strsplit-runs 7 listed 44 (omega arith)

listed_runs : runs 44 listed ≡ (97 ∷ 98 ∷ []) ∷ ((99 ∷ []) ∷ [])
listed_runs = refl
