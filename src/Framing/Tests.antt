-- ===== src/Framing/Tests.antt =====
-- A stream of two messages and two bytes.
use select_mode_network.Base.{refl, [], ◌∷◌, ◌++◌, arith}
use select_mode_network.Buffer.Data.{Bytes, ushort_of}
use select_mode_network.Framing.Cuts.{Cuts, next, rest, front, left}

abbrev first_message : Bytes
first_message = 6 ∷ 0 ∷ 1 ∷ 0 ∷ 2 ∷ 0 ∷ []

abbrev second_message : Bytes
second_message = 7 ∷ 0 ∷ 1 ∷ 0 ∷ 3 ∷ 0 ∷ 4 ∷ []

abbrev stream : Bytes
stream = first_message ++ (second_message ++ (6 ∷ 0 ∷ []))

stream-Cuts : Cuts stream (first_message ∷ second_message ∷ []) (left (6 ∷ 0 ∷ []))
unfolding front ushort_of
stream-Cuts = next 6 refl (omega arith) (next 7 refl (omega arith) (rest refl))
