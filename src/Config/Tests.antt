-- ===== src/Config/Tests.antt =====
-- The options of a small file.
use select_mode_network.Base.{◌≡◌, refl, List, [], ◌∷◌, map, some, arith}
use select_mode_network.Base.Int.{ℤ}
use select_mode_network.Buffer.Data.{Bytes}
use select_mode_network.Config.Options.{init, get_string, get_int}
use select_mode_network.Config.Printing.{Clean, printed, Loads, init-printed}

abbrev port : Bytes
port = b'P' ∷ b'o' ∷ []

abbrev number : Bytes
number = b'8' ∷ b'0' ∷ []

abbrev other : Bytes
other = b'7' ∷ []

abbrev options : List (Bytes × Bytes)
options = (port, number) ∷ ((other, other) ∷ ((port, other) ∷ []))

port-Clean : Clean port
port-Clean = record {
  filled = omega arith;
  no_space = omega arith;
  no_hash = omega arith;
  no_equals = omega arith;
}

number-Clean : Clean number
number-Clean = record {
  filled = omega arith;
  no_space = omega arith;
  no_hash = omega arith;
  no_equals = omega arith;
}

other-Clean : Clean other
other-Clean = record {
  filled = omega arith;
  no_space = omega arith;
  no_hash = omega arith;
  no_equals = omega arith;
}

init-printed_example : Loads options (init [] (some (map printed options)))
init-printed_example =
    init-printed [] options
      (port-Clean, number-Clean, (other-Clean, other-Clean, (port-Clean, other-Clean, tt)))

port_number : get_int ((port, number) ∷ []) port ≡ some (ℤ.pos 80)
unfolding get_int get_string
port_number = refl
