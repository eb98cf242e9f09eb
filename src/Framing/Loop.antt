-- ===== src/Framing/Loop.antt =====
-- The receive loop over the messages in a buffer. What is done with a message is a parameter, on a
-- state of the caller's.
use select_mode_network.Base.{ℕ, zero, suc, List, [], ◌∷◌}
use select_mode_network.Buffer.Data.{Bytes}
use select_mode_network.Buffer.OBuffer.{OBuffer}
use select_mode_network.Protocol.{package_of}
use select_mode_network.Framing.Step.{read_package, wait, oversize, packed, fault}

-- How the loop ends: at a `break`, at a length above `PACKAGE_MAX_SIZE`, or at a failed assertion.
-- `starved` is no end: the fuel ran out.
pub data Received (W : Type 0) : Type 0 where
  starved aborted : Received W
  drained oversized : OBuffer → W → Received W

module _ {W : Type 0} (handle : W → Bytes → W) where
  unfoldable pub recv_loop : ℕ → Bytes → OBuffer → W → Received W
  recv_loop zero mem o w = starved
  recv_loop (suc fuel) mem o w = elim (read_package mem o) [
    | wait o' ↦ drained o' w
    | oversize o' ↦ oversized o' w
    | packed message o' ↦ recv_loop fuel mem o' (handle w (package_of message))
    | fault ↦ aborted
  ]

  -- The messages handled one after another.
  unfoldable pub handle_all : W → List Bytes → W
  handle_all w [] = w
  handle_all w (m ∷ ms) = handle_all (handle w (package_of m)) ms
