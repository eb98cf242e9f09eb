-- ===== src/SelectServerThread/Leave.antt =====
-- The loop at a Leave message ends only if the first client is the one that leaves.
use select_mode_network.Base.{ℕ, zero, suc, ◌≡◌, refl, false, none, List, ◌∷◌}
use select_mode_network.Memory.Api.{MemPool}
use select_mode_network.ClientSocket.State.{ClientSocket}
use select_mode_network.SelectServerThread.Handle.{SelectClientHandle, same_sock, leave_loop}

-- If the first client of the list is not the one that leaves, the loop does not end, whatever the
-- fuel.
pub leave_loop-stuck :
    {P : MemPool} (fuel : ℕ) (c : ClientSocket) (cs : List ClientSocket) (sock : ℕ)
    (h : SelectClientHandle P)
    → same_sock c.send.sock sock ≡ false
    → leave_loop fuel (c ∷ cs) sock h ≡ none
unfolding leave_loop
leave_loop-stuck zero c cs sock h e = refl
leave_loop-stuck (suc fuel) c cs sock h e = rw e (leave_loop-stuck fuel c cs sock h e)
