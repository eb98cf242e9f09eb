-- ===== src/EasyTcp/Chunks.antt =====
-- A stream of messages may be cut into pieces anywhere, and `RecvData` be called on each piece.
use mathlib.Core.List.{flatten}
use select_mode_network.Base.{
  ℕ, ◌≤◌, ◌<◌, ◌≡◌, refl, ap, sym, subst, ◌∙◌, some, List, [], ◌∷◌, ◌++◌, arith, append_assoc,
  append-nil, length, length-append,
}
use select_mode_network.Buffer.Data.{Bytes}
use select_mode_network.EasyTcp.MsgBuf.{
  MsgBuf, Memcpy, Received, kept, starved, fault, gone, msg_size, recv_size, recv_data, handle_each,
}
use select_mode_network.EasyTcp.Split.{Messages, Waits, Waits-bound, Holds}
use select_mode_network.EasyTcp.Stream.{recv_data-Holds}
use select_mode_network.EasyTcp.Loop.{CopiesApart}
use select_mode_network.EasyTcp.Parts.{
  Messages-split, Waits-Message, flatten-length, AtLeast, AtLeast-append, piece-Apart,
}

-- Pieces of at most `limit` bytes.
abbrev pub Pieces : ℕ → List Bytes → Type 0
Pieces limit [] = Unit {0}
Pieces limit (c ∷ cs) = (0 < length c) × (length c ≤ limit) × Pieces limit cs

handle_each-append :
    {W : Type 0} (on_net_msg : W → Bytes → W) (w : W) (xs ys : List Bytes)
    → handle_each on_net_msg w (xs ++ ys) ≡ handle_each on_net_msg (handle_each on_net_msg w xs) ys
unfolding handle_each
handle_each-append on_net_msg w [] ys = refl
handle_each-append on_net_msg w (x ∷ xs) ys = handle_each-append on_net_msg (on_net_msg w x) xs ys

module _ {W : Type 0} (memcpy : Memcpy) (on_net_msg : W → Bytes → W) where
  -- A call for each piece; a call that does not return 0 is the last.
  unfoldable pub recv_each : ℕ → MsgBuf → List Bytes → W → Received W
  recv_each fuel b [] w = kept b w
  recv_each fuel b (c ∷ cs) w = elim (recv_data memcpy on_net_msg fuel (λ room. some c) b w) [
    | fault u ↦ fault u
    | starved ↦ starved
    | gone ↦ gone
    | kept b' w' ↦ recv_each fuel b' cs w'
  ]

  -- If what waits in the buffer, followed by the pieces, is a list of messages and less than a
  -- message, then calls of `RecvData` on the pieces, cut anywhere but none longer than the first
  -- buffer or than a message, handle the messages each once and in order, keep the rest, and stay
  -- inside the buffer, where `memcpy` copies regions that do not overlap.
  pub recv_each-Holds :
      (fuel limit : ℕ) (cs : List Bytes) (b : MsgBuf) (w : W) (s : Bytes) (ms : List Bytes)
      (r : Bytes)
      → CopiesApart memcpy
      → msg_size < fuel
      → limit ≤ recv_size
      → Holds b s
      → Waits s
      → Pieces limit cs
      → s ++ flatten cs ≡ flatten ms ++ r
      → Messages ms
      → AtLeast limit ms
      → Waits r
      → (b' : MsgBuf) × (recv_each fuel b cs w ≡ kept b' (handle_each on_net_msg w ms)) × Holds b' r
  unfolding recv_each flatten handle_each
  recv_each-Holds fuel limit [] b w s [] r copies enough small v waits ps e good long rest =
      (b, refl, subst (λ t. Holds b t) (sym (append-nil s) ∙ e) v)
  recv_each-Holds fuel limit [] b w s (m ∷ ms) r copies enough small v waits ps e good long rest =
      absurd (
        Waits-Message m (flatten ms ++ r) s
          (sym (append_assoc m (flatten ms) r) ∙ sym e ∙ append-nil s) good.0 waits)
  recv_each-Holds fuel limit (c ∷ cs) b w s ms r copies enough small v waits ps e good long rest =
      let p =
        Messages-split ms (s ++ c) (flatten cs) r (append_assoc s c (flatten cs) ∙ e) good rest in
      let at_least =
        AtLeast-append limit p.before p.after (subst (λ xs. AtLeast limit xs) p.all long) in
      let (b₁, runs, v₁) =
        recv_data-Holds memcpy on_net_msg copies fuel (λ room. some c) b w s c v waits refl ps.0
          (omega (arith, ps.1)) p.before p.middle p.front p.good_before
          (piece-Apart limit s c p.before p.middle p.front waits ps.1 p.good_before at_least.0)
          p.waits
          (omega (
            arith,
            flatten-length p.before p.good_before,
            ap length p.front,
            length-append s c,
            length-append (flatten p.before) p.middle,
            Waits-bound s waits,
          )) in
      let (b₂, after, v₂) =
        recv_each-Holds fuel limit cs b₁ (handle_each on_net_msg w p.before) p.middle p.after r
          copies enough small v₁ p.waits ps.2 p.back p.good_after at_least.1 rest in
      (
        b₂,
        rw (runs, recv_each)
            (after
              ∙ ap (λ x. kept b₂ x)
                  (sym (handle_each-append on_net_msg w p.before p.after)
                    ∙ ap (λ x. handle_each on_net_msg w x) (sym p.all))),
        v₂,
      )
