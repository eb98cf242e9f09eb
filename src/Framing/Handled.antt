-- ===== src/Framing/Handled.antt =====
-- The receive loop handles the messages of the unread bytes, and ends as these end.
use select_mode_network.Base.{
  ℕ, zero, suc, ◌+◌, ◌≤◌, ◌<◌, ◌≡◌, refl, ap, ◌∙◌, List, arith, length, take, drop, length-drop,
}
use select_mode_network.Buffer.Data.{Bytes}
use select_mode_network.Buffer.OBuffer.{OBuffer}
use select_mode_network.Buffer.Unread.{OValid, o_unread}
use select_mode_network.Protocol.{package_of}
use select_mode_network.Framing.Cuts.{
  message, front, left, refused, stuck, End, Cuts, rest, refuse, hang, next, front_bounds, partial,
}
use select_mode_network.Framing.Step.{read_package, packed}
use select_mode_network.Framing.Read.{read_package-wait, read_package-oversize, read_package-packed}
use select_mode_network.Framing.Loop.{starved, drained, oversized, recv_loop, handle_all}

-- Each message takes at least one byte off the stream.
pub Cuts-length : {s : Bytes} {ms : List Bytes} {e : End} → Cuts s ms e → length ms ≤ length s
Cuts-length (rest h) = omega arith
Cuts-length (refuse h) = omega arith
Cuts-length (hang h) = omega arith
Cuts-length (next {s} n h p c) =
    omega (arith, Cuts-length c, length-drop n s, (front_bounds s n h).1)

module _ (mem : Bytes) where
  -- The round that takes the message `take n s` off `s`.
  pub record GoesOn (o : OBuffer) (s : Bytes) (n : ℕ) : Type 0 where
    pub after : OBuffer
    pub step : read_package mem o ≡ packed (take n s) after
    pub behind : o_unread mem after ≡ drop n s
    pub valid : OValid mem after

  pub goes_on :
      {s : Bytes} (n : ℕ)
      → front s ≡ message n
      → (o : OBuffer) → OValid mem o
      → o_unread mem o ≡ s
      → GoesOn o s n
  goes_on {s} n h o v e =
      let (o', step, behind, v') = read_package-packed mem o v n (ap front e ∙ h) in
      record {
        after = o';
        step = step ∙ ap (λ t. packed (take n t) o') e;
        behind = behind ∙ ap (λ t. drop n t) e;
        valid = v';
      }

module _ {W : Type 0} (handle : W → Bytes → W) (mem : Bytes) where
  -- If the unread bytes are cut into messages with a rest left over, the loop with more fuel than
  -- messages handles them in order and stops with the rest unread.
  pub recv_loop-left :
      {s : Bytes} {ms : List Bytes} {r : Bytes}
      → Cuts s ms (left r)
      → (fuel : ℕ) (o : OBuffer) (w : W) → OValid mem o
      → o_unread mem o ≡ s
      → length ms < fuel
      → (o' : OBuffer) × (recv_loop handle fuel mem o w ≡ drained o' (handle_all handle w ms))
        × (o_unread mem o' ≡ r)
        × OValid mem o'
  unfolding recv_loop handle_all
  recv_loop-left c zero o w v e k = absurd (omega arith)
  recv_loop-left (rest h) (suc fuel) o w v e k =
      (o, rw (read_package-wait mem o v (ap front e ∙ h), recv_loop), e, v)
  recv_loop-left (next {s} n h p c) (suc fuel) o w v e k =
      let g = goes_on mem n h o v e in
      let (o', runs, left_over, v') =
        recv_loop-left c fuel g.after (handle w (package_of (take n s))) g.valid g.behind
          (omega arith) in
      (o', rw (g.step, recv_loop) runs, left_over, v')

  pub recv_loop-refused :
      {s : Bytes} {ms : List Bytes}
      → Cuts s ms refused
      → (fuel : ℕ) (o : OBuffer) (w : W) → OValid mem o
      → o_unread mem o ≡ s
      → length ms < fuel
      → (o' : OBuffer) × (recv_loop handle fuel mem o w ≡ oversized o' (handle_all handle w ms))
  unfolding recv_loop handle_all
  recv_loop-refused c zero o w v e k = absurd (omega arith)
  recv_loop-refused (refuse h) (suc fuel) o w v e k =
      (record o { pos = o.pos + 2 }, rw (read_package-oversize mem o v (ap front e ∙ h), recv_loop))
  recv_loop-refused (next {s} n h p c) (suc fuel) o w v e k =
      let g = goes_on mem n h o v e in
      let (o', runs) =
        recv_loop-refused c fuel g.after (handle w (package_of (take n s))) g.valid g.behind
          (omega arith) in
      (o', rw (g.step, recv_loop) runs)

  -- At a message of length 0 the loop never ends: no fuel is enough.
  pub recv_loop-stuck :
      (fuel : ℕ) {s : Bytes} {ms : List Bytes}
      → Cuts s ms stuck
      → (o : OBuffer) (w : W) → OValid mem o
      → o_unread mem o ≡ s
      → recv_loop handle fuel mem o w ≡ starved
  unfolding recv_loop
  recv_loop-stuck zero c o w v e = refl
  recv_loop-stuck (suc fuel) (hang {s} h) o w v e =
      let g = goes_on mem 0 h o v e in
      rw (g.step, recv_loop) (recv_loop-stuck fuel (hang {s = s} h) g.after _ g.valid g.behind)
  recv_loop-stuck (suc fuel) (next n h p c) o w v e =
      let g = goes_on mem n h o v e in
      rw (g.step, recv_loop) (recv_loop-stuck fuel c g.after _ g.valid g.behind)

-- What is left over is less than a message.
pub Cuts-left_front :
    {s : Bytes} {ms : List Bytes} {r : Bytes} → Cuts s ms (left r) → front r ≡ partial
Cuts-left_front (rest h) = h
Cuts-left_front (next n h p c) = Cuts-left_front c
