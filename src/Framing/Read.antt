-- ===== src/Framing/Read.antt =====
-- One round of the receive loops finds what stands at the front of the unread bytes.
use select_mode_network.Base.{
  ℕ, zero, suc, ◌+◌, ◌*◌, ◌-◌, ◌≤◌, ◌<◌, ◌≡◌, refl, ap, ap₂, sym, ◌∙◌, some, arith, ltb, le→ltb,
  false, [], ◌∷◌, get_or, take, drop, drop-append_length, take-append_length,
}
use select_mode_network.Base.Int.{ℤ, ltb_ℤ, ◌+ℤ◌}
use select_mode_network.Buffer.Data.{Bytes, ushort_of}
use select_mode_network.Buffer.OBuffer
use select_mode_network.Buffer.OBuffer.{OBuffer}
use select_mode_network.Buffer.Unread.{OValid, o_unread, length-o_unread, o_read_bytes_lem}
use select_mode_network.Protocol.{package_max_size, head_size}
use select_mode_network.Framing.Step.{wait, oversize, packed, read_package}
use select_mode_network.Framing.Cuts.{partial, too_long, message, front, front_bounds}

get_or-take : (xs : Bytes) (i n d : ℕ) → i < n → get_or (take n xs) i d ≡ get_or xs i d
get_or-take xs i zero d h = elim h [ ]
get_or-take [] i (suc n) d h = refl
get_or-take (x ∷ xs) zero (suc n) d h = refl
get_or-take (x ∷ xs) (suc i) (suc n) d h = get_or-take xs i n d (omega arith)

ushort_of-take : (xs : Bytes) (n : ℕ) → 2 ≤ n → ushort_of xs ≡ ushort_of (take n xs)
unfolding ushort_of
ushort_of-take xs n h =
    ap₂ (λ a b. a + 256 * b) (sym (get_or-take xs 0 n 0 (omega arith)))
      (sym (get_or-take xs 1 n 0 (omega arith)))

module _ (mem : Bytes) (o : OBuffer) (v : OValid mem o) where
  can_read_lem : OBuffer.can_read o ≡ ℤ.pos (o.end - o.pos)
  unfolding OBuffer.can_read
  can_read_lem = ground arith

  read_head :
      2 ≤ o.end - o.pos
      → OBuffer.read_ushort mem o ≡ some (ushort_of (o_unread mem o), record o { pos = o.pos + 2 })
  unfolding OBuffer.read_ushort
  read_head h = ground (arith, ushort_of-take (drop o.pos mem) (o.end - o.pos) h)

  step_back : OBuffer.move_read_pos (ℤ.negsuc 1) (record o { pos = o.pos + 2 }) ≡ some o
  unfolding OBuffer.move_read_pos ◌+ℤ◌
  step_back = ground arith

  -- Less than a message: the loop stops, and the cursor is where it was.
  pub read_package-wait : front (o_unread mem o) ≡ partial → read_package mem o ≡ wait o
  unfolding front read_package
  read_package-wait h = ground (arith, can_read_lem, length-o_unread mem o v, read_head, step_back)

  pub read_package-oversize :
      front (o_unread mem o) ≡ too_long
      → read_package mem o ≡ oversize (record o { pos = o.pos + 2 })
  unfolding front read_package
  read_package-oversize h = ground (arith, can_read_lem, length-o_unread mem o v, read_head)

  read_package-read :
      (n : ℕ) (out : Bytes) (o' : OBuffer)
      → front (o_unread mem o) ≡ message n
      → OBuffer.read_bytes mem o n ≡ some (out, o')
      → read_package mem o ≡ packed out o'
  unfolding read_package
  read_package-read n out o' h e =
      let (same, within, small, head) = front_bounds (o_unread mem o) n h in
      let u = ushort_of (o_unread mem o) in
      let len = length-o_unread mem o v in
      let wide : ltb (o.end - o.pos) head_size ≡ false = le→ltb _ _ (omega arith) in
      let small' : ltb package_max_size u ≡ false = le→ltb _ _ (omega arith) in
      let there : ltb_ℤ (ℤ.pos (o.end - o.pos)) (ℤ.pos u) ≡ false = le→ltb _ _ (omega arith) in
      let e' : OBuffer.read_bytes mem o u ≡ some (out, o') = rw (← same) e in
      rw (can_read_lem, wide, read_head (omega arith), small', step_back, can_read_lem, there, e')

  -- A message: its bytes are taken off the front of what is unread.
  pub read_package-packed :
      (n : ℕ)
      → front (o_unread mem o) ≡ message n
      → (o' : OBuffer) × (read_package mem o ≡ packed (take n (o_unread mem o)) o')
        × (o_unread mem o' ≡ drop n (o_unread mem o))
        × OValid mem o'
  read_package-packed n h =
      let bounds = front_bounds (o_unread mem o) n h in
      let (out, o', e, split, size, v', _, _, _) =
        o_read_bytes_lem mem o v n (omega (arith, length-o_unread mem o v)) in
      let taken : take n (o_unread mem o) ≡ out =
        ap (λ t. take n t) split ∙ take-append_length n out _ (sym size) in
      let rest : drop n (o_unread mem o) ≡ o_unread mem o' =
        ap (λ t. drop n t) split ∙ drop-append_length n out _ (sym size) in
      (o', read_package-read n out o' h e ∙ ap (λ t. packed t o') (sym taken), sym rest, v')
