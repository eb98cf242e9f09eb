-- ===== src/EasyTcp/Loop.antt =====
-- What the loop of `RecvData` makes of a stream of messages, if no copy of `memcpy` overlaps.
use mathlib.Core.List.{flatten}
use select_mode_network.Base.{
  ℕ, suc, ◌+◌, ◌-◌, ◌≤◌, ◌≡◌, refl, ap, subst, ◌∙◌, List, [], ◌∷◌, ◌++◌, arith, append_assoc,
  length, take, read_at, write_at, length-append, length-write_at, take-append, take-append_length,
  lt→ltb, le→ltb, lt→leb, le→leb,
}
use select_mode_network.Base.Arrays.{read_at-write_at_end}
use select_mode_network.Base.Int.{ℤ}
use select_mode_network.Buffer.Data.{Bytes}
use select_mode_network.EasyTcp.Header.{header_size, data_length_of}
use select_mode_network.EasyTcp.MsgBuf.{
  MsgBuf, Memcpy, kept, msg_size, message_at, split_loop, handle_each,
}
use select_mode_network.EasyTcp.Split.{
  Message, Messages, Waits, no_header, no_body, data_length_of-append, Holds, Holds-length,
  Holds-whole, Holds-data_length_of, cut_off, Holds-cut_off,
}

-- As much fuel, and a round for each of the messages.
abbrev pub rounds : List Bytes → ℕ → ℕ
rounds [] fuel = fuel
rounds (m ∷ ms) fuel = suc (rounds ms fuel)

pub rounds-length : (ms : List Bytes) (fuel : ℕ) → rounds ms fuel ≡ length ms + fuel
rounds-length [] fuel = omega arith
rounds-length (m ∷ ms) fuel = omega (arith, rounds-length ms fuel)

-- What C promises of `memcpy`: regions inside the array that do not overlap are copied.
abbrev pub CopiesApart : Memcpy → Type 0
CopiesApart memcpy =
    (a : Bytes) (dst src size : ℕ)
    → dst + size ≤ src
    → src + size ≤ length a
    → memcpy a dst src size ≡ write_at a dst (read_at a src size)

-- Behind each message no more is left than its own length, so that its bytes are copied apart.
abbrev pub Apart : List Bytes → Bytes → Type 0
Apart [] r = Unit {0}
Apart (m ∷ ms) r = (length (flatten ms ++ r) ≤ length m) × Apart ms r

module _ {W : Type 0} (memcpy : Memcpy) (on_net_msg : W → Bytes → W)
    (copies : CopiesApart memcpy) where
  split_loop-Message :
      (fuel : ℕ) (b : MsgBuf) (w : W) (m t : Bytes)
      → Holds b (m ++ t)
      → Message m
      → length t ≤ length m
      → split_loop memcpy on_net_msg (suc fuel) b w
        ≡ split_loop memcpy on_net_msg fuel (cut_off b (length m)) (on_net_msg w m)
  unfolding split_loop message_at
  split_loop-Message fuel b w m t v h less =
      let size : length (m ++ t) ≡ length m + length t = length-append m t in
      let total = Holds-length b (m ++ t) v in
      let e : data_length_of b.bytes ≡ ℤ.pos (length m) =
        Holds-data_length_of b (m ++ t) v (omega (arith, h.headed))
        ∙ data_length_of-append m t h.headed
        ∙ h.says in
      let front : take (length m) b.bytes ≡ m =
        ap (λ s. take (length m) s) (Holds-whole b (m ++ t) v)
        ∙ take-append (length m) (m ++ t) _ (omega arith)
        ∙ take-append_length (length m) m t refl in
      rw
        (
          le→ltb b.last_pos header_size (omega (arith, h.headed)),
          e,
          le→leb (length m) b.last_pos (omega arith),
          le→ltb (length m) header_size h.headed,
          front,
          copies b.bytes 0 (length m) (b.last_pos - length m) (omega arith)
              (omega (arith, v.array, v.within)),
        )
        refl

  -- The loop passes the messages at the front, whatever follows them.
  pub split_loop-Messages :
      (ms : List Bytes) (fuel : ℕ) (b : MsgBuf) (w : W) (t : Bytes)
      → Holds b (flatten ms ++ t)
      → Messages ms
      → Apart ms t
      → (b' : MsgBuf) × (split_loop memcpy on_net_msg (rounds ms fuel) b w
          ≡ split_loop memcpy on_net_msg fuel b' (handle_each on_net_msg w ms))
        × Holds b' t
  unfolding flatten handle_each
  split_loop-Messages [] fuel b w t v h apart = (b, refl, v)
  split_loop-Messages (m ∷ ms) fuel b w t v h apart =
      let v' = subst (λ s. Holds b s) (append_assoc m (flatten ms) t) v in
      let (b', e, v'') =
        split_loop-Messages ms fuel (cut_off b (length m)) (on_net_msg w m) t
          (Holds-cut_off b m (flatten ms ++ t) v') h.1 apart.1 in
      (b', split_loop-Message (rounds ms fuel) b w m (flatten ms ++ t) v' h.0 apart.0 ∙ e, v'')

  -- It stops at less than a message.
  pub split_loop-Waits :
      (fuel : ℕ) (b : MsgBuf) (w : W) (r : Bytes)
      → Holds b r
      → Waits r
      → split_loop memcpy on_net_msg (suc fuel) b w ≡ kept b w
  unfolding split_loop
  split_loop-Waits fuel b w r v (no_header h) =
      rw (lt→ltb b.last_pos header_size (omega (arith, Holds-length b r v))) refl
  split_loop-Waits fuel b w r v (no_body n h e k) =
      let total = Holds-length b r v in
      let e' : data_length_of b.bytes ≡ ℤ.pos n = Holds-data_length_of b r v h ∙ e in
      rw (le→ltb b.last_pos header_size (omega arith), e', lt→leb n b.last_pos (omega arith)) refl

-- The received bytes go behind what is in the buffer.
pub Holds-append :
    (b : MsgBuf) (s chunk : Bytes)
    → Holds b s
    → length s + length chunk ≤ msg_size
    → Holds
        (record { bytes = write_at b.bytes b.last_pos chunk; last_pos = b.last_pos + length chunk })
        (s ++ chunk)
Holds-append b s chunk v fits =
    let total = Holds-length b s v in
    record {
      array = length-write_at b.bytes b.last_pos chunk (omega (arith, v.array)) ∙ v.array;
      within = omega arith;
      same =
          ap (λ n. take n (write_at b.bytes b.last_pos chunk)) (omega arith)
          ∙ read_at-write_at_end b.bytes chunk 0 b.last_pos (omega arith)
              (omega (arith, v.array, v.within))
          ∙ ap (λ n. take n b.bytes ++ chunk) (omega arith)
          ∙ ap (λ t. t ++ chunk) v.same;
    }
