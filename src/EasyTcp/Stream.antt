-- ===== src/EasyTcp/Stream.antt =====
-- `RecvData` on a stream of messages that arrives in pieces.
use mathlib.Core.List.{flatten}
use select_mode_network.Base.{
  ℕ, suc, ◌+◌, ◌-◌, ◌≤◌, ◌<◌, ◌≡◌, refl, ap, subst, ◌∙◌, Option, some, List, ◌++◌, arith, length,
  le→ltb, lt→leb, write_at,
}
use select_mode_network.Buffer.Data.{Bytes}
use select_mode_network.EasyTcp.MsgBuf.{
  MsgBuf, Memcpy, kept, msg_size, recv_size, split_loop, append_split, recv_data, handle_each,
}
use select_mode_network.EasyTcp.Split.{Holds-length, Messages, Waits, Waits-bound, Holds}
use select_mode_network.EasyTcp.Loop.{
  CopiesApart, Apart, rounds, rounds-length, split_loop-Messages, split_loop-Waits, Holds-append,
}

module _ {W : Type 0} (memcpy : Memcpy) (on_net_msg : W → Bytes → W) (copies : CopiesApart memcpy)
    (fuel : ℕ) (recv : ℕ → Option Bytes) (b : MsgBuf) (w : W) (s chunk : Bytes) (v : Holds b s)
    (waits : Waits s) (got : recv recv_size ≡ some chunk) (some_bytes : 0 < length chunk)
    (fits : length chunk ≤ recv_size) where
  abbrev appended : MsgBuf
  appended = record {
    bytes = write_at b.bytes b.last_pos chunk;
    last_pos = b.last_pos + length chunk;
  }

  appended-Holds : Holds appended (s ++ chunk)
  appended-Holds = Holds-append b s chunk v (omega (arith, Waits-bound s waits))

  -- What waits and what `recv` brings has room in the buffer.
  goes_on : recv_data memcpy on_net_msg fuel recv b w ≡ split_loop memcpy on_net_msg fuel appended w
  unfolding recv_data append_split
  goes_on =
      rw
        (
          got,
          lt→leb (length chunk) 0 some_bytes,
          le→ltb msg_size (b.last_pos + length chunk)
              (omega (arith, Waits-bound s waits, Holds-length b s v)),
          recv_data,
          append_split,
        )
        refl

  module _ (ms : List Bytes) (r : Bytes) (e : s ++ chunk ≡ flatten ms ++ r) (good : Messages ms)
      (apart : Apart ms r) where
    abbrev left : ℕ
    left = fuel - length ms - 1

    passes :
        length ms < fuel
        → (b' : MsgBuf) × (recv_data memcpy on_net_msg fuel recv b w
            ≡ split_loop memcpy on_net_msg (suc left) b' (handle_each on_net_msg w ms))
          × Holds b' r
    passes h =
        let total : fuel ≡ rounds ms (suc left) = omega (arith, rounds-length ms (suc left)) in
        let (b', runs, v') =
          split_loop-Messages memcpy on_net_msg copies ms (suc left) appended w r
            (subst (λ t. Holds appended t) e appended-Holds) good apart in
        (b', goes_on ∙ ap (λ k. split_loop memcpy on_net_msg k appended w) total ∙ runs, v')

    -- If what waits in the buffer, followed by the received bytes, is a list of messages and less
    -- than a message, and no copy overlaps, the call handles the messages in order and keeps the rest.
    pub recv_data-Holds :
        Waits r
        → length ms < fuel
        → (b' : MsgBuf) × (recv_data memcpy on_net_msg fuel recv b w
            ≡ kept b' (handle_each on_net_msg w ms))
          × Holds b' r
    recv_data-Holds rest h =
        let (b', runs, v') = passes h in
        (b', runs ∙ split_loop-Waits memcpy on_net_msg copies left b' _ r v' rest, v')
