-- ===== src/EasyTcp/Split.antt =====
-- The messages of a stream, and what the loop of `RecvData` makes of them.
use select_mode_network.Base.{
  ℕ, zero, suc, ◌+◌, ◌-◌, ◌*◌, ◌≤◌, ◌<◌, ◌≡◌, refl, ap, ap₂, sym, ◌∙◌, List, [], ◌∷◌, ◌++◌, arith,
  length, take, drop, get_or, read_at, write_at, length-append, length-write_at, drop-append_length,
  length-take, if◌then◌else◌, ltb, take-append-drop,
}
use select_mode_network.Base.Arrays.{read_at-write_at_front, length-read_at, drop-take}
use select_mode_network.Base.Int.{ℤ}
use select_mode_network.Buffer.Data.{Bytes, ushort_of}
use select_mode_network.EasyTcp.Header.{header_size, short_of, data_length_of}
use select_mode_network.EasyTcp.MsgBuf.{MsgBuf, msg_size}

-- A message says its own length, and is no shorter than a header.
pub record Message (m : Bytes) : Type 0 where
  pub headed : header_size ≤ length m
  pub says : data_length_of m ≡ ℤ.pos (length m)

abbrev pub Messages : List Bytes → Type 0
Messages [] = Unit {0}
Messages (m ∷ ms) = Message m × Messages ms

-- Less than a message.
pub data Waits (r : Bytes) : Type 0 where
  no_header : length r < header_size → Waits r
  no_body : (n : ℕ) → header_size ≤ length r → data_length_of r ≡ ℤ.pos n → length r < n → Waits r

-- The length field is in the first two bytes.
get_or-front : (s t : Bytes) (i : ℕ) → i < length s → get_or (s ++ t) i 0 ≡ get_or s i 0
get_or-front [] t i h = absurd (omega arith)
get_or-front (x ∷ s) t zero h = refl
get_or-front (x ∷ s) t (suc i) h = get_or-front s t i (omega arith)

pub data_length_of-append :
    (s t : Bytes) → header_size ≤ length s → data_length_of (s ++ t) ≡ data_length_of s
unfolding data_length_of short_of ushort_of
data_length_of-append s t h =
    ap₂ (λ a b. let n = a + 256 * b in if ltb n 32768 then ℤ.pos n else ℤ.negsuc (65535 - n))
      (get_or-front s t 0 (omega arith)) (get_or-front s t 1 (omega arith))

-- A length is below 2^15.
pub data_length_of-bound : (s : Bytes) (n : ℕ) → data_length_of s ≡ ℤ.pos n → n < 32768
unfolding data_length_of short_of
data_length_of-bound s n h = ground arith

pub Waits-bound : (r : Bytes) → Waits r → length r < 32768
Waits-bound r (no_header h) = omega arith
Waits-bound r (no_body n h e k) = omega (arith, data_length_of-bound r n e)

-- What is in the buffer.
abbrev pub content : MsgBuf → Bytes
content b = take b.last_pos b.bytes

pub record Holds (b : MsgBuf) (s : Bytes) : Type 0 where
  pub array : length b.bytes ≡ msg_size
  pub within : b.last_pos ≤ msg_size
  pub same : content b ≡ s

pub Holds-length : (b : MsgBuf) (s : Bytes) → Holds b s → length s ≡ b.last_pos
Holds-length b s v =
    omega (arith, ap length v.same, length-take b.last_pos b.bytes, v.array, v.within)

-- The bytes of the array are the content and something behind it.
pub Holds-whole : (b : MsgBuf) (s : Bytes) → Holds b s → b.bytes ≡ s ++ drop b.last_pos b.bytes
Holds-whole b s v =
    sym (take-append-drop b.last_pos b.bytes) ∙ ap (λ t. t ++ drop b.last_pos b.bytes) v.same

pub Holds-data_length_of :
    (b : MsgBuf) (s : Bytes)
    → Holds b s
    → header_size ≤ length s
    → data_length_of b.bytes ≡ data_length_of s
Holds-data_length_of b s v h =
    ap data_length_of (Holds-whole b s v) ∙ data_length_of-append s (drop b.last_pos b.bytes) h

-- The buffer without its first `n` bytes.
abbrev pub cut_off : MsgBuf → ℕ → MsgBuf
cut_off b n = record {
  bytes = write_at b.bytes 0 (read_at b.bytes n (b.last_pos - n));
  last_pos = b.last_pos - n;
}

pub Holds-cut_off : (b : MsgBuf) (m t : Bytes) → Holds b (m ++ t) → Holds (cut_off b (length m)) t
Holds-cut_off b m t v =
    let n = length m in
    let total = Holds-length b (m ++ t) v in
    let piece = read_at b.bytes n (b.last_pos - n) in
    let sized : length piece ≡ b.last_pos - n =
      length-read_at b.bytes n (b.last_pos - n)
        (omega (arith, length-append m t, v.array, v.within)) in
    record {
      array = length-write_at b.bytes 0 piece (omega (arith, v.array, v.within)) ∙ v.array;
      within = omega (arith, v.within);
      same =
          read_at-write_at_front b.bytes piece (b.last_pos - n) (sym sized)
          ∙ sym (drop-take n b.last_pos b.bytes)
          ∙ ap (λ s. drop n s) v.same
          ∙ drop-append_length n m t refl;
    }
