-- ===== src/EasyTcp/Parts.antt =====
-- A stream of messages that is cut into pieces, and what a call of `RecvData` has of it.
use mathlib.Core.List.{flatten}
use select_mode_network.Base.{
  ℕ, ◌+◌, ◌≤◌, ◌<◌, ◌≡◌, refl, ap, sym, subst, ◌∙◌, List, [], ◌∷◌, ◌++◌, arith, append_assoc,
  length, take, drop, length-append, dec_lt, drop-append, take-append, drop-append_length,
  take-append_length, take-append-drop,
}
use select_mode_network.Base.Int.{ℤ, pos_part}
use select_mode_network.Buffer.Data.{Bytes}
use select_mode_network.EasyTcp.Header.{header_size, data_length_of}
use select_mode_network.EasyTcp.Split.{
  Message, Messages, Waits, no_header, no_body, data_length_of-append,
}
use select_mode_network.EasyTcp.Loop.{Apart}

-- A front part of less than a message is less than a message.
Waits-front : (s t : Bytes) → Waits (s ++ t) → Waits s
Waits-front s t w = elim (dec_lt (length s) header_size) [
  | yes h ↦ no_header h
  | no h ↦ go (s ++ t) refl w
]
  where
    go : (u : Bytes) → s ++ t ≡ u → Waits u → Waits s
    go u e (no_header k) = no_header (omega (arith, ap length e, length-append s t))
    go u e (no_body n k f l) = elim (dec_lt (length s) header_size) [
      | yes h ↦ no_header h
      | no h ↦
          no_body n (omega arith)
            (sym (data_length_of-append s t (omega arith)) ∙ ap data_length_of e ∙ f)
            (omega (arith, ap length e, length-append s t))
    ]

-- So is a front part of a message.
Waits-part : (s t m : Bytes) → s ++ t ≡ m → length s < length m → Message m → Waits s
Waits-part s t m e less h = elim (dec_lt (length s) header_size) [
  | yes short ↦ no_header short
  | no long ↦
      no_body (length m) (omega arith)
        (sym (data_length_of-append s t (omega arith)) ∙ ap data_length_of e ∙ h.says) less
]

-- The two parts of a stream.
pub record Parts (s t : Bytes) (ms : List Bytes) (r : Bytes) : Type 0 where
  pub before : List Bytes
  pub after : List Bytes
  pub middle : Bytes
  pub front : s ≡ flatten before ++ middle
  pub back : middle ++ t ≡ flatten after ++ r
  pub all : ms ≡ before ++ after
  pub waits : Waits middle
  pub good_before : Messages before
  pub good_after : Messages after

pub Messages-split :
    (ms : List Bytes) (s t r : Bytes)
    → s ++ t ≡ flatten ms ++ r
    → Messages ms
    → Waits r
    → Parts s t ms r
unfolding flatten
Messages-split [] s t r e good w = record {
  before = [];
  after = [];
  middle = s;
  front = refl;
  back = e;
  all = refl;
  waits = Waits-front s t (subst (λ u. Waits u) (sym e) w);
  good_before = tt;
  good_after = tt;
}
Messages-split (m ∷ ms) s t r e good w = elim (dec_lt (length s) (length m)) [
  | yes less ↦
      let inside : s ++ drop (length s) m ≡ m =
        ap (λ u. u ++ drop (length s) m)
          (sym (take-append_length (length s) s t refl)
            ∙ ap (λ u. take (length s) u) (e ∙ append_assoc m (flatten ms) r)
            ∙ take-append (length s) m (flatten ms ++ r) (omega arith))
        ∙ take-append-drop (length s) m in
      record {
        before = [];
        after = m ∷ ms;
        middle = s;
        front = refl;
        back = e;
        all = refl;
        waits = Waits-part s (drop (length s) m) m inside less good.0;
        good_before = tt;
        good_after = good;
      }
  | no more ↦
      let n = length m in
      let begins : take n s ≡ m =
        sym (take-append n s t (omega arith))
        ∙ ap (λ u. take n u) (e ∙ append_assoc m (flatten ms) r)
        ∙ take-append_length n m (flatten ms ++ r) refl in
      let goes_on : drop n s ++ t ≡ flatten ms ++ r =
        sym (drop-append n s t (omega arith))
        ∙ ap (λ u. drop n u) (e ∙ append_assoc m (flatten ms) r)
        ∙ drop-append_length n m (flatten ms ++ r) refl in
      let p = Messages-split ms (drop n s) t r goes_on good.1 w in
      record {
        before = m ∷ p.before;
        after = p.after;
        middle = p.middle;
        front =
            sym (take-append-drop n s)
            ∙ ap (λ u. u ++ drop n s) begins
            ∙ ap (λ u. m ++ u) p.front
            ∙ sym (append_assoc m (flatten p.before) p.middle);
        back = p.back;
        all = ap (λ u. m ∷ u) p.all;
        waits = p.waits;
        good_before = (good.0, p.good_before);
        good_after = p.good_after;
      }
]

-- What is less than a message does not begin with one.
pub Waits-Message : (m t s : Bytes) → m ++ t ≡ s → Message m → Waits s → ⊥
Waits-Message m t s e h (no_header k) =
    absurd (omega (arith, h.headed, ap length e, length-append m t))
Waits-Message m t s e h (no_body n k f l) =
    let same : ℤ.pos n ≡ ℤ.pos (length m) =
      sym f ∙ ap data_length_of (sym e) ∙ data_length_of-append m t h.headed ∙ h.says in
    absurd (omega (arith, ap pos_part same, ap length e, length-append m t))

pub flatten-length : (ms : List Bytes) → Messages ms → length ms ≤ length (flatten ms)
unfolding flatten
flatten-length [] h = omega arith
flatten-length (m ∷ ms) h =
    omega (arith, flatten-length ms h.1, length-append m (flatten ms), h.0.headed)

-- No message is shorter than `limit`.
abbrev pub AtLeast : ℕ → List Bytes → Type 0
AtLeast limit [] = Unit {0}
AtLeast limit (m ∷ ms) = (limit ≤ length m) × AtLeast limit ms

pub AtLeast-append :
    (limit : ℕ) (xs ys : List Bytes)
    → AtLeast limit (xs ++ ys)
    → AtLeast limit xs × AtLeast limit ys
AtLeast-append limit [] ys h = (tt, h)
AtLeast-append limit (x ∷ xs) ys h =
    let (front, back) = AtLeast-append limit xs ys h.1 in ((h.0, front), back)

Apart-short :
    (limit : ℕ) (ms : List Bytes) (r : Bytes)
    → length (flatten ms ++ r) ≤ limit
    → AtLeast limit ms
    → Apart ms r
unfolding flatten
Apart-short limit [] r small h = tt
Apart-short limit (m ∷ ms) r small h =
    let total : length ((m ++ flatten ms) ++ r) ≡ length m + length (flatten ms ++ r) =
      ap length (append_assoc m (flatten ms) r) ∙ length-append m (flatten ms ++ r) in
    (omega (arith, h.0), Apart-short limit ms r (omega arith) h.1)

-- Behind the first message of what waits and a piece, no more is left than the piece.
left_of_piece : (m u s c : Bytes) → m ++ u ≡ s ++ c → Message m → Waits s → length u ≤ length c
left_of_piece m u s c e h w = elim (dec_lt (length s) (length m)) [
  | yes less ↦ omega (arith, ap length e, length-append m u, length-append s c)
  | no more ↦
      let n = length m in
      let begins : take n s ≡ m =
        sym (take-append n s c (omega arith))
        ∙ ap (λ x. take n x) (sym e)
        ∙ take-append_length n m u refl in
      absurd (
        Waits-Message m (drop n s) s (ap (λ x. x ++ drop n s) (sym begins) ∙ take-append-drop n s) h
          w)
]

-- So `memcpy` copies apart if no piece is longer than a message.
pub piece-Apart :
    (limit : ℕ) (s c : Bytes) (ms : List Bytes) (r : Bytes)
    → s ++ c ≡ flatten ms ++ r
    → Waits s
    → length c ≤ limit
    → Messages ms
    → AtLeast limit ms
    → Apart ms r
unfolding flatten
piece-Apart limit s c [] r e w small good h = tt
piece-Apart limit s c (m ∷ ms) r e w small good h =
    let left =
      left_of_piece m (flatten ms ++ r) s c (sym (append_assoc m (flatten ms) r) ∙ sym e) good.0
        w in
    (omega (arith, left, small, h.0), Apart-short limit ms r (omega (arith, left)) h.1)
