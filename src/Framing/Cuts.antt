-- ===== src/Framing/Cuts.antt =====
-- The messages of a byte stream, described with no buffer and no loop.
use select_mode_network.Base.{
  ℕ, zero, suc, ◌≤◌, ◌<◌, ◌≡◌, refl, ap₂, sym, ◌⊎◌, subst, List, [], ◌∷◌, arith, ltb, if◌then◌else◌,
  inl, inr, length, take, drop, length-drop,
}
use select_mode_network.Buffer.Data.{Bytes, ushort_of}
use select_mode_network.Protocol.{package_max_size, head_size}

-- What stands at the front of a stream: less than a message, a length field above the maximum, or
-- a message of so many bytes.
pub data Front : Type 0 where
  partial too_long : Front
  message : ℕ → Front

unfoldable pub front : Bytes → Front
front s =
    if ltb (length s) head_size
    then partial
    else if ltb package_max_size (ushort_of s)
    then too_long
    else if ltb (length s) (ushort_of s)
    then partial
    else message (ushort_of s)

-- How the cutting ends: with bytes left over, at a length above the maximum, or at a message of
-- length 0, which takes no byte off the stream.
pub data End : Type 0 where
  left : Bytes → End
  refused : End
  stuck : End

-- `Cuts s ms e`: the stream `s` is the messages `ms`, and then ends as `e` says.
pub data Cuts : Bytes → List Bytes → End → Type 0 where
  rest : {s : Bytes} → front s ≡ partial → Cuts s [] (left s)
  refuse : {s : Bytes} → front s ≡ too_long → Cuts s [] refused
  hang : {s : Bytes} → front s ≡ message 0 → Cuts s [] stuck
  next :
      {s : Bytes} {ms : List Bytes} {e : End} (n : ℕ)
      → front s ≡ message n
      → 0 < n
      → Cuts (drop n s) ms e
      → Cuts s (take n s ∷ ms) e

-- A message is within the stream, and no longer than the maximum.
pub front_bounds :
    (s : Bytes) (n : ℕ)
    → front s ≡ message n
    → (n ≡ ushort_of s) × (n ≤ length s) × (n ≤ package_max_size) × (head_size ≤ length s)
unfolding front
front_bounds s n h = ground arith

pub partial_bound : (s : Bytes) → front s ≡ partial → length s < package_max_size
unfolding front
partial_bound s h = ground arith

pub Front-cases :
    (f : Front)
    → (f ≡ partial) ⊎ (f ≡ too_long) ⊎ (f ≡ message 0) ⊎ ((n : ℕ) × (f ≡ message n) × (0 < n))
Front-cases partial = inl refl
Front-cases too_long = inr (inl refl)
Front-cases (message zero) = inr (inr (inl refl))
Front-cases (message (suc n)) = inr (inr (inr (suc n, refl, omega arith)))

cut_within : (k : ℕ) (s : Bytes) → length s < k → (ms : List Bytes) × (e : End) × Cuts s ms e
cut_within zero s h = absurd (omega arith)
cut_within (suc k) s h = elim (Front-cases (front s)) [
  | inl e ↦ ([], left s, rest e)
  | inr (inl e) ↦ ([], refused, refuse e)
  | inr (inr (inl e)) ↦ ([], stuck, hang e)
  | inr (inr (inr (n, e, p))) ↦
      let b = front_bounds s n e in
      let (ms, f, c) = cut_within k (drop n s) (omega (arith, length-drop n s)) in
      (take n s ∷ ms, f, next n e p c)
]

-- Every stream is cut in some way.
pub cut : (s : Bytes) → (ms : List Bytes) × (e : End) × Cuts s ms e
cut s = cut_within (suc (length s)) s (omega arith)

message-injective : {f : Front} {m n : ℕ} → f ≡ message m → f ≡ message n → m ≡ n
message-injective h k = ground arith

message_ne : {f : Front} {n : ℕ} → f ≡ message 0 → f ≡ message n → 0 < n → ⊥
message_ne {n} h k p = ground (arith, message-injective h k)

-- A stream is cut in one way only.
pub Cuts-unique :
    {s : Bytes} {ms ms' : List Bytes} {e e' : End}
    → Cuts s ms e
    → Cuts s ms' e'
    → (ms ≡ ms') × (e ≡ e')
Cuts-unique (rest h) (rest k) = (refl, refl)
Cuts-unique (rest h) (refuse k) = cc
Cuts-unique (rest h) (hang k) = cc
Cuts-unique (rest h) (next n k p d) = cc
Cuts-unique (refuse h) (rest k) = cc
Cuts-unique (refuse h) (refuse k) = (refl, refl)
Cuts-unique (refuse h) (hang k) = cc
Cuts-unique (refuse h) (next n k p d) = cc
Cuts-unique (hang h) (rest k) = cc
Cuts-unique (hang h) (refuse k) = cc
Cuts-unique (hang h) (hang k) = (refl, refl)
Cuts-unique (hang h) (next n k p d) = absurd (message_ne h k p)
Cuts-unique (next n h p c) (rest k) = cc
Cuts-unique (next n h p c) (refuse k) = cc
Cuts-unique (next n h p c) (hang k) = absurd (message_ne k h p)
Cuts-unique (next {s} n h p c) (next {ms = ms'} {e = e'} m k q d) =
    let same : m ≡ n = message-injective k h in
    let (x, y) = Cuts-unique c (subst (λ t. Cuts (drop t s) ms' e') same d) in
    (ap₂ (λ (t : ℕ) (u : List Bytes). take t s ∷ u) (sym same) x, y)
