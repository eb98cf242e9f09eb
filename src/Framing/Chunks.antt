-- ===== src/Framing/Chunks.antt =====
-- A stream that arrives in pieces is cut as if it had come at once.
use select_mode_network.Base.{
  ℕ, zero, suc, ◌+◌, ◌*◌, ◌≤◌, ◌<◌, ◌≡◌, refl, ap₂, sym, subst, List, [], ◌∷◌, ◌++◌, arith, length,
  take, drop, length-append, take-append, drop-append, get_or,
}
use select_mode_network.Buffer.Data.{Bytes, ushort_of}
use select_mode_network.Framing.Cuts.{
  too_long, message, front, End, left, refused, stuck, Cuts, rest, refuse, hang, next, front_bounds,
  cut, Cuts-unique,
}

get_or-append : (xs ys : Bytes) (i d : ℕ) → i < length xs → get_or (xs ++ ys) i d ≡ get_or xs i d
get_or-append [] ys i d h = absurd (omega arith)
get_or-append (x ∷ xs) ys zero d h = refl
get_or-append (x ∷ xs) ys (suc i) d h = get_or-append xs ys i d (omega arith)

ushort_of-append : (s t : Bytes) → 2 ≤ length s → ushort_of (s ++ t) ≡ ushort_of s
unfolding ushort_of
ushort_of-append s t h =
    ap₂ (λ a b. a + 256 * b) (get_or-append s t 0 0 (omega arith))
      (get_or-append s t 1 0 (omega arith))

-- What follows does not change a front that is complete.
front-append_message : (s t : Bytes) (n : ℕ) → front s ≡ message n → front (s ++ t) ≡ message n
unfolding front
front-append_message s t n h = ground (arith, length-append s t, ushort_of-append s t)

front-append_too_long : (s t : Bytes) → front s ≡ too_long → front (s ++ t) ≡ too_long
unfolding front
front-append_too_long s t h = ground (arith, length-append s t, ushort_of-append s t)

next-append :
    (a b : Bytes) {ms : List Bytes} {e : End} (n : ℕ)
    → front a ≡ message n
    → 0 < n
    → Cuts (drop n a ++ b) ms e
    → Cuts (a ++ b) (take n a ∷ ms) e
next-append a b {ms} {e} n h p c =
    let within = (front_bounds a n h).1 in
    subst (λ t. Cuts (a ++ b) (t ∷ ms) e) (take-append n a b within)
      (next n (front-append_message a b n h) p
        (subst (λ t. Cuts t ms e) (sym (drop-append n a b within)) c))

-- If a piece is cut with bytes left over, the next piece goes on from these.
pub Cuts-append :
    {a : Bytes} {ms : List Bytes} {r : Bytes} (b : Bytes) {ms' : List Bytes} {e : End}
    → Cuts a ms (left r)
    → Cuts (r ++ b) ms' e
    → Cuts (a ++ b) (ms ++ ms') e
Cuts-append b (rest h) d = d
Cuts-append b (next n h p c) d = next-append _ b n h p (Cuts-append b c d)

refused-append :
    {a : Bytes} {ms : List Bytes} (b : Bytes) → Cuts a ms refused → Cuts (a ++ b) ms refused
refused-append {a} b (refuse h) = refuse (front-append_too_long a b h)
refused-append b (next n h p c) = next-append _ b n h p (refused-append b c)

stuck-append : {a : Bytes} {ms : List Bytes} (b : Bytes) → Cuts a ms stuck → Cuts (a ++ b) ms stuck
stuck-append {a} b (hang h) = hang (front-append_message a b 0 h)
stuck-append b (next n h p c) = next-append _ b n h p (stuck-append b c)

-- The two parts of a stream that is cut with bytes left over.
pub record Parts (a b : Bytes) (ms : List Bytes) (r : Bytes) : Type 0 where
  pub before : List Bytes
  pub kept : Bytes
  pub after : List Bytes
  pub first : Cuts a before (left kept)
  pub second : Cuts (kept ++ b) after (left r)
  pub all : ms ≡ before ++ after

-- A stream that is cut with bytes left over can be fed in two parts, in any division: the first part
-- is cut into a front of the messages, and the bytes that it keeps, with the second part, into the
-- other messages and the bytes left over.
pub Cuts-split :
    {ms : List Bytes} {r : Bytes} (a b : Bytes) → Cuts (a ++ b) ms (left r) → Parts a b ms r
Cuts-split {ms} {r} a b whole = let (before, e, first) = cut a in go before e first
  where
    go : (before : List Bytes) (e : End) → Cuts a before e → Parts a b ms r
    go before (left kept) first =
        let (after, e', second) = cut (kept ++ b) in
        let (x, y) = Cuts-unique whole (Cuts-append b first second) in
        record {
          before = before;
          kept = kept;
          after = after;
          first = first;
          second = subst (λ t. Cuts (kept ++ b) after t) (sym y) second;
          all = x;
        }
    go before refused first = cc (Cuts-unique whole (refused-append b first)).1
    go before stuck first = cc ((Cuts-unique whole (stuck-append b first)).1)
