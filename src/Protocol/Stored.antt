-- ===== src/Protocol/Stored.antt =====
-- Fields that are stored one behind another.
use select_mode_network.Base.{
  ℕ, ◌+◌, ◌-◌, ◌≤◌, ◌≡◌, refl, sym, ap, ◌∙◌, Option, none, some, List, [], ◌∷◌, ◌++◌, arith, length,
  take, drop, read_at, write_at, length-write_at, take-append, take-take, drop-append_length,
  take-append_length, length-take, le→leb,
}
use select_mode_network.Base.Arrays.{drop-take}
use select_mode_network.Buffer.Data.{Bytes}
use select_mode_network.Protocol.Messages.{Field, put_field, put_fields}

-- The fields follow one another from `lo` on, fit their arrays, and end at `n` at the latest.
abbrev pub Laid : ℕ → ℕ → List Field → Type 0
Laid lo n [] = lo ≤ n
Laid lo n (f ∷ fs) = (lo ≤ f.pos) × (length f.bytes ≤ f.cap) × Laid (f.pos + length f.bytes) n fs

abbrev pub AllStored : Bytes → List Field → Type 0
AllStored mem [] = Unit {0}
AllStored mem (f ∷ fs) = (read_at mem f.pos (length f.bytes) ≡ f.bytes) × AllStored mem fs

Laid-bound : (lo n : ℕ) (fs : List Field) → Laid lo n fs → lo ≤ n
Laid-bound lo n [] l = l
Laid-bound lo n (f ∷ fs) l =
    let b = Laid-bound (f.pos + length f.bytes) n fs l.2 in omega (arith, l.0)

module _ (mem : Bytes) (pos : ℕ) (src : Bytes) (fits : pos + length src ≤ length mem) where
  -- What stands before the place of a write stays.
  take-write_at : (k : ℕ) → k ≤ pos → take k (write_at mem pos src) ≡ take k mem
  take-write_at k h =
      take-append k (take pos mem) (src ++ drop (pos + length src) mem)
        (omega (arith, length-take pos mem))
      ∙ take-take k pos mem h

  read_at-write_at : read_at (write_at mem pos src) pos (length src) ≡ src
  read_at-write_at =
      ap (λ t. take (length src) t)
        (drop-append_length pos (take pos mem) (src ++ drop (pos + length src) mem)
          (omega (arith, length-take pos mem)))
      ∙ take-append_length (length src) src (drop (pos + length src) mem) refl

-- Two memories with the same front have the same piece in it.
read_at-front :
    (a b : Bytes) (pos len : ℕ)
    → take (pos + len) a ≡ take (pos + len) b
    → read_at a pos len ≡ read_at b pos len
read_at-front a b pos len e = piece a ∙ ap (λ t. drop pos t) e ∙ sym (piece b)
  where
    piece : (a : Bytes) → read_at a pos len ≡ drop pos (take (pos + len) a)
    piece a =
        ap (λ k. take k (drop pos a)) {x = len} {y = pos + len - pos} (omega arith)
        ∙ sym (drop-take pos (pos + len) a)

put_field-fits :
    (f : Field) (mem : Bytes)
    → length f.bytes ≤ f.cap
    → put_field f mem ≡ some (write_at mem f.pos f.bytes)
unfolding put_field
put_field-fits f mem h = rw (le→leb (length f.bytes) f.cap h) refl

put_fields-step :
    (f : Field) (fs : List Field) (mem : Bytes)
    → length f.bytes ≤ f.cap
    → put_fields (f ∷ fs) mem ≡ put_fields fs (write_at mem f.pos f.bytes)
unfolding put_fields
put_fields-step f fs mem h =
    ap (λ t. elim t as (λ x. Option Bytes) [ none ↦ none | some mem' ↦ put_fields fs mem' ])
      (put_field-fits f mem h)

-- All the fields are stored, and what stands before them stays.
pub put_fields-AllStored :
    (fs : List Field) (lo n : ℕ) (mem : Bytes)
    → length mem ≡ n
    → Laid lo n fs
    → (mem' : Bytes) × (put_fields fs mem ≡ some mem')
      × (length mem' ≡ n)
      × (take lo mem' ≡ take lo mem)
      × AllStored mem' fs
unfolding put_fields
put_fields-AllStored [] lo n mem e l = (mem, refl, e, refl, tt)
put_fields-AllStored (f ∷ fs) lo n mem e l =
    let end = f.pos + length f.bytes in
    let bound : end ≤ length mem = omega (arith, Laid-bound end n fs l.2) in
    let mem1 = write_at mem f.pos f.bytes in
    let (mem', g, size, same, stored) =
      put_fields-AllStored fs end n mem1 (length-write_at mem f.pos f.bytes bound ∙ e) l.2 in
    (
      mem',
      put_fields-step f fs mem l.1 ∙ g,
      size,
      sym (take-take lo end mem' (omega (arith, l.0)))
          ∙ ap (λ t. take lo t) same
          ∙ take-take lo end mem1 (omega (arith, l.0))
          ∙ take-write_at mem f.pos f.bytes bound lo l.0,
      (
        read_at-front mem' mem1 f.pos (length f.bytes) same
            ∙ read_at-write_at mem f.pos f.bytes bound,
        stored,
      ),
    )
