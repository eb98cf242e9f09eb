-- ===== src/Buffer/Fifo.antt =====
-- An `IOBuffer` over a whole history of calls. A client writes, reads and moves the unread bytes to
-- the front in any order.
use select_mode_network.Base.{
  ℕ, dec_lt, ◌-◌, ◌<◌, ◌≡◌, sym, subst, ◌∙◌, ap, Option, none, some, List, [], ◌∷◌, ◌++◌, arith,
  length, take-all, append-nil, append_assoc,
}
use select_mode_network.Buffer.Data.{Bytes}
use select_mode_network.Buffer.IoBuffer
use select_mode_network.Buffer.IoBuffer.{IoBuffer}
use select_mode_network.Buffer.Unread.{
  IoValid, io_unread, io_write_bytes_lem, io_read_bytes_lem, io_move_data_to_front_lem,
}

pub data Op : Type 0 where
  put : Bytes → Op
  get : ℕ → Op
  compact : Op

abbrev pub Outcome : Type 0
Outcome = Option (Bytes × Bytes × IoBuffer)

-- The bytes read come before those of the later calls.
prepend : Bytes → Outcome → Outcome
prepend out none = none
prepend out (some (rest, mem, b)) = some (out ++ rest, mem, b)

-- The bytes read by all the calls, the array and the cursor at the end; `none` if a call fails.
unfoldable pub run : Bytes → IoBuffer → List Op → Outcome
unfolding prepend
run mem b [] = some ([], mem, b)
run mem b (put s ∷ ops) = elim (IoBuffer.write_bytes mem b s (length s)) [
  | none ↦ none
  | some (mem', b') ↦ run mem' b' ops
]
run mem b (get n ∷ ops) = elim (IoBuffer.read_bytes mem b n) [
  | none ↦ none
  | some (out, b') ↦ prepend out (run mem b' ops)
]
run mem b (compact ∷ ops) = let (mem', b') = IoBuffer.move_data_to_front mem b in run mem' b' ops

-- What the calls write, in order.
abbrev pub written : List Op → Bytes
written [] = []
written (put s ∷ ops) = s ++ written ops
written (get n ∷ ops) = written ops
written (compact ∷ ops) = written ops

-- What a history that does not fail leaves: `all` is read, or still unread at the end.
pub data Streams (all : Bytes) : Outcome → Type 0 where
  failed : Streams all none
  finished :
      (out mem : Bytes) (b : IoBuffer)
      → all ≡ out ++ io_unread mem b
      → IoValid mem b
      → Streams all (some (out, mem, b))

prepend-Streams :
    {all : Bytes} {r : Outcome} (out : Bytes) → Streams all r → Streams (out ++ all) (prepend out r)
unfolding prepend
prepend-Streams out failed = failed
prepend-Streams out (finished rest mem b e v) =
    finished (out ++ rest) mem b (ap (λ t. out ++ t) e ∙ sym (append_assoc out rest _)) v

write_failed :
    (mem : Bytes) (b : IoBuffer) (v : IoValid mem b) (s : Bytes) (len : ℕ)
    → b.end - b.write_pos < len
    → IoBuffer.write_bytes mem b s len ≡ none
unfolding IoBuffer.write_bytes
write_failed mem b v s len h = ground arith

read_failed :
    (mem : Bytes) (b : IoBuffer) (v : IoValid mem b) (len : ℕ)
    → b.write_pos - b.read_pos < len
    → IoBuffer.read_bytes mem b len ≡ none
unfolding IoBuffer.read_bytes
read_failed mem b v len h = ground arith

-- Over any history of calls on a cursor inside its array, what was unread followed by what is
-- written is what is read followed by what is left unread, unless a call fails; the cursor stays
-- inside its array.
pub run-Streams :
    (ops : List Op) (mem : Bytes) (b : IoBuffer)
    → IoValid mem b
    → Streams (io_unread mem b ++ written ops) (run mem b ops)
unfolding run
run-Streams [] mem b v = finished [] mem b (append-nil _) v
run-Streams (put s ∷ ops) mem b v = elim (dec_lt (b.end - b.write_pos) (length s)) [
  | yes h ↦ rw (write_failed mem b v s (length s) h, run) failed
  | no h ↦
      let (mem', b', e, same, w, _, _, _, _, _) =
        io_write_bytes_lem mem b v s (length s) (omega arith) (omega arith) in
      let all =
        ap (λ t. t ++ written ops)
          (same ∙ ap (λ t. io_unread mem b ++ t) (take-all _ s (omega arith)))
        ∙ append_assoc (io_unread mem b) s (written ops) in
      rw (e, run) (subst (λ t. Streams t (run mem' b' ops)) all (run-Streams ops mem' b' w))
]
run-Streams (get n ∷ ops) mem b v = elim (dec_lt (b.write_pos - b.read_pos) n) [
  | yes h ↦ rw (read_failed mem b v n h, run) failed
  | no h ↦
      let (out, b', e, same, _, w) = io_read_bytes_lem mem b v n (omega arith) in
      let all = sym (ap (λ t. t ++ written ops) same ∙ append_assoc out _ _) in
      rw (e, run)
        (subst (λ t. Streams t (prepend out (run mem b' ops))) all
          (prepend-Streams out (run-Streams ops mem b' w)))
]
run-Streams (compact ∷ ops) mem b v =
    let moved = io_move_data_to_front_lem mem b v in
    let r = IoBuffer.move_data_to_front mem b in
    subst (λ t. Streams (t ++ written ops) (run r.0 r.1 ops)) moved.same
      (run-Streams ops r.0 r.1 moved.valid)
