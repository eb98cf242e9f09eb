-- ===== src/Protocol/Cutting.antt =====
-- The messages of CommonLib/Msg.h as they are sent.
use select_mode_network.Base.{
  ℕ, ◌+◌, ◌≤◌, ◌<◌, ◌≡◌, refl, subst, sym, ap, ◌∙◌, Option, some, [], ◌∷◌, ◌++◌, arith, length,
  take, drop, length-append, length-take, length-write_at, take-take, take-all, drop-all,
  take-append_length,
}
use select_mode_network.Buffer.Data.{Bytes, ushort_of, ushort_bytes, ushort_of-ushort_bytes}
use select_mode_network.Protocol.Sizes.{package_max_size}
use select_mode_network.Protocol.Messages.{
  Msg, size_of, size_field, id_field, code_field, fields, text_field, put_head, construct,
}
use select_mode_network.Protocol.Stored.{Laid, AllStored, put_fields-AllStored}
use select_mode_network.Framing.Cuts.{Cuts, next, rest, front, left, message, partial}

abbrev pub head_bytes : ℕ → ℕ → ℕ → Bytes
head_bytes size id code = ushort_bytes size ++ (ushort_bytes id ++ ushort_bytes code)

length-head_bytes : (size id code : ℕ) → length (head_bytes size id code) ≡ 6
unfolding ushort_bytes
length-head_bytes size id code = refl

put_head-front :
    (size id code : ℕ) (mem : Bytes) → take 6 (put_head size id code mem) ≡ head_bytes size id code
unfolding put_head
put_head-front size id code mem =
    take-append_length 6 (head_bytes size id code) (drop (0 + length (head_bytes size id code)) mem)
      (sym (length-head_bytes size id code))

length-put_head :
    (size id code : ℕ) (mem : Bytes)
    → 6 ≤ length mem
    → length (put_head size id code mem) ≡ length mem
unfolding put_head
length-put_head size id code mem h =
    length-write_at mem 0 (head_bytes size id code) (omega (arith, length-head_bytes size id code))

ushort_of-take : (s : Bytes) → ushort_of (take 6 s) ≡ ushort_of s
unfolding ushort_of
ushort_of-take [] = refl
ushort_of-take (x ∷ []) = refl
ushort_of-take (x ∷ (y ∷ s)) = refl

front-whole :
    (s : Bytes) (n : ℕ)
    → length s ≡ n
    → 6 ≤ n
    → n ≤ package_max_size
    → ushort_of s ≡ n
    → front s ≡ message n
unfolding front
front-whole s n e low high says = ground arith

front-empty : front [] ≡ partial
unfolding front
front-empty = refl

-- A text of the length that its first field says is one message.
one_message :
    (s : Bytes) (n : ℕ)
    → length s ≡ n
    → 6 ≤ n
    → n ≤ package_max_size
    → ushort_of s ≡ n
    → Cuts s (s ∷ []) (left [])
one_message s n e low high says =
    let nothing_left = drop-all n s (omega arith) in
    subst (λ t. Cuts s (t ∷ []) (left [])) (take-all n s (omega arith))
      (next n (front-whole s n e low high says) (omega arith)
        (subst (λ t. Cuts t [] (left [])) (sym nothing_left) (rest front-empty)))

-- The texts fit the arrays of the class.
abbrev pub Fits : Msg → Type 0
Fits (Msg.broadcast str) = length str < 256
Fits (Msg.new_client_login id) = length id < 256
Fits (Msg.login_req id psw) = (length id < 256) × (length psw < 256)
Fits (Msg.login_resp id psw) = (length id < 256) × (length psw < 256)
Fits (Msg.logout_req id) = length id < 256
Fits (Msg.info age name) = length name < 128
Fits (Msg.unknow str) = length str < 128
Fits m = Unit {0}

two_texts-Laid :
    (s t : Bytes)
    → length s < 256
    → length t < 256
    → Laid 6 518 (text_field 6 256 s ∷ (text_field 262 256 t ∷ []))
two_texts-Laid s t h k = (
  omega arith,
  omega (arith, length-append s (0 ∷ [])),
  (
    omega (arith, length-append s (0 ∷ [])),
    omega (arith, length-append t (0 ∷ [])),
    omega (arith, length-append t (0 ∷ [])),
  ),
)

fields-Laid : (m : Msg) → Fits m → Laid 6 (size_of m) (fields m)
fields-Laid (Msg.head id code) h = omega arith
fields-Laid (Msg.broadcast s) h =
    (omega arith, omega (arith, length-append s (0 ∷ [])), omega (arith, length-append s (0 ∷ [])))
fields-Laid (Msg.new_client_login s) h =
    (omega arith, omega (arith, length-append s (0 ∷ [])), omega (arith, length-append s (0 ∷ [])))
fields-Laid (Msg.logout_req s) h =
    (omega arith, omega (arith, length-append s (0 ∷ [])), omega (arith, length-append s (0 ∷ [])))
fields-Laid (Msg.unknow s) h =
    (omega arith, omega (arith, length-append s (0 ∷ [])), omega (arith, length-append s (0 ∷ [])))
fields-Laid (Msg.new_client_connect n) h = (omega arith, omega arith, omega arith)
fields-Laid (Msg.login_req s t) h = two_texts-Laid s t h.0 h.1
fields-Laid (Msg.login_resp s t) h = two_texts-Laid s t h.0 h.1
fields-Laid Msg.logout_resp h = omega arith
fields-Laid (Msg.info n s) h = (
  omega arith,
  omega arith,
  (omega arith, omega (arith, length-append s (0 ∷ [])), omega (arith, length-append s (0 ∷ []))),
)

-- The size in the head is that of the head at least, and of the object at most.
size_bounds :
    (m : Msg)
    → Fits m
    → (6 ≤ size_field m) × (size_field m ≤ size_of m) × (size_of m ≤ package_max_size)
size_bounds (Msg.head id code) h = (omega arith, omega arith, omega arith)
size_bounds (Msg.broadcast s) h = (omega arith, omega arith, omega arith)
size_bounds (Msg.new_client_login s) h = (omega arith, omega arith, omega arith)
size_bounds (Msg.new_client_connect n) h = (omega arith, omega arith, omega arith)
size_bounds (Msg.login_req s t) h = (omega arith, omega arith, omega arith)
size_bounds (Msg.login_resp s t) h = (omega arith, omega arith, omega arith)
size_bounds Msg.logout_resp h = (omega arith, omega arith, omega arith)
size_bounds (Msg.logout_req s) h = (omega arith, omega arith, omega arith)
size_bounds (Msg.info n s) h = (omega arith, omega arith, omega arith)
size_bounds (Msg.unknow s) h = (omega arith, omega arith, omega arith)

-- What a constructor leaves in memory.
pub record Made (m : Msg) (r : Option Bytes) : Type 0 where
  pub bytes : Bytes
  pub made : r ≡ some bytes
  pub sized : length bytes ≡ size_of m
  pub headed : take 6 bytes ≡ head_bytes (size_field m) (id_field m) (code_field m)
  pub stored : AllStored bytes (fields m)
  pub sent : Cuts (take (size_field m) bytes) (take (size_field m) bytes ∷ []) (left [])

-- The constructors of the message classes, with texts that fit their arrays: the head has the size,
-- the identifier and the code, the arguments stand behind it, and of the object as many bytes as the
-- size says are one message for a receiver.
pub construct-Made :
    (m : Msg) (mem : Bytes) → length mem ≡ size_of m → Fits m → Made m (construct m mem)
unfolding construct
construct-Made m mem e h =
    let (low, high, top) = size_bounds m h in
    let headed = put_head (size_field m) (id_field m) (code_field m) mem in
    let (bytes, made, sized, same, stored) =
      put_fields-AllStored (fields m) 6 (size_of m) headed
        (length-put_head (size_field m) (id_field m) (code_field m) mem (omega arith) ∙ e)
        (fields-Laid m h) in
    let starts = same ∙ put_head-front (size_field m) (id_field m) (code_field m) mem in
    let sent = take (size_field m) bytes in
    record {
      bytes = bytes;
      made = made;
      sized = sized;
      headed = starts;
      stored = stored;
      sent =
          one_message sent (size_field m) (omega (arith, length-take (size_field m) bytes)) low
            (omega arith)
            (sym (ushort_of-take sent)
              ∙ ap ushort_of (take-take 6 (size_field m) bytes low ∙ starts)
              ∙ ushort_of-ushort_bytes (size_field m)
                  (ushort_bytes (id_field m) ++ ushort_bytes (code_field m)) (omega arith));
    }
