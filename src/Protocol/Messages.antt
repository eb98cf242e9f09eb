-- ===== src/Protocol/Messages.antt =====
-- The message classes of CommonLib/Msg.h. An object is the bytes of its memory, laid out as on
-- x86-64, where `SOCKET` and `int` have four bytes. A text is its characters without the 0 at its
-- end. A copy that does not fit its array is `none`.
use select_mode_network.Base.{
  ℕ, ◌+◌, ◌/◌, ◌%◌, Option, none, some, List, [], ◌∷◌, ◌++◌, if◌then◌else◌, leb, length, write_at,
}
use select_mode_network.Buffer.Data.{Bytes, ushort_bytes}

-- `enum MsgID`
pub data MsgId : Type 0 where
  broadcast error info unknow login logout new_client_login new_client_conn test : MsgId

abbrev pub msg_id_code : MsgId → ℕ
msg_id_code MsgId.broadcast = 0
msg_id_code MsgId.error = 1
msg_id_code MsgId.info = 2
msg_id_code MsgId.unknow = 3
msg_id_code MsgId.login = 4
msg_id_code MsgId.logout = 5
msg_id_code MsgId.new_client_login = 6
msg_id_code MsgId.new_client_conn = 7
msg_id_code MsgId.test = 8

-- The classes with the arguments of their constructors.
pub data Msg : Type 0 where
  head : ℕ → ℕ → Msg
  broadcast new_client_login logout_req unknow : Bytes → Msg
  new_client_connect : ℕ → Msg
  login_req login_resp : Bytes → Bytes → Msg
  logout_resp : Msg
  info : ℕ → Bytes → Msg

abbrev pub size_of : Msg → ℕ
size_of (Msg.head id code) = 6
size_of (Msg.broadcast str) = 262
size_of (Msg.new_client_login id) = 262
size_of (Msg.new_client_connect sock) = 12
size_of (Msg.login_req id psw) = 518
size_of (Msg.login_resp id psw) = 518
size_of Msg.logout_resp = 6
size_of (Msg.logout_req id) = 262
size_of (Msg.info age name) = 140
size_of (Msg.unknow str) = 134

-- The number that the constructor leaves in `size`.
abbrev pub size_field : Msg → ℕ
size_field (Msg.broadcast str) = (6 + (length str + 1)) % 65536
size_field m = size_of m

abbrev pub id_field : Msg → ℕ
id_field (Msg.head id code) = id % 65536
id_field (Msg.broadcast str) = msg_id_code MsgId.broadcast
id_field (Msg.new_client_login id) = msg_id_code MsgId.new_client_login
id_field (Msg.new_client_connect sock) = msg_id_code MsgId.new_client_conn
id_field (Msg.login_req id psw) = msg_id_code MsgId.login
id_field (Msg.login_resp id psw) = msg_id_code MsgId.login
id_field Msg.logout_resp = msg_id_code MsgId.error
id_field (Msg.logout_req id) = msg_id_code MsgId.logout
id_field (Msg.info age name) = msg_id_code MsgId.info
id_field (Msg.unknow str) = msg_id_code MsgId.unknow

abbrev pub code_field : Msg → ℕ
code_field (Msg.head id code) = code % 65536
code_field m = 0

-- What a constructor stores behind the head: so many bytes at most fit at the place.
pub record Field : Type 0 where
  pub pos : ℕ
  pub cap : ℕ
  pub bytes : Bytes

-- `strcpy`, and `memcpy` of a text with its 0.
abbrev pub text_field : ℕ → ℕ → Bytes → Field
text_field pos cap s = record { pos = pos; cap = cap; bytes = s ++ (0 ∷ []) }

-- The four bytes of an `int`.
abbrev pub int_field : ℕ → ℕ → Field
int_field pos n = record {
  pos = pos;
  cap = 4;
  bytes = (n % 256) ∷ ((n / 256 % 256) ∷ ((n / 65536 % 256) ∷ ((n / 16777216 % 256) ∷ [])));
}

abbrev pub fields : Msg → List Field
fields (Msg.head id code) = []
fields (Msg.broadcast str) = text_field 6 256 str ∷ []
fields (Msg.new_client_login id) = text_field 6 256 id ∷ []
fields (Msg.new_client_connect sock) = int_field 8 sock ∷ []
fields (Msg.login_req id psw) = text_field 6 256 id ∷ (text_field 262 256 psw ∷ [])
fields (Msg.login_resp id psw) = text_field 6 256 id ∷ (text_field 262 256 psw ∷ [])
fields Msg.logout_resp = []
fields (Msg.logout_req id) = text_field 6 256 id ∷ []
fields (Msg.info age name) = int_field 8 age ∷ (text_field 12 128 name ∷ [])
fields (Msg.unknow str) = text_field 6 128 str ∷ []

unfoldable pub put_head : ℕ → ℕ → ℕ → Bytes → Bytes
put_head size id code mem =
    write_at mem 0 (ushort_bytes size ++ (ushort_bytes id ++ ushort_bytes code))

unfoldable pub put_field : Field → Bytes → Option Bytes
put_field f mem = if leb (length f.bytes) f.cap then some (write_at mem f.pos f.bytes) else none

unfoldable pub put_fields : List Field → Bytes → Option Bytes
unfolding put_field
put_fields [] mem = some mem
put_fields (f ∷ fs) mem = elim (put_field f mem) [ none ↦ none | some mem' ↦ put_fields fs mem' ]

-- A constructor, in memory that holds some bytes.
unfoldable pub construct : Msg → Bytes → Option Bytes
unfolding put_head put_fields
construct m mem = put_fields (fields m) (put_head (size_field m) (id_field m) (code_field m) mem)
