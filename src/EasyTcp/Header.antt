-- ===== src/EasyTcp/Header.antt =====
-- MessageHeader.hpp: a message begins with its length and its command, two 16-bit numbers of which
-- the length is signed.
use select_mode_network.Base.{ℕ, ◌-◌, ◌++◌, if◌then◌else◌, ltb, drop}
use select_mode_network.Base.Int.{ℤ}
use select_mode_network.Buffer.Data.{Bytes, ushort_of, ushort_bytes}

-- `enum CMD`, but for CMD_ERROR, which no message of its own has.
pub data Cmd : Type 0 where
  login login_result logout logout_result new_user_join : Cmd

-- The numbers of the enumeration.
unfoldable pub cmd_code : Cmd → ℕ
cmd_code login = 0
cmd_code login_result = 1
cmd_code logout = 2
cmd_code logout_result = 3
cmd_code new_user_join = 4

-- CMD_ERROR
abbrev pub cmd_error : ℕ
cmd_error = 5

-- `sizeof(DataHeader)`
abbrev pub header_size : ℕ
header_size = 4

-- The `sizeof` of the structures `Login`, `LoginResult`, `Logout`, `LogoutResult`, `NewUserJoin`.
unfoldable pub size_of : Cmd → ℕ
size_of login = 100
size_of login_result = 100
size_of logout = 36
size_of logout_result = 8
size_of new_user_join = 8

-- The two fields of `DataHeader`, as they stand in memory.
unfoldable pub header : ℕ → ℕ → Bytes
header data_length cmd = ushort_bytes data_length ++ ushort_bytes cmd

-- A message of one of the structures: its constructor fills in the header.
unfoldable pub packet : Cmd → Bytes → Bytes
unfolding header cmd_code size_of
packet c body = header (size_of c) (cmd_code c) ++ body

-- A `short` from its two bytes.
unfoldable pub short_of : Bytes → ℤ
unfolding ushort_of
short_of a = let n = ushort_of a in if ltb n 32768 then ℤ.pos n else ℤ.negsuc (65535 - n)

-- `header->dataLength` and `header->cmd`
unfoldable pub data_length_of : Bytes → ℤ
unfolding short_of
data_length_of m = short_of m

unfoldable pub cmd_of : Bytes → ℤ
unfolding short_of
cmd_of m = short_of (drop 2 m)
