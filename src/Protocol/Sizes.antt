-- ===== src/Protocol/Sizes.antt =====
-- The sizes of CommonLib/Macro.h and CommonLib/Msg.h on which the sockets agree.
use select_mode_network.Base.{ℕ, ◌*◌, replicate}
use select_mode_network.Base.{write_at}
use select_mode_network.Buffer.Data.{Bytes}

-- `PACKAGE_MAX_SIZE`
abbrev pub package_max_size : ℕ
package_max_size = 2048

-- `SERVER_RECV_BUFFER_SIZE`, `SERVER_SEND_BUFFER_SIZE` and the client's two are all this size.
abbrev pub buffer_size : ℕ
buffer_size = package_max_size * 10

-- `SERVER_SEND_QUEUE_MAX_ACCUMULATE_COUNT` and the client's two are the same number.
abbrev pub max_accumulate_count : ℕ
max_accumulate_count = 10000

-- `sizeof(MsgHead)`: three `unsigned short`.
abbrev pub head_size : ℕ
head_size = 6

-- `memset(_package, 0, sizeof(_package))`
unfoldable pub zeroed : Bytes
zeroed = replicate package_max_size 0

-- The `_package` array after `memset` and a copy of the message to its front.
unfoldable pub package_of : Bytes → Bytes
package_of message = write_at zeroed 0 message
