-- ===== src/Buffer/Tests.antt =====
-- Cursors over an array of eight bytes.
use select_mode_network.Base.{List, [], ◌∷◌, ◌++◌, some, arith}
use select_mode_network.Buffer.Data.{Bytes}
use select_mode_network.Buffer.IoBuffer.{IoBuffer}
use select_mode_network.Buffer.OBuffer.{OBuffer}
use select_mode_network.Buffer.Unread.{OValid, IoValid, io_unread}
use select_mode_network.Buffer.Fifo.{Op, put, get, compact, run, written, Streams, run-Streams}

abbrev bytes : Bytes
bytes = 1 ∷ 2 ∷ 3 ∷ 4 ∷ 5 ∷ 6 ∷ 7 ∷ 8 ∷ []

abbrev cursor : IoBuffer
cursor = record { buf = some 0; end = 8; write_pos = 5; read_pos = 2 }

abbrev reader : OBuffer
reader = record { buf = some 0; pos = 2; end = 7 }

cursor-IoValid : IoValid bytes cursor
cursor-IoValid = record { behind = omega arith; within = omega arith; holds = omega arith }

reader-OValid : OValid bytes reader
reader-OValid = record { within = omega arith; holds = omega arith }

abbrev calls : List Op
calls = get 1 ∷ put (9 ∷ 9 ∷ 9 ∷ []) ∷ compact ∷ put (4 ∷ []) ∷ get 5 ∷ []

run-Streams_example : Streams (io_unread bytes cursor ++ written calls) (run bytes cursor calls)
run-Streams_example = run-Streams calls bytes cursor cursor-IoValid
