-- ===== src/SelectClient/Tests.antt =====
-- A client over a kernel that takes at most four bytes at a time.
use select_mode_network.Base.{ℕ, refl, [], ◌∷◌, ◌++◌, some, arith, take, replicate}
use Prim.Native.Nat.{min}
use select_mode_network.Base.Int.{ℤ}
use select_mode_network.Buffer.Data.{Bytes}
use select_mode_network.Buffer.OBuffer
use select_mode_network.Protocol.{buffer_size}
use select_mode_network.ClientSocket.State.{Receiver}
use select_mode_network.SelectClient.State.{Wire, SelectClient, send_data}
use select_mode_network.SelectClient.SendLoop.{Went, send_data-Went}

abbrev array : Bytes
array = replicate buffer_size 0

abbrev receiver : Receiver
receiver = record { o_recv = OBuffer.init; retain_size = 0; recv_buf = array }

abbrev client : SelectClient
client = record { sock = some 3; recv = receiver }

abbrev quiet : Wire
quiet = record { clock = 0; sent = [] }

abbrev four_at_most : ℕ → ℕ → ℤ
four_at_most t len = ℤ.pos (min 4 len)

abbrev text : Bytes
text = 1 ∷ 2 ∷ 3 ∷ 4 ∷ 5 ∷ 6 ∷ []

send_data-Went_example : Went ([] ++ take 6 text) (send_data four_at_most 7 client text 6 quiet)
send_data-Went_example =
    send_data-Went four_at_most (λ t len. omega arith) 7 client 3 text 6 quiet refl (omega arith)
      (omega arith)
