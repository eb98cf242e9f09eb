-- ===== src/EasyTcp/Client.antt =====
-- EasyTcpClient.hpp: `EasyTcpClient`. The results of the system's calls are parameters, and what is
-- printed for a message is a list of lines.
use select_mode_network.Base.{
  ℕ, Bool, true, false, ◌&&◌, Option, none, some, List, [], ◌∷◌, ◌++◌, if◌then◌else◌, ◌==◌,
}
use select_mode_network.Base.Int.{ℤ, ltb_ℤ, leb_ℤ}
use select_mode_network.Buffer.Data.{Bytes}
use select_mode_network.EasyTcp.Header.{
  cmd_code, login_result, logout_result, new_user_join, cmd_error, cmd_of, data_length_of,
}
use select_mode_network.EasyTcp.MsgBuf.{MsgBuf, Memcpy, empty, Received}
use select_mode_network.EasyTcp.MsgBuf

-- `sock` is `none` for INVALID_SOCKET.
pub record EasyTcpClient : Type 0 where
  pub sock : Option ℕ
  pub is_connect : Bool
  pub buf : MsgBuf

unfoldable pub init : EasyTcpClient
init = record { sock = none; is_connect = false; buf = empty }

unfoldable pub close : EasyTcpClient → EasyTcpClient
close c = record c { sock = none; is_connect = false }

-- `socket` gives the new socket; an old one is closed first.
unfoldable pub init_socket : Option ℕ → EasyTcpClient → EasyTcpClient
unfolding close
init_socket socket c = elim c.sock [
  | none ↦ record c { sock = socket }
  | some _ ↦ record (close c) { sock = socket }
]

-- `n == SOCKET_ERROR`
abbrev pub is_error : ℤ → Bool
is_error n = leb_ℤ n (ℤ.negsuc 0) && leb_ℤ (ℤ.negsuc 0) n

-- `ret` is what `connect` returns.
unfoldable pub connect : Option ℕ → ℤ → EasyTcpClient → ℤ × EasyTcpClient
unfolding init_socket
connect socket ret c =
    let c' = elim c.sock as (λ _. EasyTcpClient) [ none ↦ init_socket socket c | some _ ↦ c ] in
    (ret, if is_error ret then c' else record c' { is_connect = true })

unfoldable pub is_run : EasyTcpClient → Bool
is_run c = elim c.sock [ none ↦ false | some _ ↦ c.is_connect ]

-- What is printed for a message: its length, as an error or as unknown.
pub data Line : Type 0 where
  error_msg unknown_msg : ℤ → Line

unfoldable pub on_net_msg : List Line → Bytes → List Line
unfolding cmd_code
on_net_msg lines header =
    let cmd = cmd_of header in
    let len = data_length_of header in
    elim cmd [
      | ℤ.negsuc _ ↦ lines ++ (unknown_msg len ∷ [])
      | ℤ.pos n ↦
          if n == cmd_code login_result
          then lines
          else if n == cmd_code logout_result
          then lines
          else if n == cmd_code new_user_join
          then lines
          else if n == cmd_error
          then lines ++ (error_msg len ∷ [])
          else lines ++ (unknown_msg len ∷ [])
    ]

-- `RecvData`
unfoldable pub recv_data :
    Memcpy → ℕ → (ℕ → Option Bytes) → EasyTcpClient → List Line → Received (List Line)
unfolding on_net_msg
recv_data memcpy fuel recv c lines = MsgBuf.recv_data memcpy on_net_msg fuel recv c.buf lines

-- What `OnRun` leads to: its result, the new state and what has been printed.
pub data Ran : Type 0 where
  broken stuck : Ran
  ran : Bool → EasyTcpClient → List Line → Ran

-- Behind `RecvData`.
unfoldable pub after_recv : EasyTcpClient → List Line → Received (List Line) → Ran
unfolding close
after_recv c lines (MsgBuf.fault _) = broken
after_recv c lines MsgBuf.starved = stuck
after_recv c lines MsgBuf.gone = ran false (close c) lines
after_recv c lines (MsgBuf.kept b lines') = ran true (record c { buf = b }) lines'

-- `ret` is what `select` returns.
unfoldable pub on_run : Memcpy → ℕ → ℤ → Bool → (ℕ → Option Bytes) → EasyTcpClient → List Line → Ran
unfolding is_run close recv_data after_recv
on_run memcpy fuel ret readable recv c lines =
    if is_run c
    then (if ltb_ℤ ret (ℤ.pos 0)
        then ran false (close c) lines
        else if readable
        then after_recv c lines (recv_data memcpy fuel recv c lines)
        else ran true c lines)
    else ran false c lines

-- `header` is `none` for the null pointer; `send` gives what `send` returns.
unfoldable pub send_data : (Bytes → ℕ → ℤ) → Option Bytes → ℕ → EasyTcpClient → ℤ × EasyTcpClient
unfolding is_run close
send_data send none len c = (ℤ.negsuc 0, c)
send_data send (some header) len c =
    let ret = send header len in
    if is_run c then (ret, if is_error ret then close c else c) else (ℤ.negsuc 0, c)
