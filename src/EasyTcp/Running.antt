-- ===== src/EasyTcp/Running.antt =====
-- `OnRun` of `EasyTcpClient` says whether the client still runs.
use select_mode_network.Base.{ℕ, ◌≡◌, refl, Bool, Bool-cases, inl, inr, true, false, Option, List}
use select_mode_network.Base.Int.{ℤ, ltb_ℤ}
use select_mode_network.Buffer.Data.{Bytes}
use select_mode_network.EasyTcp.MsgBuf.{Memcpy, Received}
use select_mode_network.EasyTcp.MsgBuf
use select_mode_network.EasyTcp.Client.{
  EasyTcpClient, Line, Ran, broken, stuck, ran, close, is_run, after_recv, on_run,
}

-- The result says whether the client runs.
abbrev pub Tells : Ran → Type 0
Tells broken = Unit {0}
Tells stuck = Unit {0}
Tells (ran go c lines) = is_run c ≡ go

close-stops : (c : EasyTcpClient) → is_run (close c) ≡ false
unfolding is_run close
close-stops c = refl

after_recv-Tells :
    (c : EasyTcpClient) (lines : List Line) (r : Received (List Line))
    → is_run c ≡ true
    → Tells (after_recv c lines r)
unfolding after_recv is_run
after_recv-Tells c lines (MsgBuf.fault w) h = tt
after_recv-Tells c lines MsgBuf.starved h = tt
after_recv-Tells c lines MsgBuf.gone h = close-stops c
after_recv-Tells c lines (MsgBuf.kept b lines') h = h

-- Whatever the system returns, if `OnRun` comes to its end then it returns true exactly if the
-- client is connected and open afterwards.
pub on_run-Tells :
    (memcpy : Memcpy) (fuel : ℕ) (ret : ℤ) (readable : Bool) (recv : ℕ → Option Bytes)
    (c : EasyTcpClient) (lines : List Line)
    → Tells (on_run memcpy fuel ret readable recv c lines)
unfolding on_run
on_run-Tells memcpy fuel ret readable recv c lines = elim (Bool-cases (is_run c)) [
  | inr idle ↦ rw (idle, on_run) idle
  | inl runs ↦ elim (Bool-cases (ltb_ℤ ret (ℤ.pos 0))) [
    | inl failed ↦ rw (runs, failed, on_run) (close-stops c)
    | inr fine ↦ go readable fine runs
  ]
]
  where
    go :
        (ready : Bool)
        → ltb_ℤ ret (ℤ.pos 0) ≡ false
        → is_run c ≡ true
        → Tells (on_run memcpy fuel ret ready recv c lines)
    go true fine runs = rw (runs, fine, on_run) (after_recv-Tells c lines _ runs)
    go false fine runs = rw (runs, fine, on_run) runs
