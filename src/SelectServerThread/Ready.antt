-- ===== src/SelectServerThread/Ready.antt =====
-- `OnRun` of the accepting thread: it finds a handle for a new client, or closes the server.
use select_mode_network.Base.{
  ℕ, zero, suc, ◌<◌, ◌≡◌, refl, ap, true, false, none, List, arith, length,
}
use select_mode_network.Base.Int.{ℤ, ltb_ℤ}
use select_mode_network.Memory.Api.{MemPool}
use select_mode_network.ClientSocket.State.{Env}
use select_mode_network.SelectServerThread.Handle.{SelectClientHandle, accept}
use select_mode_network.SelectServerThread.Handle
use select_mode_network.SelectServerThread.Balance.{Numbered}
use select_mode_network.SelectServerThread.Turn.{Turn}
use select_mode_network.SelectServerThread.Closing.{Closes}
use select_mode_network.SelectServerThread.Server.{SelectServerThread, Outcome, gives, new_handles}

-- The handles are numbered from 0, and there is one.
abbrev pub Ready : {P : MemPool} → List (SelectClientHandle P) → Type 0
Ready hs = (0 < length hs) × Numbered 0 hs

module _ {P : MemPool} where
  -- What a call of `OnRun` leads to: nothing undefined is among it. `hs` are the handles that `Close`
  -- finds.
  pub data Runs (last_rounds : SelectClientHandle P → Turn P) (n : ℤ)
      (hs : List (SelectClientHandle P)) (s : SelectServerThread P)
      : Outcome (ℤ × SelectServerThread P) → Type 0 where
    not_open : s.server_sock ≡ none → Runs last_rounds n hs s (gives (ℤ.negsuc 0, s))
    goes_on :
        {t : SelectServerThread P}
        → ltb_ℤ n (ℤ.pos 0) ≡ false
        → t.server_sock ≡ s.server_sock
        → Ready t.handles
        → length t.handles ≡ length s.handles
        → Runs last_rounds n hs s (gives (ℤ.pos 0, t))
    fails :
        {o : Outcome (ℤ × SelectServerThread P)}
        → ltb_ℤ n (ℤ.pos 0) ≡ true
        → Closes last_rounds hs o
        → Runs last_rounds n hs s o

  -- What `take_client` leads to.
  data Takes (s : SelectServerThread P) : Outcome (ℤ × SelectServerThread P) → Type 0 where
    taken :
        {hs : List (SelectClientHandle P)}
        → Ready hs
        → length hs ≡ length s.handles
        → Takes s (gives (ℤ.pos 0, record s { handles = hs }))

  new_handles-Numbered :
      (env : Env P) (i n : ℕ)
      → Numbered i (new_handles env i n) × (length (new_handles env i n) ≡ n)
  unfolding new_handles Handle.init
  new_handles-Numbered env i zero = (tt, refl)
  new_handles-Numbered env i (suc n) =
      let (numbered, size) = new_handles-Numbered env (suc i) n in ((refl, numbered), ap suc size)

  pub new_handles-Ready : (env : Env P) (n : ℕ) → 0 < n → Ready (new_handles env 0 n)
  new_handles-Ready env n h =
      let (numbered, size) = new_handles-Numbered env 0 n in (omega (arith, size, h), numbered)
