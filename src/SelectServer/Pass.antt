-- ===== src/SelectServer/Pass.antt =====
-- The loop of `SelectServer::OnRun` over the clients. A handler answers through the socket it is
-- given, as that of `Server01` does at an Info message; one that calls `Broadcast` in the middle of
-- the loop is left out.
use select_mode_network.Base.{
  ℕ, zero, suc, Bool, true, false, Option, List, [], ◌∷◌, ◌++◌, if◌then◌else◌,
}
use select_mode_network.Base.Int.{ℤ, ◌+ℤ◌}
use select_mode_network.Buffer.Data.{Bytes}
use select_mode_network.Memory.Api.{MemPool}
use select_mode_network.ClientSocket.State.{Env, Sender, ClientSocket, Call}
use select_mode_network.ClientSocket.State
use select_mode_network.ClientSocket.Send.{Kernel, processor_send}
use select_mode_network.ClientSocket.Receive.{processor_recv}
use select_mode_network.SelectServer.State.{SelectServer, fd_of}

-- What becomes of one client: it stays, or it has failed and is to be deleted.
pub data Visit (P : MemPool) : Type 0 where
  starved aborted : Visit P
  stays fails : Env P → ClientSocket → Visit P

-- What a pass over the clients, or a whole call of `OnRun`, leads to.
pub data Outcome (P : MemPool) : Type 0 where
  starved aborted : Outcome P
  returned : ℤ → SelectServer P → Outcome P

abbrev pub is_minus_one : ℤ → Bool
is_minus_one (ℤ.pos n) = false
is_minus_one (ℤ.negsuc zero) = true
is_minus_one (ℤ.negsuc (suc n)) = false

module _ {P : MemPool} where
  -- `ProcessorSend() == -1`
  unfoldable pub after_send : Call P → Visit P
  after_send State.starved = Visit.starved
  after_send State.aborted = Visit.aborted
  after_send (State.returned n env c) = if is_minus_one n then fails env c else stays env c

  -- `ProcessorRecv() == -1`, or else the test of `ProcessorSend`.
  unfoldable pub after_recv : Kernel → ℕ → Call P → Visit P
  unfolding after_send
  after_recv K fuel State.starved = Visit.starved
  after_recv K fuel State.aborted = Visit.aborted
  after_recv K fuel (State.returned n env c) =
      if is_minus_one n then fails env c else after_send (processor_send K fuel env c)

module _ {P : MemPool} (on_msg_handle : Env P × Sender → Bytes → Env P × Sender) (K : Kernel)
    (fuel : ℕ) (readable : ℤ → Bool) (recv : ℤ → ℕ → Option Bytes) where
  -- The condition of the loop at one client.
  unfoldable pub visit : Env P → ClientSocket → Visit P
  unfolding after_recv after_send
  visit env c =
      let fd = fd_of c.send.sock in
      if readable fd
      then after_recv K fuel (processor_recv on_msg_handle fuel (recv fd) env c)
      else after_send (processor_send K fuel env c)

  -- The clients that are still to come are the argument, those that stay are those of the server.
  unfoldable pub pass : List ClientSocket → SelectServer P → Outcome P
  unfolding visit
  pass [] s = returned (ℤ.pos 0) s
  pass (c ∷ cs) s = elim (visit s.env c) [
    | starved ↦ Outcome.starved
    | aborted ↦ Outcome.aborted
    | stays env c' ↦ pass cs (record s { env = env; clients = s.clients ++ (c' ∷ []) })
    | fails env c' ↦ pass cs (record s {
      env = (State.close env c').0;
      test_client_count = s.test_client_count +ℤ ℤ.negsuc 0;
      client_change = true;
    })
  ]
