-- ===== src/ClientSocket/ReceiveStays.antt =====
-- `ProcessorRecv` that does not return -1 leaves the socket as it was, if its handler does.
use select_mode_network.Base.{
  ℕ, zero, suc, ◌-◌, ◌≡◌, refl, subst, Option, none, some, if◌then◌else◌, leb, length,
}
use select_mode_network.Buffer.Data.{Bytes}
use select_mode_network.Buffer.OBuffer.{OBuffer}
use select_mode_network.Memory.Api.{MemPool}
use select_mode_network.Protocol.{buffer_size}
use select_mode_network.Framing.Loop.{Received}
use select_mode_network.Framing.Loop
use select_mode_network.ClientSocket.State.{Env, Sender, ClientSocket, Call}
use select_mode_network.ClientSocket.Receive.{
  handle_message, keep_rest, after_loop, receive, processor_recv, count_recv, count_message,
}
use select_mode_network.ClientSocket.Receive
use select_mode_network.Framing.Step.{Round, read_package, wait, oversize, packed, fault}
use select_mode_network.Protocol.{package_of}
use select_mode_network.ClientSocket.Stays.{SameSock, if-both}

-- A handler that does not close the socket that it is given.
abbrev pub LeavesSock : {P : MemPool} → (Env P × Sender → Bytes → Env P × Sender) → Type 0
LeavesSock {P} handler =
    (env : Env P) (s : Sender) (msg : Bytes) → (handler (env, s) msg).1.sock ≡ s.sock

module _ {P : MemPool} (on_msg_handle : Env P × Sender → Bytes → Env P × Sender)
    (law : LeavesSock on_msg_handle) where
  -- The state that the receive loop ends with has the socket `sock`.
  data ReceivedSock (sock : Option ℕ) : Received (Env P × Sender) → Type 0 where
    asserted : ReceivedSock sock Loop.aborted
    spinning : ReceivedSock sock Loop.starved
    empty :
        {o : OBuffer} {env : Env P} {s : Sender}
        → s.sock ≡ sock
        → ReceivedSock sock (Loop.drained o (env, s))
    refused :
        {o : OBuffer} {env : Env P} {s : Sender} → ReceivedSock sock (Loop.oversized o (env, s))

  recv_loop-ReceivedSock :
      (fuel : ℕ) (mem : Bytes) (o : OBuffer) (env : Env P) (s : Sender)
      → ReceivedSock s.sock (Loop.recv_loop (handle_message on_msg_handle) fuel mem o (env, s))
  unfolding Loop.recv_loop handle_message
  recv_loop-ReceivedSock zero mem o env s = spinning
  recv_loop-ReceivedSock (suc fuel) mem o env s =
      go (λ o' w. recv_loop-ReceivedSock fuel mem o' w.0 w.1) (read_package mem o)
    where
      handled : Bytes → Env P × Sender
      handled m =
          on_msg_handle (record env { counters = count_message s.counted env.counters }, s)
            (package_of m)

      go :
          ((o' : OBuffer) (w : Env P × Sender)
            → ReceivedSock w.1.sock (Loop.recv_loop (handle_message on_msg_handle) fuel mem o' w))
          → (r : Round)
          → ReceivedSock s.sock (elim r [
            | wait o' ↦ Loop.drained o' (env, s)
            | oversize o' ↦ Loop.oversized o' (env, s)
            | packed message o' ↦
                Loop.recv_loop (handle_message on_msg_handle) fuel mem o' (handled message)
            | fault ↦ Loop.aborted
          ])
      go rest (wait o') = empty refl
      go rest (oversize o') = refused
      go rest (packed message o') =
          subst
            (λ t.
              ReceivedSock t
                (Loop.recv_loop (handle_message on_msg_handle) fuel mem o' (handled message)))
            (law (record env { counters = count_message s.counted env.counters }) s
              (package_of message))
            (rest o' (handled message))
      go rest fault = asserted

  after_loop-SameSock :
      (mem : Bytes) (c : ClientSocket) (sock : Option ℕ) {r : Received (Env P × Sender)}
      → ReceivedSock sock r
      → SameSock sock (after_loop on_msg_handle mem c r)
  unfolding after_loop keep_rest
  after_loop-SameSock mem c sock asserted = SameSock.dead
  after_loop-SameSock mem c sock spinning = SameSock.endless
  after_loop-SameSock mem c sock (empty e) = SameSock.same e
  after_loop-SameSock mem c sock refused = SameSock.failed

  -- `ProcessorRecv` returns -1, or leaves the socket as it was, if the handler does.
  pub processor_recv-SameSock :
      (fuel : ℕ) (recv : ℕ → Option Bytes) (env : Env P) (c : ClientSocket)
      → SameSock c.send.sock (processor_recv on_msg_handle fuel recv env c)
  unfolding processor_recv receive
  processor_recv-SameSock fuel recv env c = go (recv (buffer_size - c.recv.retain_size))
    where
      env' : Env P
      env' = record env { counters = count_recv c.send.counted env.counters }

      go :
          (r : Option Bytes)
          → SameSock c.send.sock (elim r [
            | none ↦ Receive.hang_up on_msg_handle env' c
            | some bytes ↦
                if leb (length bytes) 0
                then Receive.hang_up on_msg_handle env' c
                else receive on_msg_handle fuel env' c bytes
          ])
      go none = SameSock.failed
      go (some bytes) =
          if-both (λ (t : Call P). SameSock c.send.sock t) (leb (length bytes) 0) SameSock.failed
            (after_loop-SameSock _ c c.send.sock (recv_loop-ReceivedSock fuel _ _ env' c.send))
