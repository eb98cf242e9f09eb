-- ===== src/ClientSocket/Emptying.antt =====
-- Calls of `ProcessorSend` with a kernel that takes bytes whenever it is asked.
use select_mode_network.Base.{
  ℕ, zero, suc, ◌≤◌, ◌≡◌, refl, ap, sym, ◌∙◌, some, [], ◌∷◌, ◌++◌, arith, length, append-nil,
}
use select_mode_network.Base.Int.{ℤ}
use select_mode_network.Buffer.Data.{Bytes}
use select_mode_network.Memory.Api.{MemPool}
use select_mode_network.ClientSocket.State.{
  Env, Sender, ClientSocket, Call, returned, aborted, starved,
}
use select_mode_network.ClientSocket.Send.{Kernel, processor_send}
use select_mode_network.ClientSocket.Pending.{pending, SValid, Kept}
use select_mode_network.ClientSocket.Deliver.{measure}
use select_mode_network.ClientSocket.Progress.{Willing}
use select_mode_network.ClientSocket.Draining.{Progress, sends, processor_send-Progress}

empty : (bytes : Bytes) → length bytes ≤ 0 → bytes ≡ []
empty [] h = refl
empty (b ∷ bytes) h = absurd (omega arith)

-- `n` calls of `ProcessorSend` one after another, each with fuel for its loops.
module _ {P : MemPool} (K : Kernel) where
  unfoldable pub send_calls : ℕ → Env P → ClientSocket → Call P
  send_calls zero env c = returned (ℤ.pos 0) env c
  send_calls (suc n) env c = elim (processor_send K (suc (measure env c.send)) env c) [
    | aborted ↦ aborted
    | starved ↦ starved
    | returned k env' c' ↦ send_calls n env' c'
  ]

  -- All that was pending has been sent, and the socket is open.
  pub data AllSent (env : Env P) (s : Sender) : Call P → Type 0 where
    all_sent :
        {env' : Env P} {c' : ClientSocket}
        → SValid env' c'.send
        → c'.send.sock ≡ s.sock
        → pending env' c'.send ≡ []
        → c'.send.sent ≡ s.sent ++ pending env s
        → AllSent env s (returned (ℤ.pos 0) env' c')

  AllSent-after :
      {env env' : Env P} {s s' : Sender} {r : Call P}
      → Kept env s env' s'
      → AllSent env' s' r
      → AllSent env s r
  AllSent-after k (all_sent v o e m) = all_sent v (o ∙ k.open_still) e (m ∙ k.same)

  -- The calls behind a call.
  abbrev calls_after : ℕ → Call P → Call P
  calls_after n r = elim r [
    | aborted ↦ aborted
    | starved ↦ starved
    | returned k env' c' ↦ send_calls n env' c'
  ]

  calls_after-AllSent :
      (n : ℕ) (env : Env P) (s : Sender) (fd : ℕ) {r : Call P}
      → ((env' : Env P) (c' : ClientSocket)
          → c'.send.sock ≡ some fd
          → SValid env' c'.send
          → length (pending env' c'.send) ≤ n
          → AllSent env' c'.send (send_calls n env' c'))
      → s.sock ≡ some fd
      → length (pending env s) ≤ suc n
      → Progress env s r
      → AllSent env s (calls_after n r)
  calls_after-AllSent n env s fd rest is_open h (sends {env' = env'} {c' = c'} k l) =
      AllSent-after k (rest env' c' (k.open_still ∙ is_open) k.valid (omega arith))

  module _ (will : Willing K) where
    -- With a kernel that takes bytes whenever it is asked, as many calls of `ProcessorSend` as there
    -- are bytes pending send them all: the socket is open and well-formed, and nothing is pending.
    pub send_calls-AllSent :
        (n : ℕ) (env : Env P) (c : ClientSocket) (fd : ℕ)
        → c.send.sock ≡ some fd
        → SValid env c.send
        → length (pending env c.send) ≤ n
        → AllSent env c.send (send_calls n env c)
    unfolding send_calls
    send_calls-AllSent zero env c fd is_open v h =
        let e = empty (pending env c.send) h in
        all_sent v refl e (sym (ap (λ t. c.send.sent ++ t) e ∙ append-nil c.send.sent))
    send_calls-AllSent (suc n) env c fd is_open v h =
        calls_after-AllSent n env c.send fd
          (λ env' c' o v' m. send_calls-AllSent n env' c' fd o v' m) is_open h
          (processor_send-Progress K will (suc (measure env c.send)) env c fd is_open v
            (omega arith))
