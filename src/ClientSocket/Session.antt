-- ===== src/ClientSocket/Session.antt =====
-- The sending half over a whole history of calls, in any order: the bytes that the kernel takes are
-- the messages, in the order in which they were queued.
use select_mode_network.Base.{
  ℕ, suc, ◌≤◌, ◌≡◌, subst, ap, sym, ◌∙◌, none, some, List, [], ◌∷◌, ◌++◌, arith, append_assoc,
  append-nil, length, take,
}
use select_mode_network.Base.Int.{ℤ}
use select_mode_network.Buffer.Data.{Bytes}
use select_mode_network.Memory.Api.{MemPool}
use select_mode_network.ClientSocket.State.{
  Env, Sender, ClientSocket, Call, returned, aborted, starved,
}
use select_mode_network.ClientSocket.Send.{Kernel, send_data, processor_send}
use select_mode_network.ClientSocket.Pending.{pending, SValid, Delivered, going, over, TakesAtMost}
use select_mode_network.ClientSocket.Deliver.{measure, processor_send-Delivered}
use select_mode_network.ClientSocket.Queued.{Joined, send_data-Joined}

-- `SendData(bytes, len)`, or a call of `ProcessorSend`.
pub data Op : Type 0 where
  queue : Bytes → ℕ → Op
  flush : Op

-- What the calls queue, in order.
abbrev pub queued_bytes : List Op → Bytes
queued_bytes [] = []
queued_bytes (queue bytes len ∷ ops) = take len bytes ++ queued_bytes ops
queued_bytes (flush ∷ ops) = queued_bytes ops

-- A message is at least as long as its length says.
abbrev pub Sized : List Op → Type 0
Sized [] = Unit {0}
Sized (queue bytes len ∷ ops) = (len ≤ length bytes) × Sized ops
Sized (flush ∷ ops) = Sized ops

module _ {P : MemPool} (K : Kernel) where
  -- The calls of a history up to the first that fails.
  unfoldable pub run_session : Env P → ClientSocket → List Op → Call P
  run_session env c [] = returned (ℤ.pos 0) env c
  run_session env c (queue bytes len ∷ ops) =
      let (n, env', s') = send_data env c.send bytes len in
      elim n [
        | ℤ.pos _ ↦ run_session env' (record c { send = s' }) ops
        | ℤ.negsuc m ↦ returned (ℤ.negsuc m) env' (record c { send = s' })
      ]
  run_session env c (flush ∷ ops) = elim (processor_send K (suc (measure env c.send)) env c) [
    | aborted ↦ aborted
    | starved ↦ starved
    | returned (ℤ.pos _) env' c' ↦ run_session env' c' ops
    | returned (ℤ.negsuc m) env' c' ↦ returned (ℤ.negsuc m) env' c'
  ]

  -- What a history leaves, where `all` is what was to be sent.
  pub data Sent (all : Bytes) (fd : ℕ) : Call P → Type 0 where
    open_still :
        (env : Env P) (c : ClientSocket)
        → c.send.sock ≡ some fd
        → SValid env c.send
        → c.send.sent ++ pending env c.send ≡ all
        → Sent all fd (returned (ℤ.pos 0) env c)
    closed :
        (env : Env P) (c : ClientSocket) (lost : Bytes)
        → c.send.sock ≡ none
        → c.send.sent ++ lost ≡ all
        → Sent all fd (returned (ℤ.negsuc 0) env c)

  -- The calls behind a call of `ProcessorSend`.
  resume : Call P → List Op → Call P
  resume r ops = elim r [
    | aborted ↦ aborted
    | starved ↦ starved
    | returned (ℤ.pos _) env' c' ↦ run_session env' c' ops
    | returned (ℤ.negsuc m) env' c' ↦ returned (ℤ.negsuc m) env' c'
  ]

  -- The calls behind a call of `SendData`.
  resume_queued : ClientSocket → ℤ × Env P × Sender → List Op → Call P
  resume_queued c r ops = elim (r.0) [
    | ℤ.pos _ ↦ run_session (r.1) (record c { send = r.2 }) ops
    | ℤ.negsuc m ↦ returned (ℤ.negsuc m) (r.1) (record c { send = r.2 })
  ]

abbrev due : {P : MemPool} → Env P → Sender → List Op → Bytes
due env s ops = (s.sent ++ pending env s) ++ queued_bytes ops

-- From here on, the history sends what is due.
abbrev Goes : (P : MemPool) → Kernel → ℕ → List Op → Type 0
Goes P K fd ops =
    (env : Env P) (c : ClientSocket)
    → c.send.sock ≡ some fd
    → SValid env c.send
    → Sent K (due env c.send ops) fd (run_session K env c ops)

module _ {P : MemPool} (K : Kernel) (law : TakesAtMost K) (fd : ℕ) where
  resume-Sent :
      (env : Env P) (c : ClientSocket) (ops : List Op) {r : Call P}
      → c.send.sock ≡ some fd
      → Goes P K fd ops
      → Delivered env c.send r
      → Sent K (due env c.send ops) fd (resume K r ops)
  unfolding resume
  resume-Sent env c ops is_open goes (going {env' = env'} {c' = c'} k) =
      subst (λ t. Sent K (t ++ queued_bytes ops) fd (run_session K env' c' ops)) k.same
        (goes env' c' (k.open_still ∙ is_open) k.valid)
  resume-Sent env c ops is_open goes (over {env' = env'} {c' = c'} k) =
      closed env' c' (k.lost ++ queued_bytes ops) k.closed (
        sym (append_assoc c'.send.sent k.lost (queued_bytes ops))
        ∙ ap (λ t. t ++ queued_bytes ops) k.prefix)

  resume_queued-Sent :
      (env : Env P) (c : ClientSocket) (bytes : Bytes) (ops : List Op) {n : ℤ} {env' : Env P}
      {s' : Sender}
      → c.send.sock ≡ some fd
      → Goes P K fd ops
      → n ≡ ℤ.pos 0
      → Joined env c.send bytes env' s'
      → Sent K
          ((c.send.sent ++ pending env c.send) ++ (bytes ++ queued_bytes ops))
          fd
          (resume_queued K c (n, env', s') ops)
  unfolding resume_queued
  resume_queued-Sent env c bytes ops {n} {env'} {s'} is_open goes returns j =
      let all : due env' s' ops
          ≡ (c.send.sent ++ pending env c.send) ++ (bytes ++ queued_bytes ops) =
        ap (λ t. (t ++ pending env' s') ++ queued_bytes ops) j.sent_still
        ∙ ap (λ t. (c.send.sent ++ t) ++ queued_bytes ops) j.behind
        ∙ ap (λ t. t ++ queued_bytes ops)
            (sym (append_assoc c.send.sent (pending env c.send) bytes))
        ∙ append_assoc (c.send.sent ++ pending env c.send) bytes (queued_bytes ops) in
      rw returns (
        subst (λ t. Sent K t fd (run_session K env' (record c { send = s' }) ops)) all
          (goes env' (record c { send = s' }) (j.open_still ∙ is_open) j.valid))

  -- Over any history of `SendData` and `ProcessorSend` on an open socket: either the history ends
  -- with the socket open, and what the kernel took followed by what is pending is what was to be
  -- sent before, followed by the messages of the history in their order; or a call returns -1 with
  -- the socket closed, and what the kernel took is a front part of these bytes. No loop runs out
  -- of fuel and no assertion fails.
  pub run_session-Sent :
      (ops : List Op) (env : Env P) (c : ClientSocket)
      → Sized ops
      → c.send.sock ≡ some fd
      → SValid env c.send
      → Sent K
          ((c.send.sent ++ pending env c.send) ++ queued_bytes ops)
          fd
          (run_session K env c ops)
  unfolding run_session resume resume_queued
  run_session-Sent [] env c sized is_open v = open_still env c is_open v (sym (append-nil _))
  run_session-Sent (queue bytes len ∷ ops) env c sized is_open v =
      let accepted = send_data-Joined env c.send bytes len fd is_open v sized.0 in
      resume_queued-Sent env c (take len bytes) ops is_open
        (λ env' c' is_open' v'. run_session-Sent ops env' c' sized.1 is_open' v') accepted.0
        accepted.1
  run_session-Sent (flush ∷ ops) env c sized is_open v =
      resume-Sent env c ops is_open
        (λ env' c' is_open' v'. run_session-Sent ops env' c' sized is_open' v')
        (processor_send-Delivered K law (suc (measure env c.send)) env c fd is_open v (omega arith))
