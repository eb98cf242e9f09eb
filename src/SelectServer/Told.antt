-- ===== src/SelectServer/Told.antt =====
-- What `SelectServer::Broadcast` does: every client that is not excluded has the message queued
-- behind what it still had to send.
use select_mode_network.Base.{
  ℕ, suc, ◌≤◌, ◌≡◌, refl, ap, sym, subst, ◌∙◌, Bool, Option, none, some, List, [], ◌∷◌, Bool-cases,
  inl, inr, ◌++◌, if◌then◌else◌, length, take,
}
use select_mode_network.Buffer.Data.{Bytes, ushort_of}
use select_mode_network.Memory.Api.{MemPool}
use select_mode_network.ClientSocket.State.{Env, Sender, ClientSocket}
use select_mode_network.ClientSocket.Send.{send_msg}
use select_mode_network.ClientSocket.Stays.{if-both}
use select_mode_network.ClientSocket.Pending.{pending, SValid}
use select_mode_network.ClientSocket.Queued.{send_msg-Joined}
use select_mode_network.ClientSocket.Bystander.{Untouched, send_msg-Untouched}
use select_mode_network.SelectServer.State.{SelectServer}
use select_mode_network.SelectServer.Run.{broadcast_loop, broadcast}

-- Every client is open, and its sending half well-formed.
abbrev pub AllReady : {P : MemPool} → Env P → List ClientSocket → Type 0
AllReady env [] = Unit {0}
AllReady env (c ∷ cs) = ((fd : ℕ) × (c.send.sock ≡ some fd)) × SValid env c.send × AllReady env cs

-- What the client at a place of the array has to send afterwards.
abbrev pub due : Bool → Bytes → Bytes → Bytes
due excluded msg bytes = if excluded then bytes else bytes ++ msg

-- One client before, and the client in its place afterwards.
pub record Told {P : MemPool} (excluded : Bool) (msg : Bytes) (env : Env P) (c : ClientSocket)
    (env' : Env P) (c' : ClientSocket) : Type 0 where
  pub same_sock : c'.send.sock ≡ c.send.sock
  pub sent_still : c'.send.sent ≡ c.send.sent
  pub has : pending env' c'.send ≡ due excluded msg (pending env c.send)
  pub valid : SValid env' c'.send

-- All clients, from place `i` of the array on.
abbrev pub AllTold :
    {P : MemPool}
    → (ℕ → Bool)
    → Bytes
    → ℕ
    → Env P
    → List ClientSocket
    → Env P
    → List ClientSocket
    → Type 0
AllTold excluded msg i env [] env' [] = Unit {0}
AllTold excluded msg i env [] env' (d ∷ ds) = ⊥
AllTold excluded msg i env (c ∷ cs) env' [] = ⊥
AllTold excluded msg i env (c ∷ cs) env' (d ∷ ds) =
    Told (excluded i) msg env c env' d × AllTold excluded msg (suc i) env cs env' ds

module _ {P : MemPool} where
  -- Nothing is changed for any sender that is well-formed.
  abbrev Quiet : Env P → Env P → Type 0
  Quiet env env' = (t : Sender) → SValid env t → Untouched env t env'

  AllReady-Quiet :
      (env env' : Env P) (cs : List ClientSocket)
      → Quiet env env'
      → AllReady env cs
      → AllReady env' cs
  AllReady-Quiet env env' [] q h = h
  AllReady-Quiet env env' (c ∷ cs) q h =
      (h.0, (q c.send h.1).valid, AllReady-Quiet env env' cs q h.2)

  AllTold-Quiet :
      (excluded : ℕ → Bool) (msg : Bytes) (i : ℕ) (env env' last : Env P)
      (cs ds : List ClientSocket)
      → Quiet env env'
      → AllReady env cs
      → AllTold excluded msg i env' cs last ds
      → AllTold excluded msg i env cs last ds
  AllTold-Quiet excluded msg i env env' last [] [] q h k = k
  AllTold-Quiet excluded msg i env env' last [] (d ∷ ds) q h k = k
  AllTold-Quiet excluded msg i env env' last (c ∷ cs) [] q h k = k
  AllTold-Quiet excluded msg i env env' last (c ∷ cs) (d ∷ ds) q h k = (
    record {
      same_sock = k.0.same_sock;
      sent_still = k.0.sent_still;
      has = k.0.has ∙ ap (λ b. due (excluded i) msg b) (q c.send h.1).same;
      valid = k.0.valid;
    },
    AllTold-Quiet excluded msg (suc i) env env' last cs ds q h.2 k.1,
  )

module _ {P : MemPool} (excluded : ℕ → Bool) (msg : Bytes) (fits : ushort_of msg ≤ length msg) where
  broadcast_loop-Quiet :
      (i : ℕ) (env : Env P) (cs : List ClientSocket)
      → AllReady env cs
      → Quiet env (broadcast_loop excluded msg i env cs).0
  unfolding broadcast_loop
  broadcast_loop-Quiet i env [] h t v = record { same = refl; valid = v }
  broadcast_loop-Quiet i env (c ∷ cs) h t v =
      if-both (λ (r : Env P × List ClientSocket). Untouched env t r.0) (excluded i)
        (broadcast_loop-Quiet (suc i) env cs h.2 t v)
        (then_rest (
          broadcast_loop-Quiet (suc i) (send_msg env c.send msg).1 cs
            (AllReady-Quiet env _ cs (send_msg-Untouched env c.send msg h.0.0 h.0.1 h.1 fits) h.2) t
            (sent t v).valid))
    where
      sent : Quiet env (send_msg env c.send msg).1
      sent = send_msg-Untouched env c.send msg h.0.0 h.0.1 h.1 fits

      then_rest :
          {last : Env P} → Untouched (send_msg env c.send msg).1 t last → Untouched env t last
      then_rest u = record { same = u.same ∙ (sent t v).same; valid = u.valid }

  broadcast_loop-AllTold :
      (i : ℕ) (env : Env P) (cs : List ClientSocket)
      → AllReady env cs
      → let r = broadcast_loop excluded msg i env cs in
        AllTold excluded (take (ushort_of msg) msg) i env cs r.0 r.1
  unfolding broadcast_loop
  broadcast_loop-AllTold i env [] h = tt
  broadcast_loop-AllTold i env (c ∷ cs) h = elim (Bool-cases (excluded i)) [
    | inl out ↦
        let u = broadcast_loop-Quiet (suc i) env cs h.2 c.send h.1 in
        rw out (
          record {
            same_sock = refl;
            sent_still = refl;
            has =
                u.same ∙ ap (λ b. due b (take (ushort_of msg) msg) (pending env c.send)) (sym out);
            valid = u.valid;
          },
          broadcast_loop-AllTold (suc i) env cs h.2,
        )
    | inr told ↦
        let env' = (send_msg env c.send msg).1 in
        let quiet : Quiet env env' = send_msg-Untouched env c.send msg h.0.0 h.0.1 h.1 fits in
        let j = (send_msg-Joined env c.send msg h.0.0 h.0.1 h.1 fits).1 in
        let ready = AllReady-Quiet env env' cs quiet h.2 in
        let u = broadcast_loop-Quiet (suc i) env' cs ready _ j.valid in
        rw told (
          record {
            same_sock = j.open_still;
            sent_still = j.sent_still;
            has =
                u.same
                ∙ j.behind
                ∙ ap (λ b. due b (take (ushort_of msg) msg) (pending env c.send)) (sym told);
            valid = u.valid;
          },
          AllTold-Quiet excluded (take (ushort_of msg) msg) (suc i) env env' _ cs _ quiet h.2
              (broadcast_loop-AllTold (suc i) env' cs ready),
        )
  ]

  -- On a server that runs, whose clients are open and well-formed, `Broadcast` of a message that is
  -- as long as it says: every client that is not excluded has the message queued behind what it
  -- still had to send, the excluded ones have to send what they had, and nothing is sent, lost or
  -- closed; every client is well-formed afterwards.
  pub broadcast-AllTold :
      (server : ℕ) (s : SelectServer P)
      → s.server_sock ≡ some server
      → AllReady s.env s.clients
      → let t = broadcast excluded msg s in
        AllTold excluded (take (ushort_of msg) msg) 0 s.env s.clients t.env t.clients
  unfolding broadcast
  broadcast-AllTold server s is_open h =
      subst
        (λ (t : SelectServer P).
          AllTold excluded (take (ushort_of msg) msg) 0 s.env s.clients t.env t.clients)
        (ap
          (λ (o : Option ℕ). elim o as (λ x. SelectServer P) [
            | none ↦ s
            | some _ ↦
                let r = broadcast_loop excluded msg 0 s.env s.clients in
                record s { env = r.0; clients = r.1 }
          ])
          (sym is_open))
        (broadcast_loop-AllTold 0 s.env s.clients h)
