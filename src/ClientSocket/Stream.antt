-- ===== src/ClientSocket/Stream.antt =====
-- Many calls of `ClientSocket::ProcessorRecv` on one connection: the stream may arrive in pieces of
-- any size that fits, cut anywhere.
use mathlib.Core.List.{flatten}
use select_mode_network.Base.{
  ℕ, ◌-◌, ◌≤◌, ◌<◌, ◌≡◌, refl, ap, sym, subst, ◌∙◌, some, List, [], ◌∷◌, ◌++◌, arith, length,
  length-take, length-append, append_assoc, append-nil,
}
use select_mode_network.Base.Int.{ℤ}
use select_mode_network.Buffer.Data.{Bytes}
use select_mode_network.Memory.Api.{MemPool}
use select_mode_network.Protocol.{buffer_size, package_max_size}
use select_mode_network.Framing.Cuts.{left, Cuts, rest, Cuts-unique}
use select_mode_network.Framing.Chunks.{Cuts-split}
use select_mode_network.Framing.Handled.{Cuts-length}
use select_mode_network.Framing.Loop.{handle_all}
use select_mode_network.ClientSocket.State.{Env, Sender, ClientSocket, Call}
use select_mode_network.ClientSocket.State
use select_mode_network.ClientSocket.Receive.{handle_message, processor_recv, count_recv}
use select_mode_network.ClientSocket.Received.{retained, RValid, processor_recv-left}

left-injective : {a b : Bytes} → left a ≡ left b → a ≡ b
left-injective e = ground arith

module _ {P : MemPool} (on_msg_handle : Env P × Sender → Bytes → Env P × Sender) where
  -- A call for each piece; a call that does not return 0 is the last.
  unfoldable pub receive_all : ℕ → Env P → ClientSocket → List Bytes → Call P
  receive_all fuel env c [] = State.returned (ℤ.pos 0) env c
  receive_all fuel env c (b ∷ bs) = elim (processor_recv on_msg_handle fuel (λ _. some b) env c) [
    | State.starved ↦ State.starved
    | State.aborted ↦ State.aborted
    | State.returned (ℤ.pos _) env' c' ↦ receive_all fuel env' c' bs
    | State.returned (ℤ.negsuc n) env' c' ↦ State.returned (ℤ.negsuc n) env' c'
  ]

  -- What the messages do, a group of them for each call.
  unfoldable pub feed : Env P × Sender → List (List Bytes) → Env P × Sender
  feed w [] = w
  feed (env, s) (ms ∷ groups) =
      feed
        (handle_all (handle_message on_msg_handle)
          (record env { counters = count_recv s.counted env.counters }, s) ms)
        groups

  -- A piece is not empty, and fits behind what may be retained.
  abbrev pub Pieces : List Bytes → Type 0
  Pieces [] = Unit {0}
  Pieces (b ∷ bs) = (0 < length b) × (length b ≤ buffer_size - package_max_size) × Pieces bs

  pub record Streamed (w : Env P × Sender) (ms : List Bytes) (r : Bytes) (result : Call P)
      : Type 0 where
    pub groups : List (List Bytes)
    pub env' : Env P
    pub c' : ClientSocket
    pub returns : result ≡ State.returned (ℤ.pos 0) env' c'
    pub all : flatten groups ≡ ms
    pub handles : (env', c'.send) ≡ feed w groups
    pub keeps : retained c' ≡ r
    pub valid : RValid c'

  -- If the retained bytes followed by the pieces of a stream are cut into messages with a rest left
  -- over, then the calls on the pieces, cut anywhere and of any sizes that fit, all return 0; the
  -- messages are handled each once and in order, grouped by call, and the rest is retained with the
  -- invariant kept.
  pub receive_all-stream :
      (fuel : ℕ)
      → buffer_size < fuel
      → (pieces : List Bytes) (env : Env P) (c : ClientSocket) {ms : List Bytes} {r : Bytes}
      → RValid c
      → Pieces pieces
      → Cuts (retained c ++ flatten pieces) ms (left r)
      → Streamed (env, c.send) ms r (receive_all fuel env c pieces)
  unfolding receive_all feed flatten
  receive_all-stream fuel enough [] env c {ms} {r} v ps cuts =
      let (none_left, kept) =
        Cuts-unique (subst (λ t. Cuts t ms (left r)) (append-nil (retained c)) cuts)
          (rest v.waits) in
      record {
        groups = [];
        env' = env;
        c' = c;
        returns = refl;
        all = sym none_left;
        handles = refl;
        keeps = left-injective (sym kept);
        valid = v;
      }
  receive_all-stream fuel enough (b ∷ bs) env c {ms} {r} v ps cuts =
      let parts =
        Cuts-split (retained c ++ b) (flatten bs)
          (subst (λ t. Cuts t ms (left r)) (sym (append_assoc (retained c) b _)) cuts) in
      let one =
        processor_recv-left on_msg_handle fuel (λ _. some b) env c b v refl ps.0 (omega arith)
          parts.first
          (omega (
            arith,
            Cuts-length parts.first,
            length-append (retained c) b,
            length-take c.recv.retain_size c.recv.recv_buf,
          )) in
      let tail =
        receive_all-stream fuel enough bs one.env' one.c' one.valid ps.2
          (subst (λ t. Cuts (t ++ flatten bs) parts.after (left r)) (sym one.keeps) parts.second) in
      record {
        groups = parts.before ∷ tail.groups;
        env' = tail.env';
        c' = tail.c';
        returns = rw (one.returns, receive_all) tail.returns;
        all = ap (λ t. parts.before ++ t) tail.all ∙ sym parts.all;
        handles = tail.handles ∙ ap (λ w. feed w tail.groups) one.handles;
        keeps = tail.keeps;
        valid = tail.valid;
      }
