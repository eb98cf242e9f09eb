-- ===== src/SelectClientThread/Stored.antt =====
-- The messages that the receiving queue of `SelectClient_Thread` holds, in blocks of the pool.
use select_mode_network.Base.{
  ℕ, zero, suc, ◌≤◌, ◌≡◌, refl, ap, sym, subst, ◌∙◌, List, [], ◌∷◌, ◌++◌, arith, length, take,
  length-take, take-all,
}
use select_mode_network.Buffer.Data.{Bytes, ushort_of}
use select_mode_network.Base.Int.{ℤ}
use select_mode_network.Memory.Api.{MemPool}
use select_mode_network.Protocol.{head_size, package_of}
use select_mode_network.Queue.Api
use select_mode_network.Framing.Cuts.{Cuts, End, rest, refuse, hang, next, front_bounds}
use select_mode_network.Framing.Loop.{handle_all}
use select_mode_network.ClientSocket.Send.{store}
use select_mode_network.ClientSocket.Queued.{store_same, store_other}
use select_mode_network.SelectClientThread.State.{ThreadEnv, free_message, count_received}
use select_mode_network.SelectClientThread.Receive.{queue_message, take_loop}

-- The block at each address holds the message in its place.
abbrev pub Blocks : (ℕ → Bytes) → List ℕ → List Bytes → Type 0
Blocks heap [] [] = Unit {0}
Blocks heap [] (m ∷ ms) = ⊥
Blocks heap (p ∷ ps) [] = ⊥
Blocks heap (p ∷ ps) (m ∷ ms) = (heap p ≡ m) × Blocks heap ps ms

-- A message is at least a header, and as long as it says.
abbrev pub Whole : List Bytes → Type 0
Whole [] = Unit {0}
Whole (m ∷ ms) = (head_size ≤ length m) × Whole ms

abbrev pub Sized : List Bytes → Type 0
Sized [] = Unit {0}
Sized (m ∷ ms) = (ushort_of m ≡ length m) × Sized ms

ushort_of-take : (n : ℕ) (s : Bytes) → 2 ≤ n → ushort_of (take n s) ≡ ushort_of s
unfolding ushort_of
ushort_of-take zero s h = absurd (omega arith)
ushort_of-take (suc zero) s h = absurd (omega arith)
ushort_of-take (suc (suc n)) [] h = refl
ushort_of-take (suc (suc n)) (a ∷ []) h = refl
ushort_of-take (suc (suc n)) (a ∷ b ∷ s) h = refl

-- The messages of a stream are as long as they say, if each is at least a header.
pub Cuts-Sized : {s : Bytes} {ms : List Bytes} {e : End} → Cuts s ms e → Whole ms → Sized ms
Cuts-Sized (rest h) w = tt
Cuts-Sized (refuse h) w = tt
Cuts-Sized (hang h) w = tt
Cuts-Sized (next {s} n h p c) w =
    let b = front_bounds s n h in
    let e = length-take n s in
    (ushort_of-take n s (omega (arith, w.0, e)) ∙ sym b.0 ∙ omega (arith, e, b.1), Cuts-Sized c w.1)

module _ {P : MemPool} where
  abbrev pub AllLive : ThreadEnv P → List ℕ → Type 0
  AllLive env [] = Unit {0}
  AllLive env (p ∷ ps) = P.Live env.pool p × AllLive env ps

  -- The queue holds the messages, in blocks that are in use.
  pub record Holds (env : ThreadEnv P) (queue : List ℕ) (ms : List Bytes) : Type 0 where
    pub blocks : Blocks env.heap queue ms
    pub live : AllLive env queue

  module _ (env : ThreadEnv P) (m : Bytes) where
    abbrev fresh : ℕ
    fresh = (P.alloc env.pool (length m)).0

    Blocks-push :
        (ps : List ℕ) (ms : List Bytes)
        → Blocks env.heap ps ms
        → AllLive env ps
        → Blocks (store env.heap fresh m) (ps ++ (fresh ∷ [])) (ms ++ (m ∷ []))
    Blocks-push [] [] h l = (store_same env.heap fresh m, tt)
    Blocks-push [] (x ∷ ms) h l = absurd h
    Blocks-push (p ∷ ps) [] h l = absurd h
    Blocks-push (p ∷ ps) (x ∷ ms) h l = (
      store_other env.heap fresh m p
            (λ e. P.alloc_fresh env.pool (length m) (subst (λ t. P.Live env.pool t) e l.0))
          ∙ h.0,
      Blocks-push ps ms h.1 l.1,
    )

    AllLive-push :
        (ps : List ℕ) → AllLive env ps → AllLive (queue_message env [] m).0 (ps ++ (fresh ∷ []))
    unfolding queue_message
    AllLive-push [] l = (P.alloc_new env.pool (length m), tt)
    AllLive-push (p ∷ ps) l = (P.alloc_old env.pool (length m) p l.0, AllLive-push ps l.1)

  pub queue_message-Holds :
      (env : ThreadEnv P) (queue : List ℕ) (ms : List Bytes) (m : Bytes)
      → Holds env queue ms
      → let r = queue_message env queue m in Holds r.0 r.1 (ms ++ (m ∷ []))
  unfolding queue_message Api.push
  queue_message-Holds env queue ms m h = record {
    blocks = Blocks-push env m queue ms h.blocks h.live;
    live = AllLive-push env m queue h.live;
  }

module _ {P : MemPool} {W : Type 0} (on_recv_msg : W → Bytes → W) where
  -- The loop of `OnRun` hands the messages over in order.
  pub take_loop-handle_all :
      (env : ThreadEnv P) (queue : List ℕ) (ms : List Bytes) (w : W)
      → Blocks env.heap queue ms
      → Sized ms
      → (take_loop on_recv_msg env queue w).1 ≡ handle_all on_recv_msg w ms
  unfolding take_loop handle_all free_message
  take_loop-handle_all env [] [] w h k = refl
  take_loop-handle_all env [] (m ∷ ms) w h k = absurd h
  take_loop-handle_all env (p ∷ ps) [] w h k = absurd h
  take_loop-handle_all env (p ∷ ps) (m ∷ ms) w h k =
      let read : take (ushort_of (env.heap p)) (env.heap p) ≡ m =
        ap (λ t. take (ushort_of t) t) h.0
        ∙ ap (λ n. take n m) k.0
        ∙ take-all (length m) m (omega arith) in
      ap
        (λ t.
          (take_loop on_recv_msg (free_message (count_received (ℤ.negsuc 0) env) p) ps
            (on_recv_msg w (package_of t))).1)
        read
      ∙ take_loop-handle_all (free_message (count_received (ℤ.negsuc 0) env) p) ps ms
          (on_recv_msg w (package_of m)) h.1 k.1
