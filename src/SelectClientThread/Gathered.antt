-- ===== src/SelectClientThread/Gathered.antt =====
-- `SelectClient_Thread::ProcessorRecv` queues the messages that are complete, and `OnRun` hands them
-- over: together they do what `SelectClient` does at once.
use select_mode_network.Base.{
  ℕ, zero, suc, ◌+◌, ◌≤◌, ◌<◌, ◌≡◌, ap, sym, subst, ◌∙◌, List, [], ◌∷◌, ◌++◌, append_assoc,
  append-nil, arith, le→ltb, length, length-append, take,
}
use select_mode_network.Buffer.Data.{Bytes}
use select_mode_network.Buffer.OBuffer.{OBuffer}
use select_mode_network.Buffer.Unread.{OValid, o_unread}
use select_mode_network.Memory.Api.{MemPool}
use select_mode_network.Protocol.{max_accumulate_count}
use select_mode_network.Queue.Api
use select_mode_network.Framing.Cuts.{Cuts, left, rest, next, front}
use select_mode_network.Framing.Handled.{goes_on}
use select_mode_network.Framing.Read.{read_package-wait}
use select_mode_network.SelectClientThread.State.{ThreadEnv}
use select_mode_network.SelectClientThread.Receive.{Received, drained, queue_message, recv_loop}
use select_mode_network.SelectClientThread.Stored.{Holds, queue_message-Holds}

module _ {P : MemPool} where
  -- The loop has queued the messages `ms` behind `old`, with `r` unread.
  pub record Gathered (mem : Bytes) (old ms : List Bytes) (r : Bytes) (result : Received P)
      : Type 0 where
    pub o' : OBuffer
    pub env' : ThreadEnv P
    pub queue' : List ℕ
    pub ends : result ≡ drained o' env' queue'
    pub behind : o_unread mem o' ≡ r
    pub valid : OValid mem o'
    pub holds : Holds env' queue' (old ++ ms)

  pub length-queue_message :
      (env : ThreadEnv P) (queue : List ℕ) (m : Bytes)
      → length (queue_message env queue m).1 ≡ suc (length queue)
  unfolding queue_message Api.push
  length-queue_message env queue m = omega (arith, length-append queue (_ ∷ []))

  pub recv_loop-Gathered :
      (mem : Bytes) {s : Bytes} {ms : List Bytes} {r : Bytes}
      → Cuts s ms (left r)
      → (fuel : ℕ) (o : OBuffer) (env : ThreadEnv P) (queue : List ℕ) (old : List Bytes)
      → OValid mem o
      → o_unread mem o ≡ s
      → length ms < fuel
      → Holds env queue old
      → length queue + length ms ≤ max_accumulate_count
      → Gathered mem old ms r (recv_loop fuel mem o env queue)
  unfolding recv_loop Api.size
  recv_loop-Gathered mem c zero o env queue old v e k h m = absurd (omega arith)
  recv_loop-Gathered mem (rest h) (suc fuel) o env queue old v e k holds m = record {
    o' = o;
    env' = env;
    queue' = queue;
    ends = rw (read_package-wait mem o v (ap front e ∙ h), recv_loop);
    behind = e;
    valid = v;
    holds = subst (λ t. Holds env queue t) (sym (append-nil old)) holds;
  }
  recv_loop-Gathered mem (next {s} {ms} n h p c) (suc fuel) o env queue old v e k holds m =
      let g = goes_on mem n h o v e in
      let q = queue_message env queue (take n s) in
      let size = length-queue_message env queue (take n s) in
      let tail =
        recv_loop-Gathered mem c fuel g.after q.0 q.1 (old ++ (take n s ∷ [])) g.valid g.behind
          (omega arith) (queue_message-Holds env queue old (take n s) holds)
          (omega (arith, size)) in
      record {
        o' = tail.o';
        env' = tail.env';
        queue' = tail.queue';
        ends =
            rw (g.step, le→ltb max_accumulate_count (length q.1) (omega (arith, size)), recv_loop)
              tail.ends;
        behind = tail.behind;
        valid = tail.valid;
        holds =
            subst (λ t. Holds tail.env' tail.queue' t) (append_assoc old (take n s ∷ []) ms)
              tail.holds;
      }
