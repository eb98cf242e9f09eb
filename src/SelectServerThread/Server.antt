-- ===== src/SelectServerThread/Server.antt =====
-- The accepting thread of `SelectServer_Thread`. Its handles have their queues in them. `Close`
-- waits for the handling threads: what they still do is a parameter. What the handles leave behind
-- when they are deleted is dropped with them.
use select_mode_network.Base.{
  ℕ, zero, suc, ◌+◌, Bool, true, false, Option, none, some, List, [], ◌∷◌, ◌++◌, if◌then◌else◌, ltb,
}
use select_mode_network.Base.Int.{ℤ, ◌+ℤ◌, ltb_ℤ, pos_part}
use select_mode_network.Buffer.Data.{Bytes}
use select_mode_network.Memory.Api.{MemPool}
use select_mode_network.ClientSocket.State.{Env}
use select_mode_network.SelectServer.Run.{reset_counters}
use select_mode_network.SelectServerThread.Handle.{SelectClientHandle, accept}
use select_mode_network.SelectServerThread.Handle
use select_mode_network.SelectServerThread.Turn.{Turn}
use select_mode_network.SelectServerThread.Turn

-- `queue_num` is the length of `_clientStateQueueArr`, which `Close` does not clear.
pub record SelectServerThread (P : MemPool) : Type 0 where
  pub handles : List (SelectClientHandle P)
  pub queue_num : ℕ
  pub server_sock : Option ℕ

-- What a report prints of all handles.
pub record Totals : Type 0 where
  pub msg_times : ℕ
  pub send_times : ℕ
  pub send_queue_size : ℤ
  pub client_count : ℤ
  pub recv_times : ℕ

-- What a call leads to. `undefined` is `front` of no handles, or a place behind the last queue;
-- `hangs` is a wait that does not end, and `aborts` a failed assertion in a handling thread.
pub data Outcome (A : Type 0) : Type 0 where
  undefined hangs aborts : Outcome A
  gives : A → Outcome A

module _ {P : MemPool} (last_rounds : SelectClientHandle P → Turn P) where
  -- `delete` of a handle. `_isRunging` is false now: the destructor waits for `_isHandleStop`, which
  -- the thread sets behind its loop, and then closes the handle. `last_rounds` is what the thread
  -- does up to there.
  unfoldable pub delete_handle : SelectClientHandle P → Turn P
  unfolding Turn.close
  delete_handle h = elim (last_rounds h) [
    | Turn.starved ↦ Turn.starved
    | Turn.aborted ↦ Turn.aborted
    | Turn.goes h' ↦ Turn.goes (Turn.close h')
  ]

  -- The loop of `Close`, one handle after the other.
  unfoldable pub delete_handles :
      List (SelectClientHandle P) → Outcome (List (SelectClientHandle P))
  unfolding delete_handle
  delete_handles [] = gives []
  delete_handles (h ∷ hs) = elim (delete_handle h) [
    | Turn.starved ↦ hangs
    | Turn.aborted ↦ aborts
    | Turn.goes h' ↦ elim (delete_handles hs) [
      | undefined ↦ undefined
      | hangs ↦ hangs
      | aborts ↦ aborts
      | gives hs' ↦ gives (h' ∷ hs')
    ]
  ]

  unfoldable pub close : SelectServerThread P → Outcome (SelectServerThread P)
  unfolding delete_handles
  close s = elim s.server_sock [
    | none ↦ gives s
    | some _ ↦ elim (delete_handles s.handles) [
      | undefined ↦ undefined
      | hangs ↦ hangs
      | aborts ↦ aborts
      | gives _ ↦ gives (record s { handles = []; server_sock = none })
    ]
  ]

  -- `Close(); return -1;`
  unfoldable pub close_failed : SelectServerThread P → Outcome (ℤ × SelectServerThread P)
  unfolding close
  close_failed s = elim (close s) [
    | undefined ↦ undefined
    | hangs ↦ hangs
    | aborts ↦ aborts
    | gives s' ↦ gives (ℤ.negsuc 0, s')
  ]

  -- `socket` and `bind`: the new socket, if any, and whether it is bound.
  unfoldable pub bind : Option ℕ → Bool → SelectServerThread P → Outcome (ℤ × SelectServerThread P)
  unfolding close_failed
  bind socket bound s = elim socket [
    | none ↦ gives (ℤ.negsuc 0, record s { server_sock = none })
    | some fd ↦
        if bound
        then gives (ℤ.pos 0, record s { server_sock = some fd })
        else close_failed (record s { server_sock = some fd })
  ]

  unfoldable pub listen : Bool → SelectServerThread P → Outcome (ℤ × SelectServerThread P)
  unfolding close_failed
  listen listens s = if listens then gives (ℤ.pos 0, s) else close_failed s

module _ {P : MemPool} where
  -- The constructor
  unfoldable pub new_server : SelectServerThread P
  new_server = record { handles = []; queue_num = 0; server_sock = none }

  -- The loop of `InitServer`: `n` handles, numbered from `i` on. Each has a pool of its own.
  unfoldable pub new_handles : Env P → ℕ → ℕ → List (SelectClientHandle P)
  new_handles env i zero = []
  new_handles env i (suc n) = Handle.init i env ∷ new_handles env (suc i) n

  -- `none`: the new handles would read queues of before, which are deleted or have other readers.
  unfoldable pub init_server : Env P → ℤ → SelectServerThread P → Option (ℤ × SelectServerThread P)
  unfolding new_handles
  init_server env thread_num s =
      if ltb_ℤ thread_num (ℤ.pos 1)
      then some (ℤ.negsuc 0, s)
      else if ltb 0 s.queue_num
      then none
      else (let n = pos_part thread_num in
          some (
            ℤ.pos 0,
            record s { handles = s.handles ++ new_handles env 0 n; queue_num = s.queue_num + n },
          ))

  unfoldable pub is_run : SelectServerThread P → Bool
  is_run s = elim s.server_sock [ none ↦ false | some _ ↦ true ]

  -- The loop of a report: the counters of the handles are added up, and three of them set back.
  unfoldable pub add_up : List (SelectClientHandle P) → Totals → Totals
  add_up [] t = t
  add_up (h ∷ hs) t =
      let k = h.env.counters in
      add_up hs (record {
        msg_times = t.msg_times + k.msg_times;
        send_times = t.send_times + k.send_times;
        send_queue_size = t.send_queue_size +ℤ k.send_queue_size;
        client_count = t.client_count +ℤ h.test_client_count;
        recv_times = t.recv_times + k.recv_times;
      })

  unfoldable pub reset_all : List (SelectClientHandle P) → List (SelectClientHandle P)
  reset_all [] = []
  reset_all (h ∷ hs) =
      let env = h.env in
      record h { env = record env { counters = reset_counters env.counters } } ∷ reset_all hs

  -- A report, if `second_gone` says that one is due.
  unfoldable pub report : Bool → SelectServerThread P → SelectServerThread P
  unfolding reset_all
  report second_gone s = record s {
    handles = if second_gone then reset_all s.handles else s.handles;
  }

  -- Behind `select`: a client that has been accepted goes to a handle.
  unfoldable pub take_client : Option ℕ → SelectServerThread P → Outcome (ℤ × SelectServerThread P)
  take_client none s = gives (ℤ.pos 0, s)
  take_client (some sock) s = elim (accept s.handles sock) [
    | none ↦ undefined
    | some hs ↦ gives (ℤ.pos 0, record s { handles = hs })
  ]

  -- `n` is what `select` returns, `readable` whether a client waits, and `new` what `accept`
  -- returns.
  unfoldable pub on_run :
      (SelectClientHandle P → Turn P)
      → Bool
      → ℤ
      → Bool
      → Option ℕ
      → SelectServerThread P
      → Outcome (ℤ × SelectServerThread P)
  unfolding close_failed report take_client
  on_run last_rounds second_gone n readable new s = elim s.server_sock [
    | none ↦ gives (ℤ.negsuc 0, s)
    | some _ ↦
        if ltb_ℤ n (ℤ.pos 0)
        then close_failed last_rounds (report second_gone s)
        else if readable
        then take_client new (report second_gone s)
        else gives (ℤ.pos 0, report second_gone s)
  ]

  -- Every handle tells its clients; `excluded` is by the places of the handle and of the client.
  unfoldable pub broadcast_handles :
      (ℕ → ℕ → Bool) → Bytes → ℕ → List (SelectClientHandle P) → List (SelectClientHandle P)
  broadcast_handles excluded msg i [] = []
  broadcast_handles excluded msg i (h ∷ hs) =
      Turn.broadcast (excluded i) msg h ∷ broadcast_handles excluded msg (suc i) hs

  unfoldable pub broadcast : (ℕ → ℕ → Bool) → Bytes → SelectServerThread P → SelectServerThread P
  unfolding broadcast_handles
  broadcast excluded msg s = elim s.server_sock [
    | none ↦ s
    | some _ ↦ record s { handles = broadcast_handles excluded msg 0 s.handles }
  ]
