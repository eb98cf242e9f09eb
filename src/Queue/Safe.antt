-- ===== src/Queue/Safe.antt =====
-- `SafeQueue` of CommonLib/SafeQueue.h: a `MyQueue` with a place in it, from which its values are
-- visited one after another. The locks are left out.
use select_mode_network.Base.{ℕ, Bool, true, false, Option, none, some, ltb}
use select_mode_network.Base.Int.{ℤ}
use select_mode_network.Buffer.Data.{Ptr}
use select_mode_network.Queue.Linked.{NodePool, QueueNode, MyQueue, size_limit}
use select_mode_network.Queue.Linked

pub record SafeQueue (P : NodePool) (T : Type 0) : Type 0 where
  pub queue : MyQueue P T
  pub it : Ptr

module _ {P : NodePool} {T : Type 0} where
  unfoldable pub push : SafeQueue P T → T → Option (SafeQueue P T)
  push s x = elim (Linked.push s.queue x) [
    | none ↦ none
    | some q ↦ some (record { queue = q; it = s.it })
  ]

  -- `d` is `T()`.
  unfoldable pub pop : T → SafeQueue P T → T × SafeQueue P T
  pop d s = let (x, q) = Linked.pop d s.queue in (x, record { queue = q; it = s.it })

  unfoldable pub front : T → SafeQueue P T → T
  front d s = Linked.front d s.queue

  unfoldable pub has_data : SafeQueue P T → Bool
  has_data s = ltb 0 (Linked.size s.queue)

  unfoldable pub size : SafeQueue P T → ℕ
  size s = Linked.size s.queue

  unfoldable pub clear : SafeQueue P T → SafeQueue P T
  clear s = record { queue = Linked.clear s.queue; it = s.it }

  unfoldable pub manual_size : ℤ → SafeQueue P T → SafeQueue P T
  manual_size n s = record { queue = Linked.manual_size n s.queue; it = s.it }

  unfoldable pub begin : SafeQueue P T → SafeQueue P T
  begin s = record { queue = s.queue; it = Linked.get_head s.queue }

  unfoldable pub end : SafeQueue P T → Bool
  end s = elim s.it [ none ↦ true | some _ ↦ false ]

  unfoldable pub next : SafeQueue P T → Bool × SafeQueue P T
  next s = elim s.it [
    | none ↦ (false, s)
    | some p ↦ (true, record { queue = s.queue; it = (s.queue.nodes p).next })
  ]

  unfoldable pub get_val : T → SafeQueue P T → T
  get_val d s = elim s.it [ none ↦ d | some p ↦ (s.queue.nodes p).value ]
