-- ===== src/Queue/Linked.antt =====
-- `MyQueue` of CommonLib/MyQueue.h: a linked list whose nodes come from a pool. The fields of the
-- nodes are a function of their address. A write through a null pointer is `none`.
use select_mode_network.Base.{
  ℕ, ◌+◌, ◌-◌, ◌%◌, ◌≢◌, Bool, Option, none, some, if◌then◌else◌, ltb, ◌==◌,
}
use select_mode_network.Base.Int.{ℤ}
use select_mode_network.Buffer.Data.{Ptr}

-- What the queue relies on of `MemoryPool`: a node that `Alloc` returns is not in use, and stays in
-- use until it is freed.
pub record NodePool : Type 1 where
  pub State : Type 0
  pub Live : State → ℕ → Type 0
  pub alloc : State → ℕ × State
  pub free : State → ℕ → State
  pub free_all : State → State
  pub alloc_fresh : (s : State) → ¬ Live s (alloc s).0
  pub alloc_new : (s : State) → Live (alloc s).1 (alloc s).0
  pub alloc_old : (s : State) (a : ℕ) → Live s a → Live (alloc s).1 a
  pub free_old : (s : State) (p a : ℕ) → Live s a → a ≢ p → Live (free s p) a

-- `QueueNode<T>`
pub record QueueNode (T : Type 0) : Type 0 where
  pub value : T
  pub next : Ptr

-- `_size` is a `size_t` of 64 bits.
abbrev pub size_limit : ℕ
size_limit = 18446744073709551616

pub record MyQueue (P : NodePool) (T : Type 0) : Type 0 where
  pub size : ℕ
  pub head : Ptr
  pub tail : Ptr
  pub nodes : ℕ → QueueNode T
  pub pool : P.State

abbrev pub write : {T : Type 0} → (ℕ → QueueNode T) → ℕ → QueueNode T → ℕ → QueueNode T
write nodes p n a = if a == p then n else nodes a

abbrev pub add_size : ℕ → ℤ → ℕ
add_size n (ℤ.pos k) = (n + k) % size_limit
add_size n (ℤ.negsuc k) = (n + (size_limit - 1 - k % size_limit)) % size_limit

-- A queue that becomes empty has no tail.
abbrev pub tail_after : Ptr → Ptr → Ptr
tail_after none t = none
tail_after (some _) t = t

module _ {P : NodePool} {T : Type 0} where
  -- The constructor, on memory that holds some nodes.
  unfoldable pub init : (ℕ → QueueNode T) → P.State → MyQueue P T
  init nodes pool = record { size = 0; head = none; tail = none; nodes = nodes; pool = pool }

  unfoldable pub clear : MyQueue P T → MyQueue P T
  clear q = record q { size = 0; head = none; tail = none; pool = P.free_all q.pool }

  -- With a head, the new node is linked behind the tail.
  unfoldable pub push : MyQueue P T → T → Option (MyQueue P T)
  push q x =
      let (p, pool') = P.alloc q.pool in
      let size' = (q.size + 1) % size_limit in
      let last : QueueNode T = record { value = x; next = none } in
      elim q.head [
        | none ↦ some (record {
          size = size';
          head = some p;
          tail = some p;
          nodes = write q.nodes p last;
          pool = pool';
        })
        | some h ↦ elim q.tail [
          | none ↦ none
          | some t ↦ some (record {
            size = size';
            head = some h;
            tail = some p;
            nodes =
                write (write q.nodes t (record { value = (q.nodes t).value; next = some p })) p
                  last;
            pool = pool';
          })
        ]
      ]

  -- `d` is `T()`.
  unfoldable pub front : T → MyQueue P T → T
  front d q = elim q.head [ none ↦ d | some h ↦ (q.nodes h).value ]

  unfoldable pub pop : T → MyQueue P T → T × MyQueue P T
  pop d q = elim q.head [
    | none ↦ (d, q)
    | some h ↦ (
      (q.nodes h).value,
      record {
        size = (q.size + (size_limit - 1)) % size_limit;
        head = (q.nodes h).next;
        tail = tail_after (q.nodes h).next q.tail;
        nodes = q.nodes;
        pool = P.free q.pool h;
      },
    )
  ]

  -- `_size += n`, where the `int` becomes a `size_t`.
  unfoldable pub manual_size : ℤ → MyQueue P T → MyQueue P T
  manual_size n q = record q { size = add_size q.size n }

  unfoldable pub get_head : MyQueue P T → Ptr
  get_head q = q.head

  unfoldable pub size : MyQueue P T → ℕ
  size q = q.size

  unfoldable pub has_data : MyQueue P T → Bool
  has_data q = ltb 0 q.size
