-- ===== src/Queue/Refine.antt =====
-- `MyQueue` does what `IQueue` promises: its operations are those on the list of its contents.
use select_mode_network.Base.{
  NotIn, ℕ, suc, ◌+◌, ◌-◌, ◌%◌, ◌<◌, ◌≡◌, refl, ap, sym, subst, ◌∙◌, none, some, List, [], ◌∷◌,
  arith, length, ltb,
}
use select_mode_network.Buffer.Data.{Ptr}
use select_mode_network.Queue.Api
use select_mode_network.Queue.Linked.{NodePool, QueueNode, MyQueue, size_limit, write}
use select_mode_network.Queue.Linked

-- The nodes from `p` on stand at the addresses `at`.
abbrev pub Chain : {T : Type 0} → (ℕ → QueueNode T) → Ptr → List ℕ → Type 0
Chain nodes p [] = p ≡ none
Chain nodes p (a ∷ at) = (p ≡ some a) × Chain nodes (nodes a).next at

abbrev pub values : {T : Type 0} → (ℕ → QueueNode T) → List ℕ → List T
values nodes [] = []
values nodes (a ∷ at) = (nodes a).value ∷ values nodes at

pub length-values :
    {T : Type 0} (nodes : ℕ → QueueNode T) (at : List ℕ) → length (values nodes at) ≡ length at
length-values nodes [] = refl
length-values nodes (a ∷ at) = ap suc (length-values nodes at)

abbrev pub last_of : List ℕ → Ptr
last_of [] = none
last_of (a ∷ []) = some a
last_of (a ∷ (b ∷ at)) = last_of (b ∷ at)

-- The nodes are in use, and each is there once.
abbrev pub Owned : (P : NodePool) → P.State → List ℕ → Type 0
Owned P s [] = Unit {0}
Owned P s (a ∷ at) = P.Live s a × NotIn a at × Owned P s at

-- The nodes of the queue stand at the addresses `at`.
pub record Stands {P : NodePool} {T : Type 0} (q : MyQueue P T) (at : List ℕ) : Type 0 where
  pub chain : Chain q.nodes q.head at
  pub ends : q.tail ≡ last_of at
  pub counts : q.size ≡ length at
  pub owned : Owned P q.pool at
  pub small : length at < size_limit

-- The queue is the list `xs`.
pub record Represents {P : NodePool} {T : Type 0} (q : MyQueue P T) (xs : List T) : Type 0 where
  pub at : List ℕ
  pub stands : Stands q at
  pub holds : values q.nodes at ≡ xs

Owned-free :
    (P : NodePool) (s : P.State) (p : ℕ) (at : List ℕ)
    → NotIn p at
    → Owned P s at
    → Owned P (P.free s p) at
Owned-free P s p [] h o = tt
Owned-free P s p (a ∷ at) h o =
    (P.free_old s p a o.0 (λ e. h.0 (sym e)), o.1, Owned-free P s p at h.1 o.2)

tail_after-last :
    {T : Type 0} (nodes : ℕ → QueueNode T) (a : ℕ) (p : Ptr) (at : List ℕ)
    → Chain nodes p at
    → Linked.tail_after p (last_of (a ∷ at)) ≡ last_of at
tail_after-last nodes a p [] c = rw c refl
tail_after-last nodes a p (b ∷ at) c = rw c.0 refl

module _ {P : NodePool} {T : Type 0} (d : T) where
  -- The queue without its first node.
  abbrev popped : MyQueue P T → ℕ → MyQueue P T
  popped q h = record {
    size = (q.size + (size_limit - 1)) % size_limit;
    head = (q.nodes h).next;
    tail = Linked.tail_after (q.nodes h).next q.tail;
    nodes = q.nodes;
    pool = P.free q.pool h;
  }

  pop-head :
      (q : MyQueue P T) (p : Ptr)
      → q.head ≡ p
      → Linked.pop d q ≡ (elim p [ none ↦ (d, q) | some h ↦ ((q.nodes h).value, popped q h) ])
  unfolding Linked.pop
  pop-head q p e = ap (λ t. elim t [ none ↦ (d, q) | some h ↦ ((q.nodes h).value, popped q h) ]) e

  popped-Stands :
      (q : MyQueue P T) (a : ℕ) (at : List ℕ) → Stands q (a ∷ at) → Stands (popped q a) at
  popped-Stands q a at v = record {
    chain = v.chain.1;
    ends =
        ap (λ t. Linked.tail_after (q.nodes a).next t) v.ends
        ∙ tail_after-last q.nodes a (q.nodes a).next at v.chain.1;
    counts = omega (arith, v.counts, v.small);
    owned = Owned-free P q.pool a at v.owned.1 v.owned.2;
    small = omega (arith, v.small);
  }

  -- What a call of `pop` leads to.
  abbrev pub Pops : List T → T × MyQueue P T → Type 0
  Pops xs r = (r.0 ≡ (Api.pop d xs).0) × Represents r.1 (Api.pop d xs).1

  -- `pop` returns what `pop` on the list of the contents returns, and leaves what that leaves.
  pub pop-Represents : (q : MyQueue P T) (xs : List T) → Represents q xs → Pops xs (Linked.pop d q)
  unfolding Api.pop
  pop-Represents q xs v = subst (λ t. Pops t (Linked.pop d q)) v.holds (go v.at v.stands)
    where
      go : (at : List ℕ) → Stands q at → Pops (values q.nodes at) (Linked.pop d q)
      go [] s =
          subst (λ r. Pops [] r) (sym (pop-head q none s.chain))
            (refl, record { at = []; stands = s; holds = refl })
      go (a ∷ at) s =
          subst (λ r. Pops (values q.nodes (a ∷ at)) r) (sym (pop-head q (some a) s.chain.0))
            (refl, record { at = at; stands = popped-Stands q a at s; holds = refl })

  -- `front` returns what `front` on the list of the contents returns.
  pub front-Represents :
      (q : MyQueue P T) (xs : List T)
      → Represents q xs
      → (Linked.front d q ≡ Api.front d xs)
        × (Linked.has_data q ≡ Api.has_data xs)
        × (Linked.size q ≡ Api.size xs)
  unfolding Api.front Linked.front Linked.has_data Api.has_data Linked.size Api.size
  front-Represents q xs v =
      subst
        (λ t.
          (Linked.front d q ≡ Api.front d t)
          × (Linked.has_data q ≡ Api.has_data t)
          × (Linked.size q ≡ Api.size t))
        v.holds (go v.at v.stands)
    where
      counted : (at : List ℕ) → Stands q at → q.size ≡ length (values q.nodes at)
      counted at s = s.counts ∙ sym (length-values q.nodes at)

      head_value :
          (p : Ptr)
          → q.head ≡ p
          → Linked.front d q ≡ (elim p [ none ↦ d | some h ↦ (q.nodes h).value ])
      head_value p e = ap (λ t. elim t [ none ↦ d | some h ↦ (q.nodes h).value ]) e

      first : (at : List ℕ) → Stands q at → Linked.front d q ≡ Api.front d (values q.nodes at)
      first [] s = head_value none s.chain
      first (a ∷ at) s = head_value (some a) s.chain.0

      go :
          (at : List ℕ)
          → Stands q at
          → (Linked.front d q ≡ Api.front d (values q.nodes at))
            × (Linked.has_data q ≡ Api.has_data (values q.nodes at))
            × (Linked.size q ≡ Api.size (values q.nodes at))
      go at s = (first at s, ap (λ n. ltb 0 n) (counted at s), counted at s)
