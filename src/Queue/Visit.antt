-- ===== src/Queue/Visit.antt =====
-- A loop over a `SafeQueue`.
use select_mode_network.Base.{
  ℕ, zero, suc, ◌≤◌, ◌≡◌, ap, ◌∙◌, true, false, Option, none, some, List, [], ◌∷◌, arith, length,
  ◌<◌,
}
use select_mode_network.Base.Int.{ℤ}
use select_mode_network.Buffer.Data.{Ptr}
use select_mode_network.Queue.Linked.{NodePool, QueueNode, MyQueue}
use select_mode_network.Queue.Linked
use select_mode_network.Queue.Refine.{Chain, values, Represents, length-values}
use select_mode_network.Queue.Safe.{SafeQueue, manual_size, begin, end, next, get_val}

module _ {P : NodePool} {T : Type 0} (d : T) (counts : T → ℤ) where
  -- A loop `for (q.begin(); !q.end(); q.next())` that collects what `getVal` returns, and calls
  -- `manualSize` for it.
  visit_from : ℕ → SafeQueue P T → Option (List T)
  visit_from zero s = none
  visit_from (suc n) s =
      let x = get_val d s in
      elim (end s) [
        | true ↦ some []
        | false ↦ elim (visit_from n (next (manual_size (counts x) s)).1) [
          | none ↦ none
          | some xs ↦ some (x ∷ xs)
        ]
      ]

  unfoldable pub visit : ℕ → SafeQueue P T → Option (List T)
  unfolding visit_from
  visit n s = visit_from n (begin s)

  -- From the place `p` on, the values of the nodes along the chain.
  visit_from-values :
      (n : ℕ) (q : MyQueue P T) (p : Ptr) (at : List ℕ)
      → Chain q.nodes p at
      → length at ≤ n
      → visit_from (suc n) (record { queue = q; it = p }) ≡ some (values q.nodes at)
  unfolding visit_from end next get_val manual_size Linked.manual_size
  visit_from-values n q p [] c h = ap (λ t. visit_from (suc n) (record { queue = q; it = t })) c
  visit_from-values zero q p (a ∷ at) c h = absurd (omega arith)
  visit_from-values (suc n) q p (a ∷ at) c h =
      let v = (q.nodes a).value in
      ap (λ t. visit_from (suc (suc n)) (record { queue = q; it = t })) c.0
      ∙ ap (λ t. elim t as (λ x. Option (List T)) [ none ↦ none | some xs ↦ some (v ∷ xs) ])
          (visit_from-values n (Linked.manual_size (counts v) q) (q.nodes a).next at c.1
            (omega arith))

  -- The loop visits the contents of the queue, each once and in order, whatever sizes it sets.
  pub visit-Represents :
      (n : ℕ) (s : SafeQueue P T) (xs : List T)
      → Represents s.queue xs
      → length xs < n
      → visit n s ≡ some xs
  unfolding visit begin Linked.get_head
  visit-Represents zero s xs v h = absurd (omega arith)
  visit-Represents (suc n) s xs v h =
      visit_from-values n s.queue s.queue.head v.at v.stands.chain
        (omega (arith, length-values s.queue.nodes v.at, ap length v.holds))
      ∙ ap some v.holds
