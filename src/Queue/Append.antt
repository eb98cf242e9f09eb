-- ===== src/Queue/Append.antt =====
-- `MyQueue::push` puts the new value behind the contents.
use select_mode_network.Base.{
  some-injective, NotIn, ℕ, suc, ◌+◌, ◌%◌, ◌<◌, ◌≡◌, ◌≢◌, refl, ap, ap₂, sym, subst, ◌∙◌, none,
  some, List, [], ◌∷◌, ◌++◌, arith, length, length-append,
}
use select_mode_network.Buffer.Data.{Ptr}
use select_mode_network.Queue.Api
use select_mode_network.Queue.Linked.{NodePool, QueueNode, MyQueue, size_limit, write}
use select_mode_network.Queue.Linked
use select_mode_network.Queue.Refine.{Chain, values, last_of, Owned, Stands, Represents}

-- The last of a list is in it.
last_of-other : (a t : ℕ) (at : List ℕ) → NotIn a at → last_of at ≡ some t → a ≢ t
last_of-other a t [] h e same = absurd (cc e)
last_of-other a t (b ∷ []) h e same = h.0 (same ∙ sym (some-injective e))
last_of-other a t (b ∷ (c ∷ at)) h e same = last_of-other a t (c ∷ at) h.1 e same

-- A new node at `p` behind the tail `t`.
module _ {T : Type 0} (nodes : ℕ → QueueNode T) (x : T) (t p : ℕ) where
  abbrev last : QueueNode T
  last = record { value = x; next = none }

  abbrev linked : QueueNode T
  linked = record { value = (nodes t).value; next = some p }

  abbrev appended : ℕ → QueueNode T
  appended = write (write nodes t linked) p last

  at_new : appended p ≡ last
  at_new = ground arith

  at_tail : t ≢ p → appended t ≡ linked
  at_tail h = ground arith

  at_other : (a : ℕ) → a ≢ p → a ≢ t → appended a ≡ nodes a
  at_other a h k = ground arith

  module _ (P : NodePool) (s : P.State) where
    appended-Chain :
        (a : ℕ) (at : List ℕ) (k : Ptr)
        → Chain nodes k (a ∷ at)
        → last_of (a ∷ at) ≡ some t
        → NotIn p (a ∷ at)
        → Owned P s (a ∷ at)
        → Chain appended k ((a ∷ at) ++ (p ∷ []))
    appended-Chain a [] k c e n o =
        let here : a ≡ t = some-injective e in
        (
          c.0,
          (
            ap (λ i. (appended i).next) here
                ∙ ap (λ m. m.next) (at_tail (λ f. n.0 (sym f ∙ sym here))),
            ap (λ m. m.next) at_new,
          ),
        )
    appended-Chain a (b ∷ at) k c e n o =
        let same = at_other a (λ f. n.0 (sym f)) (last_of-other a t (b ∷ at) o.1 e) in
        (
          c.0,
          subst (λ m. Chain appended m ((b ∷ at) ++ (p ∷ []))) (ap (λ m. m.next) (sym same))
              (appended-Chain b at (nodes a).next c.1 e n.1 o.2),
        )

    appended-values :
        (a : ℕ) (at : List ℕ)
        → last_of (a ∷ at) ≡ some t
        → NotIn p (a ∷ at)
        → Owned P s (a ∷ at)
        → values appended ((a ∷ at) ++ (p ∷ [])) ≡ values nodes (a ∷ at) ++ (x ∷ [])
    appended-values a [] e n o =
        let here : a ≡ t = some-injective e in
        ap₂ (λ m k. m ∷ (k ∷ []))
          (ap (λ i. (appended i).value) here
            ∙ ap (λ m. m.value) (at_tail (λ f. n.0 (sym f ∙ sym here)))
            ∙ ap (λ i. (nodes i).value) (sym here))
          (ap (λ m. m.value) at_new)
    appended-values a (b ∷ at) e n o =
        let same = at_other a (λ f. n.0 (sym f)) (last_of-other a t (b ∷ at) o.1 e) in
        ap₂ (λ m k. m ∷ k) (ap (λ m. m.value) same) (appended-values b at e n.1 o.2)

last_of-append : (a : ℕ) (at : List ℕ) (p : ℕ) → last_of ((a ∷ at) ++ (p ∷ [])) ≡ some p
last_of-append a [] p = refl
last_of-append a (b ∷ at) p = last_of-append b at p

has_last : (a : ℕ) (at : List ℕ) → (t : ℕ) × (last_of (a ∷ at) ≡ some t)
has_last a [] = (a, refl)
has_last a (b ∷ at) = has_last b at

NotIn-append : (n p : ℕ) (at : List ℕ) → NotIn n at → n ≢ p → NotIn n (at ++ (p ∷ []))
NotIn-append n p [] h k = (k, tt)
NotIn-append n p (a ∷ at) h k = (h.0, NotIn-append n p at h.1 k)

-- A new node is none of the nodes in use.
module _ (P : NodePool) (s : P.State) where
  fresh-NotIn : (at : List ℕ) → Owned P s at → NotIn (P.alloc s).0 at
  fresh-NotIn [] o = tt
  fresh-NotIn (a ∷ at) o =
      ((λ e. P.alloc_fresh s (subst (λ n. P.Live s n) (sym e) o.0)), fresh-NotIn at o.2)

  Owned-append : (at : List ℕ) → Owned P s at → Owned P (P.alloc s).1 (at ++ ((P.alloc s).0 ∷ []))
  Owned-append [] o = (P.alloc_new s, tt, tt)
  Owned-append (a ∷ at) o = (
    P.alloc_old s a o.0,
    NotIn-append a (P.alloc s).0 at o.1 (λ e. (fresh-NotIn (a ∷ at) o).0 (sym e)),
    Owned-append at o.2,
  )

length-values :
    {T : Type 0} (nodes : ℕ → QueueNode T) (at : List ℕ) → length (values nodes at) ≡ length at
length-values nodes [] = refl
length-values nodes (a ∷ at) = ap suc (length-values nodes at)

module _ {P : NodePool} {T : Type 0} (q : MyQueue P T) (x : T) where
  abbrev fresh : ℕ
  fresh = (P.alloc q.pool).0

  abbrev pushed : ℕ → Ptr → (ℕ → QueueNode T) → MyQueue P T
  pushed p h nodes = record {
    size = (q.size + 1) % size_limit;
    head = h;
    tail = some p;
    nodes = nodes;
    pool = (P.alloc q.pool).1;
  }

  push-empty :
      q.head ≡ none
      → Linked.push q x
        ≡ some (pushed fresh (some fresh) (write q.nodes fresh (record { value = x; next = none })))
  unfolding Linked.push
  push-empty e = rw (e, Linked.push) refl

  push-behind :
      (h t : ℕ)
      → q.head ≡ some h
      → q.tail ≡ some t
      → Linked.push q x ≡ some (pushed fresh (some h) (appended q.nodes x t fresh))
  unfolding Linked.push
  push-behind h t e f = rw (e, f, Linked.push) refl

  -- `push` on a queue that is not full does not fail, and leaves what `push` on the list of the
  -- contents leaves.
  pub push-Represents :
      (xs : List T)
      → Represents q xs
      → suc (length xs) < size_limit
      → (q' : MyQueue P T) × (Linked.push q x ≡ some q') × Represents q' (Api.push xs x)
  unfolding Api.push
  push-Represents xs v room =
      subst
        (λ t.
          suc (length t) < size_limit
          → (q' : MyQueue P T) × (Linked.push q x ≡ some q') × Represents q' (t ++ (x ∷ [])))
        v.holds (λ r. go v.at v.stands (omega (arith, length-values q.nodes v.at))) room
    where
      go :
          (at : List ℕ)
          → Stands q at
          → suc (length at) < size_limit
          → (q' : MyQueue P T) × (Linked.push q x ≡ some q')
            × Represents q' (values q.nodes at ++ (x ∷ []))
      go [] s r = (
        pushed fresh (some fresh) (write q.nodes fresh (last q.nodes x fresh fresh)),
        push-empty s.chain,
        record {
          at = fresh ∷ [];
          stands = record {
            chain = (refl, ap (λ m. m.next) (written fresh (last q.nodes x fresh fresh)));
            ends = refl;
            counts = omega (arith, s.counts, r);
            owned = Owned-append P q.pool [] tt;
            small = omega (arith, r);
          };
          holds = ap (λ m. m.value ∷ []) (written fresh (last q.nodes x fresh fresh));
        },
      )
        where
          written : (p : ℕ) (n : QueueNode T) → write q.nodes p n p ≡ n
          written p n = ground arith
      go (a ∷ at) s r =
          let (t, e) = has_last a at in
          let new = fresh-NotIn P q.pool (a ∷ at) s.owned in
          (
            pushed fresh (some a) (appended q.nodes x t fresh),
            push-behind a t s.chain.0 (s.ends ∙ e),
            record {
              at = (a ∷ at) ++ (fresh ∷ []);
              stands = record {
                chain =
                    appended-Chain q.nodes x t fresh P q.pool a at (some a) (refl, s.chain.1) e new
                      s.owned;
                ends = sym (last_of-append a at fresh);
                counts = omega (arith, s.counts, r, length-append (a ∷ at) (fresh ∷ []));
                owned = Owned-append P q.pool (a ∷ at) s.owned;
                small = omega (arith, r, length-append (a ∷ at) (fresh ∷ []));
              };
              holds = appended-values q.nodes x t fresh P q.pool a at e new s.owned;
            },
          )
