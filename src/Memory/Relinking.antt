-- ===== src/Memory/Relinking.antt =====
-- The end of `MemoryPool::Free` that makes a block the head of the list.
use select_mode_network.Base.{
  NotIn, ℕ, ◌≡◌, inl, inr, refl, subst, sym, ap, ◌∙◌, some, none, List, [], ◌∷◌, ℕ_discrete, Option,
  leb, if◌then◌else◌, Bool-cases,
}
use select_mode_network.Memory.FreeList.{Distinct}
use select_mode_network.Memory.Members.{
  In, NotIn-apart, without, In-without, without-In, NotIn-without, without-NotIn, without-Distinct,
}
use select_mode_network.Memory.Pool.{BlockHeap, MemoryPool, raise, bring, unlink, link_front}
use select_mode_network.Memory.Links.{
  Linked, link_front-Linked, unlink-Linked, next_after, pre_after,
}
use select_mode_network.Memory.Blocks.{Holds, InUse}

-- The pool that results holds the same units.
pub record Keeps {H : BlockHeap} (m : MemoryPool H) (bs : List ℕ) (fs : ℕ → List ℕ)
    (r : Option (MemoryPool H)) : Type 0 where
  pub after : MemoryPool H
  pub runs : r ≡ some after
  pub blocks : List ℕ
  pub holds : Holds after blocks fs
  pub stay : (c j : ℕ) → InUse m.block bs fs c j → InUse after.block blocks fs c j
  pub only : (c j : ℕ) → InUse after.block blocks fs c j → InUse m.block bs fs c j

module _ {H : BlockHeap} (m : MemoryPool H) (h : ℕ) (xs : List ℕ) (fs : ℕ → List ℕ) (a : ℕ) where
  -- Behind the head, in front of it.
  moved : In a xs → (c : ℕ) → In c (h ∷ xs) → In c (a ∷ (h ∷ without a xs))
  moved m c (inl e) = inr (inl e)
  moved m c (inr k) = elim (ℕ_discrete c a) [
    | yes s ↦ inl s
    | no o ↦ inr (inr (In-without a c xs k o))
  ]

  moved_back : In a xs → (c : ℕ) → In c (a ∷ (h ∷ without a xs)) → In c (h ∷ xs)
  moved_back m c (inl e) = inr (subst (λ t. In t xs) (sym e) m)
  moved_back m c (inr (inl e)) = inl e
  moved_back m c (inr (inr k)) = inr (without-In a c xs k).0

  bring-pre : (q : ℕ) → m.pre a ≡ some q → bring m a h ≡ link_front (unlink m a q) a h
  unfolding bring
  bring-pre q e =
      ap (λ t. elim t as (λ x. MemoryPool H) [ none ↦ m | some p ↦ link_front (unlink m a p) a h ])
        e

  bring-head : m.pre a ≡ none → bring m a h ≡ m
  unfolding bring
  bring-head e =
      ap (λ t. elim t as (λ x. MemoryPool H) [ none ↦ m | some p ↦ link_front (unlink m a p) a h ])
        e

  module _ (v : Holds m (h ∷ xs) fs) where
    bring-Holds :
        (k : In a xs) (q : ℕ)
        → Linked
            (next_after m.next m.pre a q)
            (pre_after m.next m.pre a q)
            none
            m.head
            (h ∷ without a xs)
        → Holds (link_front (unlink m a q) a h) (a ∷ (h ∷ without a xs)) fs
    unfolding link_front unlink
    bring-Holds k q l =
        let out : NotIn a (h ∷ without a xs) =
          ((λ s. NotIn-apart h a xs v.distinct.0 k (sym s)), NotIn-without a xs) in
        let d : Distinct (h ∷ without a xs) =
          (without-NotIn a h xs v.distinct.0, without-Distinct a xs v.distinct.1) in
        record {
          linked =
              link_front-Linked (next_after m.next m.pre a q) (pre_after m.next m.pre a q) a h
                (without a xs) m.head l d out;
          distinct = (out, d);
          frees = λ c i. v.frees c (moved_back k c i);
          sized = λ c i. v.sized c (moved_back k c i);
          live = λ c i. v.live c (moved_back k c i);
          initial = moved k m.init_head v.initial;
          grows = v.grows;
        }

    bring-Keeps : In a (h ∷ xs) → Keeps m (h ∷ xs) fs (some (bring m a h))
    unfolding link_front unlink
    bring-Keeps (inl s) = record {
      after = m;
      runs = ap some (bring-head (ap m.pre s ∙ v.linked.1));
      blocks = h ∷ xs;
      holds = v;
      stay = λ c j u. u;
      only = λ c j u. u;
    }
    bring-Keeps (inr k) =
        let (q, e, i, l) = unlink-Linked m.next m.pre a none m.head h xs v.linked v.distinct k in
        record {
          after = link_front (unlink m a q) a h;
          runs = ap some (bring-pre q e);
          blocks = a ∷ (h ∷ without a xs);
          holds = bring-Holds k q l;
          stay = λ c j u. (moved k c u.0, u.1, u.2);
          only = λ c j u. (moved_back k c u.0, u.1, u.2);
        }

raise-at_head :
    {H : BlockHeap} (m : MemoryPool H) (a h : ℕ)
    → m.head ≡ some h
    → raise m a ≡ some (if leb (m.block h).free 0 then bring m a h else m)
unfolding raise
raise-at_head {H} m a h e =
    ap
      (λ t. elim t as (λ x. Option (MemoryPool H)) [
        | none ↦ none
        | some h ↦ some (if leb (m.block h).free 0 then bring m a h else m)
      ])
      e

pub raise-Keeps :
    {H : BlockHeap} (m : MemoryPool H) (bs : List ℕ) (fs : ℕ → List ℕ) (a : ℕ)
    → Holds m bs fs
    → In a bs
    → Keeps m bs fs (raise m a)
raise-Keeps m [] fs a v k = elim k [ ]
raise-Keeps {H} m (h ∷ xs) fs a v k =
    subst (λ t. Keeps m (h ∷ xs) fs t) (sym (raise-at_head m a h v.linked.0))
      (elim (Bool-cases (leb (m.block h).free 0)) [
        | inl e ↦
            subst (λ t. Keeps m (h ∷ xs) fs (some (if t then bring m a h else m))) (sym e)
              (bring-Keeps m h xs fs a v k)
        | inr e ↦
            subst (λ t. Keeps m (h ∷ xs) fs (some (if t then bring m a h else m))) (sym e)
              (record {
                after = m;
                runs = refl;
                blocks = h ∷ xs;
                holds = v;
                stay = λ c j u. u;
                only = λ c j u. u;
              })
      ])
