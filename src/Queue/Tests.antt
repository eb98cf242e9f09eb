-- ===== src/Queue/Tests.antt =====
-- A queue over a pool that hands out one address after another.
use select_mode_network.Base.{ℕ, suc, ◌<◌, ◌≡◌, refl, some, none, [], ◌∷◌, arith}
use select_mode_network.Queue.Api
use select_mode_network.Queue.Linked.{NodePool, MyQueue, size_limit}
use select_mode_network.Queue.Linked
use select_mode_network.Queue.Refine.{Represents, Pops, pop-Represents}
use select_mode_network.Base.Int.{ℤ}
use select_mode_network.Queue.Visit.{visit, visit-Represents}
use select_mode_network.Queue.Append.{push-Represents}

abbrev bump : NodePool
bump = record {
  State = ℕ;
  Live = λ s a. a < s;
  alloc = λ s. (s, suc s);
  free = λ s p. s;
  free_all = λ s. s;
  alloc_fresh = λ s h. absurd (omega arith);
  alloc_new = λ s. omega arith;
  alloc_old = λ s a h. omega arith;
  free_old = λ s p a h n. h;
}

-- The values 7 and 8, in the nodes 4 and 2.
abbrev two : MyQueue bump ℕ
two = record {
  size = 2;
  head = some 4;
  tail = some 2;
  nodes = λ a. elim a [
    | suc (suc (suc (suc _))) ↦ record { value = 7; next = some 2 }
    | _ ↦ record { value = 8; next = none }
  ];
  pool = 9;
}

two-Represents : Represents two (7 ∷ 8 ∷ [])
two-Represents = record {
  at = 4 ∷ 2 ∷ [];
  stands = record {
    chain = (refl, (refl, refl));
    ends = refl;
    counts = refl;
    owned = (omega arith, ((λ e. absurd (omega arith)), tt), (omega arith, tt, tt));
    small = omega arith;
  };
  holds = refl;
}

push-Represents_example :
    (q' : MyQueue bump ℕ) × (Linked.push two 9 ≡ some q') × Represents q' (Api.push (7 ∷ 8 ∷ []) 9)
push-Represents_example = push-Represents two 9 (7 ∷ 8 ∷ []) two-Represents (omega arith)

pop-Represents_example : Pops 0 (7 ∷ 8 ∷ []) (Linked.pop 0 two)
pop-Represents_example = pop-Represents 0 two (7 ∷ 8 ∷ []) two-Represents

visit-Represents_example :
    visit 0 (λ x. ℤ.negsuc 0) 3 (record { queue = two; it = none }) ≡ some (7 ∷ 8 ∷ [])
visit-Represents_example =
    visit-Represents 0 (λ x. ℤ.negsuc 0) 3 (record { queue = two; it = none }) (7 ∷ 8 ∷ [])
      two-Represents (omega arith)
