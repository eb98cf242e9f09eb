-- ===== src/SelectServerThread/Balance.antt =====
-- A new client goes to a handle with the fewest clients.
use select_mode_network.Base.{
  ℕ, zero, suc, ◌+◌, ◌≤◌, ◌<◌, ◌≡◌, refl, ap, sym, ◌∙◌, some, List, [], ◌∷◌, ◌++◌, arith, ◌⊎◌, inl,
  inr, length, length-append, get_or, lt→ltb, le→ltb, dec_lt,
}
use select_mode_network.Memory.Api.{MemPool}
use select_mode_network.Queue.Api
use select_mode_network.SelectServerThread.Handle.{
  SelectClientHandle, QmClientState, join, get_client_num, min_loop, push_state, accept,
}

-- The handles are numbered from `n` on, as `InitServer` makes them.
abbrev pub Numbered : {P : MemPool} → ℕ → List (SelectClientHandle P) → Type 0
Numbered n [] = Unit {0}
Numbered n (h ∷ hs) = (h.handle_id ≡ n) × Numbered (suc n) hs

abbrev pub client_nums : {P : MemPool} → List (SelectClientHandle P) → List ℕ
client_nums [] = []
client_nums (h ∷ hs) = get_client_num h ∷ client_nums hs

-- `i` is the first place, from `n` on, of the least of the numbers and `m`, which stands for all
-- before `n` and is found at `j`.
record Least (n j m i : ℕ) (ns : List ℕ) : Type 0 where
  least : ℕ
  where_found :
      ((i ≡ j) × (least ≡ m))
      ⊎ ((k : ℕ) × (i ≡ n + k) × (k < length ns) × (get_or ns k 0 ≡ least) × (least < m))
  below : least ≤ m
  lowest : (k : ℕ) → k < length ns → least ≤ get_or ns k 0

lowest_of :
    (least num : ℕ) (ns : List ℕ)
    → least ≤ num
    → ((k : ℕ) → k < length ns → least ≤ get_or ns k 0)
    → (k : ℕ) → k < suc (length ns)
    → least ≤ get_or (num ∷ ns) k 0
lowest_of least num ns h rest zero l = h
lowest_of least num ns h rest (suc k) l = rest k (omega arith)

Least-fewer :
    (n j m i id num : ℕ) (ns : List ℕ)
    → id ≡ n
    → num < m
    → Least (suc n) id num i ns
    → Least n j m i (num ∷ ns)
Least-fewer n j m i id num ns e h l = record {
  least = l.least;
  where_found = elim l.where_found [
    | inl (at, is) ↦ inr (0, omega arith, omega arith, sym is, omega arith)
    | inr (k, at, within, is, less) ↦ inr (suc k, omega arith, omega arith, is, omega arith)
  ];
  below = omega (arith, l.below);
  lowest = lowest_of l.least num ns l.below l.lowest;
}

Least-same :
    (n j m i num : ℕ) (ns : List ℕ) → m ≤ num → Least (suc n) j m i ns → Least n j m i (num ∷ ns)
Least-same n j m i num ns h l = record {
  least = l.least;
  where_found = elim l.where_found [
    | inl (at, is) ↦ inl (at, is)
    | inr (k, at, within, is, less) ↦ inr (suc k, omega arith, omega arith, is, less)
  ];
  below = l.below;
  lowest = lowest_of l.least num ns (omega (arith, l.below)) l.lowest;
}

min_loop-Least :
    {P : MemPool} (hs : List (SelectClientHandle P)) (n j m : ℕ)
    → Numbered n hs
    → Least n j m (min_loop hs j m) (client_nums hs)
unfolding min_loop
min_loop-Least [] n j m h = record {
  least = m;
  where_found = inl (refl, refl);
  below = omega arith;
  lowest = λ k l. absurd (omega arith);
}
min_loop-Least (x ∷ hs) n j m h = elim (dec_lt (get_client_num x) m) [
  | yes fewer ↦ rw (lt→ltb (get_client_num x) m fewer) (
      Least-fewer n j m _ x.handle_id (get_client_num x) (client_nums hs) h.0 fewer
        (min_loop-Least hs (suc n) x.handle_id (get_client_num x) h.1))
  | no more ↦ rw (le→ltb (get_client_num x) m (omega arith)) (
      Least-same n j m _ (get_client_num x) (client_nums hs) (omega arith)
        (min_loop-Least hs (suc n) j m h.1))
]

-- The numbers with one more at place `i`.
abbrev pub one_more_at : ℕ → List ℕ → List ℕ
one_more_at i [] = []
one_more_at zero (n ∷ ns) = suc n ∷ ns
one_more_at (suc i) (n ∷ ns) = n ∷ one_more_at i ns

length-client_nums :
    {P : MemPool} (hs : List (SelectClientHandle P)) → length (client_nums hs) ≡ length hs
length-client_nums [] = refl
length-client_nums (h ∷ hs) = ap suc (length-client_nums hs)

-- Handle `i` has the message `s` behind those of its queue, and all else is as before.
pub record QueuedAt {P : MemPool} (i : ℕ) (s : QmClientState) (hs hs' : List (SelectClientHandle P))
    : Type 0 where
  pub before : List (SelectClientHandle P)
  pub target : SelectClientHandle P
  pub after : List (SelectClientHandle P)
  pub place : length before ≡ i
  pub were : hs ≡ before ++ (target ∷ after)
  pub are :
      hs' ≡ before ++ (record target { client_states = target.client_states ++ (s ∷ []) } ∷ after)

QueuedAt-further :
    {P : MemPool} (i : ℕ) (s : QmClientState) (h : SelectClientHandle P)
    (hs hs' : List (SelectClientHandle P))
    → QueuedAt i s hs hs'
    → QueuedAt (suc i) s (h ∷ hs) (h ∷ hs')
QueuedAt-further i s h hs hs' q = record {
  before = h ∷ q.before;
  target = q.target;
  after = q.after;
  place = ap suc q.place;
  were = ap (λ t. h ∷ t) q.were;
  are = ap (λ t. h ∷ t) q.are;
}

push_state_lem :
    {P : MemPool} (hs : List (SelectClientHandle P)) (i : ℕ) (s : QmClientState)
    → i < length hs
    → (hs' : List (SelectClientHandle P)) × (push_state hs i s ≡ some hs')
      × (client_nums hs' ≡ one_more_at i (client_nums hs))
      × QueuedAt i s hs hs'
unfolding push_state get_client_num Api.size Api.push
push_state_lem [] i s h = absurd (omega arith)
push_state_lem (x ∷ hs) zero s h = (
  _,
  refl,
  ap (λ n. n ∷ client_nums hs) (omega (arith, length-append x.client_states (s ∷ []))),
  record { before = []; target = x; after = hs; place = refl; were = refl; are = refl },
)
push_state_lem (x ∷ hs) (suc i) s h =
    let (hs', e, same, queued) = push_state_lem hs i s (omega arith) in
    (
      x ∷ hs',
      rw (e, push_state) refl,
      ap (λ ns. get_client_num x ∷ ns) same,
      QueuedAt-further i s x hs hs' queued,
    )

-- With handles that are numbered from 0, and at least one, an accepted client is queued for a handle
-- whose number of clients, those in its queue included, is the least: a Join message with its socket
-- goes behind those of the queue of that handle, and nothing else changes in any handle. The number
-- of clients of that handle grows by one, and no other changes.
pub accept-Least :
    {P : MemPool} (hs : List (SelectClientHandle P)) (sock : ℕ)
    → 0 < length hs
    → Numbered 0 hs
    → (i : ℕ) × (hs' : List (SelectClientHandle P)) × (i < length hs)
      × (accept hs sock ≡ some hs')
      × ((k : ℕ) → k < length hs → get_or (client_nums hs) i 0 ≤ get_or (client_nums hs) k 0)
      × (client_nums hs' ≡ one_more_at i (client_nums hs))
      × QueuedAt i (record { kind = join; client_sock = sock }) hs hs'
unfolding accept
accept-Least [] sock h numbered = absurd (omega arith)
accept-Least (x ∷ hs) sock h numbered =
    let i = min_loop (x ∷ hs) 0 (get_client_num x) in
    let l = min_loop-Least (x ∷ hs) 0 0 (get_client_num x) numbered in
    let size = length-client_nums (x ∷ hs) in
    let (within, is) = found i l in
    let (hs', e, same, queued) =
      push_state_lem (x ∷ hs) i (record { kind = join; client_sock = sock }) (omega arith) in
    (i, hs', omega arith, e, (λ k b. omega (arith, l.lowest k (omega arith))), same, queued)
  where
    found :
        (i : ℕ) (l : Least 0 0 (get_client_num x) i (client_nums (x ∷ hs)))
        → (i < length (client_nums (x ∷ hs))) × (get_or (client_nums (x ∷ hs)) i 0 ≡ l.least)
    found i l = elim l.where_found [
      | inl (at, is) ↦ (omega arith, ap (λ k. get_or (client_nums (x ∷ hs)) k 0) at ∙ sym is)
      | inr (k, at, within, is, less) ↦
          let here : i ≡ k = omega arith in
          (omega arith, ap (λ k. get_or (client_nums (x ∷ hs)) k 0) here ∙ is)
    ]
