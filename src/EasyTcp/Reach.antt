-- ===== src/EasyTcp/Reach.antt =====
-- The counter of clients of an `EasyTcpServer` is the number of the clients of its threads, in every
-- state that accepted clients and turns of the threads lead to.
use select_mode_network.Base.{
  ℕ, zero, suc, ◌+◌, ◌≤◌, ◌<◌, ◌≡◌, refl, ap, sym, subst, ◌∙◌, Bool, Option, none, some, List, [],
  ◌∷◌, ◌++◌, arith, length, length-append, lt→ltb, le→ltb, dec_lt,
}
use select_mode_network.Base.Int.{pos_add_one, ℤ, ◌+ℤ◌}
use select_mode_network.Buffer.Data.{Bytes}
use select_mode_network.EasyTcp.MsgBuf.{Memcpy}
use select_mode_network.EasyTcp.Server.{
  CellClient, Counts, CellServer, EasyTcpServer, goes, get_client_count, turn, add_client, add_at,
  min_server, on_net_join, new_client, add_client_to_cell_server, accept,
}
use select_mode_network.EasyTcp.Counting.{CountsTurn, turn-CountsTurn}

-- The clients of all the threads, those that wait included.
abbrev pub total : List CellServer → ℕ
total [] = 0
total (s ∷ ss) = get_client_count s + total ss

-- A client is accepted, or a thread, between others, has a turn and goes on.
pub data Step (s : EasyTcpServer) : EasyTcpServer → Type 0 where
  accepts : (new : Option ℕ) {t : EasyTcpServer} → accept new s ≡ some t → Step s t
  turns :
      (memcpy : Memcpy) (fuel : ℕ) (ret : ℤ) (readable : ℕ → Bool) (recv : ℕ → ℕ → Option Bytes)
      (before after : List CellServer) (c : CellServer) {c' : CellServer} {k : Counts}
      → s.cell_servers ≡ before ++ (c ∷ after)
      → turn memcpy fuel ret readable recv c s.counts ≡ goes c' k
      → Step s (record s { cell_servers = before ++ (c' ∷ after); counts = k })

pub data Reach (s : EasyTcpServer) : EasyTcpServer → Type 0 where
  here : Reach s s
  further : {t u : EasyTcpServer} → Reach s t → Step t u → Reach s u

abbrev pub Counted : EasyTcpServer → Type 0
Counted s = s.counts.client_count ≡ ℤ.pos (total s.cell_servers)

total-append : (xs ys : List CellServer) → total (xs ++ ys) ≡ total xs + total ys
total-append [] ys = omega arith
total-append (x ∷ xs) ys = omega (arith, total-append xs ys)

min_server-bound :
    (ss : List CellServer) (i best m bound : ℕ)
    → best < bound
    → i + length ss ≤ bound
    → min_server ss i best m < bound
unfolding min_server
min_server-bound [] i best m bound h k = h
min_server-bound (s ∷ ss) i best m bound h k = elim (dec_lt (get_client_count s) m) [
  | yes fewer ↦
      rw (lt→ltb (get_client_count s) m fewer)
        (min_server-bound ss (suc i) i (get_client_count s) bound (omega arith) (omega arith))
  | no more ↦
      rw (le→ltb (get_client_count s) m (omega arith))
        (min_server-bound ss (suc i) best m bound h (omega arith))
]

add_at-total :
    (ss : List CellServer) (i : ℕ) (c : CellClient)
    → i < length ss
    → total (add_at ss i c) ≡ suc (total ss)
unfolding add_at add_client get_client_count
add_at-total [] i c h = absurd (omega arith)
add_at-total (s ∷ ss) zero c h = omega (arith, length-append s.clients_buff (c ∷ []))
add_at-total (s ∷ ss) (suc i) c h = omega (arith, add_at-total ss i c (omega arith))

abbrev CountedIfSome : Option EasyTcpServer → Type 0
CountedIfSome none = Unit {0}
CountedIfSome (some t) = Counted t

add_client-Counted :
    (c : CellClient) (s : EasyTcpServer) → Counted s → CountedIfSome (add_client_to_cell_server c s)
unfolding add_client_to_cell_server on_net_join
add_client-Counted c s h = go s.cell_servers refl
  where
    go :
        (ss : List CellServer)
        → s.cell_servers ≡ ss
        → CountedIfSome (elim ss [
          | [] ↦ none
          | t ∷ ts ↦ some (record s {
            cell_servers = add_at (t ∷ ts) (min_server (t ∷ ts) 0 0 (get_client_count t)) c;
            counts = on_net_join s.counts;
          })
        ])
    go [] e = tt
    go (t ∷ ts) e =
        ap (λ z. z +ℤ ℤ.pos 1) (h ∙ ap (λ x. ℤ.pos (total x)) e)
        ∙ pos_add_one (total (t ∷ ts))
        ∙ ap (λ n. ℤ.pos n)
            (sym (
              add_at-total (t ∷ ts) _ c (
                min_server-bound (t ∷ ts) 0 0 (get_client_count t) (length (t ∷ ts)) (omega arith)
                  (omega arith))))

accept-Counted : (new : Option ℕ) (s : EasyTcpServer) → Counted s → CountedIfSome (accept new s)
unfolding accept
accept-Counted none s h = h
accept-Counted (some sock) s h = add_client-Counted (new_client sock) s h

Step-Counted : {s t : EasyTcpServer} → Step s t → Counted s → Counted t
Step-Counted {s} (accepts new e) h = subst CountedIfSome e (accept-Counted new s h)
Step-Counted {s} (turns memcpy fuel ret readable recv before after c {c'} {k} e r) h =
    let others = total before + total after in
    let all : total s.cell_servers ≡ get_client_count c + others =
      ap total e ∙ total-append before (c ∷ after) ∙ omega arith in
    subst (CountsTurn others) r
      (turn-CountsTurn memcpy fuel ret readable recv c s.counts others (h ∙ ap (λ n. ℤ.pos n) all))
    ∙ ap (λ n. ℤ.pos n) (omega (arith, total-append before (c' ∷ after)))

-- From a state in which the counter of clients is the number of the clients of all the threads,
-- those that wait included, accepted clients and turns of the threads that go on, in any order and
-- whatever the system returns, lead to such states only.
pub Reach-Counted : {s t : EasyTcpServer} → Reach s t → Counted s → Counted t
Reach-Counted here h = h
Reach-Counted (further r step) h = Step-Counted step (Reach-Counted r h)
