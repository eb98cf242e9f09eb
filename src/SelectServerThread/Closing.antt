-- ===== src/SelectServerThread/Closing.antt =====
-- What `SelectServer_Thread::Close` comes to by what the handling threads still do.
use select_mode_network.Base.{ℕ, ◌≡◌, refl, none, some, List, [], ◌∷◌}
use select_mode_network.Base.Int.{ℤ}
use select_mode_network.Memory.Api.{MemPool}
use select_mode_network.SelectServerThread.Handle.{SelectClientHandle}
use select_mode_network.SelectServerThread.Turn.{Turn}
use select_mode_network.SelectServerThread.Turn
use select_mode_network.SelectServerThread.Server.{
  SelectServerThread, Outcome, undefined, hangs, aborts, gives, delete_handle, delete_handles,
  close, close_failed,
}

module _ {P : MemPool} (last_rounds : SelectClientHandle P → Turn P) where
  -- All the threads come to the end of their loops.
  abbrev pub AllEnd : List (SelectClientHandle P) → Type 0
  AllEnd [] = Unit {0}
  AllEnd (h ∷ hs) = ((h' : SelectClientHandle P) × (last_rounds h ≡ Turn.goes h')) × AllEnd hs

  -- The first thread that does not comes to `t`.
  pub data FirstBad (t : Turn P) : List (SelectClientHandle P) → Type 0 where
    at_once :
        {h : SelectClientHandle P} {hs : List (SelectClientHandle P)}
        → last_rounds h ≡ t
        → FirstBad t (h ∷ hs)
    behind :
        {h h' : SelectClientHandle P} {hs : List (SelectClientHandle P)}
        → last_rounds h ≡ Turn.goes h'
        → FirstBad t hs
        → FirstBad t (h ∷ hs)

  data Deletes (hs : List (SelectClientHandle P))
      : Outcome (List (SelectClientHandle P)) → Type 0 where
    all_gone : {gone : List (SelectClientHandle P)} → AllEnd hs → Deletes hs (gives gone)
    never : FirstBad Turn.starved hs → Deletes hs hangs
    broken : FirstBad Turn.aborted hs → Deletes hs aborts

  Deletes-further :
      (h h' : SelectClientHandle P) (hs : List (SelectClientHandle P))
      (o : Outcome (List (SelectClientHandle P)))
      → last_rounds h ≡ Turn.goes h'
      → Deletes hs o
      → Deletes (h ∷ hs) (elim o [
        | undefined ↦ undefined
        | hangs ↦ hangs
        | aborts ↦ aborts
        | gives hs' ↦ gives (Turn.close h' ∷ hs')
      ])
  Deletes-further h h' hs _ e (all_gone ends) = all_gone ((h', e), ends)
  Deletes-further h h' hs _ e (never b) = never (behind e b)
  Deletes-further h h' hs _ e (broken b) = broken (behind e b)

  delete_handles-Deletes :
      (hs : List (SelectClientHandle P)) → Deletes hs (delete_handles last_rounds hs)
  unfolding delete_handles delete_handle
  delete_handles-Deletes [] = all_gone tt
  delete_handles-Deletes (h ∷ hs) = go (last_rounds h) refl (delete_handles-Deletes hs)
    where
      go :
          (t : Turn P)
          → last_rounds h ≡ t
          → Deletes hs (delete_handles last_rounds hs)
          → Deletes
              (h ∷ hs)
              (elim (elim t as (λ _. Turn P) [
                | Turn.starved ↦ Turn.starved
                | Turn.aborted ↦ Turn.aborted
                | Turn.goes h' ↦ Turn.goes (Turn.close h')
              ])
                as (λ _. Outcome (List (SelectClientHandle P))) [
                  | Turn.starved ↦ hangs
                  | Turn.aborted ↦ aborts
                  | Turn.goes h' ↦ elim (delete_handles last_rounds hs) [
                    | undefined ↦ undefined
                    | hangs ↦ hangs
                    | aborts ↦ aborts
                    | gives hs' ↦ gives (h' ∷ hs')
                  ]
                ])
      go Turn.starved e d = never (at_once e)
      go Turn.aborted e d = broken (at_once e)
      go (Turn.goes h') e d = Deletes-further h h' hs _ e d

  -- What `Close(); return -1;` comes to in a server that is open.
  pub data Closes (hs : List (SelectClientHandle P))
      : Outcome (ℤ × SelectServerThread P) → Type 0 where
    closed :
        {s : SelectServerThread P}
        → AllEnd hs
        → s.server_sock ≡ none
        → s.handles ≡ []
        → Closes hs (gives (ℤ.negsuc 0, s))
    never_closed : FirstBad Turn.starved hs → Closes hs hangs
    torn : FirstBad Turn.aborted hs → Closes hs aborts

  pub close_failed-Closes :
      (s : SelectServerThread P) (fd : ℕ)
      → s.server_sock ≡ some fd
      → Closes s.handles (close_failed last_rounds s)
  unfolding close_failed close
  close_failed-Closes s fd e =
      rw (e, close_failed, close)
        (go (delete_handles last_rounds s.handles) (delete_handles-Deletes s.handles))
    where
      go :
          (o : Outcome (List (SelectClientHandle P)))
          → Deletes s.handles o
          → Closes s.handles
              (elim (elim o as (λ _. Outcome (SelectServerThread P)) [
                | undefined ↦ undefined
                | hangs ↦ hangs
                | aborts ↦ aborts
                | gives _ ↦ gives (record s { handles = []; server_sock = none })
              ])
                as (λ _. Outcome (ℤ × SelectServerThread P)) [
                  | undefined ↦ undefined
                  | hangs ↦ hangs
                  | aborts ↦ aborts
                  | gives s' ↦ gives (ℤ.negsuc 0, s')
                ])
      go _ (all_gone ends) = closed ends refl refl
      go _ (never b) = never_closed b
      go _ (broken b) = torn b
