-- ===== src/EasyTcp/Counting.antt =====
-- The counter of clients of an `EasyTcpServer` is the number of the clients of its threads, in every
-- state that accepted clients and turns of the threads lead to.
use select_mode_network.Base.{
  ℕ, zero, suc, ◌+◌, ◌≡◌, refl, ap, ◌∙◌, Bool, Bool-cases, Option-cases, inl, inr, Option, none,
  some, List, [], ◌∷◌, ◌++◌, arith, length, length-append, if◌then◌else◌, ltb, leb,
}
use select_mode_network.Base.Int.{pos_sub_one, ℤ, ◌+ℤ◌, ltb_ℤ, Int-cases}
use select_mode_network.Buffer.Data.{Bytes}
use select_mode_network.EasyTcp.MsgBuf.{
  MsgBuf, Memcpy, message_at, recv_data, split_loop, append_split, Received, msg_size, recv_size,
}
use select_mode_network.EasyTcp.Header.{header_size, data_length_of}
use select_mode_network.EasyTcp.MsgBuf
use select_mode_network.EasyTcp.Server.{
  CellClient, Counts, CellServer, Served, fault, starved, served, Turn, broken, stuck, goes, ends,
  get_client_count, serve_client, serve_clients, take_in, after_pass, turn_clients, turn,
  on_net_leave, on_net_msg,
}

-- The messages of a client do not change the counter of clients.
abbrev SameClients : ℤ → Received Counts → Type 0
SameClients n (MsgBuf.fault k) = k.client_count ≡ n
SameClients n MsgBuf.starved = Unit {0}
SameClients n MsgBuf.gone = Unit {0}
SameClients n (MsgBuf.kept b k) = k.client_count ≡ n

split_loop-SameClients :
    (memcpy : Memcpy) (fuel : ℕ) (b : MsgBuf) (k : Counts)
    → SameClients k.client_count (split_loop memcpy on_net_msg fuel b k)
unfolding split_loop on_net_msg
split_loop-SameClients memcpy zero b k = tt
split_loop-SameClients memcpy (suc fuel) b k = elim (Bool-cases (ltb b.last_pos header_size)) [
  | inl small ↦ rw small refl
  | inr big ↦ elim (Int-cases (data_length_of b.bytes)) [
    | inr (n, e) ↦ rw (big, e) refl
    | inl (n, e) ↦ elim (Bool-cases (leb n b.last_pos)) [
      | inl whole ↦
          rw (big, e, whole)
            (split_loop-SameClients memcpy fuel _ (on_net_msg k (message_at b.bytes n)))
      | inr part ↦ rw (big, e, part) refl
    ]
  ]
]

recv_data-SameClients :
    (memcpy : Memcpy) (fuel : ℕ) (recv : ℕ → Option Bytes) (b : MsgBuf) (k : Counts)
    → SameClients k.client_count (recv_data memcpy on_net_msg fuel recv b k)
unfolding recv_data append_split
recv_data-SameClients memcpy fuel recv b k = go (recv recv_size)
  where
    go :
        (o : Option Bytes)
        → SameClients k.client_count (elim o [
          | none ↦ MsgBuf.gone
          | some chunk ↦
              if leb (length chunk) 0
              then MsgBuf.gone
              else append_split memcpy on_net_msg fuel b chunk k
        ])
    go none = tt
    go (some chunk) = elim (Bool-cases (leb (length chunk) 0)) [
      | inl empty ↦ rw empty tt
      | inr some_bytes ↦ elim (Bool-cases (ltb msg_size (b.last_pos + length chunk))) [
        | inl over ↦ rw (some_bytes, over) refl
        | inr fits ↦ rw (some_bytes, fits) (split_loop-SameClients memcpy fuel _ k)
      ]
    ]

-- The counter is the number of these clients, and `others` more.
abbrev CountsServed : ℕ → Served → Type 0
CountsServed others fault = Unit {0}
CountsServed others starved = Unit {0}
CountsServed others (served cs k) = k.client_count ≡ ℤ.pos (length cs + others)

module _ (memcpy : Memcpy) (fuel : ℕ) (readable : ℕ → Bool) (recv : ℕ → ℕ → Option Bytes) where
  serve_client-CountsServed :
      (c : CellClient) (cs : List CellClient) (k : Counts) (others : ℕ)
      → k.client_count ≡ ℤ.pos (suc (length cs + others))
      → CountsServed others (serve_client memcpy fuel readable recv c cs k)
  unfolding serve_client on_net_leave
  serve_client-CountsServed c cs k others h = elim (Bool-cases (readable c.sockfd)) [
    | inr quiet ↦ rw quiet (h ∙ ap (λ n. ℤ.pos n) (omega arith))
    | inl ready ↦ rw ready (
        go (recv_data memcpy on_net_msg fuel (recv c.sockfd) c.buf k)
          (recv_data-SameClients memcpy fuel (recv c.sockfd) c.buf k))
  ]
    where
      go :
          (r : Received Counts)
          → SameClients k.client_count r
          → CountsServed others (elim r [
            | MsgBuf.fault _ ↦ fault
            | MsgBuf.starved ↦ starved
            | MsgBuf.gone ↦ served cs (on_net_leave k)
            | MsgBuf.kept b k' ↦ served (record c { buf = b } ∷ cs) k'
          ])
      go (MsgBuf.fault k') s = tt
      go MsgBuf.starved s = tt
      go MsgBuf.gone s = ap (λ z. z +ℤ ℤ.negsuc 0) h ∙ pos_sub_one (length cs + others)
      go (MsgBuf.kept b k') s = s ∙ h ∙ ap (λ n. ℤ.pos n) (omega arith)

  serve_clients-CountsServed :
      (cs : List CellClient) (k : Counts) (others : ℕ)
      → k.client_count ≡ ℤ.pos (length cs + others)
      → CountsServed others (serve_clients memcpy fuel readable recv cs k)
  unfolding serve_clients
  serve_clients-CountsServed [] k others h = h
  serve_clients-CountsServed (c ∷ cs) k others h =
      go (serve_clients memcpy fuel readable recv cs k)
        (serve_clients-CountsServed cs k (suc others) (h ∙ ap (λ n. ℤ.pos n) (omega arith)))
    where
      go :
          (r : Served)
          → CountsServed (suc others) r
          → CountsServed others (elim r [
            | fault ↦ fault
            | starved ↦ starved
            | served cs' k' ↦ serve_client memcpy fuel readable recv c cs' k'
          ])
      go fault s = tt
      go starved s = tt
      go (served cs' k') s =
          serve_client-CountsServed c cs' k' others (s ∙ ap (λ n. ℤ.pos n) (omega arith))

-- The same of a turn that is followed by another.
abbrev pub CountsTurn : ℕ → Turn → Type 0
CountsTurn others broken = Unit {0}
CountsTurn others stuck = Unit {0}
CountsTurn others (goes s k) = k.client_count ≡ ℤ.pos (get_client_count s + others)
CountsTurn others (ends s k) = Unit {0}

module _ (memcpy : Memcpy) (fuel : ℕ) (ret : ℤ) (readable : ℕ → Bool)
    (recv : ℕ → ℕ → Option Bytes) where
  turn_clients-CountsTurn :
      (s : CellServer) (k : Counts) (others : ℕ) (cs : List CellClient)
      → s.clients ≡ cs
      → s.clients_buff ≡ []
      → k.client_count ≡ ℤ.pos (length cs + others)
      → CountsTurn others (turn_clients memcpy fuel ret readable recv s k cs)
  unfolding turn_clients after_pass get_client_count
  turn_clients-CountsTurn s k others [] e none_wait h =
      h ∙ ap (λ n. ℤ.pos n) (omega (arith, ap length e, ap length none_wait))
  turn_clients-CountsTurn s k others (c ∷ cs) e none_wait h =
      elim (Bool-cases (ltb_ℤ ret (ℤ.pos 0))) [
        | inl failed ↦ rw failed tt
        | inr fine ↦ rw fine (
            go (serve_clients memcpy fuel readable recv (c ∷ cs) k)
              (serve_clients-CountsServed memcpy fuel readable recv (c ∷ cs) k others h))
      ]
    where
      go : (r : Served) → CountsServed others r → CountsTurn others (after_pass s r)
      go fault v = tt
      go starved v = tt
      go (served cs' k') v = v ∙ ap (λ n. ℤ.pos n) (omega (arith, ap length none_wait))

  pub turn-CountsTurn :
      (s : CellServer) (k : Counts) (others : ℕ)
      → k.client_count ≡ ℤ.pos (get_client_count s + others)
      → CountsTurn others (turn memcpy fuel ret readable recv s k)
  unfolding turn take_in get_client_count
  turn-CountsTurn s k others h = elim (Option-cases s.sock) [
    | inl e ↦ rw (e, turn) tt
    | inr (fd, e) ↦
        rw (e, turn)
          (turn_clients-CountsTurn _ k others (s.clients ++ s.clients_buff) refl refl
            (h ∙ ap (λ n. ℤ.pos n) (omega (arith, length-append s.clients s.clients_buff))))
  ]
