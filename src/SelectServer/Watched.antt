-- ===== src/SelectServer/Watched.antt =====
-- The set of sockets that `SelectServer::OnRun` gives to `select`, and the greatest of them.
use select_mode_network.Base.{
  ℕ, ◌≡◌, sym, ◌∙◌, true, Option, some, List, [], ◌∷◌, ◌++◌, append_assoc, arith, if◌then◌else◌,
  append-nil,
}
use select_mode_network.Base.{ap, refl}
use select_mode_network.Base.Int.{ℤ, leb_ℤ, ltb_ℤ}
use select_mode_network.ClientSocket.State.{ClientSocket}
use select_mode_network.SelectServer.State.{fd_of, watch_loop}

-- The sockets of the clients.
abbrev pub socks : List ClientSocket → List (Option ℕ)
socks [] = []
socks (c ∷ cs) = c.send.sock ∷ socks cs

pub socks-append : (xs ys : List ClientSocket) → socks (xs ++ ys) ≡ socks xs ++ socks ys
socks-append [] ys = refl
socks-append (x ∷ xs) ys = ap (λ t. x.send.sock ∷ t) (socks-append xs ys)

abbrev pub AllOpen : List (Option ℕ) → Type 0
AllOpen [] = Unit {0}
AllOpen (s ∷ ss) = ((fd : ℕ) × (s ≡ some fd)) × AllOpen ss

-- No socket is above the greatest.
abbrev pub AllBelow : ℤ → List (Option ℕ) → Type 0
AllBelow max [] = Unit {0}
AllBelow max (s ∷ ss) = (leb_ℤ (fd_of s) max ≡ true) × AllBelow max ss

abbrev pub fds : List (Option ℕ) → List ℤ
fds [] = []
fds (s ∷ ss) = fd_of s ∷ fds ss

leb_trans : (a b c : ℤ) → leb_ℤ a b ≡ true → leb_ℤ b c ≡ true → leb_ℤ a c ≡ true
leb_trans a b c h k = ground arith

greater : (a b : ℤ) → let m = if ltb_ℤ a b then b else a in (leb_ℤ a m ≡ true) × (leb_ℤ b m ≡ true)
greater a b = (ground arith, ground arith)

-- What the loop leaves: the sockets behind those before, and a number that none is above.
pub record Watches (set : List ℤ) (max : ℤ) (ss : List (Option ℕ)) (r : List ℤ × ℤ) : Type 0 where
  pub all : r.0 ≡ set ++ fds ss
  pub below : AllBelow r.1 ss
  pub least : leb_ℤ max r.1 ≡ true

pub watch_loop-Watches :
    (cs : List ClientSocket) (set : List ℤ) (max : ℤ)
    → Watches set max (socks cs) (watch_loop cs set max)
unfolding watch_loop
watch_loop-Watches [] set max = record {
  all = sym (append-nil set);
  below = tt;
  least = ground arith;
}
watch_loop-Watches (c ∷ cs) set max =
    let fd = fd_of c.send.sock in
    let m = if ltb_ℤ max fd then fd else max in
    let rest = watch_loop-Watches cs (set ++ (fd ∷ [])) m in
    let r = (watch_loop cs (set ++ (fd ∷ [])) m).1 in
    record {
      all = rest.all ∙ append_assoc set (fd ∷ []) (fds (socks cs));
      below = (leb_trans fd m r (greater max fd).1 rest.least, rest.below);
      least = leb_trans max m r (greater max fd).0 rest.least;
    }
