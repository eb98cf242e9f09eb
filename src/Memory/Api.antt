-- ===== src/Memory/Api.antt =====
-- What the sockets rely on of `VarMemPool`: an address that `Alloc` returns is not in use, and
-- stays in use until it is freed.
use select_mode_network.Base.{ℕ, ◌≢◌}

pub record MemPool : Type 1 where
  pub State : Type 0
  pub Live : State → ℕ → Type 0
  pub alloc : State → ℕ → ℕ × State
  -- the address and the size that it was allocated with
  pub free : State → ℕ → ℕ → State
  pub alloc_fresh : (s : State) (size : ℕ) → ¬ Live s (alloc s size).0
  pub alloc_new : (s : State) (size : ℕ) → Live (alloc s size).1 (alloc s size).0
  pub alloc_old : (s : State) (size a : ℕ) → Live s a → Live (alloc s size).1 a
  pub free_old : (s : State) (p size a : ℕ) → Live s a → a ≢ p → Live (free s p size) a
