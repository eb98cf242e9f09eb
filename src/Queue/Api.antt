-- ===== src/Queue/Api.antt =====
-- CommonLib/IQueue.h: what the sockets ask of a queue, on its contents, oldest first.
-- `d` is the value-initialised `T()` that `front` and `pop` return on an empty queue.
use select_mode_network.Base.{ℕ, Bool, List, [], ◌∷◌, ◌++◌, ltb, length}

module _ {T : Type 0} where
  unfoldable pub push : List T → T → List T
  push q x = q ++ (x ∷ [])

  unfoldable pub front : T → List T → T
  front d [] = d
  front d (x ∷ q) = x

  unfoldable pub pop : T → List T → T × List T
  pop d [] = (d, [])
  pop d (x ∷ q) = (x, q)

  unfoldable pub size : List T → ℕ
  size q = length q

  unfoldable pub has_data : List T → Bool
  unfolding size
  has_data q = ltb 0 (size q)

  unfoldable pub clear : List T → List T
  clear q = []
