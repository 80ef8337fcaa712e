-- ===== src/BlockingQueue.antt =====
-- `BlockingQueue` of green_turtle/blocking_queue.h. A method under the mutex is one step.
-- `Pop` of one value is left out: it calls `pop_front` of a vector, and does not compile.
pub mod Batches
mod Tests
use green_turtle.Base.{ℕ, Bool, true, false, List, [], ◌∷◌, length, push_back}

module _ {ℓ} {A : Type ℓ} where
  unfoldable pub push : List A → A → Bool × List A
  push queue v = (true, push_back queue v)

  -- `Pop` of all values into `v`: the old values of `v` are lost where the queue is not empty.
  unfoldable pub pop_all : List A → List A → Bool × List A × List A
  pop_all [] v = (false, v, [])
  pop_all (x ∷ queue) v = (true, x ∷ queue, [])

  unfoldable pub size : List A → ℕ
  size queue = length queue
