-- ===== src/BlockingQueue/Tests.antt =====
-- Two pushes before a batch, which goes into a vector with a value, and two after it.
use green_turtle.Base.{ℕ, ◌≡◌, refl, List, [], ◌∷◌, ◌++◌}
use green_turtle.BlockingQueue.{push, pop_all}
use green_turtle.BlockingQueue.Batches.{Access, pushes, pops, run, pushed, nothing_lost}

abbrev calls : List (Access ℕ)
calls = pushes 1 ∷ pushes 2 ∷ pops (9 ∷ []) ∷ pops (8 ∷ []) ∷ pushes 3 ∷ pushes 4 ∷ []

handed_over : run [] calls ≡ (1 ∷ 2 ∷ [], 3 ∷ 4 ∷ [])
unfolding run push pop_all
handed_over = refl

nothing_lost_example : (run [] calls).0 ++ (run [] calls).1 ≡ [] ++ pushed calls
nothing_lost_example = nothing_lost calls []
