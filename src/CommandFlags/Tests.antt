-- ===== src/CommandFlags/Tests.antt =====
-- server -v -p 80
use green_turtle.Base.{ℕ, List, [], ◌∷◌}

abbrev before : List (List ℕ)
before = (115 ∷ []) ∷ (45 ∷ 118 ∷ []) ∷ []
