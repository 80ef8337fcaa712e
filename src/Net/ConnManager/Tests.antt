-- ===== src/Net/ConnManager/Tests.antt =====
-- Handlers whose descriptors are their numbers.
use green_turtle.Base.{ℕ, ◌≡◌, refl, none, some, [], ◌∷◌, arith}
use green_turtle.Net.ConnManager.{ConnManager, new_manager, add_conn, remove_conn, update}
use green_turtle.Net.ConnManager.Held.{held, latest, update_lem, removed_stays}

abbrev same : ℕ → ℕ
same h = h

abbrev three_came : ConnManager
three_came = record {
  handlers = none ∷ none ∷ some 2 ∷ [];
  add_handlers = 5 ∷ 1 ∷ 5 ∷ [];
  remove_handlers = 2 ∷ [];
}

update_lem_example :
    (m' : ConnManager) × (update same three_came ≡ some (m', 5 ∷ 1 ∷ 5 ∷ [], 2 ∷ []))
    × ((j : ℕ) → held m'.handlers j ≡ latest same (5 ∷ 1 ∷ 5 ∷ []) j (held three_came.handlers j))
    × (m'.add_handlers ≡ [])
    × (m'.remove_handlers ≡ [])
update_lem_example = update_lem same three_came (omega arith, (omega arith, (omega arith, tt)))

removed_stays_example :
    (m' : ConnManager) × (update same (remove_conn same (add_conn same new_manager 4) 4)
      ≡ some (m', 4 ∷ [], 4 ∷ []))
    × (held m'.handlers 4 ≡ some 4)
removed_stays_example = removed_stays same new_manager 4 refl refl (omega arith)
