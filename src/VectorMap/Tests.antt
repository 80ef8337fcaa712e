-- ===== src/VectorMap/Tests.antt =====
-- Numbers as keys, under `<`.
use green_turtle.Base.{
  ℕ, ◌≡◌, refl, inl, inr, none, some, List, [], ◌∷◌, arith, ltb, if◌then◌else◌, Bool-cases, le→ltb,
}
use green_turtle.VectorMap.{equal_to, lower_bound, insert_at, emplace, value_at, erase}
use green_turtle.VectorMap.Order.{WeakOrder}
use green_turtle.VectorMap.Sorted.{IsSorted, emplace_lem, erase_lem}

ltb-WeakOrder : WeakOrder ltb
ltb-WeakOrder = record {
  irreflexive = λ a. le→ltb a a (omega arith);
  transitive = λ a b c h k. ground arith;
  comparable =
      λ a b c h. elim (Bool-cases (ltb a b)) [ inl x ↦ inl x | inr x ↦ inr (ground arith) ];
}

abbrev three : List (ℕ × ℕ)
three = (2, 20) ∷ (5, 50) ∷ (9, 90) ∷ []

three-IsSorted : IsSorted ltb three
three-IsSorted = ((refl, (refl, tt)), ((refl, tt), (tt, tt)))

inserted : emplace ltb three 7 70 ≡ (2, 20) ∷ (5, 50) ∷ (7, 70) ∷ (9, 90) ∷ []
unfolding emplace lower_bound insert_at equal_to
inserted = refl

replaced : emplace ltb three 5 55 ≡ (2, 20) ∷ (5, 55) ∷ (9, 90) ∷ []
unfolding emplace lower_bound insert_at equal_to
replaced = refl

emplace_lem_example :
    IsSorted ltb (emplace ltb three 7 70)
    × ((j : ℕ)
        → value_at ltb (emplace ltb three 7 70) j
          ≡ (if equal_to ltb 7 j then some 70 else value_at ltb three j))
emplace_lem_example = emplace_lem ltb ltb-WeakOrder three 7 70 three-IsSorted

erase_lem_example :
    IsSorted ltb (erase ltb three 5)
    × ((j : ℕ)
        → value_at ltb (erase ltb three 5) j
          ≡ (if equal_to ltb 5 j then none else value_at ltb three j))
erase_lem_example = erase_lem ltb ltb-WeakOrder three 5 three-IsSorted
