-- ===== src/VectorMap.antt =====
-- `VectorMap` of green_turtle/vector_map.h: pairs in a vector that is sorted by their keys.
pub mod Lookup
pub mod Order
pub mod Sorted
mod Tests
use green_turtle.Base.{
  ℕ, zero, suc, Bool, not, ◌&&◌, Option, none, some, List, [], ◌∷◌, ◌++◌, if◌then◌else◌, length,
  get_elem?, set, take, drop,
}

-- `Compare` is the parameter `less`.
unfoldable pub equal_to {ℓ} : {K : Type ℓ} → (K → K → Bool) → K → K → Bool
equal_to less a b = not (less a b) && not (less b a)

-- `container_.insert` and `container_.erase` at an index
unfoldable pub insert_at {ℓ} : {A : Type ℓ} → List A → ℕ → A → List A
insert_at ps at p = take at ps ++ (p ∷ drop at ps)

unfoldable pub erase_at {ℓ} : {A : Type ℓ} → List A → ℕ → List A
erase_at ps at = take at ps ++ drop (suc at) ps

module _ {ℓ κ} {K : Type ℓ} {T : Type κ} (less : K → K → Bool) where
  -- `std::lower_bound` as an index: on a sorted vector its binary search ends at the first pair
  -- whose key is not less.
  unfoldable pub lower_bound : List (K × T) → K → ℕ
  lower_bound [] key = 0
  lower_bound (p ∷ ps) key = let rest = lower_bound ps key in if less p.0 key then suc rest else 0

  -- An existing pair keeps its key.
  unfoldable pub emplace : List (K × T) → K → T → List (K × T)
  emplace ps key value =
      let iter = lower_bound ps key in
      elim (get_elem? ps iter) [
        | none ↦ insert_at ps iter (key, value)
        | some p ↦
            if equal_to less p.0 key
            then set ps iter (p.0, value)
            else insert_at ps iter (key, value)
      ]

  -- An iterator is an index, or `none` for the end.
  unfoldable pub find : List (K × T) → K → Option ℕ
  find ps key =
      let iter = lower_bound ps key in
      elim (get_elem? ps iter) [
        | none ↦ none
        | some p ↦ if equal_to less p.0 key then some iter else none
      ]

  -- `operator[]`; a failed assertion is `none`.
  unfoldable pub value_at : List (K × T) → K → Option T
  value_at ps key = elim (find ps key) [
    | none ↦ none
    | some iter ↦ elim (get_elem? ps iter) [ none ↦ none | some p ↦ some p.1 ]
  ]

  unfoldable pub erase : List (K × T) → K → List (K × T)
  erase ps key = elim (find ps key) [ none ↦ ps | some iter ↦ erase_at ps iter ]

unfoldable pub size {ℓ} : {A : Type ℓ} → List A → ℕ
size ps = length ps

unfoldable pub clear {ℓ} : {A : Type ℓ} → List A → List A
clear ps = []
