-- ===== src/VectorMap/Lookup.antt =====
-- The operations of vector_map.h, pair by pair.
use green_turtle.Base.{
  ◌≡◌, refl, Bool, none, some, List, [], ◌∷◌, if◌then◌else◌, get_elem?, Bool-cases, inl, inr,
  Option-cases,
}
use green_turtle.VectorMap.{
  equal_to, lower_bound, insert_at, erase_at, emplace, find, value_at, erase,
}

module _ {ℓ κ} {K : Type ℓ} {T : Type κ} (less : K → K → Bool) where
  pub value_at-nil : (j : K) → value_at {T = T} less [] j ≡ none
  unfolding value_at find lower_bound
  value_at-nil j = refl

  pub value_at-cons :
      (p : K × T) (ps : List (K × T)) (j : K)
      → value_at less (p ∷ ps) j ≡ (
          if less p.0 j then value_at less ps j else if equal_to less p.0 j then some p.1 else none)
  unfolding value_at find lower_bound
  value_at-cons p ps j = elim (Bool-cases (less p.0 j)) [
    | inl before ↦ elim (Option-cases (get_elem? ps (lower_bound less ps j))) [
      | inl past ↦ rw (before, past, value_at, find)
      | inr (q, there) ↦ elim (Bool-cases (equal_to less q.0 j)) [
        | inl same ↦
            rw (before, there, same, value_at, find) (rw (before, lower_bound) (rw there refl))
        | inr other ↦ rw (before, there, other, value_at, find)
      ]
    ]
    | inr after ↦ elim (Bool-cases (equal_to less p.0 j)) [
      | inl same ↦ rw (after, same, value_at, find) (rw (after, lower_bound) refl)
      | inr other ↦ rw (after, other, value_at, find)
    ]
  ]

  pub emplace-nil : (key : K) (value : T) → emplace less [] key value ≡ (key, value) ∷ []
  unfolding emplace insert_at lower_bound
  emplace-nil key value = refl

  pub emplace-cons :
      (p : K × T) (ps : List (K × T)) (key : K) (value : T)
      → emplace less (p ∷ ps) key value ≡ (
          if less p.0 key
          then p ∷ emplace less ps key value
          else if equal_to less p.0 key
          then (p.0, value) ∷ ps
          else (key, value) ∷ p ∷ ps)
  unfolding emplace insert_at lower_bound
  emplace-cons p ps key value = elim (Bool-cases (less p.0 key)) [
    | inl before ↦ elim (Option-cases (get_elem? ps (lower_bound less ps key))) [
      | inl past ↦ rw (before, past, emplace) (rw (before, lower_bound) refl)
      | inr (q, there) ↦ elim (Bool-cases (equal_to less q.0 key)) [
        | inl same ↦ rw (before, there, same, emplace) (rw (before, lower_bound) refl)
        | inr other ↦ rw (before, there, other, emplace) (rw (before, lower_bound) refl)
      ]
    ]
    | inr after ↦ elim (Bool-cases (equal_to less p.0 key)) [
      | inl same ↦ rw (after, same, emplace) (rw (after, lower_bound) refl)
      | inr other ↦ rw (after, other, emplace) (rw (after, lower_bound) refl)
    ]
  ]

  pub erase-nil : (key : K) → erase {T = T} less [] key ≡ []
  unfolding erase find lower_bound
  erase-nil key = refl

  pub erase-cons :
      (p : K × T) (ps : List (K × T)) (key : K)
      → erase less (p ∷ ps) key ≡ (
          if less p.0 key
          then p ∷ erase less ps key
          else if equal_to less p.0 key
          then ps
          else p ∷ ps)
  unfolding erase find erase_at lower_bound
  erase-cons p ps key = elim (Bool-cases (less p.0 key)) [
    | inl before ↦ elim (Option-cases (get_elem? ps (lower_bound less ps key))) [
      | inl past ↦ rw (before, past, erase, find)
      | inr (q, there) ↦ elim (Bool-cases (equal_to less q.0 key)) [
        | inl same ↦ rw (before, there, same, erase, find) (rw (before, lower_bound) refl)
        | inr other ↦ rw (before, there, other, erase, find)
      ]
    ]
    | inr after ↦ elim (Bool-cases (equal_to less p.0 key)) [
      | inl same ↦ rw (after, same, erase, find) (rw (after, lower_bound) refl)
      | inr other ↦ rw (after, other, erase, find)
    ]
  ]
