-- ===== src/VectorMap/Sorted.antt =====
-- A `VectorMap` of vector_map.h as a partial map, for a `Compare` that is a strict weak order.
use mathlib.Core.Bool.{false≢true}
use green_turtle.Base.{
  ◌≡◌, inl, inr, refl, sym, ap, ◌∙◌, Bool, true, false, none, some, List, [], ◌∷◌, if◌then◌else◌,
  Bool-cases, if_of,
}
use green_turtle.VectorMap.{equal_to, emplace, value_at, erase}
use green_turtle.VectorMap.Lookup.{
  value_at-nil, value_at-cons, emplace-nil, emplace-cons, erase-nil, erase-cons,
}
use green_turtle.VectorMap.Order.{
  WeakOrder, asymmetric, not_equal_before, not_equal_after, equal_cases, same_equal, same_before,
  equal_parts,
}

module _ {ℓ κ} {K : Type ℓ} {T : Type κ} (less : K → K → Bool) where
  -- Every key is after `k`.
  abbrev pub After : K → List (K × T) → Type 0
  After k [] = Unit
  After k (p ∷ ps) = (less k p.0 ≡ true) × After k ps

  abbrev pub IsSorted : List (K × T) → Type 0
  IsSorted [] = Unit
  IsSorted (p ∷ ps) = After p.0 ps × IsSorted ps

  module _ (order : WeakOrder less) where
    -- A key that is not after `k` is not found among keys that are.
    not_found :
        (k j : K) (ps : List (K × T)) → After k ps → less k j ≡ false → value_at less ps j ≡ none
    not_found k j [] after h = value_at-nil less j
    not_found k j (p ∷ ps) after h = elim (order.comparable k j p.0 after.0) [
      | inl wrong ↦ absurd (false≢true (sym h ∙ wrong))
      | inr before ↦
          value_at-cons less p ps j
          ∙ rw (asymmetric less order j p.0 before, not_equal_after less order p.0 j before) refl
    ]

    found_after :
        (p : K × T) (ps : List (K × T)) (j : K)
        → less j p.0 ≡ true
        → value_at less (p ∷ ps) j ≡ none
    found_after p ps j h =
        value_at-cons less p ps j
        ∙ rw (asymmetric less order j p.0 h, not_equal_after less order p.0 j h) refl

    value_at-emplace :
        (ps : List (K × T)) (key : K) (value : T) (j : K)
        → value_at less (emplace less ps key value) j
          ≡ (if equal_to less key j then some value else value_at less ps j)
    value_at-emplace [] key value j =
        ap (λ l. value_at less l j) (emplace-nil less key value)
        ∙ value_at-cons less (key, value) [] j
        ∙ (elim (Bool-cases (less key j)) [
          | inl before ↦ rw (before, not_equal_before less order key j before) refl
          | inr after ↦ rw (after, value_at-nil {T = T} less j) refl
        ])
    value_at-emplace (p ∷ ps) key value j =
        ap (λ l. value_at less l j) (emplace-cons less p ps key value)
        ∙ (elim (Bool-cases (less p.0 key)) [
          | inl before ↦ rw before (
              value_at-cons less p (emplace less ps key value) j
              ∙ rw (value_at-cons less p ps j) (elim (Bool-cases (less p.0 j)) [
                | inl x ↦ rw x (value_at-emplace ps key value j)
                | inr x ↦ elim (order.comparable p.0 j key before) [
                  | inl wrong ↦ absurd (false≢true (sym x ∙ wrong))
                  | inr y ↦ rw (x, not_equal_after less order key j y) refl
                ]
              ]))
          | inr after ↦ elim (equal_cases less order p.0 key after) [
            | inl (same, back) ↦
                rw (after, same)
                  (value_at-cons less (p.0, value) ps j
                    ∙ rw (value_at-cons less p ps j, ← same_equal less order p.0 key j after back)
                        (elim (Bool-cases (less p.0 j)) [
                          | inl x ↦ rw (x, not_equal_before less order p.0 j x) refl
                          | inr x ↦ rw x (elim (Bool-cases (equal_to less p.0 j)) [
                            | inl y ↦ rw y refl
                            | inr y ↦ rw y refl
                          ])
                        ]))
            | inr (other, back) ↦
                rw (after, other)
                  (value_at-cons less (key, value) (p ∷ ps) j ∙ (elim (Bool-cases (less key j)) [
                    | inl x ↦ rw (x, not_equal_before less order key j x) refl
                    | inr x ↦ rw x (elim (equal_cases less order key j x) [
                      | inl (y, z) ↦ rw y refl
                      | inr (y, z) ↦
                          rw y (sym (found_after p ps j (order.transitive j key p.0 z back)))
                    ])
                  ]))
          ]
        ])

    equal_absent :
        (p : K × T) (ps : List (K × T)) (key j : K)
        → less key p.0 ≡ true
        → equal_to less key j ≡ true
        → value_at less (p ∷ ps) j ≡ none
    equal_absent p ps key j h same =
        let (x, y) = equal_parts less order key j same in
        found_after p ps j (sym (same_before less order key j p.0 x y) ∙ h)

    value_at-erase :
        (ps : List (K × T)) (key j : K)
        → IsSorted ps
        → value_at less (erase less ps key) j
          ≡ (if equal_to less key j then none else value_at less ps j)
    value_at-erase [] key j sorted =
        ap (λ l. value_at less l j) (erase-nil less key)
        ∙ rw (value_at-nil {T = T} less j)
            (elim (Bool-cases (equal_to less key j)) [ inl x ↦ rw x refl | inr x ↦ rw x refl ])
    value_at-erase (p ∷ ps) key j sorted =
        ap (λ l. value_at less l j) (erase-cons less p ps key) ∙ (elim (Bool-cases (less p.0 key)) [
          | inl before ↦ rw before (
              value_at-cons less p (erase less ps key) j
              ∙ rw (value_at-cons less p ps j) (elim (Bool-cases (less p.0 j)) [
                | inl x ↦ rw x (value_at-erase ps key j sorted.1)
                | inr x ↦ elim (order.comparable p.0 j key before) [
                  | inl wrong ↦ absurd (false≢true (sym x ∙ wrong))
                  | inr y ↦ rw (x, not_equal_after less order key j y) refl
                ]
              ]))
          | inr after ↦ elim (equal_cases less order p.0 key after) [
            | inl (same, back) ↦
                rw (after, same)
                  (rw (value_at-cons less p ps j, ← same_equal less order p.0 key j after back)
                    (elim (Bool-cases (less p.0 j)) [
                      | inl x ↦ rw (x, not_equal_before less order p.0 j x) refl
                      | inr x ↦ rw x (
                          not_found p.0 j ps sorted.0 x ∙ (elim (Bool-cases (equal_to less p.0 j)) [
                            | inl y ↦ rw y refl
                            | inr y ↦ rw y refl
                          ]))
                    ]))
            | inr (other, back) ↦
                rw (after, other)
                  (elim (Bool-cases (equal_to less key j)) [
                    | inr x ↦ rw x refl
                    | inl x ↦ rw x (equal_absent p ps key j back x)
                  ])
          ]
        ])

    -- The keys after a key are after those before it.
    After-before : (a b : K) (ps : List (K × T)) → less a b ≡ true → After b ps → After a ps
    After-before a b [] h after = tt
    After-before a b (p ∷ ps) h after =
        (order.transitive a b p.0 h after.0, After-before a b ps h after.1)

    After-emplace :
        (k : K) (ps : List (K × T)) (key : K) (value : T)
        → less k key ≡ true
        → After k ps
        → After k (emplace less ps key value)
    After-emplace k [] key value h after = rw (emplace-nil less key value) (h, tt)
    After-emplace k (p ∷ ps) key value h after = rw (emplace-cons less p ps key value) (
        if_of (After k) (less p.0 key) _ _ (after.0, After-emplace k ps key value h after.1)
          (if_of (After k) (equal_to less p.0 key) _ _ after (h, after)))

    emplace-IsSorted :
        (ps : List (K × T)) (key : K) (value : T)
        → IsSorted ps
        → IsSorted (emplace less ps key value)
    emplace-IsSorted [] key value sorted = rw (emplace-nil less key value) (tt, tt)
    emplace-IsSorted (p ∷ ps) key value sorted =
        rw (emplace-cons less p ps key value) (elim (Bool-cases (less p.0 key)) [
          | inl before ↦ rw before (
            After-emplace p.0 ps key value before sorted.0,
            emplace-IsSorted ps key value sorted.1,
          )
          | inr after ↦ elim (equal_cases less order p.0 key after) [
            | inl (same, back) ↦ rw (after, same) sorted
            | inr (other, back) ↦
                rw (after, other) ((back, After-before key p.0 ps back sorted.0), sorted)
          ]
        ])

    After-erase : (k : K) (ps : List (K × T)) (key : K) → After k ps → After k (erase less ps key)
    After-erase k [] key after = rw (erase-nil {T = T} less key) tt
    After-erase k (p ∷ ps) key after = rw (erase-cons less p ps key) (
        if_of (After k) (less p.0 key) _ _ (after.0, After-erase k ps key after.1)
          (if_of (After k) (equal_to less p.0 key) _ _ after.1 after))

    erase-IsSorted : (ps : List (K × T)) (key : K) → IsSorted ps → IsSorted (erase less ps key)
    erase-IsSorted [] key sorted = rw (erase-nil {T = T} less key) tt
    erase-IsSorted (p ∷ ps) key sorted = rw (erase-cons less p ps key) (
        if_of IsSorted (less p.0 key) _ _
          (After-erase p.0 ps key sorted.0, erase-IsSorted ps key sorted.1)
          (if_of IsSorted (equal_to less p.0 key) _ _ sorted.1 sorted))

    -- `emplace` keeps the keys sorted; the value is then found under its key, and every other key
    -- holds what it held.
    pub emplace_lem :
        (ps : List (K × T)) (key : K) (value : T)
        → IsSorted ps
        → IsSorted (emplace less ps key value)
          × ((j : K)
              → value_at less (emplace less ps key value) j
                ≡ (if equal_to less key j then some value else value_at less ps j))
    emplace_lem ps key value sorted =
        (emplace-IsSorted ps key value sorted, value_at-emplace ps key value)

    -- `erase` keeps the keys sorted; its key is then not found, and every other key holds what it
    -- held.
    pub erase_lem :
        (ps : List (K × T)) (key : K)
        → IsSorted ps
        → IsSorted (erase less ps key)
          × ((j : K)
              → value_at less (erase less ps key) j
                ≡ (if equal_to less key j then none else value_at less ps j))
    erase_lem ps key sorted = (erase-IsSorted ps key sorted, λ j. value_at-erase ps key j sorted)
