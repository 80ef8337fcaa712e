-- ===== src/VectorMap/Order.antt =====
-- The keys of vector_map.h: `equal_to` for a `Compare` that is a strict weak order.
use mathlib.Core.Bool.{false≢true}
use green_turtle.Base.{◌≡◌, ◌⊎◌, inl, inr, sym, ap₂, ◌∙◌, Bool, true, false, not, ◌&&◌, Bool-cases}
use green_turtle.VectorMap.{equal_to}

-- What the standard library requires of `Compare`.
pub record WeakOrder {ℓ} {K : Type ℓ} (less : K → K → Bool) : Type ℓ where
  pub irreflexive : (a : K) → less a a ≡ false
  pub transitive : (a b c : K) → less a b ≡ true → less b c ≡ true → less a c ≡ true
  pub comparable : (a b c : K) → less a c ≡ true → (less a b ≡ true) ⊎ (less b c ≡ true)

module _ {ℓ} {K : Type ℓ} (less : K → K → Bool) (order : WeakOrder less) where
  pub asymmetric : (a b : K) → less a b ≡ true → less b a ≡ false
  asymmetric a b h = elim (Bool-cases (less b a)) [
    | inl back ↦ absurd (false≢true (sym (order.irreflexive a) ∙ order.transitive a b a h back))
    | inr fine ↦ fine
  ]

  pub not_equal_before : (a b : K) → less a b ≡ true → equal_to less a b ≡ false
  unfolding equal_to
  not_equal_before a b h = rw h

  pub not_equal_after : (a b : K) → less b a ≡ true → equal_to less a b ≡ false
  unfolding equal_to
  not_equal_after a b h = rw (asymmetric b a h, h)

  pub equal_cases :
      (a b : K)
      → less a b ≡ false
      → ((equal_to less a b ≡ true) × (less b a ≡ false))
        ⊎ ((equal_to less a b ≡ false) × (less b a ≡ true))
  unfolding equal_to
  equal_cases a b h = elim (Bool-cases (less b a)) [
    | inl back ↦ inr (rw (h, back), back)
    | inr none_less ↦ inl (rw (h, none_less), none_less)
  ]

  -- Keys that are not before each other have the same keys before and after them.
  pub same_before : (a b j : K) → less a b ≡ false → less b a ≡ false → less a j ≡ less b j
  same_before a b j h k = elim (Bool-cases (less a j)) [
    | inl x ↦ elim (order.comparable a b j x) [
      | inl wrong ↦ absurd (false≢true (sym h ∙ wrong))
      | inr y ↦ x ∙ sym y
    ]
    | inr x ↦ elim (Bool-cases (less b j)) [
      | inl y ↦ elim (order.comparable b a j y) [
        | inl wrong ↦ absurd (false≢true (sym k ∙ wrong))
        | inr z ↦ absurd (false≢true (sym x ∙ z))
      ]
      | inr y ↦ x ∙ sym y
    ]
  ]

  same_after : (a b j : K) → less a b ≡ false → less b a ≡ false → less j a ≡ less j b
  same_after a b j h k = elim (Bool-cases (less j a)) [
    | inl x ↦ elim (order.comparable j b a x) [
      | inl y ↦ x ∙ sym y
      | inr wrong ↦ absurd (false≢true (sym k ∙ wrong))
    ]
    | inr x ↦ elim (Bool-cases (less j b)) [
      | inl y ↦ elim (order.comparable j a b y) [
        | inl z ↦ absurd (false≢true (sym x ∙ z))
        | inr wrong ↦ absurd (false≢true (sym h ∙ wrong))
      ]
      | inr y ↦ x ∙ sym y
    ]
  ]

  pub same_equal :
      (a b j : K) → less a b ≡ false → less b a ≡ false → equal_to less a j ≡ equal_to less b j
  unfolding equal_to
  same_equal a b j h k = ap₂ (λ x y. not x && not y) (same_before a b j h k) (same_after a b j h k)

  pub equal_parts : (a b : K) → equal_to less a b ≡ true → (less a b ≡ false) × (less b a ≡ false)
  unfolding equal_to
  equal_parts a b h = elim (Bool-cases (less a b)) [
    | inl x ↦ absurd (false≢true (rw x at h))
    | inr x ↦ elim (Bool-cases (less b a)) [
      | inl y ↦ absurd (false≢true (rw (x, y) at h))
      | inr y ↦ (x, y)
    ]
  ]
