-- ===== src/Base/Assoc.antt =====
-- Association lists for `std::unordered_map` with numbers as keys: one pair for each key.
use Prim.Native.Nat.{ℕ}
use mathlib.Core.Path.{◌≡◌, refl, sym, ◌∙◌}
use mathlib.Core.Bool.{true, false}
use mathlib.Core.Option.{Option, none, some}
use mathlib.Core.List.{List, [], ◌∷◌}
use mathlib.Core.Logic.{inl, inr}
use native.Mathlib.Omega.{arith}
use green_turtle.Base.Tests.{◌==◌, if◌then◌else◌, Bool-cases, ==_iff}

module _ {ℓ} {A : Type ℓ} where
  abbrev pub lookup : List (ℕ × A) → ℕ → Option A
  lookup [] k = none
  lookup (p ∷ ps) k = if p.0 == k then some p.1 else lookup ps k

  abbrev pub remove : List (ℕ × A) → ℕ → List (ℕ × A)
  remove [] k = []
  remove (p ∷ ps) k = if p.0 == k then remove ps k else p ∷ remove ps k

  abbrev pub store : List (ℕ × A) → ℕ → A → List (ℕ × A)
  store ps k v = (k, v) ∷ remove ps k

  -- The pairs in order, the values changed.
  abbrev pub update_each : (ℕ → A → A) → List (ℕ × A) → List (ℕ × A)
  update_each f [] = []
  update_each f (p ∷ ps) = (p.0, f p.0 p.1) ∷ update_each f ps

module _ {ℓ} {A : Type ℓ} where
  pub lookup-remove :
      (ps : List (ℕ × A)) (k j : ℕ)
      → lookup (remove ps k) j ≡ (if k == j then none else lookup ps j)
  lookup-remove [] k j = elim (Bool-cases (k == j)) [ inl e ↦ rw e | inr e ↦ rw e ]
  lookup-remove (p ∷ ps) k j = elim (Bool-cases (p.0 == k)) [
    | inl here ↦
        let at_k : p.0 ≡ k = (==_iff p.0 k).0 here in
        rw here (
          lookup-remove ps k j
          ∙ rw (sym at_k) (elim (Bool-cases (p.0 == j)) [ inl e ↦ rw e | inr e ↦ rw e ]))
    | inr there ↦ rw there (elim (Bool-cases (p.0 == j)) [
      | inl e ↦
          let at_j : p.0 ≡ j = (==_iff p.0 j).0 e in
          let away : (k == j) ≡ false = ground arith in rw (e, away)
      | inr e ↦ rw e (lookup-remove ps k j)
    ])
  ]

  pub lookup-store :
      (ps : List (ℕ × A)) (k j : ℕ) (v : A)
      → lookup (store ps k v) j ≡ (if k == j then some v else lookup ps j)
  lookup-store ps k j v = elim (Bool-cases (k == j)) [
    | inl e ↦ rw e
    | inr e ↦ rw e (lookup-remove ps k j ∙ rw e)
  ]

  -- No key is listed twice.
  abbrev pub IsMap : List (ℕ × A) → Type ℓ
  IsMap [] = Unit
  IsMap (p ∷ ps) = (lookup ps p.0 ≡ none) × IsMap ps

  pub remove-IsMap : (ps : List (ℕ × A)) (k : ℕ) → IsMap ps → IsMap (remove ps k)
  remove-IsMap [] k h = tt
  remove-IsMap (p ∷ ps) k h = elim (Bool-cases (p.0 == k)) [
    | inl here ↦ rw here (remove-IsMap ps k h.1)
    | inr there ↦
        let away : (k == p.0) ≡ false = ground arith in
        rw there ((lookup-remove ps k p.0 ∙ rw away h.0, remove-IsMap ps k h.1))
  ]

  pub store-IsMap : (ps : List (ℕ × A)) (k : ℕ) (v : A) → IsMap ps → IsMap (store ps k v)
  store-IsMap ps k v h =
      let same : (k == k) ≡ true = (==_iff k k).1 refl in
      (lookup-remove ps k k ∙ rw same, remove-IsMap ps k h)
