-- ===== src/UnorderedList/Slots.antt =====
-- The slots of an `unordered_list` as a partial map from indices to values.
use green_turtle.Base.{
  ℕ, ◌<◌, ◌≡◌, inl, inr, refl, Bool, true, false, Option, none, some, List, [], ◌∷◌, arith, ◌==◌,
  ◌||◌, if◌then◌else◌, length, get_elem?, length-set, length-append, get_elem?-set_self,
  get_elem?-set_ne, get_elem?-append_left, get_elem?-append_end, get_elem?-none, get_elem?_lt,
  contains, Distinct, Below, Below-contains, ap, sym, ◌∙◌, subst, Bool-cases, ==_iff, ==_refl,
  some_inj, ◌≢◌, get_elem?-set, get_elem?-push_back, Below-mono,
}
use mathlib.Core.Bool.{false≢true}
use green_turtle.UnorderedList.{Element, SlotList, make, get, insert_at, insert, erase}

-- The free list names slots of the list, each once, and they hold the mark.
pub record IsValid {ℓ} {A : Type ℓ} (s : SlotList A) : Type ℓ where
  pub distinct : Distinct s.free_list
  pub inside : Below (length s.list) s.free_list
  pub blank : (i : ℕ) → contains s.free_list i ≡ true → get_elem? s.list i ≡ some s.deleted

or_right : (a : Bool) {b : Bool} → b ≡ true → (a || b) ≡ true
or_right true h = refl
or_right false h = h

module _ {ℓ} {A : Type ℓ} where
  -- What a slot holds, unless it is free.
  unfoldable pub slot : SlotList A → ℕ → Option A
  slot s i = if contains s.free_list i then none else get_elem? s.list i

  pub make-IsValid : (e : Element A) → IsValid (make e)
  unfolding make
  make-IsValid e = record { distinct = tt; inside = tt; blank = λ i h. cc }

  insert_at-IsValid :
      (s : SlotList A) (v : A) (free : List ℕ)
      → Distinct free
      → Below (length s.list) free
      → ((i : ℕ) → contains free i ≡ true → get_elem? s.list i ≡ some s.deleted)
      → IsValid s
      → IsValid (insert_at s v free).1
  unfolding insert_at
  insert_at-IsValid s v [] d b blank valid = record {
    distinct = valid.distinct;
    inside = Below-mono s.free_list (omega (arith, length-append s.list (v ∷ []))) valid.inside;
    blank = λ i h.
        get_elem?-append_left s.list (v ∷ []) i
          (Below-contains (length s.list) s.free_list i valid.inside h)
        ∙ valid.blank i h;
  }
  insert_at-IsValid s v (idx ∷ free) d b blank valid = record {
    distinct = d.1;
    inside = subst (λ n. Below n free) (sym (length-set s.list idx v)) b.1;
    blank = λ i h.
        get_elem?-set_ne s.list idx i v (λ e. false≢true (sym d.0 ∙ ap (contains free) e ∙ h))
        ∙ blank i (or_right (idx == i) h);
  }

  -- `insert` takes a slot that held nothing, and changes no other.
  insert_at-slot :
      (s : SlotList A) (v : A) (free : List ℕ)
      → s.free_list ≡ free
      → IsValid s
      → (slot s (insert_at s v free).0 ≡ none)
        × ((j : ℕ)
            → slot (insert_at s v free).1 j
              ≡ (if (insert_at s v free).0 == j then some v else slot s j))
  unfolding insert_at slot
  insert_at-slot s v [] e valid = (
    rw (e, get_elem?-none s.list (length s.list) (omega arith)),
    λ j. rw e (get_elem?-push_back s.list v j),
  )
  insert_at-slot s v (idx ∷ free) e valid =
      let distinct = subst Distinct e valid.distinct in
      let inside = subst (Below (length s.list)) e valid.inside in
      (
        rw (e, ==_refl idx) refl,
        λ j. elim (Bool-cases (idx == j)) [
          | inl here ↦
              let at_j : idx ≡ j = (==_iff idx j).0 here in
              rw (here, ← at_j, distinct.0) (get_elem?-set_self s.list idx v inside.0)
          | inr there ↦
              rw (there, e, there) (rw (get_elem?-set s.list idx j v inside.0) (rw there refl))
        ],
      )

  pub insert-IsValid : (s : SlotList A) (v : A) → IsValid s → IsValid (insert s v).1
  unfolding insert
  insert-IsValid s v valid =
      insert_at-IsValid s v s.free_list valid.distinct valid.inside valid.blank valid

  pub insert-slot :
      (s : SlotList A) (v : A)
      → IsValid s
      → (slot s (insert s v).0 ≡ none)
        × ((j : ℕ) → slot (insert s v).1 j ≡ (if (insert s v).0 == j then some v else slot s j))
  unfolding insert
  insert-slot s v valid = insert_at-slot s v s.free_list refl valid

  pub erase-IsValid :
      (s : SlotList A) (idx : ℕ) {v : A} → slot s idx ≡ some v → IsValid s → IsValid (erase s idx)
  unfolding erase slot
  erase-IsValid s idx held valid = elim (Bool-cases (contains s.free_list idx)) [
    | inl free ↦ let p = rw free at held in cc
    | inr used ↦
        let p = rw used at held in
        record {
          distinct = (used, valid.distinct);
          inside = (
            rw (length-set s.list idx s.deleted) (get_elem?_lt s.list idx _ p),
            subst (λ n. Below n s.free_list) (sym (length-set s.list idx s.deleted)) valid.inside,
          );
          blank = λ i h. elim (Bool-cases (idx == i)) [
            | inl here ↦
                let e : idx ≡ i = (==_iff idx i).0 here in
                rw (← e) (get_elem?-set_self s.list idx s.deleted (get_elem?_lt s.list idx _ p))
            | inr there ↦
                get_elem?-set_ne s.list idx i s.deleted
                  (λ e. false≢true (sym there ∙ (==_iff idx i).1 e))
                ∙ valid.blank i (rw there at h)
          ];
        }
  ]

  -- `erase` empties its slot, and changes no other.
  pub erase-slot :
      (s : SlotList A) (idx j : ℕ) → slot (erase s idx) j ≡ (if idx == j then none else slot s j)
  unfolding erase slot
  erase-slot s idx j = elim (Bool-cases (idx == j)) [
    | inl here ↦ rw here
    | inr there ↦ rw there (
        rw (
          get_elem?-set_ne s.list idx j s.deleted
            (λ e. false≢true (sym there ∙ (==_iff idx j).1 e))))
  ]

  -- The slot of an inserted value reads back as that value, unless the value is the mark.
  pub get-insert :
      (e : Element A) (s : SlotList A) (v : A)
      → IsValid s
      → get e (insert s v).1 (insert s v).0 ≡ some (if e.same v s.deleted then e.default else v)
  unfolding get insert
  get-insert e s v valid = get-insert_at s.free_list valid.inside
    where
      get-insert_at :
          (free : List ℕ)
          → Below (length s.list) free
          → get e (insert_at s v free).1 (insert_at s v free).0
            ≡ some (if e.same v s.deleted then e.default else v)
      get-insert_at [] b = rw (get_elem?-append_end s.list v [], get)
      get-insert_at (idx ∷ free) b = rw (get_elem?-set_self s.list idx v b.0, get)

  -- A slot that is erased twice is handed out twice: the second insertion overwrites the first.
  pub erase_twice :
      (s : SlotList A) (idx : ℕ) (v w : A)
      → idx < length s.list
      → ((insert (erase (erase s idx) idx) v).0 ≡ idx)
        × ((insert (insert (erase (erase s idx) idx) v).1 w).0 ≡ idx)
        × (get_elem? (insert (insert (erase (erase s idx) idx) v).1 w).1.list idx ≡ some w)
  unfolding erase insert insert_at
  erase_twice s idx v w inside = (refl, refl, get_elem?-set_self _ idx w (simp length-set inside))

  pub deleted-insert : (s : SlotList A) (v : A) → (insert s v).1.deleted ≡ s.deleted
  unfolding insert
  deleted-insert s v = same s.free_list
    where
      same : (free : List ℕ) → (insert_at s v free).1.deleted ≡ s.deleted
      same [] = refl
      same (idx ∷ free) = refl

  -- A slot that does not hold the mark is in use.
  pub slot_of_unmarked :
      (s : SlotList A) (i : ℕ) (v : A)
      → IsValid s
      → get_elem? s.list i ≡ some v
      → v ≢ s.deleted
      → slot s i ≡ some v
  unfolding slot
  slot_of_unmarked s i v valid there unmarked = elim (Bool-cases (contains s.free_list i)) [
    | inl free ↦ absurd (unmarked (some_inj (sym there ∙ valid.blank i free)))
    | inr used ↦ rw used there
  ]
