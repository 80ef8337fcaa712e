-- ===== src/UnorderedList.antt =====
-- `unordered_list` of green_turtle/unordered_list.h: slots that keep their place, with the free ones
-- marked by a value of the element type and listed for reuse.
pub mod Slots
pub mod Walk
mod Tests
use green_turtle.Base.{
  ℕ, zero, suc, ◌+◌, Bool, true, false, Option, none, some, List, [], ◌∷◌, if◌then◌else◌, length,
  get_elem?, set, push_back,
}

-- The element type: `T()` and the `==` of the source.
pub record Element {ℓ} (A : Type ℓ) : Type ℓ where
  pub default : A
  pub same : A → A → Bool

-- `free_list` is kept with its back first.
pub record SlotList {ℓ} (A : Type ℓ) : Type ℓ where
  pub list : List A
  pub free_list : List ℕ
  pub deleted : A

module _ {ℓ} {A : Type ℓ} (e : Element A) where
  unfoldable pub make : SlotList A
  make = record { list = []; free_list = []; deleted = e.default }

  -- A read out of range is `none`.
  unfoldable pub get : SlotList A → ℕ → Option A
  get s idx = elim (get_elem? s.list idx) [
    | none ↦ none
    | some v ↦ some (if e.same v s.deleted then e.default else v)
  ]

  unfoldable pub is_deleted : SlotList A → ℕ → Option Bool
  is_deleted s idx = elim (get_elem? s.list idx) [
    | none ↦ none
    | some v ↦ some (e.same v s.deleted)
  ]

module _ {ℓ} {A : Type ℓ} where
  unfoldable pub insert_at : SlotList A → A → List ℕ → ℕ × SlotList A
  insert_at s v [] = (length s.list, record s { list = push_back s.list v })
  insert_at s v (idx ∷ free) = (idx, record s { list = set s.list idx v; free_list = free })

  unfoldable pub insert : SlotList A → A → ℕ × SlotList A
  unfolding insert_at
  insert s v = insert_at s v s.free_list

  unfoldable pub erase : SlotList A → ℕ → SlotList A
  erase s idx = record s { list = set s.list idx s.deleted; free_list = idx ∷ s.free_list }

  unfoldable pub set_deleted : SlotList A → A → SlotList A
  set_deleted s v = record s { deleted = v }

-- How a round of a loop ends: without end (`none`), to go on (true) or to break (false).
module _ {κ} {S : Type κ} where
  abbrev pub proceed : Option (Bool × S) → (S → Option S) → Option S
  proceed none next = none
  proceed (some (true, t)) next = next t
  proceed (some (false, t)) next = some t

-- `for_each`, over a state that holds the list: `view` reads it again at every round, since the
-- callback may change it. The callback is given the state, and may itself not end; `none` means
-- that the fuel ran out.
module _ {ℓ κ} {A : Type ℓ} {S : Type κ} (e : Element A) where
  -- The body: a deleted slot is passed over.
  unfoldable pub visit :
      (S → SlotList A) → (A → ℕ → S → Option (Bool × S)) → ℕ → S → A → Option (Bool × S)
  visit view fn iter s v = if e.same v (view s).deleted then some (true, s) else fn v iter s

  unfoldable pub for_each :
      (S → SlotList A) → (A → ℕ → S → Option (Bool × S)) → ℕ → ℕ → S → Option S
  for_each view fn zero iter s = none
  for_each view fn (suc fuel) iter s = elim (get_elem? (view s).list iter) [
    | none ↦ some s
    | some v ↦ proceed (visit view fn iter s v) (λ t. for_each view fn fuel (suc iter) t)
  ]
