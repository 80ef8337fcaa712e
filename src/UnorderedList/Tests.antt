-- ===== src/UnorderedList/Tests.antt =====
-- A list of numbers, 9 the mark, with a free slot.
use green_turtle.Base.{
  ℕ, ◌+◌, ◌≤◌, ◌≡◌, refl, Bool, true, false, Option, some, [], ◌∷◌, arith, ◌==◌, if◌then◌else◌, ap,
  some_inj,
}
use green_turtle.UnorderedList.{Element, SlotList, insert, visit, for_each}
use green_turtle.UnorderedList.Slots.{IsValid}
use green_turtle.UnorderedList.Walk.{for_each_inv}

abbrev numbers : Element ℕ
numbers = record { default = 0; same = ◌==◌ }

abbrev fresh : SlotList ℕ
fresh = record { list = []; free_list = []; deleted = 9 }

fresh-IsValid : IsValid fresh
fresh-IsValid = record { distinct = tt; inside = tt; blank = λ i h. cc }

abbrev two_held : SlotList ℕ
two_held = record { list = 4 ∷ 5 ∷ []; free_list = []; deleted = 9 }

abbrev one_free : SlotList ℕ
one_free = record { list = 9 ∷ 5 ∷ []; free_list = 0 ∷ []; deleted = 9 }

reused : insert one_free 7 ≡ (0, record { list = 7 ∷ 5 ∷ []; free_list = []; deleted = 9 })
unfolding insert
reused = refl

-- A walk that counts the values in use, and stops after the first 5.
abbrev count : ℕ → ℕ → ℕ → Option (Bool × ℕ)
count v i n = some (if v == 5 then false else true, n + 1)

counted : for_each numbers (λ n. one_free) count 3 0 7 ≡ some 8
unfolding for_each visit
counted = refl

count_grows : 7 ≤ 8
count_grows =
    for_each_inv numbers (λ n. one_free) (λ n. 7 ≤ n) count
      (λ v i s b s' p there live called.
        let e : s + 1 ≡ s' = ap (λ (q : Bool × ℕ). q.1) (some_inj called) in omega arith)
      3 0 7 8 (omega arith) counted
