-- ===== src/Net/Descriptors/Tests.antt =====
-- A table as a list, where the descriptors 0, 1 and 2 are taken, and 3 is that of an acceptor.
use green_turtle.Base.{
  ℕ, zero, suc, ◌<◌, ◌≡◌, ◌≢◌, refl, ap, false, Option, none, some, List, [], ◌∷◌, arith,
}
use green_turtle.Net.Descriptors.{FdSystem, acceptor_listen, destroy_handler, destroy_acceptor}
use green_turtle.Net.Descriptors.Owners.{closes_another}

abbrev held_in : List (Option ℕ) → ℕ → Option ℕ
held_in [] j = none
held_in (x ∷ t) zero = x
held_in (x ∷ t) (suc j) = held_in t j

abbrev close_in : ℕ → List (Option ℕ) → List (Option ℕ)
close_in fd [] = []
close_in zero (x ∷ t) = none ∷ t
close_in (suc fd) (x ∷ t) = x ∷ close_in fd t

abbrev open_in : ℕ → List (Option ℕ) → ℕ × List (Option ℕ)
open_in s [] = (0, some s ∷ [])
open_in s (none ∷ t) = (0, some s ∷ t)
open_in s (some x ∷ t) = let r = open_in s t in (suc r.0, some x ∷ r.1)

frees : (fd : ℕ) (t : List (Option ℕ)) → held_in (close_in fd t) fd ≡ none
frees fd [] = refl
frees zero (x ∷ t) = refl
frees (suc fd) (x ∷ t) = frees fd t

keeps : (fd j : ℕ) (t : List (Option ℕ)) → fd ≢ j → held_in (close_in fd t) j ≡ held_in t j
keeps fd j [] h = refl
keeps zero zero (x ∷ t) h = absurd (h refl)
keeps zero (suc j) (x ∷ t) h = refl
keeps (suc fd) zero (x ∷ t) h = refl
keeps (suc fd) (suc j) (x ∷ t) h = keeps fd j t (λ e. h (ap suc e))

free : (s : ℕ) (t : List (Option ℕ)) → held_in t (open_in s t).0 ≡ none
free s [] = refl
free s (none ∷ t) = refl
free s (some x ∷ t) = free s t

lowest : (s j : ℕ) (t : List (Option ℕ)) → j < (open_in s t).0 → held_in t j ≢ none
lowest s j [] h = absurd (omega arith)
lowest s j (none ∷ t) h = absurd (omega arith)
lowest s zero (some x ∷ t) h = λ e. cc
lowest s (suc j) (some x ∷ t) h = lowest s j t (omega arith)

holds : (s : ℕ) (t : List (Option ℕ)) → held_in (open_in s t).1 (open_in s t).0 ≡ some s
holds s [] = refl
holds s (none ∷ t) = refl
holds s (some x ∷ t) = holds s t

abbrev listed : FdSystem
listed = record {
  Table = List (Option ℕ);
  held_by = held_in;
  close = close_in;
  open_socket = open_in;
  close_frees = frees;
  close_keeps = keeps;
  open_free = free;
  open_lowest = lowest;
  open_holds = holds;
}

abbrev four : List (Option ℕ)
four = some 90 ∷ some 91 ∷ some 92 ∷ some 93 ∷ []

below : (j : ℕ) → j < 3 → held_in four j ≢ none
below zero h = λ e. cc
below (suc zero) h = λ e. cc
below (suc (suc zero)) h = λ e. cc
below (suc (suc (suc j))) h = absurd (omega arith)

closes_another_example :
    let u = (open_in 50 (close_in 3 four)).1 in
    ((open_in 50 (close_in 3 four)).0 ≡ 3)
    × (held_in u 3 ≡ some 50)
    × ((bound listening : Option ℕ)
        → (acceptor_listen listed 3 bound listening four).0 ≡ false
        → (acceptor_listen listed 3 bound listening four).1 ≡ close_in 3 four)
    × (held_in (destroy_handler listed 3 u) 3 ≡ none)
    × (held_in (destroy_acceptor listed 3 (λ x. (open_in 50 x).1) four) 3 ≡ none)
closes_another_example = closes_another listed 3 50 four (omega arith) below
