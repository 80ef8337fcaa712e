-- ===== src/Base/Indices.antt =====
-- Lists of distinct indices.
use Prim.Native.Nat.{ℕ, ◌<◌, ◌≤◌}
use mathlib.Core.Path.{◌≡◌}
use mathlib.Core.Bool.{Bool, true, false, ◌||◌}
use mathlib.Core.List.{List, [], ◌∷◌}
use native.Mathlib.Omega.{arith}
use green_turtle.Base.Tests.{◌==◌}

abbrev pub contains : List ℕ → ℕ → Bool
contains [] a = false
contains (x ∷ xs) a = x == a || contains xs a

abbrev pub Distinct : List ℕ → Type 0
Distinct [] = Unit
Distinct (x ∷ xs) = (contains xs x ≡ false) × Distinct xs

-- Every index of the list is below `n`.
abbrev pub Below : ℕ → List ℕ → Type 0
Below n [] = Unit
Below n (x ∷ xs) = (x < n) × Below n xs

pub Below-contains : (n : ℕ) (xs : List ℕ) (a : ℕ) → Below n xs → contains xs a ≡ true → a < n
Below-contains n [] a h e = ground arith
Below-contains n (x ∷ xs) a h e = ground (arith, Below-contains n xs a h.1)

pub Below-mono : {m n : ℕ} (xs : List ℕ) → m ≤ n → Below m xs → Below n xs
Below-mono [] le h = tt
Below-mono (x ∷ xs) le h = (omega arith, Below-mono xs le h.1)
