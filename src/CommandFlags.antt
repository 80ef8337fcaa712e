-- ===== src/CommandFlags.antt =====
-- `CommandFlags` of green_turtle/flags.{h,cc}: flags and their values on a command line.
pub mod Values
mod Tests
use green_turtle.Base.{
  ℕ, zero, suc, ◌+◌, Bool, true, false, not, ◌&&◌, Option, none, some, List, [], ◌∷◌, ◌==◌,
  if◌then◌else◌, get_elem?,
}

-- A string is the list of its characters.
abbrev pub dash : ℕ
dash = 45

abbrev pub same_text : List ℕ → List ℕ → Bool
same_text [] [] = true
same_text [] (y ∷ ys) = false
same_text (x ∷ xs) [] = false
same_text (x ∷ xs) (y ∷ ys) = (x == y) && same_text xs ys

-- Whether an argument is a dash and the flag; `s[0]` of an empty string is the character 0.
unfoldable pub is_flag : List ℕ → List ℕ → Bool
is_flag [] flag = false
is_flag (c ∷ cs) flag = (c == dash) && same_text cs flag

-- The index of the first argument that is the flag, or `none` for the end.
unfoldable pub find_flag : List (List ℕ) → List ℕ → Option ℕ
find_flag [] flag = none
find_flag (s ∷ argv) flag =
    if is_flag s flag
    then some 0
    else elim (find_flag argv flag) [ none ↦ none | some i ↦ some (suc i) ]

unfoldable pub check_flag : List (List ℕ) → List ℕ → Bool
check_flag argv flag = elim (find_flag argv flag) [ none ↦ false | some i ↦ true ]

unfoldable pub starts_with_dash : List ℕ → Bool
starts_with_dash [] = false
starts_with_dash (c ∷ cs) = c == dash

-- The argument after the flag, unless it begins with a dash; or else an empty string.
unfoldable pub get_flags : List (List ℕ) → List ℕ → List ℕ
get_flags argv flag = elim (find_flag argv flag) [
  | none ↦ []
  | some i ↦ elim (get_elem? argv (suc i)) [
    | none ↦ []
    | some value ↦ if starts_with_dash value then [] else value
  ]
]
