-- ===== src/CommandFlags/Values.antt =====
-- What flags.cc finds on a command line.
use green_turtle.Base.{
  ℕ, ◌≡◌, refl, ◌∙◌, true, false, List, [], ◌∷◌, ◌++◌, if◌then◌else◌, Option-cases, inl, inr,
}
use green_turtle.CommandFlags.{is_flag, find_flag, starts_with_dash, get_flags}

-- None of the arguments is the flag.
abbrev pub Free : List (List ℕ) → List ℕ → Type 0
Free [] flag = Unit
Free (s ∷ argv) flag = (is_flag s flag ≡ false) × Free argv flag

get_flags-skip :
    (s : List ℕ) (argv : List (List ℕ)) (flag : List ℕ)
    → is_flag s flag ≡ false
    → get_flags (s ∷ argv) flag ≡ get_flags argv flag
unfolding get_flags find_flag
get_flags-skip s argv flag differs = elim (Option-cases (find_flag argv flag)) [
  | inl absent ↦ rw (differs, absent, get_flags, find_flag) refl
  | inr (i, there) ↦ rw (differs, there, get_flags, find_flag) refl
]

get_flags-here :
    (s value : List ℕ) (argv : List (List ℕ)) (flag : List ℕ)
    → is_flag s flag ≡ true
    → get_flags (s ∷ value ∷ argv) flag ≡ (if starts_with_dash value then [] else value)
unfolding get_flags find_flag
get_flags-here s value argv flag matches = rw (matches, get_flags, find_flag) refl

-- The value of a flag is the argument after its first place, or the empty string where that begins
-- with a dash; what comes before or later on the command line does not matter.
pub get_flags_lem :
    (before : List (List ℕ)) (s value : List ℕ) (later : List (List ℕ)) (flag : List ℕ)
    → Free before flag
    → is_flag s flag ≡ true
    → get_flags (before ++ (s ∷ value ∷ later)) flag
      ≡ (if starts_with_dash value then [] else value)
get_flags_lem [] s value later flag free matches = get_flags-here s value later flag matches
get_flags_lem (b ∷ before) s value later flag free matches =
    get_flags-skip b (before ++ (s ∷ value ∷ later)) flag free.0
    ∙ get_flags_lem before s value later flag free.1 matches
