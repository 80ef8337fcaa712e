-- ===== src/Logger/Links.antt =====
-- The link of a log file in logger.cc.
use green_turtle.Base.{
  ℕ, ◌≡◌, refl, true, false, List, [], ◌∷◌, ◌++◌, ◌==◌, if◌then◌else◌, Bool-cases, inl, inr,
  contains,
}
use green_turtle.Logger.{base_name}

base_name_plain : (found name : List ℕ) → contains name 47 ≡ false → base_name found name ≡ found
unfolding base_name
base_name_plain found [] plain = refl
base_name_plain found (c ∷ cs) plain = elim (Bool-cases (c == 47)) [
  | inl e ↦ let x : true ≡ false = rw e at plain in cc
  | inr e ↦ rw e (base_name_plain found cs (rw e at plain))
]

-- The link of a file in a directory points to what stands after the last slash.
pub base_name_lem :
    (directory name found : List ℕ)
    → contains name 47 ≡ false
    → base_name found (directory ++ (47 ∷ name)) ≡ name
unfolding base_name
base_name_lem [] name found plain = base_name_plain name name plain
base_name_lem (c ∷ cs) name found plain =
    base_name_lem cs name (if c == 47 then cs ++ (47 ∷ name) else found) plain
