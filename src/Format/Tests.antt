-- ===== src/Format/Tests.antt =====
-- 0x2a of one byte, and "ab" and "c" in buffers of four and of two characters.
use green_turtle.Base.{
  ℕ, ◌≡◌, refl, true, none, some, List, [], ◌∷◌, arith, ltb, if◌then◌else◌, length, get_elem?, ◌≢◌,
  ◌≤◌,
}
use green_turtle.Format.{hex_digits, to_hex, Piece, number, string, align_center, aligned}
use green_turtle.Format.Upper.{upper_all, to_upper}
use green_turtle.Format.Upper.Buffer.{to_upper_lem}
use green_turtle.Format.Digits.{read_hex, to_hex_lem}

to_hex_lem_example :
    (text : List ℕ) × (to_hex 1 42 9 ≡ (if ltb 9 (length text) then none else some text))
    × (read_hex 0 text ≡ some 42)
    × (get_elem? text 0 ≢ some 48)
    × (length text ≤ 2)
to_hex_lem_example = to_hex_lem 1 42 9 (omega arith)

-- "2a" of two bytes
two_a : to_hex 2 42 9 ≡ some (50 ∷ 97 ∷ [])
unfolding to_hex hex_digits
two_a = refl

-- Zero has no digits.
zero_is_empty : to_hex 4 0 9 ≡ some []
unfolding to_hex hex_digits
zero_is_empty = refl

-- "a5" in capitals, in the middle of five.
centred : aligned align_center true 5 48 (97 ∷ 53 ∷ []) 9 ≡ some (48 ∷ 65 ∷ 53 ∷ 48 ∷ 48 ∷ [])
unfolding aligned upper_all
centred = refl

to_upper_lem_example :
    to_upper (97 ∷ 122 ∷ 123 ∷ 225 ∷ 109 ∷ 1 ∷ 2 ∷ []) 5
    ≡ some (65 ∷ 90 ∷ 123 ∷ 225 ∷ 77 ∷ 0 ∷ 2 ∷ [])
to_upper_lem_example = to_upper_lem (97 ∷ 122 ∷ 123 ∷ 225 ∷ 109 ∷ 1 ∷ 2 ∷ []) 5 (omega arith)

abbrev pieces : List Piece
pieces = number (97 ∷ 98 ∷ []) ∷ string (99 ∷ []) ∷ []
