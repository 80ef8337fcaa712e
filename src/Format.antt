-- ===== src/Format.antt =====
-- green_turtle/format.h: hexadecimal digits, alignment, and the composition of a text in a buffer.
pub mod Digits
pub mod Pieces
pub mod Upper
mod Tests
use green_turtle.Base.{
  ℕ, zero, suc, ◌+◌, ◌-◌, ◌/◌, ◌%◌, ◌^◌, Bool, true, false, not, ◌||◌, Option, none, some, List, [],
  ◌∷◌, ◌++◌, ltb, leb, ◌==◌, if◌then◌else◌, length, take, replicate, get_or,
}
use green_turtle.Format.Upper.{upper_all}

-- "0123456789abcdef"
abbrev pub hex_table : List ℕ
hex_table = 48 ∷ 49 ∷ 50 ∷ 51 ∷ 52 ∷ 53 ∷ 54 ∷ 55 ∷ 56 ∷ 57 ∷ 97 ∷ 98 ∷ 99 ∷ 100 ∷ 101 ∷ 102 ∷ []

-- The loop of `__ToHex` over `k` digits, the highest first; `length` is how many characters were
-- written before.
unfoldable pub hex_digits : ℕ → ℕ → ℕ → List ℕ
hex_digits zero value length = []
hex_digits (suc k) value length =
    let hex_value = value / 16 ^ k in
    let writes = not (length == 0) || not (hex_value == 0) in
    let rest = hex_digits k (value % 16 ^ k) (if writes then suc length else length) in
    if writes then get_or hex_table hex_value 0 ∷ rest else rest

-- `__ToHex` of a value of `bytes` bytes: the characters, or `none` for -1.
unfoldable pub to_hex : ℕ → ℕ → ℕ → Option (List ℕ)
to_hex bytes value left =
    let digits = hex_digits (bytes + bytes) value 0 in
    if ltb left (length digits) then none else some digits

-- kAlignLeft, kAlignRight and kAlignCenter
pub data Align : Type 0 where
  align_left align_right align_center : Align

abbrev pub padded : Align → ℕ → ℕ → List ℕ → List ℕ
padded align_left pad space text = text ++ replicate space pad
padded align_right pad space text = replicate space pad ++ text
padded align_center pad space text =
    replicate (space / 2) pad ++ (text ++ replicate (space - space / 2) pad)

-- `ToString` of an aligned value whose text is `text`, with kAlignUpper or without; `none` is -1.
unfoldable pub aligned : Align → Bool → ℕ → ℕ → List ℕ → ℕ → Option (List ℕ)
aligned mode upper width pad text left =
    let text' = if upper then upper_all text else text in
    let max_length = if ltb (length text) width then width else length text in
    if ltb left max_length then none else some (padded mode pad (max_length - length text) text')

-- A number, whose `ToString` gives its length even where it does not fit, or a string, whose
-- `ToString` then gives -1.
pub data Piece : Type 0 where
  number string : List ℕ → Piece

-- `__Format`: what is written, and what is left of the buffer. A length of -1 is not greater than
-- `left`: it takes a character back. The result is `none` for -1; `none` is also a write before the
-- buffer.
unfoldable pub format : List ℕ → ℕ → List Piece → Option (List ℕ)
format written left [] = some written
format written left (number text ∷ rest) =
    let more = format (written ++ text) (left - length text) rest in
    if ltb left (length text) then none else more
format written left (string text ∷ rest) =
    let more = format (written ++ text) (left - length text) rest in
    let less = format (take (length written - 1) written) (suc left) rest in
    if ltb left (length text) then if length written == 0 then none else less else more
