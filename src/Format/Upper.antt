-- ===== src/Format/Upper.antt =====
-- `ToUpper` of green_turtle/format.h: four characters at a time, in a word.
mod Words
pub mod Buffer
use green_turtle.Base.{
  ℕ, zero, suc, ◌+◌, ◌-◌, ◌*◌, ◌/◌, ◌%◌, ◌^◌, ◌≤◌, ◌<◌, ◌≡◌, refl, sym, ap, ap₂, ◌∙◌, Bool, true,
  false, ◌&&◌, Option, none, some, List, [], ◌∷◌, ◌++◌, map, arith, ltb, leb, ◌==◌, if◌then◌else◌,
  ==_iff, bit_and, bit_and_halves, bit_and-le, pow_pos, length, take, drop,
}
use native.Mathlib.Nat.{pow-suc}

-- A `uint32_t` and its characters, the lowest first.
abbrev pub join : ℕ → ℕ → ℕ → ℕ → ℕ
join a b c d = a + 256 * (b + 256 * (c + 256 * d))

abbrev pub bytes_of : ℕ → List ℕ
bytes_of w = w % 256 ∷ w / 256 % 256 ∷ w / 65536 % 256 ∷ w / 16777216 % 256 ∷ []

-- The body of the loop, on a word; `~eax` is the complement in 32 bits.
unfoldable pub upper_word : ℕ → ℕ
upper_word eax =
    let ebx = (bit_and 0x7f7f7f7f eax + 0x05050505) % 2 ^ 32 in
    let ebx' = (bit_and 0x7f7f7f7f ebx + 0x1a1a1a1a) % 2 ^ 32 in
    let ebx'' = bit_and (bit_and ebx' (0xffffffff - eax) / 2 ^ 2) 0x20202020 in
    (eax + 2 ^ 32 - ebx'') % 2 ^ 32

-- `toupper` of the C locale.
abbrev pub toupper : ℕ → ℕ
toupper c = if leb b'a' c && leb c b'z' then c - 32 else c

-- As many words as fit, and the characters that are left.
unfoldable pub upper_all : List ℕ → List ℕ
upper_all (a ∷ b ∷ c ∷ d ∷ rest) = bytes_of (upper_word (join a b c d)) ++ upper_all rest
upper_all (a ∷ b ∷ c ∷ []) = toupper a ∷ toupper b ∷ toupper c ∷ []
upper_all (a ∷ b ∷ []) = toupper a ∷ toupper b ∷ []
upper_all (a ∷ []) = toupper a ∷ []
upper_all [] = []

-- The first `len` characters of a buffer; the one after them becomes 0. The end of the buffer is
-- `none`.
unfoldable pub to_upper : List ℕ → ℕ → Option (List ℕ)
to_upper buffer len =
    if ltb len (length buffer)
    then some (upper_all (take len buffer) ++ (0 ∷ drop (suc len) buffer))
    else none
