-- ===== src/Kv/Protocol/Strings.antt =====
-- How `Decode` of kv/protocol.h reads a string that was written as its length and its bytes.
use green_turtle.Base.{
  ℕ, zero, suc, ◌/◌, ◌%◌, ◌^◌, ◌≤◌, ◌<◌, ◌≡◌, refl, ap, true, some, List, [], ◌∷◌, ◌++◌, arith, leb,
  lt→ltb, le→leb, length, take, drop, length-append,
}
use green_turtle.Kv.Protocol.{read_u32, decode_int32, decode_string}

abbrev pub four_bytes : ℕ → List ℕ
four_bytes n = n % 256 ∷ n / 256 % 256 ∷ n / 256 / 256 % 256 ∷ n / 256 / 256 / 256 ∷ []

-- A string as a client writes it.
abbrev pub encoded : List ℕ → List ℕ
encoded s = four_bytes (length s) ++ s

read_four_bytes : (n : ℕ) (rest : List ℕ) → read_u32 (four_bytes n ++ rest) ≡ some n
unfolding read_u32
read_four_bytes n rest = ap some (omega arith)

prefix :
    (n : ℕ) (s rest : List ℕ)
    → 4 ≤ n
    → take 4 (take n (four_bytes (length s) ++ (s ++ rest))) ≡ four_bytes (length s)
prefix (suc (suc (suc (suc n)))) s rest h = refl
prefix (suc (suc (suc zero))) s rest h = absurd (omega arith)
prefix (suc (suc zero)) s rest h = absurd (omega arith)
prefix (suc zero) s rest h = absurd (omega arith)
prefix zero s rest h = absurd (omega arith)

-- A string of up to 2^31 - 1 bytes is read, but from its length on: what is decoded is as many
-- bytes as the string has, the first four of which are those of its length, and the next read
-- starts four bytes before the end of the string.
pub decode_string_lem :
    (s rest : List ℕ)
    → length s < 2 ^ 31
    → let all = four_bytes (length s) ++ (s ++ rest) in
      (decode_string all ≡ some (take (length s) all, drop (length s) all))
      × (4 ≤ length s → take 4 (take (length s) all) ≡ four_bytes (length s))
unfolding decode_string decode_int32
decode_string_lem s rest small =
    let all = four_bytes (length s) ++ (s ++ rest) in
    let longer : leb (length s) (length all) ≡ true =
      le→leb (length s) (length all) (omega (arith, length-append s rest)) in
    (
      rw (read_four_bytes (length s) (s ++ rest), decode_string, decode_int32)
          (rw (lt→ltb (length s) (2 ^ 31) small, longer) refl),
      prefix (length s) s rest,
    )
