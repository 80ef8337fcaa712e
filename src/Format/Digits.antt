-- ===== src/Format/Digits.antt =====
-- What number the characters of `__ToHex` of format.h stand for.
use green_turtle.Base.{
  ℕ, zero, suc, ◌+◌, ◌-◌, ◌*◌, ◌/◌, ◌%◌, ◌^◌, ◌<◌, ◌≤◌, ◌≡◌, ◌≢◌, refl, sym, ap, ◌∙◌, false, not,
  ◌||◌, ◌&&◌, none, some, Option, List, [], ◌∷◌, arith, ◌==◌, ltb, leb, if◌then◌else◌, length,
  get_elem?, get_or, Bool-cases, ==_iff, ==_of_ne, ne_of_==, inl, inr, some_inj,
}
use native.Mathlib.Nat.{pow-suc, div-lt_iff_lt-mul}
use green_turtle.Format.{hex_table, hex_digits, to_hex}

-- The value of a hexadecimal character, a digit or a small letter, and of nothing else.
abbrev pub digit_of : ℕ → Option ℕ
digit_of c =
    if leb 48 c && ltb c 58
    then some (c - 48)
    else if leb 97 c && ltb c 103
    then some (c - 87)
    else none

-- The number that characters stand for, the highest first, after those that make `acc`; `none` if
-- one of them is not hexadecimal.
abbrev pub read_hex : ℕ → List ℕ → Option ℕ
read_hex acc [] = some acc
read_hex acc (c ∷ cs) = elim (digit_of c) [ none ↦ none | some d ↦ read_hex (acc * 16 + d) cs ]

abbrev hex_char : ℕ → ℕ
hex_char d = get_or hex_table d 0

digit_of-hex_char : (d : ℕ) → d < 16 → digit_of (hex_char d) ≡ some d
digit_of-hex_char zero h = refl
digit_of-hex_char (suc zero) h = refl
digit_of-hex_char (suc (suc zero)) h = refl
digit_of-hex_char (suc (suc (suc zero))) h = refl
digit_of-hex_char (suc (suc (suc (suc zero)))) h = refl
digit_of-hex_char (suc (suc (suc (suc (suc zero))))) h = refl
digit_of-hex_char (suc (suc (suc (suc (suc (suc zero)))))) h = refl
digit_of-hex_char (suc (suc (suc (suc (suc (suc (suc zero))))))) h = refl
digit_of-hex_char (suc (suc (suc (suc (suc (suc (suc (suc zero)))))))) h = refl
digit_of-hex_char (suc (suc (suc (suc (suc (suc (suc (suc (suc zero))))))))) h = refl
digit_of-hex_char (suc (suc (suc (suc (suc (suc (suc (suc (suc (suc zero)))))))))) h = refl
digit_of-hex_char (suc (suc (suc (suc (suc (suc (suc (suc (suc (suc (suc zero))))))))))) h = refl
digit_of-hex_char (suc (suc (suc (suc (suc (suc (suc (suc (suc (suc (suc (suc zero)))))))))))) h =
    refl
digit_of-hex_char (suc (suc (suc (suc (suc (suc (suc (suc (suc (suc (suc (suc (suc zero)))))))))))))
      h =
    refl
digit_of-hex_char
      (suc (suc (suc (suc (suc (suc (suc (suc (suc (suc (suc (suc (suc (suc zero)))))))))))))) h =
    refl
digit_of-hex_char
      (suc (suc (suc (suc (suc (suc (suc (suc (suc (suc (suc (suc (suc (suc (suc zero)))))))))))))))
      h =
    refl
digit_of-hex_char
      (suc
        (suc (suc (suc (suc (suc (suc (suc (suc (suc (suc (suc (suc (suc (suc (suc d))))))))))))))))
      h =
    absurd (omega arith)

pow16_pos : (k : ℕ) → 0 < 16 ^ k
pow16_pos zero = omega arith
pow16_pos (suc k) = omega (arith, pow-suc 16 k, pow16_pos k)

divided : (v p : ℕ) → 0 < p → v / p * p + v % p ≡ v
divided v p h = grind arith

below : (v p : ℕ) → 0 < p → v % p < p
below v p h = grind arith

shifted : (acc v p : ℕ) → 0 < p → (acc * 16 + v / p) * p + v % p ≡ acc * (p * 16) + v
shifted acc v p h = let e = divided v p h in grind arith

-- The highest digit of `suc k`, and the number without it.
top : (k v : ℕ) → v < 16 ^ suc k → v / 16 ^ k < 16
top k v h = (div-lt_iff_lt-mul (pow16_pos k)).1 (omega (arith, pow-suc 16 k))

read-seen :
    (k acc v n : ℕ) → v < 16 ^ k → read_hex acc (hex_digits k v (suc n)) ≡ some (acc * 16 ^ k + v)
unfolding hex_digits
read-seen zero acc v n h = ap some (omega arith)
read-seen (suc k) acc v n h =
    let seen : (suc n == 0) ≡ false = ==_of_ne (λ e. omega arith) in
    let first : v / 16 ^ k < 16 = top k v h in
    rw (seen, digit_of-hex_char (v / 16 ^ k) first, read_hex)
      (read-seen k (acc * 16 + v / 16 ^ k) (v % 16 ^ k) (suc n) (below v (16 ^ k) (pow16_pos k))
        ∙ ap some
            (shifted acc v (16 ^ k) (pow16_pos k) ∙ ap (λ p. acc * p + v) (sym (pow-suc 16 k))))

read-unseen : (k v : ℕ) → v < 16 ^ k → read_hex 0 (hex_digits k v 0) ≡ some v
unfolding hex_digits
read-unseen zero v h = ap some (omega arith)
read-unseen (suc k) v h =
    let inside = below v (16 ^ k) (pow16_pos k) in
    let split = divided v (16 ^ k) (pow16_pos k) in
    elim (Bool-cases (v / 16 ^ k == 0)) [
      | inl none_yet ↦
          let d : v / 16 ^ k ≡ 0 = (==_iff (v / 16 ^ k) 0).0 none_yet in
          let flat : 0 * 16 ^ k + v % 16 ^ k ≡ v =
            ap (λ x. x * 16 ^ k + v % 16 ^ k) (sym d) ∙ split in
          let same : v % 16 ^ k ≡ v = omega (arith, flat) in
          rw none_yet (read-unseen k (v % 16 ^ k) inside ∙ ap some same)
      | inr first ↦
          let start : 0 * 16 + v / 16 ^ k ≡ v / 16 ^ k = omega arith in
          rw (first, digit_of-hex_char (v / 16 ^ k) (top k v h), read_hex)
            (ap (λ a. read_hex a (hex_digits k (v % 16 ^ k) 1)) start
              ∙ read-seen k (v / 16 ^ k) (v % 16 ^ k) 0 inside
              ∙ ap some split)
    ]

-- The first character is not '0'.
first_not_zero : (k v : ℕ) → v < 16 ^ k → get_elem? (hex_digits k v 0) 0 ≢ some 48
unfolding hex_digits
first_not_zero zero v h = λ e. cc
first_not_zero (suc k) v h = elim (Bool-cases (v / 16 ^ k == 0)) [
  | inl none_yet ↦ rw none_yet (first_not_zero k (v % 16 ^ k) (below v (16 ^ k) (pow16_pos k)))
  | inr first ↦ rw first (λ e.
      let zero_is : some 0 ≡ some (v / 16 ^ k) =
        sym (ap digit_of (some_inj e)) ∙ digit_of-hex_char (v / 16 ^ k) (top k v h) in
      ne_of_== first (sym (some_inj zero_is)))
]

length-hex_digits : (k v n : ℕ) → length (hex_digits k v n) ≤ k
unfolding hex_digits
length-hex_digits zero v n = omega arith
length-hex_digits (suc k) v n = elim (Bool-cases (not (n == 0) || not (v / 16 ^ k == 0))) [
  | inl writes ↦ rw writes (omega (arith, length-hex_digits k (v % 16 ^ k) (suc n)))
  | inr waits ↦ rw waits (omega (arith, length-hex_digits k (v % 16 ^ k) n))
]

-- The characters of a value of so many bytes are hexadecimal digits and small letters that stand
-- for that value; the first of them is not '0', and there are at most two for each byte. The value
-- is refused exactly where they do not fit.
pub to_hex_lem :
    (bytes value left : ℕ)
    → value < 16 ^ (bytes + bytes)
    → (text : List ℕ) × (to_hex bytes value left
        ≡ (if ltb left (length text) then none else some text))
      × (read_hex 0 text ≡ some value)
      × (get_elem? text 0 ≢ some 48)
      × (length text ≤ bytes + bytes)
unfolding to_hex
to_hex_lem bytes value left h = (
  hex_digits (bytes + bytes) value 0,
  refl,
  read-unseen (bytes + bytes) value h,
  first_not_zero (bytes + bytes) value h,
  length-hex_digits (bytes + bytes) value 0,
)
