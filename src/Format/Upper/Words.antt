-- ===== src/Format/Upper/Words.antt =====
-- What the operations on a word in `ToUpper` of format.h do to its four characters.
use green_turtle.Base.{
  ℕ, zero, suc, ◌+◌, ◌-◌, ◌*◌, ◌/◌, ◌%◌, ◌^◌, ◌≤◌, ◌<◌, ◌≡◌, refl, ap, ap₂, ◌∙◌, Bool, true, ◌&&◌,
  [], ◌∷◌, arith, leb, ◌==◌, bit_and, bit_and_halves, bit_and-le,
}
use native.Mathlib.Nat.{pow-suc}
use green_turtle.Format.Upper.{join, bytes_of, upper_word, toupper}

-- A conjunction goes by groups of digits.
split_step :
    (p x m y n : ℕ)
    → (bit_and (x / 2 + p * y) (m / 2 + p * n) ≡ bit_and (x / 2) (m / 2) + p * bit_and y n)
    → bit_and (x + (2 * p) * y) (m + (2 * p) * n) ≡ bit_and x m + (2 * p) * bit_and y n
split_step p x m y n ih =
    let left : (x + (2 * p) * y) / 2 ≡ x / 2 + p * y = grind arith in
    let right : (m + (2 * p) * n) / 2 ≡ m / 2 + p * n = grind arith in
    let low : (x + (2 * p) * y) % 2 ≡ x % 2 = grind arith in
    let low' : (m + (2 * p) * n) % 2 ≡ m % 2 = grind arith in
    bit_and_halves (x + (2 * p) * y) (m + (2 * p) * n)
    ∙ rw (left, right, low, low', ih) (grind (arith, bit_and_halves x m))

bit_and_split :
    (k x m y n : ℕ)
    → x < 2 ^ k
    → m < 2 ^ k
    → bit_and (x + 2 ^ k * y) (m + 2 ^ k * n) ≡ bit_and x m + 2 ^ k * bit_and y n
bit_and_split zero x m y n hx hm =
    let x0 : x ≡ 0 = omega arith in
    let m0 : m ≡ 0 = omega arith in
    let y1 : 0 + 1 * y ≡ y = omega arith in
    let n1 : 0 + 1 * n ≡ n = omega arith in
    rw (x0, m0) (rw (y1, n1) (omega (arith, bit_and-le 0 0)))
bit_and_split (suc k) x m y n hx hm =
    let double : 2 ^ suc k ≡ 2 * 2 ^ k = omega (arith, pow-suc 2 k) in
    rw double (
      split_step (2 ^ k) x m y n
        (bit_and_split k (x / 2) (m / 2) y n (omega (arith, double)) (omega (arith, double))))

and_join :
    (a b c d m n o p : ℕ)
    → a < 256
    → b < 256
    → c < 256
    → m < 256
    → n < 256
    → o < 256
    → bit_and (join a b c d) (join m n o p)
      ≡ join (bit_and a m) (bit_and b n) (bit_and c o) (bit_and d p)
and_join a b c d m n o p ha hb hc hm hn ho =
    bit_and_split 8 a m (b + 256 * (c + 256 * d)) (n + 256 * (o + 256 * p)) ha hm
    ∙ ap (λ x. bit_and a m + 256 * x)
        (bit_and_split 8 b n (c + 256 * d) (o + 256 * p) hb hn
          ∙ ap (λ x. bit_and b n + 256 * x) (bit_and_split 8 c o d p hc ho))

-- What the word operations do to one character.
abbrev seven_bits : ℕ → ℕ
seven_bits b = bit_and 0x7f b

abbrev carried : ℕ → ℕ
carried b = seven_bits (seven_bits b + 0x05) + 0x1a

abbrev flagged : ℕ → ℕ
flagged b = bit_and (carried b) (255 - b)

abbrev case_bit : ℕ → ℕ
case_bit b = bit_and (flagged b / 4) 0x20

every_below : (ℕ → Bool) → ℕ → Bool
every_below p zero = true
every_below p (suc n) = every_below p n && p n

every_below_lem : (p : ℕ → Bool) (n x : ℕ) → every_below p n ≡ true → x < n → p x ≡ true
unfolding every_below
every_below_lem p zero x all h = absurd (omega arith)
every_below_lem p (suc n) x all h = ground (arith, every_below_lem p n x)

case_table : every_below (λ b. leb (case_bit b) b && (b - case_bit b == toupper b)) 256 ≡ true
unfolding every_below
case_table = refl

case_bit_lem : (b : ℕ) → b < 256 → (case_bit b ≤ b) × (b - case_bit b ≡ toupper b)
case_bit_lem b h =
    let row =
      every_below_lem (λ b. leb (case_bit b) b && (b - case_bit b == toupper b)) 256 b case_table
        h in
    (ground arith, ground arith)

seven_table : every_below (λ b. leb (seven_bits b) 0x7f) 256 ≡ true
unfolding every_below
seven_table = refl

seven_le : (b : ℕ) → b < 256 → seven_bits b ≤ 0x7f
seven_le b h =
    let row = every_below_lem (λ b. leb (seven_bits b) 0x7f) 256 b seven_table h in ground arith

carried_lt : (b : ℕ) → b < 256 → carried b < 256
carried_lt b h =
    let low = seven_le b h in let low' = seven_le (seven_bits b + 0x05) (omega arith) in omega arith

-- The two low bits of the next character do not reach the bit that is kept.
kept_bit : (t r : ℕ) → t < 256 → bit_and (t / 4 + 64 * r) 0x20 ≡ bit_and (t / 4) 0x20
kept_bit t r h =
    let split = bit_and_split 6 (t / 4) 0x20 r 0 (omega arith) (omega arith) in
    split ∙ omega (arith, bit_and-le r 0)

module _ (a b c d : ℕ) (ha : a < 256) (hb : b < 256) (hc : c < 256) (hd : d < 256) where
  sevens :
      bit_and 0x7f7f7f7f (join a b c d)
      ≡ join (seven_bits a) (seven_bits b) (seven_bits c) (seven_bits d)
  sevens = and_join 0x7f 0x7f 0x7f 0x7f a b c d (omega arith) (omega arith) (omega arith) ha hb hc

  complement : 0xffffffff - join a b c d ≡ join (255 - a) (255 - b) (255 - c) (255 - d)
  complement = omega arith

  quarter :
      join a b c d / 2 ^ 2
      ≡ join (a / 4 + 64 * (b % 4)) (b / 4 + 64 * (c % 4)) (c / 4 + 64 * (d % 4)) (d / 4 + 64 * 0)
  quarter = omega arith

  case_bits :
      bit_and (join a b c d / 2 ^ 2) 0x20202020
      ≡ join
          (bit_and (a / 4) 0x20)
          (bit_and (b / 4) 0x20)
          (bit_and (c / 4) 0x20)
          (bit_and (d / 4) 0x20)
  case_bits =
      ap (λ x. bit_and x 0x20202020) quarter
      ∙ and_join (a / 4 + 64 * (b % 4)) (b / 4 + 64 * (c % 4)) (c / 4 + 64 * (d % 4))
          (d / 4 + 64 * 0) 0x20 0x20 0x20 0x20 (omega arith) (omega arith) (omega arith)
          (omega arith) (omega arith) (omega arith)
      ∙ rw (kept_bit a (b % 4) ha, kept_bit b (c % 4) hb, kept_bit c (d % 4) hc, kept_bit d 0 hd)
          refl

  minus_each :
      (e f g h : ℕ)
      → e ≤ a
      → f ≤ b
      → g ≤ c
      → h ≤ d
      → (join a b c d + 2 ^ 32 - join e f g h) % 2 ^ 32 ≡ join (a - e) (b - f) (c - g) (d - h)
  minus_each e f g h le lf lg lh = omega arith

  pub bytes_of-join : bytes_of (join a b c d) ≡ a ∷ b ∷ c ∷ d ∷ []
  bytes_of-join =
      let e : join a b c d % 256 ≡ a = omega arith in
      let f : join a b c d / 256 % 256 ≡ b = omega arith in
      let g : join a b c d / 65536 % 256 ≡ c = omega arith in
      let h : join a b c d / 16777216 % 256 ≡ d = omega arith in rw (e, f, g, h) refl

plus_word :
    (a b c d n : ℕ)
    → n < 128
    → a < 128
    → b < 128
    → c < 128
    → d < 128
    → (join a b c d + join n n n n) % 2 ^ 32 ≡ join (a + n) (b + n) (c + n) (d + n)
plus_word a b c d n small la lb lc ld = omega arith

again :
    (a b c d : ℕ)
    → a < 256
    → b < 256
    → c < 256
    → d < 256
    → (bit_and 0x7f7f7f7f (join a b c d) + 0x1a1a1a1a) % 2 ^ 32
      ≡ join (seven_bits a + 0x1a) (seven_bits b + 0x1a) (seven_bits c + 0x1a) (seven_bits d + 0x1a)
again a b c d ha hb hc hd =
    let sa = seven_le a ha in
    let sb = seven_le b hb in
    let sc = seven_le c hc in
    let sd = seven_le d hd in
    ap (λ x. (x + 0x1a1a1a1a) % 2 ^ 32) (sevens a b c d ha hb hc hd)
    ∙ plus_word (seven_bits a) (seven_bits b) (seven_bits c) (seven_bits d) 0x1a (omega arith)
        (omega arith) (omega arith) (omega arith) (omega arith)

flagged_lt : (b : ℕ) → flagged b < 256
flagged_lt b = omega (arith, bit_and-le (carried b) (255 - b))

module _ (a b c d : ℕ) (ha : a < 256) (hb : b < 256) (hc : c < 256) (hd : d < 256) where
  pub upper_word_lem :
      upper_word (join a b c d) ≡ join (toupper a) (toupper b) (toupper c) (toupper d)
  unfolding upper_word
  upper_word_lem =
      let (sa, sb, sc, sd) : (seven_bits a ≤ 0x7f)
          × (seven_bits b ≤ 0x7f)
          × (seven_bits c ≤ 0x7f)
          × (seven_bits d ≤ 0x7f) =
        (seven_le a ha, seven_le b hb, seven_le c hc, seven_le d hd) in
      let word = join a b c d in
      let ebx = (bit_and 0x7f7f7f7f word + 0x05050505) % 2 ^ 32 in
      let ebx' = (bit_and 0x7f7f7f7f ebx + 0x1a1a1a1a) % 2 ^ 32 in
      let first : ebx
          ≡ join (seven_bits a + 0x05) (seven_bits b + 0x05) (seven_bits c + 0x05)
              (seven_bits d + 0x05) =
        ap (λ x. (x + 0x05050505) % 2 ^ 32) (sevens a b c d ha hb hc hd)
        ∙ plus_word (seven_bits a) (seven_bits b) (seven_bits c) (seven_bits d) 0x05 (omega arith)
            (omega arith) (omega arith) (omega arith) (omega arith) in
      let second : ebx' ≡ join (carried a) (carried b) (carried c) (carried d) =
        ap (λ x. (bit_and 0x7f7f7f7f x + 0x1a1a1a1a) % 2 ^ 32) first
        ∙ again (seven_bits a + 0x05) (seven_bits b + 0x05) (seven_bits c + 0x05)
            (seven_bits d + 0x05) (omega arith) (omega arith) (omega arith) (omega arith) in
      let third : bit_and ebx' (0xffffffff - word)
          ≡ join (flagged a) (flagged b) (flagged c) (flagged d) =
        ap₂ bit_and second (complement a b c d ha hb hc hd)
        ∙ and_join (carried a) (carried b) (carried c) (carried d) (255 - a) (255 - b) (255 - c)
            (255 - d) (carried_lt a ha) (carried_lt b hb) (carried_lt c hc) (omega arith)
            (omega arith) (omega arith) in
      let fourth : bit_and (bit_and ebx' (0xffffffff - word) / 2 ^ 2) 0x20202020
          ≡ join (case_bit a) (case_bit b) (case_bit c) (case_bit d) =
        ap (λ x. bit_and (x / 2 ^ 2) 0x20202020) third
        ∙ case_bits (flagged a) (flagged b) (flagged c) (flagged d) (flagged_lt a) (flagged_lt b)
            (flagged_lt c) (flagged_lt d) in
      let (la, ea) = case_bit_lem a ha in
      let (lb, eb) = case_bit_lem b hb in
      let (lc, ec) = case_bit_lem c hc in
      let (ld, ed) = case_bit_lem d hd in
      ap (λ x. (word + 2 ^ 32 - x) % 2 ^ 32) fourth
      ∙ minus_each a b c d ha hb hc hd (case_bit a) (case_bit b) (case_bit c) (case_bit d) la lb lc
          ld
      ∙ rw (ea, eb, ec, ed) refl
