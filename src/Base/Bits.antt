-- ===== src/Base/Bits.antt =====
-- `bit_and` at variables: the law for the lowest digit, masks of ones, bounds.
use Prim.Native.Nat.{
  ℕ, zero, suc, ◌+◌, ◌-◌, ◌*◌, ◌/◌, ◌%◌, ◌^◌, ◌≤◌, ◌<◌, min, bit_and, digits, bit_and-bitwise,
}
use mathlib.Core.Path.{◌≡◌, sym, ap, ◌∙◌}
use native.Mathlib.Nat.{pow-suc}
use native.Mathlib.Omega.{arith}

-- `fuel` digits of the conjunction; `bit_and a b` is that many at fuel `a`.
abbrev conjunction : (fuel left right : ℕ) → ℕ
conjunction fuel left right = digits (λ rest. zero) min fuel left right

-- Any fuel that is not below the left operand gives all its digits; `bound` is for the induction.
conjunction-bit_and :
    (bound fuel left right : ℕ)
    → fuel ≤ bound
    → left ≤ fuel
    → conjunction fuel left right ≡ bit_and left right
conjunction-bit_and bound zero zero right below enough = sym (bit_and-bitwise 0 right)
conjunction-bit_and bound zero (suc left) right below enough = absurd (omega arith)
conjunction-bit_and bound (suc fuel) zero right below enough = sym (bit_and-bitwise 0 right)
conjunction-bit_and zero (suc fuel) (suc left) right below enough = absurd (omega arith)
conjunction-bit_and (suc bound) (suc fuel) (suc left) right below enough =
    let given =
      conjunction-bit_and bound fuel (suc left / 2) (right / 2) (omega arith) (omega arith) in
    let own =
      conjunction-bit_and bound left (suc left / 2) (right / 2) (omega arith) (omega arith) in
    omega (arith, given, own, bit_and-bitwise (suc left) right)

-- The lowest digit, and the others.
pub bit_and_halves :
    (left right : ℕ)
    → bit_and left right ≡ min (left % 2) (right % 2) + 2 * bit_and (left / 2) (right / 2)
bit_and_halves zero right = omega (arith, bit_and-bitwise 0 right, bit_and-bitwise 0 (right / 2))
bit_and_halves (suc left) right =
    let rest =
      conjunction-bit_and left left (suc left / 2) (right / 2) (omega arith) (omega arith) in
    omega (arith, rest, bit_and-bitwise (suc left) right)

below_right : (bound left right : ℕ) → left ≤ bound → bit_and left right ≤ right
below_right bound zero right small = omega (arith, bit_and-bitwise 0 right)
below_right zero (suc left) right small = absurd (omega arith)
below_right (suc bound) (suc left) right small =
    let rest = below_right bound (suc left / 2) (right / 2) (omega arith) in
    omega (arith, rest, bit_and_halves (suc left) right)

-- No bit is set that the right operand does not have.
pub bit_and-le : (left right : ℕ) → bit_and left right ≤ right
bit_and-le left right = below_right left left right (omega arith)

pub pow_pos : (k : ℕ) → 0 < 2 ^ k
pow_pos zero = omega arith
pow_pos (suc k) = omega (arith, pow-suc 2 k, pow_pos k)

mod_double : (a p : ℕ) → 0 < p → a % (p * 2) ≡ a / 2 % p * 2 + a % 2
mod_double a p h = grind arith

bit_and_double :
    (a p : ℕ) → 0 < p → bit_and (a / 2) (p - 1) ≡ a / 2 % p → bit_and a (p * 2 - 1) ≡ a % (p * 2)
bit_and_double a p h ih =
    let half : bit_and (a / 2) ((p * 2 - 1) / 2) ≡ bit_and (a / 2) (p - 1) =
      ap (bit_and (a / 2)) (omega arith) in
    let low : (p * 2 - 1) % 2 ≡ 1 = omega arith in
    let step = bit_and_halves a (p * 2 - 1) in
    let split = mod_double a p h in
    let small : min (a % 2) ((p * 2 - 1) % 2) ≡ a % 2 = omega arith in
    step ∙ rw (half, ih, small) (omega (arith, split))

-- A mask of `k` ones takes the remainder by `2 ^ k`.
pub bit_and_mask : (k a : ℕ) → bit_and a (2 ^ k - 1) ≡ a % 2 ^ k
bit_and_mask zero a = omega (arith, bit_and-le a 0)
bit_and_mask (suc k) a =
    rw (pow-suc 2 k) (bit_and_double a (2 ^ k) (pow_pos k) (bit_and_mask k (a / 2)))
