-- ===== src/Base/Words.antt =====
-- Unsigned words: addition and subtraction of `uint64_t` (and `size_t`) wrap.
use Prim.Native.Nat.{ℕ, zero, suc, ◌+◌, ◌-◌, ◌*◌, ◌/◌, ◌%◌, ◌^◌, ◌≤◌, ◌<◌, ◌∣◌, bit_and}
use mathlib.Core.Path.{◌≡◌, refl, sym, ap, ◌∙◌, subst}
use mathlib.Core.Logic.{◌≢◌}
use native.Mathlib.Nat.{pow-suc, mod-mod_of_dvd, mul_assoc, dvd-mul_right}
use native.Mathlib.Decide.{ℕ_discrete}
use native.Mathlib.Omega.{arith}
use green_turtle.Base.Bits.{bit_and_halves, bit_and_mask}

abbrev pub word_mod : ℕ
word_mod = 2 ^ 64

abbrev pub add64 : ℕ → ℕ → ℕ
add64 a b = (a + b) % word_mod

abbrev pub sub64 : ℕ → ℕ → ℕ
sub64 a b = (a + word_mod - b) % word_mod

pub pow_split : (k m : ℕ) → 2 ^ k * 2 ^ m ≡ 2 ^ (k + m)
pow_split k zero = let e : k + 0 ≡ k = omega arith in rw e (omega arith)
pow_split k (suc m) =
    let e : suc (k + m) ≡ k + suc m = omega arith in
    rw pow-suc (
      sym (mul_assoc (2 ^ k) (2 ^ m) 2)
      ∙ ap (λ t. t * 2) (pow_split k m)
      ∙ sym (pow-suc 2 (k + m))
      ∙ ap (λ t. 2 ^ t) e)

-- The low bits of a wrapped counter are those of the counter.
pub mask_of_wrapped : (k n : ℕ) → k ≤ 64 → bit_and (n % word_mod) (2 ^ k - 1) ≡ n % 2 ^ k
mask_of_wrapped k n h =
    let e : k + (64 - k) ≡ 64 = omega arith in
    let divides : 2 ^ k ∣ 2 ^ 64 =
      subst (λ t. 2 ^ k ∣ t) (pow_split k (64 - k) ∙ ap (λ t. 2 ^ t) e)
        (dvd-mul_right (2 ^ k) (2 ^ (64 - k))) in
    bit_and_mask k (n % word_mod) ∙ mod-mod_of_dvd (2 ^ k) n divides

-- Two numbers less than `s` apart, and not equal, have different remainders by `s`.
pub mod_ne : (i w s : ℕ) → i < w → w - i < s → i % s ≢ w % s
mod_ne i w s lt near e = grind arith

bit_and_self_fuel : (n a : ℕ) → a ≤ n → bit_and a a ≡ a
bit_and_self_fuel n zero h = refl
bit_and_self_fuel zero (suc a) h = absurd (omega arith)
bit_and_self_fuel (suc n) (suc a) h =
    omega (arith, bit_and_halves (suc a) (suc a), bit_and_self_fuel n (suc a / 2) (omega arith))

-- The test `x & (x - 1)` of the constructors' assertions: it is 0 only at a power of two.
pow_of_test_fuel : (n a : ℕ) → a ≤ n → 0 < a → bit_and a (a - 1) ≡ 0 → (k : ℕ) × (a ≡ 2 ^ k)
pow_of_test_fuel zero a h pos e = absurd (omega arith)
pow_of_test_fuel (suc n) a h pos e = elim (ℕ_discrete (a % 2) 0) [
  | yes even ↦
      let (k, p) = pow_of_test_fuel n (a / 2) (omega arith) (omega arith) (half even) in
      (suc k, omega (arith, pow-suc 2 k))
  | no odd ↦ (0, omega (arith, bit_and_halves a (a - 1), diagonal odd, bit_and_self_fuel a (a / 2)))
]
  where
    half : a % 2 ≡ 0 → bit_and (a / 2) (a / 2 - 1) ≡ 0
    half even =
        let s : (a - 1) / 2 ≡ a / 2 - 1 = omega arith in
        rw (← s) (omega (arith, bit_and_halves a (a - 1)))

    diagonal : a % 2 ≢ 0 → bit_and (a / 2) ((a - 1) / 2) ≡ bit_and (a / 2) (a / 2)
    diagonal odd = ap (bit_and (a / 2)) (omega arith)

pub pow_of_test : (a : ℕ) → 0 < a → bit_and a (a - 1) ≡ 0 → (k : ℕ) × (a ≡ 2 ^ k)
pow_of_test a = pow_of_test_fuel a a (omega arith)
