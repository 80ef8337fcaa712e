-- ===== src/MessageQueue/Made.antt =====
-- The queue that the constructor of message_queue.h makes.
use green_turtle.Base.{
  ℕ, ◌-◌, ◌^◌, ◌≤◌, ◌<◌, ◌≡◌, ◌⊎◌, inl, inr, ◌∙◌, ap, Bool, true, some, none, [], arith, bit_and,
  word_mod, sub64, ◌==◌, ltb, not, ◌||◌, refl, ◌≢◌, pow_pos, bit_and_mask, Bool-cases,
  length-replicate, pow_of_test,
}
use native.Mathlib.Decide.{dec_lt}
use native.Mathlib.Nat.{pow-le-pow_right, mod_self}
use green_turtle.MessageQueue.{fresh, make}
use green_turtle.MessageQueue.Track.{Shape, Track}

-- The two assertions of the constructor.
abbrev pub accepts : ℕ → Bool
accepts size = not (ltb size 2 || not (bit_and size (sub64 size 1) == 0))

accepts-pow :
    (size : ℕ) → size < word_mod → accepts size ≡ true → (k : ℕ) × (size ≡ 2 ^ k) × (k ≤ 63)
accepts-pow size small e =
    let big : 2 ≤ size = ground arith in
    let minus : sub64 size 1 ≡ size - 1 = omega arith in
    let test : bit_and size (sub64 size 1) ≡ 0 = ground arith in
    let (k, p) = pow_of_test size (omega arith) (rw minus at test) in
    (
      k,
      p,
      elim (dec_lt k 64) [
        | yes lt ↦ omega arith
        | no ge ↦
            absurd
              (omega (arith, pow-le-pow_right {n = 2} (omega arith) {i = 64} {j = k} (omega arith)))
      ],
    )

pow-accepts : (k : ℕ) → 1 ≤ k → 2 ^ k < word_mod → accepts (2 ^ k) ≡ true
pow-accepts k one small =
    let minus : sub64 (2 ^ k) 1 ≡ 2 ^ k - 1 = omega (arith, pow_pos k) in
    let test : bit_and (2 ^ k) (sub64 (2 ^ k) 1) ≡ 0 =
      rw minus (bit_and_mask k (2 ^ k) ∙ mod_self (2 ^ k)) in
    let big = pow-le-pow_right {n = 2} (omega arith) {i = 1} {j = k} one in ground arith

fresh-Shape {ℓ} :
    {A : Type ℓ} (zero_value : A) (size k : ℕ)
    → 2 ≤ size
    → size < word_mod
    → size ≡ 2 ^ k
    → k ≤ 63
    → Shape k (fresh zero_value size)
fresh-Shape zero_value size k big below p small = record {
  pow = p;
  small = small;
  positive = big;
  masked = omega arith;
  slots = length-replicate size zero_value;
}

fresh-Track {ℓ} : {A : Type ℓ} (zero_value : A) (size : ℕ) → Track (fresh zero_value size) [] 0
fresh-Track zero_value size = record {
  read = refl;
  write = refl;
  behind = omega arith;
  room = omega arith;
  held = λ i from below. absurd (omega arith);
}

-- The constructor accepts exactly the powers of two from 2 on, and starts empty.
pub make_fifo {ℓ} :
    {A : Type ℓ} (zero_value : A) (size : ℕ)
    → size < word_mod
    → ((make zero_value size ≡ none) × ((k : ℕ) → 1 ≤ k → size ≢ 2 ^ k))
      ⊎ ((k : ℕ) × (make zero_value size ≡ some (fresh zero_value size))
          × Shape k (fresh zero_value size)
          × Track (fresh zero_value size) [] 0)
unfolding make
make_fifo zero_value size small = elim (Bool-cases (accepts size)) [
  | inl good ↦
      let (k, p, le) = accepts-pow size small good in
      inr (
        k,
        ground arith,
        fresh-Shape zero_value size k (ground arith) small p le,
        fresh-Track zero_value size,
      )
  | inr bad ↦ inl (
    ground arith,
    λ k one e.
        let works = pow-accepts k one (rw e at small) in
        let same : accepts size ≡ accepts (2 ^ k) = ap accepts e in cc,
  )
]
