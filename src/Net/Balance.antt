-- ===== src/Net/Balance.antt =====
-- How event_loop.cc and tcp_acceptor.cc of green_turtle/net go round the loops.
use green_turtle.Base.{
  ℕ, suc, ◌+◌, ◌%◌, ◌<◌, ◌≡◌, refl, ap, List, [], ◌∷◌, arith, leb, if◌then◌else◌, Bool-cases, inl,
  inr,
}

-- The index is moved on, and goes back to 0 at the end.
abbrev pub next_loop : ℕ → ℕ → ℕ
next_loop loops idx = if leb loops (suc idx) then 0 else suc idx

-- The `n`th of a sequence that begins at loop `idx`.
abbrev pub turn : ℕ → ℕ → ℕ → ℕ
turn loops idx n = (idx + n) % loops

-- The items with the loops that they are to go to.
abbrev pub dealt {ℓ} : {A : Type ℓ} → ℕ → ℕ → ℕ → List A → List (A × ℕ)
dealt loops idx n [] = []
dealt loops idx n (x ∷ xs) = (x, turn loops idx n) ∷ dealt loops idx (suc n) xs

pub turn-zero : (loops idx : ℕ) → idx < loops → turn loops idx 0 ≡ idx
turn-zero loops idx h = grind arith

pub next_loop-lt : (loops idx : ℕ) → idx < loops → next_loop loops idx < loops
next_loop-lt loops idx h = ground arith

wrap : (loops n : ℕ) → 0 < loops → (loops + n) % loops ≡ n % loops
wrap loops n h = grind arith

pub turn-next :
    (loops idx n : ℕ) → idx < loops → turn loops (next_loop loops idx) n ≡ turn loops idx (suc n)
turn-next loops idx n h = elim (Bool-cases (leb loops (suc idx))) [
  | inl end ↦
      let last : suc idx ≡ loops = ground arith in
      let sum : idx + suc n ≡ loops + n = omega arith in
      rw (end, sum) (let w = wrap loops n (omega arith) in grind arith)
  | inr before ↦ let sum : suc idx + n ≡ idx + suc n = omega arith in rw (before, sum)
]

pub dealt-next {ℓ} :
    {A : Type ℓ} (loops idx n : ℕ) (xs : List A)
    → idx < loops
    → dealt loops (next_loop loops idx) n xs ≡ dealt loops idx (suc n) xs
dealt-next loops idx n [] h = refl
dealt-next loops idx n (x ∷ xs) h =
    rw (turn-next loops idx n h)
      (ap (λ l. (x, turn loops idx (suc n)) ∷ l) (dealt-next loops idx (suc n) xs h))
