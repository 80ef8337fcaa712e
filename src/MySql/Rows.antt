-- ===== src/MySql/Rows.antt =====
-- What the cursor of a result set of mysqlcxx.cc visits.
use green_turtle.Base.{
  ℕ, zero, suc, ◌+◌, ◌<◌, ◌≡◌, refl, sym, ap, ◌∙◌, true, false, Bool-cases, inl, inr, Option, none,
  some, List, [], ◌∷◌, ◌++◌, arith, ltb, lt→ltb, length,
}
use green_turtle.MySql.{Row, ResultSet, fetch_row, new_result, next, next_at, has_row, is_valid}

-- `for (; s.IsValid(); s.Next())`, and the rows that it sees; `none` is a lack of fuel.
abbrev pub visited : Option Row → List Row
visited none = []
visited (some r) = r ∷ []

unfoldable pub walk : ℕ → ResultSet → Option (List Row)
walk zero s = none
walk (suc fuel) s = elim (is_valid s) [
  | false ↦ some []
  | true ↦ elim (walk fuel (next s)) [ none ↦ none | some rs ↦ some (visited s.row ++ rs) ]
]

-- The cursor at row `i`, and past the end.
abbrev at_row : ℕ → ℕ → Row → List Row → ResultSet
at_row fields i r rs = record {
  row = some r;
  unread = rs;
  total_fields = fields;
  total_rows = i + suc (length rs);
  current_row = some i;
}

abbrev past_end : ℕ → ℕ → ResultSet
past_end fields total = record {
  row = none;
  unread = [];
  total_fields = fields;
  total_rows = total;
  current_row = some total;
}

valid_row :
    (fields i : ℕ) (r : Row) (rs : List Row) → 0 < fields → is_valid (at_row fields i r rs) ≡ true
unfolding is_valid has_row
valid_row fields i r rs pos =
    rw
      (
        lt→ltb 0 fields pos,
        lt→ltb 0 (i + suc (length rs)) (omega arith),
        lt→ltb i (i + suc (length rs)) (omega arith),
      )
      refl

next-last : (fields i : ℕ) (r : Row) → next (at_row fields i r []) ≡ past_end fields (suc i)
unfolding next next_at fetch_row
next-last fields i r =
    let one : i + 1 ≡ suc i = omega arith in rw (one, lt→ltb i (suc i) (omega arith)) refl

next-row :
    (fields i : ℕ) (r r' : Row) (rs : List Row)
    → next (at_row fields i r (r' ∷ rs)) ≡ at_row fields (suc i) r' rs
unfolding next next_at fetch_row
next-row fields i r r' rs =
    let sum : i + suc (suc (length rs)) ≡ suc i + suc (length rs) = omega arith in
    rw (sum, lt→ltb i (suc i + suc (length rs)) (omega arith)) refl

walk_end : (fields total fuel : ℕ) → walk (suc fuel) (past_end fields total) ≡ some []
unfolding walk is_valid has_row
walk_end fields total fuel = elim (Bool-cases (ltb 0 fields)) [
  | inl e ↦ rw (e, walk, is_valid) refl
  | inr e ↦ rw (e, walk, is_valid) refl
]

walk_rows :
    (rs : List Row) (fields i fuel : ℕ) (r : Row)
    → 0 < fields
    → suc (length rs) < fuel
    → walk fuel (at_row fields i r rs) ≡ some (r ∷ rs)
unfolding walk
walk_rows rs fields i zero r pos enough = absurd (omega arith)
walk_rows [] fields i (suc zero) r pos enough = absurd (omega arith)
walk_rows [] fields i (suc (suc fuel)) r pos enough =
    rw (valid_row fields i r [] pos, walk)
      (rw (ap (walk (suc fuel)) (next-last fields i r) ∙ walk_end fields (suc i) fuel, walk) refl)
walk_rows (r' ∷ rs) fields i (suc fuel) r pos enough =
    rw (valid_row fields i r (r' ∷ rs) pos, walk)
      (rw
        (
          ap (walk fuel) (next-row fields i r r' rs)
              ∙ walk_rows rs fields (suc i) fuel r' pos (omega arith),
          walk,
        )
        refl)

-- Over a result with fields the cursor sees every row once, in order, and is then no longer valid;
-- as many steps as rows and one more are enough.
pub walk_lem :
    (rows : List Row) (fields fuel : ℕ)
    → 0 < fields
    → length rows < fuel
    → walk fuel (new_result fields rows) ≡ some rows
unfolding new_result
walk_lem [] fields zero pos enough = absurd (omega arith)
walk_lem [] fields (suc fuel) pos enough = unfold walk is_valid in refl
walk_lem (r ∷ rs) fields fuel pos enough =
    let total : 0 + suc (length rs) ≡ suc (length rs) = omega arith in
    ap (λ n. walk fuel (record (at_row fields 0 r rs) { total_rows = n })) (sym total)
    ∙ walk_rows rs fields 0 fuel r pos (omega arith)
