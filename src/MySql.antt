-- ===== src/MySql.antt =====
-- The result sets and commands of green_turtle/mysqlcxx.{h,cc}: a cursor over the rows that the client
-- library returned, and the parameters of a statement.
pub mod Rows
pub mod Connection
mod Tests
use green_turtle.Base.{
  ℕ, zero, suc, ◌+◌, ◌-◌, Bool, true, false, not, ◌&&◌, ◌||◌, Option, none, some, List, [], ◌∷◌,
  ◌++◌, ltb, leb, if◌then◌else◌, length, get_elem?, set, take, replicate,
}

-- A field is its bytes, or `none` for NULL.
abbrev pub Row : Type 0
Row = List (Option (List ℕ))

-- `current_row` is `none` for -1. `row` is what `mysql_fetch_row` gave last, with its lengths, and
-- `unread` the rows that it will still give.
pub record ResultSet : Type 0 where
  pub row : Option Row
  pub unread : List Row
  pub total_fields : ℕ
  pub total_rows : ℕ
  pub current_row : Option ℕ

unfoldable pub fetch_row : ResultSet → List Row → ResultSet
fetch_row s [] = record s { row = none; unread = [] }
fetch_row s (r ∷ rs) = record s { row = some r; unread = rs }

-- The constructor, for a result of the library.
unfoldable pub new_result : ℕ → List Row → ResultSet
new_result fields [] = record {
  row = none;
  unread = [];
  total_fields = fields;
  total_rows = 0;
  current_row = none;
}
new_result fields (r ∷ rs) = record {
  row = some r;
  unread = rs;
  total_fields = fields;
  total_rows = suc (length rs);
  current_row = some 0;
}

unfoldable pub field_count : ResultSet → ℕ
field_count s = s.total_fields

unfoldable pub row_count : ResultSet → ℕ
row_count s = s.total_rows

unfoldable pub next_at : ResultSet → Option ℕ → ResultSet
next_at s none = record (fetch_row s s.unread) { current_row = some 0 }
next_at s (some i) =
    if ltb i s.total_rows then record (fetch_row s s.unread) { current_row = some (suc i) } else s

unfoldable pub next : ResultSet → ResultSet
unfolding next_at
next s = next_at s s.current_row

unfoldable pub has_row : Option Row → Bool
has_row none = false
has_row (some r) = true

unfoldable pub is_valid : ResultSet → Bool
is_valid s = elim s.current_row [
  | none ↦ false
  | some i ↦ ltb 0 s.total_fields && (has_row s.row && (ltb 0 s.total_rows && ltb i s.total_rows))
]

-- A field of no length is given as NULL.
abbrev pub not_empty : Option (List ℕ) → Option (List ℕ)
not_empty none = none
not_empty (some []) = none
not_empty (some (b ∷ bs)) = some (b ∷ bs)

abbrev pub field_of : Option Row → ℕ → Option (List ℕ)
field_of none field = none
field_of (some r) field = elim (get_elem? r field) [ none ↦ none | some f ↦ not_empty f ]

-- `operator[]` and `at`
unfoldable pub at : ResultSet → ℕ → Option (List ℕ)
unfolding is_valid
at s field = if not (is_valid s) || leb s.total_fields field then none else field_of s.row field

-- A parameter of a statement; one that was never set has no type.
pub record SqlParam : Type 0 where
  pub param_type : Option ℕ
  pub bytes : List ℕ

abbrev pub unset : SqlParam
unset = record { param_type = none; bytes = [] }

-- `SetParam`; a failed assertion on the length is `none`.
unfoldable pub set_param : List SqlParam → ℕ → ℕ → List ℕ → Option (List SqlParam)
set_param params index type bytes =
    let wide =
      if leb (length params) index
      then params ++ replicate (suc index - length params) unset
      else params in
    if ltb 0 (length bytes)
    then some (set wide index (record { param_type = some type; bytes = bytes }))
    else none
