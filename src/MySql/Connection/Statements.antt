-- ===== src/MySql/Connection/Statements.antt =====
-- What a command of mysqlcxx.cc binds, what it returns, and what becomes of its statement.
use green_turtle.Base.{
  ℕ, suc, ◌-◌, ◌<◌, ◌≡◌, ◌≢◌, Option, none, some, List, [], ◌∷◌, ◌++◌, leb, ◌==◌, if◌then◌else◌,
  length, get_or, replicate,
}
use green_turtle.MySql.{SqlParam, unset, set_param}
use green_turtle.MySql.Connection.{
  to_int, minus, Bind, to_bind, StmtCall, stmt_init, stmt_close, stmt_bind_param, StmtAnswers,
}

-- A call of `SetParam`.
pub record Setting : Type 0 where
  pub index : ℕ
  pub type : ℕ
  pub bytes : List ℕ

unfoldable pub set_all : List SqlParam → List Setting → Option (List SqlParam)
set_all params [] = some params
set_all params (s ∷ ss) = elim (set_param params s.index s.type s.bytes) [
  | none ↦ none
  | some params' ↦ set_all params' ss
]

-- The parameter that was set last at an index, or else the one before.
abbrev pub latest : List Setting → ℕ → SqlParam → SqlParam
latest [] j before = before
latest (s ∷ ss) j before =
    latest ss j
      (if s.index == j then record { param_type = some s.type; bytes = s.bytes } else before)

abbrev pub AllFull : List Setting → Type 0
AllFull [] = Unit
AllFull (s ∷ ss) = (0 < length s.bytes) × AllFull ss

abbrev widened : List SqlParam → ℕ → List SqlParam
widened params index =
    if leb (length params) index
    then params ++ replicate (suc index - length params) unset
    else params

-- What the calls on a statement bound, and how many statements they leave open.
unfoldable pub bound : List StmtCall → List Bind
bound [] = []
bound (stmt_bind_param binds ∷ cs) = binds
bound (c ∷ cs) = bound cs

unfoldable pub left_open : ℕ → List StmtCall → ℕ
left_open n [] = n
left_open n (stmt_init ∷ cs) = left_open (suc n) cs
left_open n (stmt_close ∷ cs) = left_open (n - 1) cs
left_open n (c ∷ cs) = left_open n cs

-- The result of a command and its calls, with the parameters.
pub record Executed (ss : List Setting) (a : StmtAnswers) (result : ℕ) (calls : List StmtCall)
    : Type 0 where
  pub binds : (j : ℕ) → get_or (bound calls) j (to_bind unset) ≡ to_bind (latest ss j unset)
  pub good : a.execute ≡ 0 → (result ≡ to_int a.stmt_rows) × (left_open 0 calls ≡ 0)
  pub bad : a.execute ≢ 0 → (result ≡ minus a.conn_errno) × (left_open 0 calls ≡ 1)
