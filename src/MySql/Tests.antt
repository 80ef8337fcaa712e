-- ===== src/MySql/Tests.antt =====
-- Two rows of one field.
use green_turtle.Base.{true, ◌≡◌, none, some, List, [], ◌∷◌, arith}
use green_turtle.MySql.{Row, new_result}
use green_turtle.MySql.Connection.{StmtAnswers}
use green_turtle.MySql.Connection.Statements.{Setting}
use green_turtle.MySql.Rows.{walk, walk_lem}

abbrev two_rows : List Row
two_rows = (some (1 ∷ []) ∷ []) ∷ (none ∷ []) ∷ []

both_rows_read : walk 3 (new_result 1 two_rows) ≡ some two_rows
both_rows_read = walk_lem two_rows 1 3 (omega arith) (omega arith)

-- Parameter 1 is set twice, parameter 0 never.
abbrev first_set : Setting
first_set = record { index = 1; type = 253; bytes = 97 ∷ [] }

abbrev set_again : Setting
set_again = record { index = 1; type = 252; bytes = 98 ∷ 99 ∷ [] }

abbrev refused : StmtAnswers
refused = record { has_stmt = true; execute = 1; conn_errno = 1062; stmt_rows = 0 }
