-- ===== src/MySql/Connection.antt =====
-- `MySqlConnection` of green_turtle/mysqlcxx.cc, over the client library: what it answers is given,
-- and what it is asked is kept. An `int` is its bit pattern.
pub mod Statements
use green_turtle.Base.{
  ℕ, zero, suc, ◌+◌, ◌-◌, ◌%◌, ◌^◌, Bool, true, false, Option, none, some, List, [], ◌∷◌, ◌++◌,
  ◌==◌, if◌then◌else◌, map,
}
use green_turtle.MySql.{Row, ResultSet, SqlParam, new_result, set_param}

abbrev pub to_int : ℕ → ℕ
to_int n = n % 2 ^ 32

abbrev pub minus : ℕ → ℕ
minus n = (2 ^ 32 - n % 2 ^ 32) % 2 ^ 32

-- What `mysql_real_query`, `mysql_errno`, `mysql_affected_rows` and `mysql_store_result` answer; a
-- result has a number of fields and rows.
pub record Answers : Type 0 where
  pub real_query : ℕ
  pub errno : ℕ
  pub affected_rows : ℕ
  pub store_result : Option (ℕ × List Row)

-- `Connect`: whether `mysql_real_connect` gave a connection.
unfoldable pub connect : Bool → ℕ
connect connected = if connected then 0 else minus 1

-- `ExecSql(const char*)`
unfoldable pub exec_sql : Answers → ℕ
exec_sql a = if a.real_query == 0 then to_int a.affected_rows else minus a.errno

-- `SelectCharset`: the text that is sent is "set names " and the name.
unfoldable pub charset_sql : List ℕ → List ℕ
charset_sql charset = 115 ∷ 101 ∷ 116 ∷ 32 ∷ 110 ∷ 97 ∷ 109 ∷ 101 ∷ 115 ∷ 32 ∷ charset

unfoldable pub exec_select : Answers → Option ResultSet
exec_select a =
    if a.real_query == 0
    then elim a.store_result [ none ↦ none | some r ↦ some (new_result r.0 r.1) ]
    else none

-- A MYSQL_BIND; the type of a parameter that was never set is 0.
pub record Bind : Type 0 where
  pub buffer_type : ℕ
  pub buffer : List ℕ

unfoldable pub to_bind : SqlParam → Bind
to_bind p = record {
  buffer_type = elim p.param_type [ none ↦ 0 | some type ↦ type ];
  buffer = p.bytes;
}

-- A call of the client library on a statement.
pub data StmtCall : Type 0 where
  stmt_init stmt_execute stmt_errno stmt_affected_rows stmt_close : StmtCall
  stmt_prepare : List ℕ → StmtCall
  stmt_bind_param : List Bind → StmtCall

-- Whether `mysql_stmt_init` gave a statement, and what the calls on it answer.
pub record StmtAnswers : Type 0 where
  pub has_stmt : Bool
  pub execute : ℕ
  pub conn_errno : ℕ
  pub stmt_rows : ℕ

-- `ExecSql(const SqlCommand &)`: its result and its calls; `none` is `&binds[0]` of no parameters.
unfoldable pub exec_command : List ℕ → List SqlParam → StmtAnswers → Option (ℕ × List StmtCall)
exec_command sql [] a = if a.has_stmt then none else some (minus 1, stmt_init ∷ [])
exec_command sql (p ∷ ps) a =
    if a.has_stmt
    then (let begun =
          stmt_init
          ∷ stmt_prepare sql
          ∷ stmt_bind_param (map to_bind (p ∷ ps))
          ∷ stmt_execute
          ∷ [] in
        if a.execute == 0
        then some (to_int a.stmt_rows, begun ++ (stmt_affected_rows ∷ stmt_close ∷ []))
        else some (minus a.conn_errno, begun ++ (stmt_errno ∷ [])))
    else some (minus 1, stmt_init ∷ [])
