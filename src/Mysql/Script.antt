-- ===== src/Mysql/Script.antt =====
-- `classifySQL`, `skipStatement` and `RunScript` of internal/mysql/query.go. The time that a run
-- took is left out of its result.
pub mod Counts
use flashaccess.Base.{
  ℕ, ◌+◌, Text, codes, Bool, true, false, not, ◌&&◌, ◌||◌, List, [], ◌∷◌, ◌++◌, Result, ok, err,
  ltb, length, take, has_prefix, trim_space, to_upper, if◌then◌else◌,
}
use flashaccess.Mysql.Quote.{quote_ident}
use flashaccess.Mysql.Driver.{Driver, DbError, bare, Statement, exec, connect}
use flashaccess.Mysql.Split.{split_statements}

pub data Kind : Type 0 where
  select dml ddl other : Kind

abbrev begins_with_any : Text → List Text → Bool
begins_with_any s [] = false
begins_with_any s (p ∷ ps) = has_prefix s p || begins_with_any s ps

-- `classifySQL`
unfoldable pub classify_sql : Text → Kind
unfolding has_prefix
classify_sql upper =
    let u = trim_space upper in
    if begins_with_any u
      (codes "SELECT" ∷ codes "SHOW" ∷ codes "EXPLAIN" ∷ codes "DESCRIBE" ∷ codes "DESC" ∷ [])
    then select
    else if begins_with_any u
        (codes "INSERT" ∷ codes "UPDATE" ∷ codes "DELETE" ∷ codes "REPLACE" ∷ [])
    then dml
    else if begins_with_any u
        (codes "CREATE" ∷ codes "ALTER" ∷ codes "DROP" ∷ codes "TRUNCATE" ∷ codes "RENAME" ∷ [])
    then ddl
    else other

-- `skipStatement`
unfoldable pub skip_statement : Text → Bool
skip_statement sql =
    let u = to_upper (trim_space sql) in
    has_prefix u (codes "CREATE DATABASE")
    || has_prefix u (codes "DROP DATABASE")
    || has_prefix u (codes "USE ")

-- the messages in `Errors`: the number of a statement counts from one
pub data ScriptError : Type 0 where
  connecting : DbError → ScriptError
  using : Text → DbError → ScriptError
  statement : ℕ → DbError → Text → ScriptError

pub record ScriptResult : Type 0 where
  pub total : ℕ
  pub executed : ℕ
  pub skipped : ℕ
  pub failed : ℕ
  pub errors : List ScriptError

abbrev pub fresh_result : List Text → ScriptResult
fresh_result stmts = record {
  total = length stmts;
  executed = 0;
  skipped = 0;
  failed = 0;
  errors = [];
}

-- a failure before any statement was run counts them all as failed
abbrev pub all_failed : List Text → ScriptError → ScriptResult
all_failed stmts e = record (fresh_result stmts) { failed = length stmts; errors = e ∷ [] }

-- a statement of more than 120 bytes is cut in the message, and an ellipsis added (its bytes in UTF-8)
abbrev pub preview : Text → Text
preview s = if ltb 120 (length s) then take 120 s ++ (226 ∷ 128 ∷ 166 ∷ []) else s

abbrev pub tally : Result DbError ℕ → ℕ → Text → ScriptResult → ScriptResult
tally (ok _) idx s res = record res { executed = res.executed + 1 }
tally (err e) idx s res = record res {
  failed = res.failed + 1;
  errors = res.errors ++ statement (idx + 1) e (preview s) ∷ [];
}

-- the loop of `RunScript` from statement number `idx`
unfoldable pub run_statements : Bool → ℕ → List Text → ScriptResult → Driver → ScriptResult × Driver
run_statements skipping idx [] res d = (res, d)
run_statements skipping idx (s ∷ ss) res d =
    let (r, after) = exec (bare s) d in
    let passed =
      run_statements skipping (idx + 1) ss (record res { skipped = res.skipped + 1 }) d in
    let ran = run_statements skipping (idx + 1) ss (tally r idx s res) after in
    if skipping && skip_statement s then passed else ran

-- behind the USE statement
abbrev pub after_use : Text → Bool → List Text → Result DbError ℕ × Driver → ScriptResult × Driver
after_use db skipping stmts (err e, d) = (all_failed stmts (using db e), d)
after_use db skipping stmts (ok _, d) = run_statements skipping 0 stmts (fresh_result stmts) d

-- USE, unless no database is named
abbrev pub after_connect :
    Text → Bool → List Text → Result DbError (Unit {0}) × Driver → ScriptResult × Driver
after_connect db skipping stmts (err e, d) = (all_failed stmts (connecting e), d)
after_connect [] skipping stmts (ok _, d) = run_statements skipping 0 stmts (fresh_result stmts) d
after_connect (c ∷ db) skipping stmts (ok _, d) =
    after_use (c ∷ db) skipping stmts (exec (bare (codes "USE " ++ quote_ident (c ∷ db))) d)

-- `RunScript`
unfoldable pub run_script : Text → Text → Bool → Driver → ScriptResult × Driver
run_script db script skipping d = after_connect db skipping (split_statements script) (connect d)
