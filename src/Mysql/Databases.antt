-- ===== src/Mysql/Databases.antt =====
-- Schemas: `CreateDatabase` and `DropDatabase` of internal/mysql/admin.go, `ListDatabases` and
-- `ListTables` of query.go, and the playground databases of playground.go.
pub mod Sample
pub mod Targets
use flashaccess.Base.{
  ℕ, Text, codes, Bool, true, false, not, ◌&&◌, ◌||◌, Option, none, some, List, [], ◌∷◌, ◌++◌,
  Result, ok, err, text_eq, to_lower, if◌then◌else◌, keep,
}
use flashaccess.Mysql.Quote.{esc_ident, quote_ident}
use flashaccess.Mysql.Driver.{
  Driver, Value, null, bytes, int, DbError, driver, context, invalid_database, system_database,
  not_playground, invalid_source, invalid_target, invalid_sample, Rows, Call, Statement, bare,
  query, exec, exec_only,
}
use flashaccess.Mysql.Driver.Runs.{or_undo}
use flashaccess.Mysql.Names.{db_name_pattern, is_playground_db}
use flashaccess.Mysql.Databases.Sample.{sample_statements}

-- the schemas that `DropDatabase` refuses
abbrev pub is_system : Text → Bool
is_system name =
    text_eq name (codes "mysql")
    || text_eq name (codes "information_schema")
    || text_eq name (codes "performance_schema")
    || text_eq name (codes "sys")

abbrev pub create_database_sql : Text → Text
create_database_sql name = codes "CREATE DATABASE IF NOT EXISTS " ++ quote_ident name

abbrev pub drop_database_sql : Text → Text
drop_database_sql name = codes "DROP DATABASE IF EXISTS " ++ quote_ident name

-- `CreateDatabase`
unfoldable pub create_database : Text → Call (Unit {0})
create_database name d =
    if not (db_name_pattern name)
    then (err (invalid_database name), d)
    else exec_only (bare (create_database_sql name)) d

-- `DropDatabase`
unfoldable pub drop_database : Text → Call (Unit {0})
drop_database name d =
    if not (db_name_pattern name)
    then (err (invalid_database name), d)
    else if is_system (to_lower name)
    then (err (system_database name), d)
    else exec_only (bare (drop_database_sql name)) d

-- `CreatePlaygroundDB`
unfoldable pub create_playground_db : Text → Call (Unit {0})
create_playground_db name d =
    if not (is_playground_db name)
    then (err (not_playground name), d)
    else exec_only
        (bare
          (create_database_sql name ++ codes " CHARACTER SET utf8mb4 COLLATE utf8mb4_unicode_ci"))
        d

-- `DropPlaygroundDB`
unfoldable pub drop_playground_db : Text → Call (Unit {0})
drop_playground_db name d =
    if not (is_playground_db name)
    then (err (not_playground name), d)
    else exec_only (bare (drop_database_sql name)) d

-- Scanning a column into a string: NULL is an error; a number is given as bytes by the driver.
abbrev pub scan_string : Value → Option Text
scan_string null = none
scan_string (bytes t) = some t
scan_string (int _) = none

abbrev scan_name : List Value → Option Text
scan_name [] = none
scan_name (v ∷ []) = scan_string v
scan_name (v ∷ w ∷ r) = none

-- the end of a loop over rows: `return out, rows.Err()`
abbrev pub with_fault {ℓ} : {A : Type ℓ} → A → Option Text → Result DbError A
with_fault a none = ok a
with_fault a (some e) = err (driver e)

-- the loop of `rows.Next` and `rows.Scan` over rows that are scanned by `scan`
unfoldable pub scan_rows {ℓ} :
    {A : Type ℓ}
    → (List Value → Option A)
    → List (List Value)
    → Option Text
    → Result DbError (List A)
scan_rows scan [] fault = with_fault [] fault
scan_rows scan (r ∷ rs) fault =
    let rest = scan_rows scan rs fault in
    elim (scan r) [
      | none ↦ err (driver (codes "scan"))
      | some a ↦ elim rest [ ok more ↦ ok (a ∷ more) | err e ↦ err e ]
    ]

abbrev pub scan_result {ℓ} :
    {A : Type ℓ} → (List Value → Option A) → Result DbError Rows → Result DbError (List A)
scan_result scan (ok rows) = scan_rows scan rows.items rows.fault
scan_result scan (err e) = err e

-- `ListDatabases`
unfoldable pub list_databases : Call (List Text)
unfolding query scan_rows
list_databases d =
    let (r, after) = query (bare (codes "SHOW DATABASES")) d in (scan_result scan_name r, after)

pub record TableInfo : Type 0 where
  pub name : Text
  pub engine : Text
  pub rows : ℕ
  pub size : Text

abbrev scan_table : List Value → Option TableInfo
scan_table (bytes n ∷ bytes e ∷ int r ∷ bytes s ∷ []) =
    some (record { name = n; engine = e; rows = r; size = s })
scan_table _ = none

-- the query of `ListTables`, with its white space as one blank
unfoldable pub list_tables_sql : Text
list_tables_sql =
    codes
      "SELECT TABLE_NAME, COALESCE(ENGINE, ''), COALESCE(TABLE_ROWS, 0), COALESCE(CONCAT(ROUND((DATA_LENGTH+INDEX_LENGTH)/1024/1024,2),' MB'),'"
    ++ (226
        ∷ 128
        ∷ 148
        ∷ codes "') FROM information_schema.TABLES WHERE TABLE_SCHEMA = ? ORDER BY TABLE_NAME")

-- `ListTables`
unfoldable pub list_tables : Text → Call (List TableInfo)
unfolding query scan_rows
list_tables db d =
    let (r, after) = query (record { text = list_tables_sql; args = bytes db ∷ [] }) d in
    (scan_result scan_table r, after)

-- "`%s`.`%s`"
abbrev pub qualified : Text → Text → Text
qualified db table = quote_ident db ++ (codes "." ++ quote_ident table)

abbrev pub copy_structure_sql : Text → Text → Text → Text
copy_structure_sql src dst t =
    codes "CREATE TABLE " ++ (qualified dst t ++ (codes " LIKE " ++ qualified src t))

abbrev pub copy_data_sql : Text → Text → Text → Text
copy_data_sql src dst t =
    codes "INSERT INTO " ++ (qualified dst t ++ (codes " SELECT * FROM " ++ qualified src t))

-- one round of the loop: the results of the two statements, the states behind them, and the rest
abbrev pub clone_step :
    Result DbError ℕ
    → Result DbError ℕ
    → Text
    → Driver
    → Driver
    → Result DbError (Unit {0}) × Driver
    → Result DbError (Unit {0}) × Driver
clone_step (err e) r table d1 d2 rest =
    (err (context (codes "create table " ++ (table ++ codes " in playground")) e), d1)
clone_step (ok _) (err e) table d1 d2 rest =
    (err (context (codes "copy data for table " ++ table) e), d2)
clone_step (ok _) (ok _) table d1 d2 rest = rest

-- The loop of `CloneDatabase` over the tables: the first failure ends it.
unfoldable pub clone_tables : Text → Text → List TableInfo → Call (Unit {0})
clone_tables src dst [] d = (ok tt, d)
clone_tables src dst (t ∷ ts) d =
    let (r1, d1) = exec (bare (copy_structure_sql src dst t.name)) d in
    let (r2, d2) = exec (bare (copy_data_sql src dst t.name)) d1 in
    let rest = clone_tables src dst ts d2 in clone_step r1 r2 t.name d1 d2 rest

abbrev pub clone_listed :
    Text → Text → Result DbError (List TableInfo) × Driver → Result DbError (Unit {0}) × Driver
clone_listed src dst (err e, d) = (err (context (codes "list tables") e), d)
clone_listed src dst (ok tables, d) = clone_tables src dst tables d

-- `CloneDatabase`
unfoldable pub clone_database : Text → Text → Call (Unit {0})
clone_database src dst d =
    if not (db_name_pattern src) && not (is_playground_db src)
    then (err (invalid_source src), d)
    else if not (is_playground_db dst)
    then (err (invalid_target dst), d)
    else clone_listed src dst (list_tables src d)

-- the loop of `GenerateSampleDatabase` over its statements: the first failure ends it
unfoldable pub run_all : Text → List Statement → Call (Unit {0})
run_all label [] d = (ok tt, d)
run_all label (s ∷ ss) d =
    let (r, after) = exec s d in let rest = run_all label ss after in or_undo r label after rest

-- `GenerateSampleDatabase`
unfoldable pub generate_sample_database : Text → Call (Unit {0})
generate_sample_database dst d =
    if not (is_playground_db dst)
    then (err (invalid_sample dst), d)
    else run_all (codes "generate sample") (sample_statements dst) d

abbrev only_playgrounds : Result DbError (List Text) → Result DbError (List Text)
only_playgrounds (ok dbs) = ok (keep is_playground_db dbs)
only_playgrounds (err e) = err e

-- `ListPlaygroundDBs`
unfoldable pub list_playground_dbs : Call (List Text)
unfolding list_databases
list_playground_dbs d = let (r, after) = list_databases d in (only_playgrounds r, after)
