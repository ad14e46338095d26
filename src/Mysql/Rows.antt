-- ===== src/Mysql/Rows.antt =====
-- Rows of tables, in internal/mysql/query.go: `InsertRow`, `UpdateRow`, `DeleteRow`, `BrowseTable`,
-- `RunUserQuery`, and the collection of a result. The time that a query took is left out.
pub mod Reading
pub mod Sent
use flashaccess.Base.{
  ℕ, ◌+◌, Text, text_eq, codes, Bool, true, false, Option, none, some, List, [], ◌∷◌, ◌++◌, Result,
  ok, err, map, join, itoa, ℤ, int_text, equal_fold, if◌then◌else◌,
}
use flashaccess.Mysql.Quote.{quote_ident}
use flashaccess.Mysql.Databases.{qualified}
use flashaccess.Mysql.Driver.{
  Value, null, bytes, int, Driver, DbError, no_columns, nothing_to_update, Statement, bare, Call,
  Rows, exec, exec_only, query, connect,
}

-- The arguments for the columns: `vals`, but nil for a value that has no column.
unfoldable pub bound_args : List Text → List Text → List Value
bound_args cols [] = []
bound_args [] (v ∷ vals) = null ∷ bound_args [] vals
bound_args (c ∷ cols) (v ∷ vals) = bytes v ∷ bound_args cols vals

abbrev pub placeholders : List Text → List Text
placeholders = map (λ c. codes "?")

-- "INSERT INTO `%s`.`%s` (%s) VALUES (%s)"
abbrev pub insert_sql : Text → Text → List Text → Text
insert_sql db table cols =
    codes "INSERT INTO "
    ++ (qualified db table
        ++ (codes " ("
            ++ (join (map quote_ident cols) (codes ", ")
                ++ (codes ") VALUES (" ++ (join (placeholders cols) (codes ", ") ++ codes ")")))))

-- `InsertRow`
unfoldable pub insert_row : Text → Text → List Text → List Text → Call (Unit {0})
insert_row db table [] vals d = (err no_columns, d)
insert_row db table (c ∷ cols) vals d =
    exec_only (record { text = insert_sql db table (c ∷ cols); args = bound_args (c ∷ cols) vals })
      d

-- "`%s` = ?"
abbrev pub assignment : Text → Text
assignment c = quote_ident c ++ codes " = ?"

-- "UPDATE `%s`.`%s` SET %s WHERE `%s` = ?"
abbrev pub update_sql : Text → Text → Text → List Text → Text
update_sql db table pk cols =
    codes "UPDATE "
    ++ (qualified db table
        ++ (codes " SET "
            ++ (join (map assignment cols) (codes ", ")
                ++ (codes " WHERE " ++ (quote_ident pk ++ codes " = ?")))))

-- `UpdateRow`
unfoldable pub update_row : Text → Text → Text → Text → List Text → List Text → Call (Unit {0})
update_row db table pk pk_val [] vals d = (err nothing_to_update, d)
update_row db table pk pk_val (c ∷ cols) vals d =
    exec_only
      (record {
        text = update_sql db table pk (c ∷ cols);
        args = bound_args (c ∷ cols) vals ++ bytes pk_val ∷ [];
      })
      d

-- "DELETE FROM `%s`.`%s` WHERE `%s` = ? LIMIT 1"
abbrev pub delete_sql : Text → Text → Text → Text
delete_sql db table pk =
    codes "DELETE FROM "
    ++ (qualified db table ++ (codes " WHERE " ++ (quote_ident pk ++ codes " = ? LIMIT 1")))

-- `DeleteRow`
unfoldable pub delete_row : Text → Text → Text → Text → Call (Unit {0})
delete_row db table pk pk_val d =
    exec_only (record { text = delete_sql db table pk; args = bytes pk_val ∷ [] }) d

-- what `Err` of a result says
pub data QueryError : Type 0 where
  sql : DbError → QueryError
  using : Text → DbError → QueryError
  reading : Text → QueryError

-- `QueryResult`
pub record QueryResult : Type 0 where
  pub columns : List Text
  pub rows : List (List Text)
  pub affected : ℕ
  pub is_select : Bool
  pub fault : Option QueryError

abbrev pub only_fault : QueryError → QueryResult
only_fault e = record { columns = []; rows = []; affected = 0; is_select = false; fault = some e }

-- `valueStr`
unfoldable pub value_str : Value → Text
value_str null = codes "NULL"
value_str (bytes b) = b
value_str (int n) = itoa n

abbrev reading_fault : Option Text → Option QueryError
reading_fault none = none
reading_fault (some e) = some (reading e)

-- `collectRows`
unfoldable pub collect_rows : Rows → QueryResult
collect_rows rs = record {
  columns = rs.columns;
  rows = map (map value_str) rs.items;
  affected = 0;
  is_select = true;
  fault = reading_fault rs.fault;
}

abbrev collected : Result DbError Rows → QueryResult
collected (ok rs) = collect_rows rs
collected (err e) = only_fault (sql e)

-- `runRawQuery`
unfoldable pub run_raw_query : Text → Driver → QueryResult × Driver
run_raw_query q d = let (r, after) = query (bare q) d in (collected r, after)

abbrev pub direction : Text → Text
direction dir = if equal_fold dir (codes "desc") then codes "DESC" else codes "ASC"

abbrev pub order_clause : Text → Text → Text
order_clause [] dir = []
order_clause (c ∷ col) dir =
    codes " ORDER BY " ++ (quote_ident (c ∷ col) ++ (codes " " ++ direction dir))

-- "SELECT * FROM `%s`.`%s`%s LIMIT %d OFFSET %d"
abbrev pub browse_sql : Text → Text → ℕ → ℤ → Text → Text → Text
browse_sql db table limit offset order_by order_dir =
    codes "SELECT * FROM "
    ++ (qualified db table
        ++ (order_clause order_by order_dir
            ++ (codes " LIMIT " ++ (itoa limit ++ (codes " OFFSET " ++ int_text offset)))))

-- `BrowseTable`, for a limit from zero on
unfoldable pub browse_table : Text → Text → ℕ → ℤ → Text → Text → Driver → QueryResult × Driver
browse_table db table limit offset order_by order_dir =
    run_raw_query (browse_sql db table limit offset order_by order_dir)

-- a statement whose query failed, tried once more with `ExecContext`
abbrev pub retried : DbError → Result DbError ℕ × Driver → QueryResult × Driver
retried e (err f, d) = (only_fault (sql e), d)
retried e (ok n, d) =
    (record { columns = []; rows = []; affected = n; is_select = false; fault = none }, d)

abbrev pub answered : Text → Result DbError Rows × Driver → QueryResult × Driver
answered q (ok rs, d) = (collect_rows rs, d)
answered q (err e, d) = retried e (exec (bare q) d)

abbrev pub after_use : Text → Text → Result DbError ℕ × Driver → QueryResult × Driver
after_use db q (err e, d) = (only_fault (using db e), d)
after_use db q (ok _, d) = answered q (query (bare q) d)

abbrev pub on_connection : Text → Text → Result DbError (Unit {0}) × Driver → QueryResult × Driver
on_connection db q (err e, d) = (only_fault (sql e), d)
on_connection [] q (ok _, d) = answered q (query (bare q) d)
on_connection (c ∷ db) q (ok _, d) =
    after_use (c ∷ db) q (exec (bare (codes "USE " ++ quote_ident (c ∷ db))) d)

-- `RunUserQuery`
unfoldable pub run_user_query : Text → Text → Driver → QueryResult × Driver
run_user_query db q d = on_connection db q (connect d)
