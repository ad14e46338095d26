-- ===== src/Mysql/Tables.antt =====
-- What a table is made of, in internal/mysql/query.go: `ListColumns`, `ListIndexes` and `Count`.
pub mod Grouping
pub mod Listing
use flashaccess.Base.{
  ℕ, Text, codes, Bool, ◌==◌, Option, none, some, List, [], ◌∷◌, ◌++◌, Result, ok, err, itoa, find,
  put,
}
use flashaccess.Mysql.Quote.Statements.{◌>>=◌}
use flashaccess.Mysql.Driver.{Value, null, bytes, int, DbError, driver, Call, Rows, bare, query}
use flashaccess.Mysql.Databases.{qualified, scan_string, scan_rows, scan_result, with_fault}
use flashaccess.Mysql.Preview.{scan_count}

-- scanning into a `sql.NullString`
abbrev scan_nullable : Value → Option Text
scan_nullable null = none
scan_nullable (bytes t) = some t
scan_nullable (int n) = some (itoa n)

-- `ColumnInfo`
pub record ColumnInfo : Type 0 where
  pub field : Text
  pub type : Text
  pub nullable : Text
  pub key : Text
  pub default : Option Text
  pub extra : Text
  pub comment : Text

abbrev scan_column : List Value → Option ColumnInfo
scan_column (f ∷ t ∷ collation ∷ n ∷ k ∷ d ∷ e ∷ privileges ∷ c ∷ []) = do
  field ← scan_string f
  type ← scan_string t
  nullable ← scan_string n
  key ← scan_string k
  extra ← scan_string e
  comment ← scan_string c
  some (record {
    field = field;
    type = type;
    nullable = nullable;
    key = key;
    default = scan_nullable d;
    extra = extra;
    comment = comment;
  })
scan_column _ = none

-- `ListColumns`
unfoldable pub list_columns : Text → Text → Call (List ColumnInfo)
list_columns db table d =
    let (r, after) = query (bare (codes "SHOW FULL COLUMNS FROM " ++ qualified db table)) d in
    (scan_result scan_column r, after)

-- `IndexInfo`
pub record IndexInfo : Type 0 where
  pub name : Text
  pub columns : List Text
  pub unique : Bool
  pub type : Text

-- what the loop takes from a row of SHOW INDEX
pub record IndexRow : Type 0 where
  pub key_name : Text
  pub non_unique : ℕ
  pub column_name : Text
  pub index_type : Text

-- scanning into an int, of 64 bits; no such column is negative
abbrev scan_int : Value → Option ℕ
scan_int v = scan_count ((v ∷ []) ∷ [])

abbrev pub scan_index : List Value → Option IndexRow
scan_index (t ∷ n ∷ k ∷ q ∷ c ∷ s1 ∷ s2 ∷ s3 ∷ s4 ∷ s5 ∷ i ∷ s6 ∷ s7 ∷ s8 ∷ s9 ∷ []) = do
  table ← scan_string t
  non_unique ← scan_int n
  key_name ← scan_string k
  seq ← scan_int q
  column_name ← scan_string c
  index_type ← scan_string i
  some (record {
    key_name = key_name;
    non_unique = non_unique;
    column_name = column_name;
    index_type = index_type;
  })
scan_index _ = none

-- `indexMap` and `order`
pub record Indexes : Type 0 where
  pub by_name : List (Text × IndexInfo)
  pub order : List Text

abbrev pub new_index : IndexRow → IndexInfo
new_index r = record {
  name = r.key_name;
  columns = [];
  unique = r.non_unique == 0;
  type = r.index_type;
}

abbrev pub with_column : IndexInfo → Text → IndexInfo
with_column i c = record i { columns = i.columns ++ c ∷ [] }

abbrev pub indexed : Indexes → IndexRow → Option IndexInfo → Indexes
indexed x r none = record {
  by_name = put r.key_name (with_column (new_index r) r.column_name) x.by_name;
  order = x.order ++ r.key_name ∷ [];
}
indexed x r (some i) = record x { by_name = put r.key_name (with_column i r.column_name) x.by_name }

-- the body of the loop
abbrev pub add_row : Indexes → IndexRow → Indexes
add_row x r = indexed x r (find r.key_name x.by_name)

-- the loop over the rows
unfoldable pub index_rows : Indexes → List (List Value) → Option Text → Result DbError Indexes
index_rows x [] fault = with_fault x fault
index_rows x (r ∷ rs) fault = elim (scan_index r) [
  | none ↦ err (driver (codes "scan"))
  | some row ↦ index_rows (add_row x row) rs fault
]

abbrev pub with_index : Option IndexInfo → Option (List IndexInfo) → Option (List IndexInfo)
with_index (some i) (some is) = some (i ∷ is)
with_index _ _ = none

-- the loop over `order`; nothing where a name has no index, and the program panics
unfoldable pub in_order : List (Text × IndexInfo) → List Text → Option (List IndexInfo)
in_order m [] = some []
in_order m (n ∷ ns) = with_index (find n m) (in_order m ns)

abbrev pub ordered : Result DbError Indexes → Result DbError (Option (List IndexInfo))
ordered (ok x) = ok (in_order x.by_name x.order)
ordered (err e) = err e

abbrev pub indexes_of : Result DbError Rows → Result DbError (Option (List IndexInfo))
indexes_of (ok rows) =
    ordered (index_rows (record { by_name = []; order = [] }) rows.items rows.fault)
indexes_of (err e) = err e

-- `ListIndexes`
unfoldable pub list_indexes : Text → Text → Call (Option (List IndexInfo))
list_indexes db table d =
    let (r, after) = query (bare (codes "SHOW INDEX FROM " ++ qualified db table)) d in
    (indexes_of r, after)

abbrev number_of : Option ℕ → Result DbError ℕ
number_of none = err (driver (codes "scan"))
number_of (some n) = ok n

abbrev count_of : Result DbError Rows → Result DbError ℕ
count_of (ok rows) = number_of (scan_count rows.items)
count_of (err e) = err e

-- `Count`, whose number is read behind the call of `Scan`
unfoldable pub count : Text → Text → Call ℕ
count db table d =
    let (r, after) = query (bare (codes "SELECT COUNT(*) FROM " ++ qualified db table)) d in
    (count_of r, after)
