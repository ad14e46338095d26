-- ===== src/Mysql/Preview.antt =====
-- `PreviewQuery`, `dmlToCountSQL` and `dmlToSampleSQL` of internal/mysql/query.go. Where the source
-- reads a number out of bytes, it is one without a sign. Upper case and white space are those of
-- ASCII: a statement with other letters may be cut elsewhere in the source.
pub mod ReadOnly
use flashaccess.Base.{
  ℕ, zero, suc, ◌+◌, ◌-◌, ◌*◌, ◌^◌, Text, codes, Bool, true, false, not, ◌&&◌, ◌||◌, Option, none,
  some, List, [], ◌∷◌, ◌++◌, Result, ok, err, leb, ltb, if◌then◌else◌, map, take, drop, all_of,
  is_digit, has_prefix, index_of, contains, fields, to_upper, trim_space, trim_left, equal_fold,
}
use flashaccess.Mysql.Quote.{quote_ident}
use flashaccess.Mysql.Driver.{
  Value, null, bytes, int, Driver, DbError, Rows, bare, exec, query, connect,
}
use flashaccess.Mysql.Script.{Kind, select, dml, ddl, other, classify_sql}
use flashaccess.Mysql.Rows.{value_str}

-- the table's name in an UPDATE, and what becomes of the statement, with or without its condition
abbrev update_rewritten : Text → Text → Text → List Text → Option ℕ → Text
update_rewritten head tail q [] at = []
update_rewritten head tail q (w ∷ []) at = []
update_rewritten head tail q (w ∷ table ∷ ws) none =
    head ++ (codes "FROM " ++ (quote_ident table ++ tail))
update_rewritten head tail q (w ∷ table ∷ ws) (some i) =
    head ++ (codes "FROM " ++ (quote_ident table ++ (codes " WHERE " ++ (drop (i + 7) q ++ tail))))

-- a DELETE or UPDATE as a SELECT with `head` before its FROM and `tail` at the end; empty for
-- other statements
unfoldable pub rewritten : Text → Text → Text → Text
rewritten head tail q =
    let up = to_upper (trim_space q) in
    if (has_prefix up (codes "DELETE FROM") || has_prefix up (codes "DELETE "))
      && has_prefix (to_upper (drop 7 q)) (codes "FROM ")
    then head ++ (drop 7 q ++ tail)
    else if has_prefix up (codes "UPDATE ")
    then update_rewritten head tail q (fields q) (index_of (to_upper q) (codes " WHERE "))
    else []

-- `dmlToCountSQL`
abbrev pub dml_to_count_sql : Text → Text
dml_to_count_sql = rewritten (codes "SELECT COUNT(*) ") []

-- `dmlToSampleSQL`
abbrev pub dml_to_sample_sql : Text → Text
dml_to_sample_sql = rewritten (codes "SELECT * ") (codes " LIMIT 5")

-- `ErrStr`
pub data PreviewFault : Type 0 where
  connecting explaining : DbError → PreviewFault
  using : Text → DbError → PreviewFault

pub data Warning : Type 0 where
  no_where schema_change : Warning

-- `QueryPreview`
pub record QueryPreview : Type 0 where
  pub kind : Kind
  pub sql : Text
  pub estimated_rows : ℕ
  pub sample_rows : List (List Text)
  pub sample_cols : List Text
  pub warning : Option Warning
  pub fault : Option PreviewFault

abbrev pub empty_preview : Kind → Text → QueryPreview
empty_preview k q = record {
  kind = k;
  sql = q;
  estimated_rows = 0;
  sample_rows = [];
  sample_cols = [];
  warning = none;
  fault = none;
}

-- the number in front of a text, behind `acc`
unfoldable pub leading_number : ℕ → Text → ℕ
leading_number acc [] = acc
leading_number acc (c ∷ s) =
    let more = leading_number (acc * 10 + (c - 48)) s in if is_digit c then more else acc

-- `Sscanf` with %d, and an int64 as it is
abbrev pub scanned : Value → ℕ
scanned null = 0
scanned (int n) = n
scanned (bytes b) = leading_number 0 (trim_left b)

-- the columns named "rows" of one row of EXPLAIN
unfoldable pub rows_column : List Text → List Value → ℕ
rows_column (c ∷ cs) (v ∷ vs) =
    let rest = rows_column cs vs in (if equal_fold c (codes "rows") then scanned v else 0) + rest
rows_column _ _ = 0

unfoldable pub explained_total : List Text → List (List Value) → ℕ
explained_total cols [] = 0
explained_total cols (r ∷ rs) = rows_column cols r + explained_total cols rs

abbrev pub explained : QueryPreview → Result DbError Rows → QueryPreview
explained p (err e) = record p { fault = some (explaining e) }
explained p (ok rs) = record p { estimated_rows = explained_total rs.columns rs.items }

-- the count of a row that `Scan` can read as an int64
abbrev pub scan_count : List (List Value) → Option ℕ
scan_count ((int n ∷ []) ∷ rs) = some n
scan_count (((bytes (c ∷ b)) ∷ []) ∷ rs) =
    if all_of is_digit (c ∷ b) && ltb (leading_number 0 (c ∷ b)) (2 ^ 63)
    then some (leading_number 0 (c ∷ b))
    else none
scan_count _ = none

abbrev estimated : QueryPreview → Option ℕ → QueryPreview
estimated p none = p
estimated p (some n) = record p { estimated_rows = n }

abbrev pub counted : QueryPreview → Result DbError Rows → QueryPreview
counted p (err e) = p
counted p (ok rs) = estimated p (scan_count rs.items)

abbrev pub count_impact : Text → QueryPreview → Driver → QueryPreview × Driver
count_impact [] p d = (p, d)
count_impact (c ∷ s) p d = let (r, after) = query (bare (c ∷ s)) d in (counted p r, after)

abbrev pub sampled : QueryPreview → Result DbError Rows → QueryPreview
sampled p (err e) = p
sampled p (ok rs) = record p {
  sample_cols = rs.columns;
  sample_rows = take 5 (map (map value_str) rs.items);
}

abbrev pub take_sample : Text → QueryPreview → Driver → QueryPreview × Driver
take_sample [] p d = (p, d)
take_sample (c ∷ s) p d = let (r, after) = query (bare (c ∷ s)) d in (sampled p r, after)

-- an UPDATE or DELETE with no WHERE
abbrev pub warned : Text → QueryPreview → QueryPreview
warned q p =
    let up = to_upper (trim_space q) in
    if (has_prefix up (codes "UPDATE") || has_prefix up (codes "DELETE"))
      && not (contains up (codes " WHERE "))
    then record p { warning = some no_where }
    else p

-- the cases of `PreviewQuery`
unfoldable pub preview_kind : Kind → Text → QueryPreview → Driver → QueryPreview × Driver
preview_kind select q p d =
    let (r, after) = query (bare (codes "EXPLAIN " ++ q)) d in (explained p r, after)
preview_kind dml q p d =
    let (counted, d1) = count_impact (dml_to_count_sql q) p d in
    take_sample (dml_to_sample_sql q) (warned q counted) d1
preview_kind ddl q p d = (record p { warning = some schema_change }, d)
preview_kind other q p d = (p, d)

abbrev pub preview_used :
    Text → Text → QueryPreview → Result DbError ℕ × Driver → QueryPreview × Driver
preview_used db q p (err e, d) = (record p { fault = some (using db e) }, d)
preview_used db q p (ok _, d) = preview_kind p.kind q p d

abbrev pub preview_connected :
    Text → Text → QueryPreview → Result DbError (Unit {0}) × Driver → QueryPreview × Driver
preview_connected db q p (err e, d) = (record p { fault = some (connecting e) }, d)
preview_connected [] q p (ok _, d) = preview_kind p.kind q p d
preview_connected (c ∷ db) q p (ok _, d) =
    preview_used (c ∷ db) q p (exec (bare (codes "USE " ++ quote_ident (c ∷ db))) d)

-- `PreviewQuery`
unfoldable pub preview_query : Text → Text → Driver → QueryPreview × Driver
preview_query db text d =
    let q = trim_space text in
    preview_connected db q (empty_preview (classify_sql (to_upper q)) q) (connect d)
