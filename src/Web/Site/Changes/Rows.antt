-- ===== src/Web/Site/Changes/Rows.antt =====
-- From the form of a row to the statement that is sent for it.
use flashaccess.Base.{
  suc, Text, codes, some, List, [], ◌∷◌, ◌++◌, Result, ok, err, map, length, ◌≡◌, ◌≢◌, refl, ap,
}
use flashaccess.Mysql.Driver.{DbError, bytes}
use flashaccess.Mysql.Rows.{insert_row, update_row}
use flashaccess.Mysql.Rows.Reading.{read_insert, read_update}
use flashaccess.Mysql.Rows.Sent.{SendsRead, insert_row-SendsRead, update_row-SendsRead}
use flashaccess.Web.Forms.{Values, form_value}
use flashaccess.Web.Site.{Call, Site, driver_of}
use flashaccess.Web.Site.Changes.{
  column_fields, columns_of, values_of, row_done, with_key, row_updated, handle_row_insert,
  handle_row_update,
}

length-columns_of : (fs : List (Text × Text)) → length (columns_of fs) ≡ length (values_of fs)
length-columns_of [] = refl
length-columns_of ((c, v) ∷ fs) = ap suc (length-columns_of fs)

row_done-driver :
    (c : Call) (notice : Text) (r : Result DbError (Unit {0})) (s : Site)
    → driver_of (row_done c notice r s).1 ≡ driver_of s
row_done-driver c notice (ok _) s = refl
row_done-driver c notice (err e) s = refl

row_insert-SendsRead :
    (c : Call) (fs : List (Text × Text)) (s : Site)
    → fs ≢ []
    → SendsRead
        (read_insert (length (columns_of fs)))
        (c.db, c.table, columns_of fs, length (values_of fs))
        (map bytes (values_of fs))
        (driver_of s)
        (insert_row c.db c.table (columns_of fs) (values_of fs) (driver_of s)).1
row_insert-SendsRead c [] s h = absurd (h refl)
row_insert-SendsRead c ((col, v) ∷ fs) s h =
    insert_row-SendsRead c.db c.table col (columns_of fs) (v ∷ values_of fs) (driver_of s)
      (ap suc (length-columns_of fs))

-- The form of a new row, with a field for a column at least: the one statement that is sent reads as
-- an insertion into the table of the path, of the columns that the fields name, with a placeholder
-- for each, and its arguments are the fields' values, whatever bytes all of these hold.
pub handle_row_insert-SendsRead :
    (c : Call) (f : Values) (s : Site)
    → c.form ≡ some f
    → column_fields f ≢ []
    → let fs = column_fields f in
      SendsRead
        (read_insert (length (columns_of fs)))
        (c.db, c.table, columns_of fs, length (values_of fs))
        (map bytes (values_of fs))
        (driver_of s)
        (driver_of (handle_row_insert c s).1)
unfolding handle_row_insert
handle_row_insert-SendsRead c f s h n =
    rw h (rw row_done-driver (row_insert-SendsRead c (column_fields f) s n))

row_update-SendsRead :
    (c : Call) (pk pk_val : Text) (fs : List (Text × Text)) (s : Site)
    → fs ≢ []
    → SendsRead
        (read_update (length (columns_of fs)))
        (c.db, c.table, columns_of fs, pk)
        (map bytes (values_of fs) ++ bytes pk_val ∷ [])
        (driver_of s)
        (update_row c.db c.table pk pk_val (columns_of fs) (values_of fs) (driver_of s)).1
row_update-SendsRead c pk pk_val [] s h = absurd (h refl)
row_update-SendsRead c pk pk_val ((col, v) ∷ fs) s h =
    update_row-SendsRead c.db c.table pk pk_val col (columns_of fs) (v ∷ values_of fs) (driver_of s)
      (ap suc (length-columns_of fs))

-- The form of a changed row, with the name of a key column and a field for a column at least: the
-- one statement reads as an update of the columns that the fields name, in the rows where the key
-- column has the last of the arguments, the key's value; those before are the fields' values.
pub handle_row_update-SendsRead :
    (c : Call) (f : Values) (s : Site)
    → c.form ≡ some f
    → form_value (codes "_pk_col") f ≢ []
    → column_fields f ≢ []
    → let fs = column_fields f in
      SendsRead
        (read_update (length (columns_of fs)))
        (c.db, c.table, columns_of fs, form_value (codes "_pk_col") f)
        (map bytes (values_of fs) ++ bytes (form_value (codes "_pk_val") f) ∷ [])
        (driver_of s)
        (driver_of (handle_row_update c s).1)
unfolding handle_row_update
handle_row_update-SendsRead c f s h k n = rw h (keyed (form_value (codes "_pk_col") f) k)
  where
    keyed :
        (pk : Text)
        → pk ≢ []
        → let fs = column_fields f in
          SendsRead
            (read_update (length (columns_of fs)))
            (c.db, c.table, columns_of fs, pk)
            (map bytes (values_of fs) ++ bytes (form_value (codes "_pk_val") f) ∷ [])
            (driver_of s)
            (driver_of (with_key pk (row_updated c f) s).1)
    keyed [] k = absurd (k refl)
    keyed (x ∷ pk) k =
        rw row_done-driver
          (row_update-SendsRead c (x ∷ pk) (form_value (codes "_pk_val") f) (column_fields f) s n)
