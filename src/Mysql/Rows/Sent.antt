-- ===== src/Mysql/Rows/Sent.antt =====
-- The row operations send one statement, which a server reads as it was meant.
use flashaccess.Base.{
  Text, Option, some, List, [], ◌∷◌, ◌++◌, map, length, subst, ◌≡◌, refl, ap, arith,
}
use flashaccess.Mysql.Driver.Runs.{exec_only-sent}
use flashaccess.Mysql.Driver.{Value, bytes, Driver, Statement, sent}
use flashaccess.Mysql.Rows.{
  bound_args, insert_sql, insert_row, update_sql, update_row, delete_sql, delete_row,
}
use flashaccess.Mysql.Rows.Reading.{
  read_insert, read_update, read_delete, read_insert-insert_sql, read_update-update_sql,
  read_delete-delete_sql,
}

bound_args-bytes :
    (cols vals : List Text) → length cols ≡ length vals → bound_args cols vals ≡ map bytes vals
unfolding bound_args
bound_args-bytes [] [] h = refl
bound_args-bytes [] (v ∷ vals) h = absurd (omega arith)
bound_args-bytes (c ∷ cols) [] h = refl
bound_args-bytes (c ∷ cols) (v ∷ vals) h =
    ap (λ x. bytes v ∷ x) (bound_args-bytes cols vals (omega arith))

-- One statement was sent, with these arguments, whose text reads as `what`.
abbrev pub SendsRead : {A : Type 0} → (Text → Option A) → A → List Value → Driver → Driver → Type 0
SendsRead read what args d d' =
    (q : Statement) × (d' ≡ sent q d) × (read q.text ≡ some what) × (q.args ≡ args)

-- `InsertRow` of one value for each column, of which there is one: whatever bytes the names hold,
-- a server reads the one statement as an insertion into this table of this database and these
-- columns, with as many placeholders, and the values are its arguments.
pub insert_row-SendsRead :
    (db table c : Text) (cols vals : List Text) (d : Driver)
    → length (c ∷ cols) ≡ length vals
    → SendsRead
        (read_insert (length (c ∷ cols)))
        (db, table, c ∷ cols, length vals)
        (map bytes vals)
        d
        (insert_row db table (c ∷ cols) vals d).1
unfolding insert_row
insert_row-SendsRead db table c cols vals d h = (
  record { text = insert_sql db table (c ∷ cols); args = bound_args (c ∷ cols) vals },
  exec_only-sent _ d,
  subst
      (λ n.
        read_insert (length (c ∷ cols)) (insert_sql db table (c ∷ cols))
        ≡ some (db, table, c ∷ cols, n))
      h (read_insert-insert_sql db table c cols),
  bound_args-bytes (c ∷ cols) vals h,
)

-- `UpdateRow` of one value for each column, of which there is one: the statement reads as an
-- update of these columns, in the rows where the key column has the last of the arguments.
pub update_row-SendsRead :
    (db table pk pk_val c : Text) (cols vals : List Text) (d : Driver)
    → length (c ∷ cols) ≡ length vals
    → SendsRead
        (read_update (length (c ∷ cols)))
        (db, table, c ∷ cols, pk)
        (map bytes vals ++ bytes pk_val ∷ [])
        d
        (update_row db table pk pk_val (c ∷ cols) vals d).1
unfolding update_row
update_row-SendsRead db table pk pk_val c cols vals d h = (
  record {
    text = update_sql db table pk (c ∷ cols);
    args = bound_args (c ∷ cols) vals ++ bytes pk_val ∷ [];
  },
  exec_only-sent _ d,
  read_update-update_sql db table pk c cols,
  ap (λ x. x ++ bytes pk_val ∷ []) (bound_args-bytes (c ∷ cols) vals h),
)

-- `DeleteRow`: the statement reads as the deletion of one row where the key column has the one
-- argument.
pub delete_row-SendsRead :
    (db table pk pk_val : Text) (d : Driver)
    → SendsRead read_delete
        (db, table, pk)
        (bytes pk_val ∷ [])
        d
        (delete_row db table pk pk_val d).1
unfolding delete_row
delete_row-SendsRead db table pk pk_val d = (
  record { text = delete_sql db table pk; args = bytes pk_val ∷ [] },
  exec_only-sent _ d,
  read_delete-delete_sql db table pk,
  refl,
)
