-- ===== src/Mysql/Databases/Targets.antt =====
-- Which database each statement of Databases.antt names, as the server reads it.
use flashaccess.Base.{
  ℕ, Text, codes, Bool, true, false, not, ◌&&◌, Option, none, some, List, [], ◌∷◌, ◌++◌, Result, ok,
  err, ◌≡◌, refl, ◌⊎◌, inl, inr, arith, All, All-append, Bool-cases, append_assoc, append-nil,
  to_lower, has_prefix, ◌∙◌, sym, ap,
}
use flashaccess.Mysql.Quote.{quote_ident}
use flashaccess.Mysql.Quote.Reading.{read_named, name_of, read_quoted-esc_ident}
use flashaccess.Mysql.Driver.Runs.{exec_only-sent}
use flashaccess.Mysql.Driver.{Driver, Statement, bare, sent, DbError, exec, bytes}
use flashaccess.Mysql.Names.{db_name_pattern, is_playground_db}
use flashaccess.Mysql.Databases.{
  is_system, drop_database_sql, drop_database, drop_playground_db, clone_database, clone_tables,
  list_tables, list_tables_sql, copy_structure_sql, copy_data_sql, clone_step, clone_listed,
  TableInfo,
}

-- the database that a statement drops
abbrev pub dropped : Text → Option Text
dropped s = name_of (read_named (codes "DROP DATABASE IF EXISTS ") s)

-- Whatever the name holds, the server reads the statement as dropping the database of that name.
dropped-drop_database_sql : (name : Text) → dropped (drop_database_sql name) ≡ some name
unfolding read_named quote_ident has_prefix
dropped-drop_database_sql name = rw (read_quoted-esc_ident name [] refl)

-- A drop that is refused and sends nothing, or sends one statement, which the server reads as
-- dropping `name`.
abbrev pub Drops : Bool → Text → Driver → Result DbError (Unit {0}) × Driver → Type 0
Drops allowed name d out =
    ((allowed ≡ false) × (e : DbError) × (out ≡ (err e, d)))
    ⊎ ((allowed ≡ true)
        × (out.1 ≡ sent (bare (drop_database_sql name)) d)
        × (dropped (drop_database_sql name) ≡ some name))

-- `DropDatabase` drops the database that it is given and no other, and only if its name is well
-- formed and is in no case a system schema; otherwise nothing is sent.
drop_database-Drops :
    (name : Text) (d : Driver)
    → Drops (db_name_pattern name && not (is_system (to_lower name))) name d (drop_database name d)
unfolding drop_database
drop_database-Drops name d = elim (Bool-cases (db_name_pattern name)) [
  | inl p ↦ elim (Bool-cases (is_system (to_lower name))) [
    | inl s ↦ rw (p, s) (inl (refl, _, refl))
    | inr s ↦ rw (p, s) (inr (refl, exec_only-sent _ d, dropped-drop_database_sql name))
  ]
  | inr p ↦ rw p (inl (refl, _, refl))
]

-- `DropPlaygroundDB` drops the database that it is given and no other, and only if its name has
-- the playground prefix; otherwise nothing is sent.
pub drop_playground_db-Drops :
    (name : Text) (d : Driver) → Drops (is_playground_db name) name d (drop_playground_db name d)
unfolding drop_playground_db
drop_playground_db-Drops name d = elim (Bool-cases (is_playground_db name)) [
  | inl p ↦ rw p (inr (refl, exec_only-sent _ d, dropped-drop_database_sql name))
  | inr p ↦ rw p (inl (refl, _, refl))
]

abbrev pub or_else : Option Text → Option Text → Option Text
or_else none o = o
or_else (some t) o = some t

-- the database that a statement writes to: CREATE TABLE, with or without a test, or INSERT
abbrev pub written : Text → Option Text
written s = or_else (name_of (read_named (codes "CREATE TABLE IF NOT EXISTS ") s)) (
    or_else (name_of (read_named (codes "CREATE TABLE ") s))
      (name_of (read_named (codes "INSERT INTO ") s)))

-- Between two states only statements that satisfy `P` were sent.
pub record Sends (P : Statement → Type 0) (d d' : Driver) : Type 0 where
  pub fresh : List Statement
  pub log_is : d'.log ≡ d.log ++ fresh
  pub each : All P fresh

module _ {P : Statement → Type 0} where
  pub Sends-nothing : {d d' : Driver} → d'.log ≡ d.log → Sends P d d'
  Sends-nothing {d} e = record { fresh = []; log_is = e ∙ sym (append-nil d.log); each = tt }

  pub Sends-exec : (s : Statement) (d : Driver) → P s → Sends P d (sent s d)
  Sends-exec s d h = record { fresh = s ∷ []; log_is = refl; each = (h, tt) }

  pub Sends-trans : {a b c : Driver} → Sends P a b → Sends P b c → Sends P a c
  Sends-trans {a} {b} {c} f g = record {
    fresh = f.fresh ++ g.fresh;
    log_is = g.log_is ∙ (ap (λ l. l ++ g.fresh) f.log_is ∙ append_assoc a.log f.fresh g.fresh);
    each = All-append P f.fresh g.fresh f.each g.each;
  }

-- the query for the tables of `src`, or a statement that writes to `dst`
abbrev pub CopiesInto : Text → Text → Statement → Type 0
CopiesInto src dst s =
    (s ≡ record { text = list_tables_sql; args = bytes src ∷ [] }) ⊎ (written s.text ≡ some dst)

copy_structure_sql-written : (src dst t : Text) → written (copy_structure_sql src dst t) ≡ some dst
unfolding read_named quote_ident has_prefix
copy_structure_sql-written src dst t = simp append_assoc (rw (read_quoted-esc_ident dst _ refl))

copy_data_sql-written : (src dst t : Text) → written (copy_data_sql src dst t) ≡ some dst
unfolding read_named quote_ident has_prefix
copy_data_sql-written src dst t = simp append_assoc (rw (read_quoted-esc_ident dst _ refl))

clone_step-Sends :
    {P : Statement → Type 0} {d : Driver} (r1 r2 : Result DbError ℕ) (table : Text) (d1 d2 : Driver)
    (rest : Result DbError (Unit {0}) × Driver)
    → Sends P d d1
    → Sends P d d2
    → Sends P d rest.1
    → Sends P d (clone_step r1 r2 table d1 d2 rest).1
clone_step-Sends (err e) r2 table d1 d2 rest f g h = f
clone_step-Sends (ok _) (err e) table d1 d2 rest f g h = g
clone_step-Sends (ok _) (ok _) table d1 d2 rest f g h = h

clone_tables-Sends :
    (src dst : Text) (ts : List TableInfo) (d : Driver)
    → Sends (CopiesInto src dst) d (clone_tables src dst ts d).1
unfolding clone_tables exec
clone_tables-Sends src dst [] d = Sends-nothing refl
clone_tables-Sends src dst (t ∷ ts) d =
    let s1 = bare (copy_structure_sql src dst t.name) in
    let s2 = bare (copy_data_sql src dst t.name) in
    let one = Sends-exec s1 d (inr (copy_structure_sql-written src dst t.name)) in
    let two =
      Sends-trans one (Sends-exec s2 (sent s1 d) (inr (copy_data_sql-written src dst t.name))) in
    clone_step-Sends _ _ t.name _ _ _ one two
      (Sends-trans two (clone_tables-Sends src dst ts (sent s2 (sent s1 d))))

clone_listed-Sends :
    (src dst : Text) (d : Driver) (out : Result DbError (List TableInfo) × Driver)
    → Sends (CopiesInto src dst) d out.1
    → Sends (CopiesInto src dst) d (clone_listed src dst out).1
clone_listed-Sends src dst d (err e, d') f = f
clone_listed-Sends src dst d (ok ts, d') f = Sends-trans f (clone_tables-Sends src dst ts d')

list_tables-Sends :
    (src dst : Text) (d : Driver) → Sends (CopiesInto src dst) d (list_tables src d).1
unfolding list_tables
list_tables-Sends src dst d = Sends-exec _ d (inl refl)

-- `CloneDatabase` sends nothing unless its target has the playground prefix. Whatever the server
-- answers, and whatever the names of the databases and tables hold, all that it sends is the
-- query for the tables of `src` and statements that the server reads as writing to `dst`.
pub clone_database-CopiesInto :
    (src dst : Text) (d : Driver)
    → ((is_playground_db dst ≡ false) × ((clone_database src dst d).1 ≡ d))
      ⊎ ((is_playground_db dst ≡ true) × Sends (CopiesInto src dst) d (clone_database src dst d).1)
unfolding clone_database
clone_database-CopiesInto src dst d = elim (Bool-cases (is_playground_db dst)) [
  | inr p ↦ inl (p, rw p (ground arith))
  | inl p ↦ inr (
    p,
    rw p (elim (Bool-cases (not (db_name_pattern src) && not (is_playground_db src))) [
      | inl bad ↦ rw bad (Sends-nothing refl)
      | inr good ↦
          rw good (clone_listed-Sends src dst d (list_tables src d) (list_tables-Sends src dst d))
    ]),
  )
]
