-- ===== src/Mysql/Tables/Listing.antt =====
-- `ListIndexes` returns the indexes that its rows describe.
use flashaccess.Base.{
  Text, text_eq, text_eq_refl, codes, true, not, Option, none, some, List, [], ◌∷◌, ◌++◌, Result,
  ok, err, keep, find, append-nil, append_assoc, ◌≡◌, ◌≢◌, refl, sym, ◌∙◌, ap, arith, all_of,
  all_of_mono, all_of-keep,
}
use flashaccess.Mysql.Driver.{Value, DbError, driver, Driver, Rows, bare, query}
use flashaccess.Mysql.Databases.{qualified, scan_rows, scan_result, with_fault}
use flashaccess.Mysql.Tables.{
  IndexInfo, IndexRow, scan_index, Indexes, add_row, index_rows, ordered, indexes_of, list_indexes,
}
use flashaccess.Mysql.Tables.Grouping.{
  rows_of, index_names, group_of, groups, grouped, names_one, IsIndexed, add_row-IsIndexed,
  in_order-groups,
}

-- what a result of rows that were scanned describes
abbrev pub described : Result DbError (List IndexRow) → Result DbError (Option (List IndexInfo))
described (ok rs) = ok (grouped rs)
described (err e) = err e

abbrev behind :
    List IndexRow → Result DbError (List IndexRow) → Result DbError (Option (List IndexInfo))
behind ps (ok rs) = ok (grouped (ps ++ rs))
behind ps (err e) = err e

ended-behind :
    (x : Indexes) (ps : List IndexRow) (fault : Option Text)
    → IsIndexed x ps
    → ordered (with_fault x fault) ≡ behind ps (with_fault [] fault)
ended-behind x ps none h =
    ap ok (in_order-groups x ps x.order h ∙ ap (groups ps) h.1 ∙ ap grouped (sym (append-nil ps)))
ended-behind x ps (some e) h = refl

abbrev one_more : IndexRow → Result DbError (List IndexRow) → Result DbError (List IndexRow)
one_more r rest = elim rest [ ok more ↦ ok (r ∷ more) | err e ↦ err e ]

behind-one_more :
    (ps : List IndexRow) (r : IndexRow) (rest : Result DbError (List IndexRow))
    → behind (ps ++ r ∷ []) rest ≡ behind ps (one_more r rest)
behind-one_more ps r (ok rs) = ap (λ l. ok (grouped l)) (append_assoc ps (r ∷ []) rs)
behind-one_more ps r (err e) = refl

-- one row of the loop, where the rest does as it is told
scanned-behind :
    (o : Option IndexRow) (x : Indexes) (ps : List IndexRow) (rest : Result DbError (List IndexRow))
    (loop : Indexes → Result DbError Indexes)
    → ((r : IndexRow) → ordered (loop (add_row x r)) ≡ behind (ps ++ r ∷ []) rest)
    → ordered (elim o [ none ↦ err (driver (codes "scan")) | some row ↦ loop (add_row x row) ])
      ≡ behind ps (elim o [ none ↦ err (driver (codes "scan")) | some a ↦ one_more a rest ])
scanned-behind none x ps rest loop h = refl
scanned-behind (some r) x ps rest loop h = h r ∙ behind-one_more ps r rest

index_rows-behind :
    (items : List (List Value)) (x : Indexes) (ps : List IndexRow) (fault : Option Text)
    → IsIndexed x ps
    → ordered (index_rows x items fault) ≡ behind ps (scan_rows scan_index items fault)
unfolding index_rows scan_rows
index_rows-behind [] x ps fault h = ended-behind x ps fault h
index_rows-behind (v ∷ items) x ps fault h =
    scanned-behind (scan_index v) x ps (scan_rows scan_index items fault)
      (λ y. index_rows y items fault)
      (λ r. index_rows-behind items (add_row x r) (ps ++ r ∷ []) fault (add_row-IsIndexed x ps r h))

started :
    (rest : Result DbError (List IndexRow)) {o : Result DbError (Option (List IndexInfo))}
    → o ≡ behind [] rest
    → o ≡ described rest
started (ok rs) e = e
started (err f) e = e

indexes_of-described :
    (r : Result DbError Rows) → indexes_of r ≡ described (scan_result scan_index r)
unfolding find keep index_names
indexes_of-described (err e) = refl
indexes_of-described (ok rows) = started (scan_rows scan_index rows.items rows.fault) (
    index_rows-behind rows.items (record { by_name = []; order = [] }) [] rows.fault
      (λ k. refl, refl))

has_rows-cons :
    (q : IndexRow) (rs : List IndexRow) (k : Text)
    → names_one (rows_of k rs) ≡ true
    → names_one (rows_of k (q ∷ rs)) ≡ true
unfolding keep
has_rows-cons q rs k h = ground arith

has_rows-index_names :
    (rs : List IndexRow) → all_of (λ k. names_one (rows_of k rs)) (index_names rs) ≡ true
unfolding index_names keep
has_rows-index_names [] = refl
has_rows-index_names (q ∷ rs) =
    let more =
      all_of_mono (λ k. names_one (rows_of k rs)) (λ k. names_one (rows_of k (q ∷ rs)))
        (has_rows-cons q rs) (keep (λ n. not (text_eq n q.key_name)) (index_names rs))
        (all_of-keep (λ n. not (text_eq n q.key_name)) (λ k. names_one (rows_of k rs))
          (index_names rs) (has_rows-index_names rs)) in
    rw text_eq_refl more

group_of-names_one :
    (k : Text) (rs : List IndexRow)
    → names_one rs ≡ true
    → (i : IndexInfo) × (group_of k rs ≡ some i)
group_of-names_one k [] h = absurd (cc)
group_of-names_one k (r ∷ rs) h = (_, refl)

groups-names :
    (rs : List IndexRow) (ks : List Text)
    → all_of (λ k. names_one (rows_of k rs)) ks ≡ true
    → (is : List IndexInfo) × (groups rs ks ≡ some is)
groups-names rs [] h = ([], refl)
groups-names rs (k ∷ ks) h =
    let (i, e) = group_of-names_one k (rows_of k rs) (ground (arith, h)) in
    let (is, es) = groups-names rs ks (ground (arith, h)) in (i ∷ is, rw e (rw es refl))

never_none : (r : Result DbError (List IndexRow)) → described r ≢ ok none
never_none (err e) h = cc
never_none (ok rs) h =
    let (is, e) = groups-names rs (index_names rs) (has_rows-index_names rs) in cc (e, h)

-- `ListIndexes` returns what the rows of SHOW INDEX describe: one index for each name, where its
-- first row stands, of the kind of that row and with the columns of all rows of that name in their
-- order; it returns the error of the query, of a row that cannot be scanned, or of the reading, where
-- the scan of all rows reports one; and it never panics.
pub list_indexes-described :
    (db table : Text) (d : Driver)
    → let rows = (query (bare (codes "SHOW INDEX FROM " ++ qualified db table)) d).0 in
      ((list_indexes db table d).0 ≡ described (scan_result scan_index rows))
      × ((list_indexes db table d).0 ≢ ok none)
unfolding list_indexes
list_indexes-described db table d =
    let rows = (query (bare (codes "SHOW INDEX FROM " ++ qualified db table)) d).0 in
    (
      indexes_of-described rows,
      λ e. never_none (scan_result scan_index rows) (sym (indexes_of-described rows) ∙ e),
    )
