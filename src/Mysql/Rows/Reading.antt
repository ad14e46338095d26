-- ===== src/Mysql/Rows/Reading.antt =====
-- How a MySQL server reads the statements of the row operations: the names between backticks, and
-- a placeholder for each value.
use flashaccess.Base.{
  ℕ, zero, suc, ◌+◌, Text, codes, false, Option, none, some, List, [], ◌∷◌, ◌++◌, map, join, length,
  has_prefix, ◌==◌, if◌then◌else◌, append_assoc, append-nil, subst, ◌≡◌, refl, sym, ◌∙◌, ap, arith,
}
use flashaccess.Mysql.Quote.{quote_ident, esc_ident}
use flashaccess.Mysql.Quote.Reading.{
  read_quoted, read_quoted-esc_ident, read_named, behind_tick, strip,
}
use flashaccess.Mysql.Quote.Statements.{◌>>=◌}
use flashaccess.Mysql.Databases.{qualified}
use flashaccess.Mysql.Rows.{insert_sql, update_sql, delete_sql, assignment, placeholders}

strip-append : (w s : Text) → strip w (w ++ s) ≡ some s
strip-append [] s = refl
strip-append (c ∷ w) s = ground (arith, strip-append w s)

-- A name that was quoted behind the words `w` reads back.
read_named-quote_ident :
    (w name rest : Text)
    → has_prefix rest (codes "`") ≡ false
    → read_named w (w ++ (quote_ident name ++ rest)) ≡ some (name, rest)
unfolding read_named quote_ident
read_named-quote_ident w name rest h =
    ap (λ x. behind_tick (strip (w ++ codes "`") x)) (sym (append_assoc w (codes "`") _))
    ∙ (ap behind_tick (strip-append (w ++ codes "`") _)
        ∙ (ap (read_quoted b'`' false) (append_assoc (esc_ident name) (codes "`") rest)
            ∙ read_quoted-esc_ident name rest h))

-- a name between backticks with the text `w` behind it
abbrev item : Text → Text → Text
item w c = quote_ident c ++ w

-- one item, and what the reader `next` makes of what follows
abbrev first_item : Text → (Text → Option (List Text × Text)) → Text → Option (List Text × Text)
first_item w next s = do
  (name, s1) ← read_named [] s
  s2 ← strip w s1
  (names, rest) ← next s2
  some (name ∷ names, rest)

abbrev last_item : Text → Option (List Text × Text)
last_item s = some ([], s)

abbrev behind_comma : (Text → Option (List Text × Text)) → Text → Option (List Text × Text)
behind_comma next s = do s1 ← strip (codes ", ") s; next s1

-- `n` such items with commas between them, and what follows
unfoldable pub read_items : Text → ℕ → Text → Option (List Text × Text)
read_items w zero s = none
read_items w (suc zero) s = first_item w last_item s
read_items w (suc (suc n)) s = first_item w (behind_comma (read_items w (suc n))) s

read_items-suc :
    (w : Text) (n : ℕ) (s : Text)
    → read_items w (suc (suc n)) s ≡ first_item w (behind_comma (read_items w (suc n))) s
unfolding read_items
read_items-suc w n s = refl

abbrev Opens : Text → Type 0
Opens s = has_prefix s (codes "`") ≡ false

item_tail :
    (w c sep more rest : Text)
    → (item w c ++ (sep ++ more)) ++ rest ≡ quote_ident c ++ (w ++ (sep ++ (more ++ rest)))
item_tail w c sep more rest = simp append_assoc

read_items-join :
    (w c : Text) (cols : List Text) (rest : Text)
    → ((s : Text) → Opens s → Opens (w ++ s))
    → Opens rest
    → read_items w (length (c ∷ cols)) (join (map (item w) (c ∷ cols)) (codes ", ") ++ rest)
      ≡ some (c ∷ cols, rest)
unfolding join has_prefix
read_items-join w c [] rest f h =
    unfold read_items in
    rw append_assoc (rw (read_named-quote_ident [] c (w ++ rest) (f rest h)) (rw strip-append refl))
read_items-join w c (d ∷ cols) rest f h =
    let after = join (map (item w) (d ∷ cols)) (codes ", ") ++ rest in
    rw read_items-suc (
      rw (item_tail w c (codes ", ") (join (map (item w) (d ∷ cols)) (codes ", ")) rest) (
        rw (read_named-quote_ident [] c (w ++ (codes ", " ++ after)) (f (codes ", " ++ after) refl))
          (rw strip-append (rw (read_items-join w d cols rest f h) refl))))

-- the placeholders of a list of them
unfoldable pub marks : Text → ℕ
marks [] = 0
marks (c ∷ s) = (if c == b'?' then 1 else 0) + marks s

marks-placeholders :
    (c : Text) (cols : List Text)
    → marks (join (placeholders (c ∷ cols)) (codes ", ") ++ codes ")") ≡ length (c ∷ cols)
unfolding marks join
marks-placeholders c [] = refl
marks-placeholders c (d ∷ cols) = omega (arith, marks-placeholders d cols)

-- INSERT INTO db.table (`n` columns) VALUES (…): the names, and the count of the placeholders
unfoldable pub read_insert : ℕ → Text → Option (Text × Text × List Text × ℕ)
read_insert n s = do
  (db, s1) ← read_named (codes "INSERT INTO ") s
  (table, s2) ← read_named (codes ".") s1
  s3 ← strip (codes " (") s2
  (cols, s4) ← read_items [] n s3
  s5 ← strip (codes ") VALUES (") s4
  some (db, table, cols, marks s5)

-- UPDATE db.table SET `n` columns WHERE key = ?
unfoldable pub read_update : ℕ → Text → Option (Text × Text × List Text × Text)
read_update n s = do
  (db, s1) ← read_named (codes "UPDATE ") s
  (table, s2) ← read_named (codes ".") s1
  s3 ← strip (codes " SET ") s2
  (cols, s4) ← read_items (codes " = ?") n s3
  (pk, s5) ← read_named (codes " WHERE ") s4
  s6 ← strip (codes " = ?") s5
  some (db, table, cols, pk)

-- DELETE FROM db.table WHERE key = ? LIMIT 1
unfoldable pub read_delete : Text → Option (Text × Text × Text)
read_delete s = do
  (db, s1) ← read_named (codes "DELETE FROM ") s
  (table, s2) ← read_named (codes ".") s1
  (pk, s3) ← read_named (codes " WHERE ") s2
  s4 ← strip (codes " = ? LIMIT 1") s3
  some (db, table, pk)

-- a table's full name behind the words `w`, and the text `rest` behind it
qualified_tail :
    (w db table rest : Text)
    → w ++ (qualified db table ++ rest)
      ≡ w ++ (quote_ident db ++ (codes "." ++ (quote_ident table ++ rest)))
qualified_tail w db table rest = simp append_assoc

map-item : (cols : List Text) → map (item []) cols ≡ map quote_ident cols
map-item [] = refl
map-item (c ∷ cols) =
    ap (λ x. x ∷ map (item []) cols) (append-nil (quote_ident c))
    ∙ ap (λ x. quote_ident c ∷ x) (map-item cols)

-- the same for names with nothing behind them
read_items-names :
    (c : Text) (cols : List Text) (rest : Text)
    → Opens rest
    → read_items [] (length (c ∷ cols)) (join (map quote_ident (c ∷ cols)) (codes ", ") ++ rest)
      ≡ some (c ∷ cols, rest)
read_items-names c cols rest h =
    subst
      (λ l. read_items [] (length (c ∷ cols)) (join l (codes ", ") ++ rest) ≡ some (c ∷ cols, rest))
      (map-item (c ∷ cols)) (read_items-join [] c cols rest (λ s o. o) h)

pub read_insert-insert_sql :
    (db table c : Text) (cols : List Text)
    → read_insert (length (c ∷ cols)) (insert_sql db table (c ∷ cols))
      ≡ some (db, table, c ∷ cols, length (c ∷ cols))
unfolding read_insert has_prefix
read_insert-insert_sql db table c cols =
    let list = join (map quote_ident (c ∷ cols)) (codes ", ") in
    let tail = codes ") VALUES (" ++ (join (placeholders (c ∷ cols)) (codes ", ") ++ codes ")") in
    rw (qualified_tail (codes "INSERT INTO ") db table (codes " (" ++ (list ++ tail))) (
      rw
        (read_named-quote_ident (codes "INSERT INTO ") db
          (codes "." ++ (quote_ident table ++ (codes " (" ++ (list ++ tail)))) refl)
        (rw (read_named-quote_ident (codes ".") table (codes " (" ++ (list ++ tail)) refl)
          (rw (read_items-names c cols tail refl) (rw marks-placeholders refl))))

pub read_update-update_sql :
    (db table pk c : Text) (cols : List Text)
    → read_update (length (c ∷ cols)) (update_sql db table pk (c ∷ cols))
      ≡ some (db, table, c ∷ cols, pk)
unfolding read_update has_prefix
read_update-update_sql db table pk c cols =
    let list = join (map assignment (c ∷ cols)) (codes ", ") in
    let tail = codes " WHERE " ++ (quote_ident pk ++ codes " = ?") in
    rw (qualified_tail (codes "UPDATE ") db table (codes " SET " ++ (list ++ tail))) (
      rw
        (read_named-quote_ident (codes "UPDATE ") db
          (codes "." ++ (quote_ident table ++ (codes " SET " ++ (list ++ tail)))) refl)
        (rw (read_named-quote_ident (codes ".") table (codes " SET " ++ (list ++ tail)) refl) (
          rw (read_items-join (codes " = ?") c cols tail (λ s o. refl) refl)
            (rw (read_named-quote_ident (codes " WHERE ") pk (codes " = ?") refl) refl))))

pub read_delete-delete_sql :
    (db table pk : Text) → read_delete (delete_sql db table pk) ≡ some (db, table, pk)
unfolding read_delete has_prefix
read_delete-delete_sql db table pk =
    let tail = codes " WHERE " ++ (quote_ident pk ++ codes " = ? LIMIT 1") in
    rw (qualified_tail (codes "DELETE FROM ") db table tail) (
      rw
        (read_named-quote_ident (codes "DELETE FROM ") db (codes "." ++ (quote_ident table ++ tail))
          refl)
        (rw (read_named-quote_ident (codes ".") table tail refl)
          (rw (read_named-quote_ident (codes " WHERE ") pk (codes " = ? LIMIT 1") refl) refl)))
