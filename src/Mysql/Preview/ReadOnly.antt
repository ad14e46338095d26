-- ===== src/Mysql/Preview/ReadOnly.antt =====
-- What `PreviewQuery` sends: no statement that changes anything.
use flashaccess.Base.{
  ℕ, Text, codes, true, ◌||◌, ◌&&◌, Option, none, some, List, [], ◌∷◌, ◌++◌, Result, ok, err,
  has_prefix, drop, trim_space, to_upper, ◌≡◌, refl, arith, ◌⊎◌, inl, inr, Bool-cases,
}
use flashaccess.Mysql.Quote.{quote_ident}
use flashaccess.Mysql.Driver.{Driver, DbError, Statement, bare, exec, query, connect}
use flashaccess.Mysql.Databases.Targets.{Sends, Sends-nothing, Sends-exec, Sends-trans}
use flashaccess.Mysql.Script.{Kind, select, dml, ddl, other}
use flashaccess.Mysql.Preview.{
  QueryPreview, rewritten, update_rewritten, dml_to_count_sql, dml_to_sample_sql, count_impact,
  take_sample, preview_kind, preview_used, preview_connected, preview_query,
}

-- a statement that only reads, by its first word
abbrev pub IsReadOnly : Statement → Type 0
IsReadOnly s =
    (has_prefix s.text (codes "USE `")
      || has_prefix s.text (codes "EXPLAIN ")
      || has_prefix s.text (codes "SELECT "))
    ≡ true

-- nothing, or a query
abbrev IsEmptyOrSelect : Text → Type 0
IsEmptyOrSelect s = (s ≡ []) ⊎ (has_prefix s (codes "SELECT ") ≡ true)

module _ (head tail : Text)
    (selects : (s : Text) → has_prefix (head ++ s) (codes "SELECT ") ≡ true) where
  update_rewritten-IsEmptyOrSelect :
      (q : Text) (ws : List Text) (i : Option ℕ)
      → IsEmptyOrSelect (update_rewritten head tail q ws i)
  update_rewritten-IsEmptyOrSelect q [] i = inl refl
  update_rewritten-IsEmptyOrSelect q (w ∷ []) i = inl refl
  update_rewritten-IsEmptyOrSelect q (w ∷ t ∷ ws) none = inr (selects _)
  update_rewritten-IsEmptyOrSelect q (w ∷ t ∷ ws) (some i) = inr (selects _)

  pub rewritten-IsEmptyOrSelect : (q : Text) → IsEmptyOrSelect (rewritten head tail q)
  unfolding rewritten
  rewritten-IsEmptyOrSelect q =
      let up = to_upper (trim_space q) in
      elim (Bool-cases (
        (has_prefix up (codes "DELETE FROM") || has_prefix up (codes "DELETE "))
        && has_prefix (to_upper (drop 7 q)) (codes "FROM "))) [
          | inl e ↦ rw e (inr (selects _))
          | inr e ↦ rw e (elim (Bool-cases (has_prefix up (codes "UPDATE "))) [
            | inl f ↦ rw f (update_rewritten-IsEmptyOrSelect q _ _)
            | inr f ↦ rw f (inl refl)
          ])
        ]

count_impact-Sends :
    (s : Text) (p : QueryPreview) (d : Driver)
    → IsEmptyOrSelect s
    → Sends IsReadOnly d (count_impact s p d).1
unfolding query
count_impact-Sends [] p d h = Sends-nothing refl
count_impact-Sends (c ∷ s) p d h = Sends-exec (bare (c ∷ s)) d (ground arith)

take_sample-Sends :
    (s : Text) (p : QueryPreview) (d : Driver)
    → IsEmptyOrSelect s
    → Sends IsReadOnly d (take_sample s p d).1
unfolding query
take_sample-Sends [] p d h = Sends-nothing refl
take_sample-Sends (c ∷ s) p d h = Sends-exec (bare (c ∷ s)) d (ground arith)

preview_kind-Sends :
    (k : Kind) (q : Text) (p : QueryPreview) (d : Driver)
    → Sends IsReadOnly d (preview_kind k q p d).1
unfolding preview_kind query has_prefix
preview_kind-Sends select q p d = Sends-exec (bare (codes "EXPLAIN " ++ q)) d refl
preview_kind-Sends dml q p d =
    let counts = rewritten-IsEmptyOrSelect (codes "SELECT COUNT(*) ") [] (λ s. refl) q in
    let samples = rewritten-IsEmptyOrSelect (codes "SELECT * ") (codes " LIMIT 5") (λ s. refl) q in
    Sends-trans (count_impact-Sends (dml_to_count_sql q) p d counts)
      (take_sample-Sends (dml_to_sample_sql q) _ _ samples)
preview_kind-Sends ddl q p d = Sends-nothing refl
preview_kind-Sends other q p d = Sends-nothing refl

preview_used-Sends :
    (db q : Text) (p : QueryPreview) (d : Driver) (out : Result DbError ℕ × Driver)
    → Sends IsReadOnly d out.1
    → Sends IsReadOnly d (preview_used db q p out).1
preview_used-Sends db q p d (err e, d1) h = h
preview_used-Sends db q p d (ok _, d1) h = Sends-trans h (preview_kind-Sends p.kind q p d1)

preview_connected-Sends :
    (db q : Text) (p : QueryPreview) (d : Driver) (out : Result DbError (Unit {0}) × Driver)
    → Sends IsReadOnly d out.1
    → Sends IsReadOnly d (preview_connected db q p out).1
unfolding exec quote_ident has_prefix
preview_connected-Sends db q p d (err e, d1) h = h
preview_connected-Sends [] q p d (ok _, d1) h = Sends-trans h (preview_kind-Sends p.kind q p d1)
preview_connected-Sends (c ∷ db) q p d (ok _, d1) h =
    let selects_db = bare (codes "USE " ++ quote_ident (c ∷ db)) in
    preview_used-Sends (c ∷ db) q p d (exec selects_db d1)
      (Sends-trans h (Sends-exec selects_db d1 refl))

-- Whatever text `PreviewQuery` is given, and whatever the server answers, each statement that it
-- sends begins as a USE, an EXPLAIN or a SELECT.
pub preview_query-Sends :
    (db text : Text) (d : Driver) → Sends IsReadOnly d (preview_query db text d).1
unfolding preview_query connect
preview_query-Sends db text d =
    preview_connected-Sends db (trim_space text) _ d (connect d) (Sends-nothing refl)
