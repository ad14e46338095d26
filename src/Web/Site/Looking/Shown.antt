-- ===== src/Web/Site/Looking/Shown.antt =====
-- The routes that only show, one after the other.
use flashaccess.Base.{
  has_prefix, ℕ, Text, codes, Bool, true, false, Option, none, some, List, [], ◌∷◌, ◌++◌, Result,
  ok, err, ◌≡◌, refl, Bool-cases, inl, inr, ℤ, pos,
}
use flashaccess.Mysql.Driver.{DbError}
use flashaccess.Mysql.Databases.{TableInfo, list_databases, list_tables}
use flashaccess.Mysql.Databases.Targets.{Sends-nothing}
use flashaccess.Mysql.Users.{UserInfo, list_users}
use flashaccess.Mysql.Tables.{ColumnInfo, IndexInfo, list_columns, list_indexes, count}
use flashaccess.Mysql.Rows.{QueryResult, browse_table, run_user_query}
use flashaccess.Mysql.Preview.{preview_query}
use flashaccess.Session.{Session}
use flashaccess.Session.Manager.{active_session}
use flashaccess.Web.Forms.{form_value, query_int}
use flashaccess.Web.Site.{
  App, Site, Action, driver_of, on_db, DashBase, build_dash_base, based, fails_with, http_error,
  panics, preview_json, with_base, Call, page, stats_page,
}
use flashaccess.Web.Site.Pages.{
  is_strict, clamped, in_section, browsed, Described, describe_tables, with_indexes, structured,
  users_listed, permanent_page, handle_dashboard, handle_db_page, handle_browse, handle_structure,
  handle_users, handle_playground, handle_ai_settings, handle_permanent_access,
  handle_api_query_preview, handle_api_schema,
}
use flashaccess.Stats.{collect}
use flashaccess.Web.Site.Statistics.{handle_stats, handle_api_stats}
use flashaccess.Web.Site.Routes.{
  Endpoint, dashboard, db_page, browse, structure, users, playground, ai_settings, api_schema,
  query_preview, permanent, stats, api_stats, Visit, handle,
}
use flashaccess.Web.Site.Looking.{
  Looked, with_driver-Looked, Looks, reply-Looks, on_db-Looks, active_session-world,
  continued-Looks, list_databases-Queries, list_tables-Queries, list_columns-Queries,
  list_indexes-Queries, count-Queries, browse_table-Queries, list_users-Queries,
  run_user_query-Queries, ok_or-Looks, preview_query-Queries, on_query-Looks,
}

module _ {E : Type 0} (app : App E) where
  based-Looks :
      (db : Text) (now : ℕ) (a : Option Session) (f : DbError → Action) (k : DashBase → Action)
      → ((e : DbError) → Looks (f e))
      → ((b : DashBase) → Looks (k b))
      → (r : Result DbError (List Text)) → Looks (based app db now a f k r)
  based-Looks db now a f k hf hk (err e) = hf e
  based-Looks db now none f k hf hk (ok dbs) = reply-Looks panics
  based-Looks db now (some a) f k hf hk (ok dbs) = hk _

  build_dash_base-Looks :
      (db : Text) (now : ℕ) (f : DbError → Action) (k : DashBase → Action)
      → ((e : DbError) → Looks (f e))
      → ((b : DashBase) → Looks (k b))
      → Looks (build_dash_base app db now f k)
  unfolding build_dash_base Looks
  build_dash_base-Looks db now f k hf hk s =
      let (e, g) = active_session-world app now s.server.mgr in
      continued-Looks (active_session app.setup now s.server.mgr)
        (λ a. on_db list_databases (based app db now a f k)) s e g
        (λ a.
          on_db-Looks list_databases (based app db now a f k) list_databases-Queries
            (based-Looks db now a f k hf hk))

  with_base-Looks :
      (db : Text) (now : ℕ) (k : DashBase → Action)
      → ((b : DashBase) → Looks (k b))
      → Looks (with_base app db now k)
  with_base-Looks db now k h =
      build_dash_base-Looks db now (fails_with 500) k (λ e. reply-Looks (http_error 500)) h

  handle_db_page-Looks : (c : Call) (now : ℕ) → Looks (handle_db_page app c now)
  unfolding handle_db_page
  handle_db_page-Looks c now =
      with_base-Looks c.db now _
        (λ b. on_query-Looks (list_tables c.db) _ (list_tables-Queries c.db) (λ t. reply-Looks _))

  browsed-Looks :
      (c : Call) (limit : ℕ) (offset : ℤ) (b : DashBase) (cols : List ColumnInfo) (total : ℕ)
      (r : QueryResult)
      → Looks (browsed app c limit offset b cols total r)
  browsed-Looks c limit offset b cols total r = reply-Looks _

  handle_browse-Looks : (c : Call) (now : ℕ) → Looks (handle_browse app c now)
  unfolding handle_browse
  handle_browse-Looks c now =
      let limit = clamped (query_int (form_value (codes "limit") c.query) (pos 50)) in
      let offset = query_int (form_value (codes "offset") c.query) (pos 0) in
      let by = form_value (codes "order") c.query in
      let dir = form_value (codes "dir") c.query in
      with_base-Looks c.db now _ (λ b.
        on_query-Looks (list_columns c.db c.table) _ (list_columns-Queries c.db c.table) (λ cols.
          on_query-Looks (count c.db c.table) _ (count-Queries c.db c.table) (λ total.
            on_db-Looks (browse_table c.db c.table limit offset by dir)
              (browsed app c limit offset b cols total)
              (browse_table-Queries c.db c.table limit offset by dir)
              (browsed-Looks c limit offset b cols total))))

  structured-Looks :
      (c : Call) (b : DashBase) (cols : List ColumnInfo) (o : Option (List IndexInfo))
      → Looks (structured app c b cols o)
  structured-Looks c b cols none = reply-Looks _
  structured-Looks c b cols (some idxs) = reply-Looks _

  users_listed-Looks :
      (b : DashBase) (notice : Text) (r : Result DbError (List UserInfo))
      → Looks (users_listed app b notice r)
  users_listed-Looks b notice (ok us) = reply-Looks _
  users_listed-Looks b notice (err e) = reply-Looks _

  handle_structure-Looks : (c : Call) (now : ℕ) → Looks (handle_structure app c now)
  unfolding handle_structure
  handle_structure-Looks c now = with_base-Looks c.db now _ (λ b.
      on_query-Looks (list_columns c.db c.table) _ (list_columns-Queries c.db c.table) (λ cols.
        on_query-Looks (list_indexes c.db c.table) _ (list_indexes-Queries c.db c.table)
          (structured-Looks c b cols)))

  handle_users-Looks : (c : Call) (now : ℕ) → Looks (handle_users app c now)
  unfolding handle_users
  handle_users-Looks c now = elim (Bool-cases (is_strict app)) [
    | inl e ↦ rw e (reply-Looks (http_error 403))
    | inr e ↦ rw e (
        with_base-Looks [] now _ (λ b. on_db-Looks list_users _ list_users-Queries (
          users_listed-Looks (in_section b (codes "users")) (form_value (codes "notice") c.query))))
  ]

permanent_page-Looks :
    {E : Type 0} (app : App E) (c : Call) (b : DashBase) → Looks (permanent_page app c b)
unfolding Looks
permanent_page-Looks app c b s = with_driver-Looked s (driver_of s) (Sends-nothing refl)

with_indexes-Looks :
    (k : List IndexInfo → Action)
    → ((i : List IndexInfo) → Looks (k i))
    → (o : Option (List IndexInfo)) → Looks (with_indexes k o)
with_indexes-Looks k h none = reply-Looks _
with_indexes-Looks k h (some idxs) = h idxs

describe_tables-Looks :
    (db : Text) (ts : List TableInfo) (out : Described) (k : Described → Action)
    → ((o : Described) → Looks (k o))
    → Looks (describe_tables db ts out k)
unfolding describe_tables
describe_tables-Looks db [] out k h = h out
describe_tables-Looks db (t ∷ ts) out k h =
    on_query-Looks (list_columns db t.name) _ (list_columns-Queries db t.name) (λ cols.
      on_query-Looks (list_indexes db t.name) _ (list_indexes-Queries db t.name) (
        with_indexes-Looks _
          (λ idxs. describe_tables-Looks db ts (out ++ (t, cols, idxs) ∷ []) k h)))

handle_api_schema-Looks : (db : Text) → Looks (handle_api_schema db)
unfolding handle_api_schema
handle_api_schema-Looks [] = reply-Looks _
handle_api_schema-Looks (x ∷ db) =
    on_query-Looks (list_tables (x ∷ db)) _ (list_tables-Queries (x ∷ db))
      (λ ts. describe_tables-Looks (x ∷ db) ts [] _ (λ out. reply-Looks _))

handle_api_query_preview-Looks :
    (body : Option (Text × Text)) → Looks (handle_api_query_preview body)
unfolding handle_api_query_preview
handle_api_query_preview-Looks none = reply-Looks _
handle_api_query_preview-Looks (some (db, [])) = reply-Looks _
handle_api_query_preview-Looks (some (db, x ∷ sql)) =
    on_db-Looks (preview_query db (x ∷ sql)) _ (preview_query-Queries db (x ∷ sql))
      (λ p. reply-Looks (preview_json p))

-- the routes that show, and run no SQL of the user's
abbrev pub is_shown : Endpoint → Bool
is_shown dashboard = true
is_shown db_page = true
is_shown browse = true
is_shown structure = true
is_shown users = true
is_shown playground = true
is_shown ai_settings = true
is_shown api_schema = true
is_shown query_preview = true
is_shown permanent = true
is_shown stats = true
is_shown api_stats = true
is_shown _ = false

module _ {E : Type 0} (app : App E) where
  shown-Looks : (e : Endpoint) (v : Visit) → is_shown e ≡ true → Looks (handle app e v)
  unfolding handle_dashboard handle_playground handle_ai_settings handle_permanent_access
      handle_stats handle_api_stats
  shown-Looks dashboard v h = with_base-Looks app [] v.now _ (λ b. reply-Looks _)
  shown-Looks db_page v h = handle_db_page-Looks app v.call v.now
  shown-Looks browse v h = handle_browse-Looks app v.call v.now
  shown-Looks structure v h = handle_structure-Looks app v.call v.now
  shown-Looks users v h = handle_users-Looks app v.call v.now
  shown-Looks playground v h = with_base-Looks app [] v.now _ (λ b. reply-Looks _)
  shown-Looks ai_settings v h = with_base-Looks app [] v.now _ (λ b. reply-Looks _)
  shown-Looks api_schema v h = handle_api_schema-Looks v.call.db
  shown-Looks query_preview v h = handle_api_query_preview-Looks v.body
  shown-Looks permanent v h =
      with_base-Looks app [] v.now _ (λ b. permanent_page-Looks app v.call b)
  shown-Looks stats v h = with_base-Looks app [] v.now _ (λ b.
      on_db-Looks (run_user_query [] (codes "SHOW PROCESSLIST")) _
        (run_user_query-Queries (codes "SHOW PROCESSLIST") (unfold has_prefix in inl refl))
        (λ r.
          reply-Looks (
            page (some (in_section b (codes "stats")))
              (stats_page (collect app.floats v.probe) r))))
  shown-Looks api_stats v h = ok_or-Looks _ 500 (λ s. reply-Looks _) (collect app.floats v.probe)
  shown-Looks _ v h = absurd (cc)

  -- The routes that only show send nothing but statements that begin as a SHOW, a SELECT, an EXPLAIN
  -- or a USE, and change nothing else, whatever the request, and whatever the server answers.
  pub handle-Looked :
      (e : Endpoint) (v : Visit) (s : Site) → is_shown e ≡ true → Looked s (handle app e v s).1
  unfolding Looks
  handle-Looked e v s h = shown-Looks e v h s
