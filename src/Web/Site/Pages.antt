-- ===== src/Web/Site/Pages.antt =====
-- The handlers that show something: the dashboard, a schema, a table, its structure, a query, the
-- users, the playground, the AI settings, the permanent grants, and the JSON of a preview, of a
-- statement that is run, and of a schema. The statistics
-- are in Statistics.antt.
use flashaccess.Base.{
  ℕ, zero, suc, ◌+◌, ◌*◌, ◌==◌, ltb, ℤ, pos, negsuc, Text, text_eq, codes, Bool, true, false, not,
  ◌||◌, Option, none, some, List, [], ◌∷◌, ◌++◌, Result, ok, err, itoa, trim_space, if◌then◌else◌,
}
use flashaccess.Config.{effective_mode, mode_unrestricted}
use flashaccess.Mysql.Driver.{DbError}
use flashaccess.Mysql.Databases.{TableInfo, list_tables}
use flashaccess.Mysql.Users.{UserInfo, list_users}
use flashaccess.Mysql.Tables.{ColumnInfo, IndexInfo, list_columns, list_indexes, count}
use flashaccess.Mysql.Rows.{QueryResult, browse_table, run_user_query}
use flashaccess.Mysql.Split.{split_statements}
use flashaccess.Mysql.Script.{run_script}
use flashaccess.Mysql.Preview.{preview_query}
use flashaccess.Web.Forms.{form_value, query_int}
use flashaccess.Web.Grants.{list_grants}
use flashaccess.Web.Site.{
  App, Call, DashBase, PageLink, dashboard, db_page, browse, structure, query_form, script_page,
  query_page, users, playground, ai_settings, permanent, http_error, page, preview_json,
  result_json, schema_json, panics, Action, reply, on_db, ok_or, fails_with, with_form, with_base,
}

-- the limit of `handleBrowse`
abbrev pub clamped : ℤ → ℕ
clamped (pos n) = if n == 0 || ltb 1000 n then 50 else n
clamped (negsuc n) = 50

abbrev pub is_at : ℤ → ℕ → Bool
is_at (pos n) off = n == off
is_at (negsuc n) off = false

-- The loop over the pages from number `i`: it ends behind the total, or with 21 links, of which
-- `left` more may come.
unfoldable pub page_links : ℕ → ℕ → ℕ → ℕ → ℤ → List PageLink
page_links zero i limit total offset = []
page_links (suc left) i limit total offset =
    let rest = page_links left (i + 1) limit total offset in
    if ltb (i * limit) total
    then record { label = itoa (i + 1); offset = i * limit; active = is_at offset (i * limit) }
      ∷ rest
    else []

-- the first column of the primary key from column `i` on
abbrev primary : ℕ → List ColumnInfo → Option (Text × ℕ)
primary i [] = none
primary i (c ∷ cs) =
    let rest = primary (i + 1) cs in if text_eq c.key (codes "PRI") then some (c.field, i) else rest

abbrev first_column : List ColumnInfo → Text × ℕ
first_column [] = ([], 0)
first_column (c ∷ cs) = (c.field, 0)

-- `pkCol` and `pkColIdx`; a primary key whose name is empty counts as none
abbrev pk_found : List ColumnInfo → Option (Text × ℕ) → Text × ℕ
pk_found cols none = first_column cols
pk_found cols (some ([], i)) = first_column cols
pk_found cols (some (b ∷ name, i)) = (b ∷ name, i)

unfoldable pub pk_of : List ColumnInfo → Text × ℕ
pk_of cols = pk_found cols (primary 0 cols)

abbrev pub in_section : DashBase → Text → DashBase
in_section b s = record b { section = s }

module _ {E : Type 0} (app : App E) where
  -- `handleDashboard`
  unfoldable pub handle_dashboard : Call → ℕ → Action
  handle_dashboard c now = with_base app [] now (λ b. reply (page (some b) dashboard))

  -- `handleDBPage`
  unfoldable pub handle_db_page : Call → ℕ → Action
  handle_db_page c now = with_base app c.db now (λ b.
      on_db (list_tables c.db)
        (ok_or (fails_with 500) (λ tables. reply (page (some b) (db_page tables)))))

  abbrev pub browsed : Call → ℕ → ℤ → DashBase → List ColumnInfo → ℕ → QueryResult → Action
  browsed c limit offset b cols total result = reply (
      page (some b) (
        browse (record {
          table = c.table;
          columns = cols;
          result = result;
          total = total;
          limit = limit;
          offset = offset;
          order_by = form_value (codes "order") c.query;
          order_dir = form_value (codes "dir") c.query;
          pages = page_links 21 0 limit total offset;
          pk_col = (pk_of cols).0;
          pk_col_idx = (pk_of cols).1;
          notice = form_value (codes "notice") c.query;
        })))

  -- `handleBrowse`
  unfoldable pub handle_browse : Call → ℕ → Action
  handle_browse c now =
      let limit = clamped (query_int (form_value (codes "limit") c.query) (pos 50)) in
      let offset = query_int (form_value (codes "offset") c.query) (pos 0) in
      with_base app c.db now (λ b. on_db (list_columns c.db c.table) (
        ok_or (fails_with 500) (λ cols. on_db (count c.db c.table) (
          ok_or (fails_with 500) (λ total.
            on_db
              (browse_table c.db c.table limit offset (form_value (codes "order") c.query)
                (form_value (codes "dir") c.query))
              (browsed c limit offset b cols total))))))

  abbrev pub structured : Call → DashBase → List ColumnInfo → Option (List IndexInfo) → Action
  structured c b cols none = reply panics
  structured c b cols (some idxs) = reply (page (some b) (structure c.table cols idxs))

  -- `handleStructure`
  unfoldable pub handle_structure : Call → ℕ → Action
  handle_structure c now = with_base app c.db now (λ b. on_db (list_columns c.db c.table) (
      ok_or (fails_with 500)
        (λ cols. on_db (list_indexes c.db c.table) (ok_or (fails_with 500) (structured c b cols)))))

  abbrev or_else : Text → Text → Text
  or_else [] b = b
  or_else (x ∷ a) b = x ∷ a

  abbrev has_several : List Text → Bool
  has_several [] = false
  has_several (s ∷ []) = false
  has_several (s ∷ t ∷ ss) = true

  abbrev run_sql : Text → DashBase → Text → Action
  run_sql db b [] = reply (page (some b) query_form)
  run_sql db b (x ∷ sql) =
      if has_several (split_statements (x ∷ sql))
      then on_db (run_script db (x ∷ sql) false)
          (λ sr. reply (page (some b) (script_page (x ∷ sql) sr)))
      else on_db (run_user_query db (x ∷ sql)) (λ r. reply (page (some b) (query_page (x ∷ sql) r)))

  -- `handleQuery`
  unfoldable pub handle_query : Call → ℕ → Action
  handle_query c now = with_base app c.db now (λ b. with_form c.form (λ f. run_sql c.db b (
      or_else (trim_space (form_value (codes "sql") f))
        (trim_space (form_value (codes "q") c.query)))))

  -- `handleUploadSQL`, for the text of the file, or the code of the failure to get it
  unfoldable pub handle_upload_sql : Call → ℕ → Result ℕ Text → Action
  handle_upload_sql c now (err code) = reply (http_error code)
  handle_upload_sql c now (ok text) =
      with_base app c.db now
        (λ b. on_db (run_script c.db text true) (λ sr. reply (page (some b) (script_page [] sr))))

  -- the users of a page, and the error in their place
  abbrev pub users_listed : DashBase → Text → Result DbError (List UserInfo) → Action
  users_listed b notice (ok us) = reply (page (some b) (users us none notice))
  users_listed b notice (err e) = reply (page (some b) (users [] (some e) notice))

  -- `EffectiveMode() != "unrestricted"`
  abbrev pub is_strict : Bool
  is_strict = not (text_eq (effective_mode app.cfg) mode_unrestricted)

  -- `handleUsers`
  unfoldable pub handle_users : Call → ℕ → Action
  handle_users c now =
      if is_strict
      then reply (http_error 403)
      else with_base app [] now (λ b.
        on_db list_users
          (users_listed (in_section b (codes "users")) (form_value (codes "notice") c.query)))

  -- `handlePlayground`
  unfoldable pub handle_playground : Call → ℕ → Action
  handle_playground c now = with_base app [] now (λ b. reply (
      page (some (in_section b (codes "playground")))
        (playground (form_value (codes "notice") c.query) (form_value (codes "error") c.query))))

  -- `handleAISettings`
  unfoldable pub handle_ai_settings : Call → ℕ → Action
  handle_ai_settings c now =
      with_base app [] now
        (λ b. reply (page (some (in_section b (codes "ai-settings"))) ai_settings))

  abbrev pub permanent_page : Call → DashBase → Action
  permanent_page c b s =
      reply
        (page (some (in_section b (codes "permanent"))) (
          permanent (list_grants s.grants) (form_value (codes "notice") c.query)
            (form_value (codes "error") c.query) app.cfg.db.port))
        s

  -- `handlePermanentAccess`
  unfoldable pub handle_permanent_access : Call → ℕ → Action
  handle_permanent_access c now = with_base app [] now (permanent_page c)

-- `handleAPIQueryPreview`, for the request's database and SQL, `none` for JSON that is not valid
unfoldable pub handle_api_query_preview : Option (Text × Text) → Action
handle_api_query_preview none = reply (http_error 400)
handle_api_query_preview (some (db, [])) = reply (http_error 400)
handle_api_query_preview (some (db, x ∷ sql)) =
    on_db (preview_query db (x ∷ sql)) (λ p. reply (preview_json p))

-- `handleAIExecute`
unfoldable pub handle_ai_execute : Option (Text × Text) → Action
handle_ai_execute none = reply (http_error 400)
handle_ai_execute (some (db, [])) = reply (http_error 400)
handle_ai_execute (some (db, x ∷ sql)) =
    on_db (run_user_query db (x ∷ sql)) (λ r. reply (result_json r))

abbrev pub Described : Type 0
Described = List (TableInfo × List ColumnInfo × List IndexInfo)

abbrev pub with_indexes : (List IndexInfo → Action) → Option (List IndexInfo) → Action
with_indexes k none = reply panics
with_indexes k (some idxs) = k idxs

-- the loop over the tables, and what follows it
unfoldable pub describe_tables : Text → List TableInfo → Described → (Described → Action) → Action
describe_tables db [] out k = k out
describe_tables db (t ∷ ts) out k = on_db (list_columns db t.name) (
    ok_or (fails_with 500) (λ cols. on_db (list_indexes db t.name) (
      ok_or (fails_with 500)
        (with_indexes (λ idxs. describe_tables db ts (out ++ (t, cols, idxs) ∷ []) k)))))

-- `handleAPISchema`
unfoldable pub handle_api_schema : Text → Action
handle_api_schema [] = reply (http_error 400)
handle_api_schema (x ∷ db) = on_db (list_tables (x ∷ db)) (
    ok_or (fails_with 500)
      (λ tables. describe_tables (x ∷ db) tables [] (λ out. reply (schema_json (x ∷ db) out))))
