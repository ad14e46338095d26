-- ===== src/Web/Site/Looking.antt =====
-- The pages that only show: what they send to the database reads, and they change nothing else.
pub mod Shown
use flashaccess.Base.{
  ℕ, Text, codes, Bool, true, false, Option, none, some, List, [], ◌∷◌, ◌++◌, Result, ok, err, sym,
  subst, has_prefix, All, ◌⊎◌, ◌≡◌, refl, ◌∙◌, ap, Bool-cases, inl, inr, ℤ, pos,
}
use flashaccess.Mysql.Driver.{Rows, connect, exec, Driver, DbError, Statement, bare, query}
use flashaccess.Mysql.Databases.{TableInfo, list_databases, list_tables, list_tables_sql}
use flashaccess.Mysql.Databases.Targets.{Sends, Sends-nothing, Sends-exec, Sends-trans}
use flashaccess.Mysql.Users.{UserInfo, list_users}
use flashaccess.Mysql.Tables.{ColumnInfo, IndexInfo, list_columns, list_indexes, count}
use flashaccess.Mysql.Rows.{
  QueryResult, browse_table, run_raw_query, retried, answered, on_connection, run_user_query,
}
use flashaccess.Mysql.Preview.{preview_query}
use flashaccess.Mysql.Preview.ReadOnly.{IsReadOnly, preview_query-Sends}
use flashaccess.Session.{Session}
use flashaccess.Session.Lock.{Outcome, returns, blocks, can_read, r_lock, r_unlock}
use flashaccess.Session.State.{State}
use flashaccess.Session.Manager.{active_session}
use flashaccess.Web.Forms.{form_value, query_int}
use flashaccess.Web.Site.{
  App, Site, World, Action, reply, driver_of, with_driver, on_db, continued, ok_or, DashBase,
  build_dash_base, based, fails_with, Reply, http_error, panics, preview_json, with_base, Call,
}
use flashaccess.Web.Site.Pages.{
  is_strict, clamped, in_section, browsed, Described, describe_tables, with_indexes, structured,
  users_listed, permanent_page, handle_dashboard, handle_db_page, handle_browse, handle_structure,
  handle_users, handle_playground, handle_ai_settings, handle_permanent_access,
  handle_api_query_preview, handle_api_schema,
}
use flashaccess.Web.Site.Routes.{
  Endpoint, dashboard, db_page, browse, structure, users, playground, ai_settings, api_schema,
  query_preview, permanent, Visit, handle,
}

-- a statement that only reads, by its first word
abbrev pub IsLook : Statement → Type 0
IsLook s = (has_prefix s.text (codes "SHOW ") ≡ true) ⊎ IsReadOnly s

-- Between two states the statements that were sent only read, and nothing else has changed.
pub record Looked (s s' : Site) : Type 0 where
  pub sends : Sends IsLook (driver_of s) (driver_of s')
  pub same_shell : s'.server.mgr.world.host.shell ≡ s.server.mgr.world.host.shell
  pub same_vault : s'.server.mgr.world.vault ≡ s.server.mgr.world.vault
  pub same_sessions : s'.server.mgr.sessions ≡ s.server.mgr.sessions
  pub same_tokens : s'.server.tokens ≡ s.server.tokens
  pub same_grants : s'.grants ≡ s.grants

pub Looked-trans : {a b c : Site} → Looked a b → Looked b c → Looked a c
Looked-trans f g = record {
  sends = Sends-trans f.sends g.sends;
  same_shell = g.same_shell ∙ f.same_shell;
  same_vault = g.same_vault ∙ f.same_vault;
  same_sessions = g.same_sessions ∙ f.same_sessions;
  same_tokens = g.same_tokens ∙ f.same_tokens;
  same_grants = g.same_grants ∙ f.same_grants;
}

pub with_driver-Looked :
    (s : Site) (d : Driver) → Sends IsLook (driver_of s) d → Looked s (with_driver s d)
with_driver-Looked s d h = record {
  sends = h;
  same_shell = refl;
  same_vault = refl;
  same_sessions = refl;
  same_tokens = refl;
  same_grants = refl;
}

-- an action, and a call of the database, that only look
unfoldable pub Looks : Action → Type 0
Looks k = (s : Site) → Looked s (k s).1

abbrev pub Queries : {A : Type 0} → (Driver → A × Driver) → Type 0
Queries f = (d : Driver) → Sends IsLook d (f d).1

pub reply-Looks : (r : Reply) → Looks (reply r)
unfolding Looks
reply-Looks r s = with_driver-Looked s (driver_of s) (Sends-nothing refl)

pub on_db-Looks :
    {A : Type 0} (f : Driver → A × Driver) (k : A → Action)
    → Queries f
    → ((a : A) → Looks (k a))
    → Looks (on_db f k)
unfolding Looks
on_db-Looks f k q h s =
    Looked-trans (with_driver-Looked s (f (driver_of s)).1 (q (driver_of s)))
      (h (f (driver_of s)).0 (with_driver s (f (driver_of s)).1))

pub ok_or-Looks :
    {A E : Type 0} (k : A → Action) (code : ℕ)
    → ((a : A) → Looks (k a))
    → (r : Result E A) → Looks (ok_or (fails_with code) k r)
ok_or-Looks k code h (ok a) = h a
ok_or-Looks k code h (err e) = reply-Looks (http_error code)

pub active_session-world :
    {E : Type 0} (app : App E) (now : ℕ) (st : State World)
    → ((active_session app.setup now st).1.world ≡ st.world)
      × ((active_session app.setup now st).1.sessions ≡ st.sessions)
unfolding active_session r_lock r_unlock
active_session-world app now st = elim (Bool-cases (can_read st.mutex)) [
  | inl e ↦ rw e (refl, refl)
  | inr e ↦ rw e (refl, refl)
]

pub mgr-Looked :
    (s : Site) (st : State World)
    → st.world ≡ s.server.mgr.world
    → st.sessions ≡ s.server.mgr.sessions
    → Looked s (record s { server = record s.server { mgr = st } })
mgr-Looked s st e f = record {
  sends = Sends-nothing (ap (λ w. w.host.db.log) e);
  same_shell = ap (λ w. w.host.shell) e;
  same_vault = ap (λ w. w.vault) e;
  same_sessions = f;
  same_tokens = refl;
  same_grants = refl;
}

pub continued-Looks :
    {A : Type 0} (out : Outcome A × State World) (k : A → Action) (s : Site)
    → out.1.world ≡ s.server.mgr.world
    → out.1.sessions ≡ s.server.mgr.sessions
    → ((a : A) → Looks (k a))
    → Looked s (continued out k s).1
unfolding Looks
continued-Looks (blocks, st) k s e f h = mgr-Looked s st e f
continued-Looks (returns a, st) k s e f h =
    Looked-trans (mgr-Looked s st e f) (h a (record s { server = record s.server { mgr = st } }))

pub list_databases-Queries : Queries list_databases
unfolding list_databases query has_prefix
list_databases-Queries d = Sends-exec (bare (codes "SHOW DATABASES")) d (inl refl)

pub list_tables-Queries : (db : Text) → Queries (list_tables db)
unfolding list_tables list_tables_sql query has_prefix
list_tables-Queries db d = Sends-exec _ d (inr refl)

pub list_columns-Queries : (db table : Text) → Queries (list_columns db table)
unfolding list_columns query has_prefix
list_columns-Queries db table d = Sends-exec _ d (inl refl)

pub list_indexes-Queries : (db table : Text) → Queries (list_indexes db table)
unfolding list_indexes query has_prefix
list_indexes-Queries db table d = Sends-exec _ d (inl refl)

pub count-Queries : (db table : Text) → Queries (count db table)
unfolding count query has_prefix
count-Queries db table d = Sends-exec _ d (inr refl)

pub browse_table-Queries :
    (db table : Text) (limit : ℕ) (offset : ℤ) (by dir : Text)
    → Queries (browse_table db table limit offset by dir)
unfolding browse_table run_raw_query query has_prefix
browse_table-Queries db table limit offset by dir d = Sends-exec _ d (inr refl)

pub list_users-Queries : Queries list_users
unfolding list_users query has_prefix
list_users-Queries d = Sends-exec _ d (inr refl)

retried-driver : (e : DbError) (r : Result DbError ℕ) (d : Driver) → (retried e (r, d)).1 ≡ d
retried-driver e (ok n) d = refl
retried-driver e (err f) d = refl

answered-Sends :
    (q : Text) (r : Result DbError Rows) (d : Driver)
    → IsLook (bare q)
    → Sends IsLook d (answered q (r, d)).1
unfolding exec
answered-Sends q (ok rows) d h = Sends-nothing refl
answered-Sends q (err e) d h =
    subst (Sends IsLook d) (sym (retried-driver e (exec (bare q) d).0 (exec (bare q) d).1))
      (Sends-exec (bare q) d h)

query-Sends : (s : Statement) (d : Driver) → IsLook s → Sends IsLook d (query s d).1
unfolding query
query-Sends s d h = Sends-exec s d h

connected-Sends :
    (q : Text) (r : Result DbError (Unit {0})) (d : Driver)
    → IsLook (bare q)
    → Sends IsLook d (on_connection [] q (r, d)).1
connected-Sends q (err e) d h = Sends-nothing refl
connected-Sends q (ok _) d h =
    Sends-trans (query-Sends (bare q) d h)
      (answered-Sends q (query (bare q) d).0 (query (bare q) d).1 h)

connect-Sends : (d : Driver) → Sends IsLook d (connect d).1
unfolding connect
connect-Sends d = Sends-nothing refl

-- a query of one text that only reads, with no database chosen
pub run_user_query-Queries : (q : Text) → IsLook (bare q) → Queries (run_user_query [] q)
unfolding run_user_query
run_user_query-Queries q h d =
    Sends-trans (connect-Sends d) (connected-Sends q (connect d).0 (connect d).1 h)

pub preview_query-Queries : (db q : Text) → Queries (preview_query db q)
preview_query-Queries db q d =
    let h = preview_query-Sends db q d in
    record { fresh = h.fresh; log_is = h.log_is; each = looks h.fresh h.each }
  where
    looks : (l : List Statement) → All IsReadOnly l → All IsLook l
    looks [] h = h
    looks (x ∷ l) (p, h) = (inr p, looks l h)

-- a query on a page that answers 500 where it fails
pub on_query-Looks :
    {A : Type 0} (f : Driver → Result DbError A × Driver) (k : A → Action)
    → Queries f
    → ((a : A) → Looks (k a))
    → Looks (on_db f (ok_or (fails_with 500) k))
on_query-Looks f k q h = on_db-Looks f (ok_or (fails_with 500) k) q (ok_or-Looks k 500 h)
