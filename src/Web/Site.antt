-- ===== src/Web/Site.antt =====
-- The handlers of internal/web/handlers.go behind the gate: what they act on, what they answer, and
-- `buildDashBase`. The host holds the database handle and the shell, the vault the disk. Where a
-- response has the text of an error, the reply has the error.
pub mod Pages
pub mod Statistics
pub mod Changes
pub mod Access
pub mod Looking
pub mod Paging
pub mod Routes
use flashaccess.Base.{
  ℕ, ◌/◌, ◌%◌, ◌*◌, Bool, ltb, ℤ, Text, codes, Option, none, some, List, [], ◌∷◌, ◌++◌, Result, ok,
  err, itoa, if◌then◌else◌,
}
use flashaccess.Config.{Config, Vault, effective_mode}
use flashaccess.Mysql.Driver.{Driver, DbError}
use flashaccess.Mysql.Databases.{TableInfo, list_databases}
use flashaccess.Mysql.Users.{UserInfo}
use flashaccess.Mysql.Tables.{ColumnInfo, IndexInfo}
use flashaccess.Mysql.Rows.{QueryResult}
use flashaccess.Mysql.Script.{ScriptResult}
use flashaccess.Mysql.Preview.{QueryPreview}
use flashaccess.Firewall.{Firewall, FwError}
use flashaccess.Access.{Host}
use flashaccess.Stats.{Floats, StatsError, Snapshot}
use flashaccess.Session.{Session, remaining}
use flashaccess.Session.Lock.{Outcome, returns, blocks}
use flashaccess.Session.State.{State, Setup, Op}
use flashaccess.Session.Manager.{active_session}
use flashaccess.Web.Forms.{Values}
use flashaccess.Web.Gate.{Server, Response}
use flashaccess.Web.Client.{Request}
use flashaccess.Web.Grants.{PermanentStore, PermanentGrant, GrantsJson}

-- what the sessions' hooks and stores, and the handlers, act on
pub record World : Type 0 where
  pub host : Host
  pub vault : Vault

-- `Server`, less what never changes
pub record Site : Type 0 where
  pub server : Server World
  pub grants : PermanentStore

-- the rest of it, with the encoding of the grants and the arithmetic of floats
pub record App (E : Type 0) : Type 0 where
  pub cfg : Config
  pub setup : Setup World E
  pub fw : Firewall
  pub grants_json : GrantsJson
  pub floats : Floats

-- What the handlers read of a request: the parameters of its path, its query, and its form, `none`
-- for one that does not parse.
pub record Call : Type 0 where
  pub request : Request
  pub db : Text
  pub table : Text
  pub query : Values
  pub form : Option Values

-- `dashBase`
pub record DashBase : Type 0 where
  pub session : Session
  pub remaining : Text
  pub databases : List Text
  pub current_db : Text
  pub mode : Text
  pub section : Text
  pub playground_db : Text

-- `pageLink`
pub record PageLink : Type 0 where
  pub label : Text
  pub offset : ℕ
  pub active : Bool

-- `browseData`, less its `dashBase`
pub record Browse : Type 0 where
  pub table : Text
  pub columns : List ColumnInfo
  pub result : QueryResult
  pub total : ℕ
  pub limit : ℕ
  pub offset : ℤ
  pub order_by : Text
  pub order_dir : Text
  pub pages : List PageLink
  pub pk_col : Text
  pub pk_col_idx : ℕ
  pub notice : Text

-- the fields of the JSON of `handleAPIStats`
pub record StatsJson : Type 0 where
  pub cpu : ℕ
  pub mem_used : ℕ
  pub mem_total : ℕ
  pub mem_pct : ℕ
  pub disk_used : ℕ
  pub disk_total : ℕ
  pub disk_pct : ℕ
  pub uptime_sec : ℤ
  pub mem_used_fmt : Text
  pub mem_total_fmt : Text
  pub disk_used_fmt : Text
  pub disk_total_fmt : Text
  pub uptime_fmt : Text

-- the data of the pages, and the bodies that are JSON; no base where it was left empty
pub data View : Type 0 where
  dashboard : View
  db_page : List TableInfo → View
  browse : Browse → View
  structure : Text → List ColumnInfo → List IndexInfo → View
  query_form : View
  script_page : Text → ScriptResult → View
  query_page : Text → QueryResult → View
  users : List UserInfo → Option DbError → Text → View
  playground : Text → Text → View
  ai_settings : View
  permanent : List PermanentGrant → Text → Text → ℤ → View
  stats_page : Result StatsError Snapshot → QueryResult → View

pub data Reply : Type 0 where
  answered : Response → Reply
  redirect : Text → Reply
  redirect_db : Text → DbError → Reply
  redirect_fw : Text → FwError → Reply
  redirect_mgr : Text → Reply
  http_error : ℕ → Reply
  page : Option DashBase → View → Reply
  preview_json : QueryPreview → Reply
  result_json : QueryResult → Reply
  schema_json : Text → List (TableInfo × List ColumnInfo × List IndexInfo) → Reply
  stats_json : StatsJson → Reply
  panics : Reply

abbrev pub Action : Type 0
Action = Site → Outcome Reply × Site

abbrev pub reply : Reply → Action
reply r s = (returns r, s)

abbrev pub driver_of : Site → Driver
driver_of s = s.server.mgr.world.host.db

abbrev pub with_driver : Site → Driver → Site
with_driver s d = record s {
  server = record s.server {
    mgr = record s.server.mgr {
      world = record s.server.mgr.world { host = record s.server.mgr.world.host { db = d } };
    };
  };
}

-- a call of the database, and what follows
abbrev pub then_db : {A : Type 0} → A × Driver → (A → Action) → Action
then_db (a, d) k s = k a (with_driver s d)

abbrev pub on_db : {A : Type 0} → (Driver → A × Driver) → (A → Action) → Action
on_db f k s = then_db (f (driver_of s)) k s

-- a call of the manager, and what follows when it comes back
abbrev pub continued : {A : Type 0} → Outcome A × State World → (A → Action) → Action
continued (returns a, st) k s = k a (record s { server = record s.server { mgr = st } })
continued (blocks, st) k s = (blocks, record s { server = record s.server { mgr = st } })

abbrev pub on_mgr : {A : Type 0} → Op World A → (A → Action) → Action
on_mgr m k s = continued (m s.server.mgr) k s

-- either outcome of a call that may fail
abbrev pub ok_or : {A E : Type 0} → (E → Action) → (A → Action) → Result E A → Action
ok_or f k (ok a) = k a
ok_or f k (err e) = f e

abbrev pub fails_with : {E : Type 0} → ℕ → E → Action
fails_with code e = reply (http_error code)

-- `r.ParseForm`
abbrev pub with_form : Option Values → (Values → Action) → Action
with_form none k = reply (http_error 400)
with_form (some f) k = k f

abbrev two_digits : ℕ → Text
two_digits n = if ltb n 10 then codes "0" ++ itoa n else itoa n

-- "%dh %02dm" of the hours and the minutes
abbrev hours_minutes : ℕ → Text
hours_minutes ns =
    itoa (ns / 3600000000000) ++ (codes "h " ++ (two_digits (ns / 60000000000 % 60) ++ codes "m"))

module _ {E : Type 0} (app : App E) where
  abbrev pub base_of : Text → ℕ → Session → List Text → DashBase
  base_of db now a dbs = record {
    session = a;
    remaining = hours_minutes (remaining a now);
    databases = dbs;
    current_db = db;
    mode = effective_mode app.cfg;
    section = [];
    playground_db = a.playground_db;
  }

  -- behind `ListDatabases`: without a live session the program panics
  abbrev pub based :
      Text
      → ℕ
      → Option Session
      → (DbError → Action)
      → (DashBase → Action)
      → Result DbError (List Text)
      → Action
  based db now a f k (err e) = f e
  based db now none f k (ok dbs) = reply panics
  based db now (some a) f k (ok dbs) = k (base_of db now a dbs)

  -- `buildDashBase` at a time, and what follows an error and a result
  unfoldable pub build_dash_base : Text → ℕ → (DbError → Action) → (DashBase → Action) → Action
  build_dash_base db now f k =
      on_mgr (active_session app.setup now) (λ a. on_db list_databases (based db now a f k))

  -- the pages that answer 500 without it
  abbrev pub with_base : Text → ℕ → (DashBase → Action) → Action
  with_base db now k = build_dash_base db now (fails_with 500) k
