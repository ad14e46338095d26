-- ===== src/Web/Site/Changes.antt =====
-- The handlers that change accounts, schemas and the rows of a table.
pub mod Rows
use flashaccess.Base.{
  Text, text_eq, codes, Bool, false, not, ◌&&◌, Option, none, some, List, [], ◌∷◌, ◌++◌, Result, ok,
  err, has_prefix, drop, trim_space, if◌then◌else◌, ℕ,
}
use flashaccess.Mysql.Driver.{Driver, DbError}
use flashaccess.Mysql.Names.{playground_db_name}
use flashaccess.Mysql.Accounts.{create_admin_user, drop_admin_user}
use flashaccess.Mysql.Databases.{
  create_database, drop_database, create_playground_db, drop_playground_db, clone_database,
  generate_sample_database,
}
use flashaccess.Mysql.Users.{UserInfo, list_users}
use flashaccess.Mysql.Rows.{insert_row, update_row, delete_row}
use flashaccess.Firewall.{Shell, FwError, allow, deny}
use flashaccess.Disk.{Disk, IoError}
use flashaccess.Session.{Session}
use flashaccess.Session.State.{MgrError}
use flashaccess.Session.Manager.{active_session, set_playground_db}
use flashaccess.Web.Forms.{Values, form_value}
use flashaccess.Web.Grants.{PermanentGrant, PermanentStore, add, remove_grant, get_grant}
use flashaccess.Web.Site.{
  App, Call, DashBase, View, users, Reply, redirect, redirect_db, redirect_fw, redirect_mgr,
  http_error, page, panics, Action, Site, reply, on_db, on_mgr, ok_or, fails_with, with_form,
  build_dash_base,
}
use flashaccess.Web.Site.Pages.{is_strict}

abbrev pub or_any : Text → Text
or_any [] = codes "%"
or_any (c ∷ host) = c ∷ host

-- the fields col_… of a form: the columns, and the first value of each
abbrev first_value : List Text → Text
first_value [] = []
first_value (v ∷ _) = v

unfoldable pub column_fields : Values → List (Text × Text)
column_fields [] = []
column_fields ((k, vs) ∷ f) =
    let rest = column_fields f in
    if has_prefix k (codes "col_") then (drop 4 k, first_value vs) ∷ rest else rest

abbrev pub columns_of : List (Text × Text) → List Text
columns_of [] = []
columns_of ((c, v) ∷ fs) = c ∷ columns_of fs

abbrev pub values_of : List (Text × Text) → List Text
values_of [] = []
values_of ((c, v) ∷ fs) = v ∷ values_of fs

abbrev table_page : Call → Text → Text
table_page c notice = codes "/dashboard/" ++ (c.db ++ b'/' ∷ c.table ++ notice)

abbrev pub row_done : Call → Text → Result DbError (Unit {0}) → Action
row_done c notice (ok _) = reply (redirect (table_page c notice))
row_done c notice (err e) = reply (http_error 400)

-- `handleRowInsert`
unfoldable pub handle_row_insert : Call → Action
handle_row_insert c = with_form c.form (λ f.
    let fs = column_fields f in
    on_db (insert_row c.db c.table (columns_of fs) (values_of fs))
      (row_done c (codes "?notice=Row+inserted")))

-- `pkCol == ""`
abbrev pub with_key : Text → (Text → Action) → Action
with_key [] k = reply (http_error 400)
with_key (x ∷ pk) k = k (x ∷ pk)

abbrev pub row_updated : Call → Values → Text → Action
row_updated c f pk =
    let fs = column_fields f in
    on_db
      (update_row c.db c.table pk (form_value (codes "_pk_val") f) (columns_of fs) (values_of fs))
      (row_done c (codes "?notice=Row+updated"))

-- `handleRowUpdate`
unfoldable pub handle_row_update : Call → Action
handle_row_update c =
    with_form c.form (λ f. with_key (form_value (codes "_pk_col") f) (row_updated c f))

-- `handleRowDelete`
unfoldable pub handle_row_delete : Call → Action
handle_row_delete c = with_form c.form (λ f. with_key (form_value (codes "pk_col") f) (λ pk.
    on_db (delete_row c.db c.table pk (form_value (codes "pk_val") f))
      (row_done c (codes "?notice=Row+deleted"))))

abbrev database_made : Text → Result DbError (Unit {0}) → Action
database_made name (ok _) = reply (redirect (codes "/dashboard/" ++ name))
database_made name (err e) = reply (http_error 400)

-- `handleDBCreate`
unfoldable pub handle_db_create : Call → Action
handle_db_create c = with_form c.form (λ f.
    let name = trim_space (form_value (codes "name") f) in
    on_db (create_database name) (database_made name))

module _ {E : Type 0} (app : App E) where
  -- the page of the users with an error; an error of `buildDashBase` leaves its base empty
  abbrev listed_with : DbError → Option DashBase → Action
  listed_with e b =
      on_db list_users
        (λ us. reply (page b (users (elim us [ ok l ↦ l | err f ↦ [] ]) (some e) [])))

  abbrev users_page : ℕ → DbError → Action
  users_page now e =
      build_dash_base app [] now (λ f. listed_with e none) (λ b. listed_with e (some b))

  abbrev user_done : ℕ → Text → Result DbError (Unit {0}) → Action
  user_done now target (ok _) = reply (redirect target)
  user_done now target (err e) = users_page now e

  -- `handleUserCreate`
  unfoldable pub handle_user_create : Call → ℕ → Action
  handle_user_create c now =
      if is_strict app
      then reply (http_error 403)
      else with_form c.form (λ f.
        on_db
          (create_admin_user (trim_space (form_value (codes "username") f))
            (or_any (trim_space (form_value (codes "host") f)))
            (trim_space (form_value (codes "password") f)) (form_value (codes "privs") f))
          (user_done now (codes "/users?notice=User+created+successfully")))

  -- `handleUserDrop`
  unfoldable pub handle_user_drop : Call → ℕ → Action
  handle_user_drop c now =
      if is_strict app
      then reply (http_error 403)
      else with_form c.form (λ f.
        on_db (drop_admin_user (form_value (codes "username") f) (form_value (codes "host") f))
          (user_done now (codes "/users?notice=User+dropped+successfully")))

  abbrev database_dropped : Result DbError (Unit {0}) → Action
  database_dropped (ok _) = reply (redirect (codes "/dashboard"))
  database_dropped (err e) = reply (http_error 400)

  -- `handleDBDrop`
  unfoldable pub handle_db_drop : Call → Action
  handle_db_drop c =
      if is_strict app
      then reply (http_error 403)
      else with_form c.form
          (λ f. on_db (drop_database (form_value (codes "name") f)) database_dropped)
