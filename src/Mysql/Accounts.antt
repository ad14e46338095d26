-- ===== src/Mysql/Accounts.antt =====
-- `CreateUser` and `DropUser` of internal/mysql/mysql.go; `CreateAdminUser` and `DropAdminUser` of
-- internal/mysql/admin.go. A time limit that passes is one of the driver's failures.
pub mod Outcomes
use flashaccess.Base.{
  ℕ, Text, codes, Bool, not, List, [], ◌∷◌, ◌++◌, Result, ok, err, ltb, length, text_eq,
  if◌then◌else◌,
}
use flashaccess.Mysql.Quote.{esc_password, account, create_user_sql, drop_user_sql, grant_all_sql}
use flashaccess.Mysql.Driver.{
  Driver, Statement, bare, DbError, context, unsafe_create, unsafe_drop, unsafe_password,
  short_password, invalid_user, invalid_host, session_user, Call, exec,
}
use flashaccess.Mysql.Driver.Runs.{run_guarded}
use flashaccess.Mysql.Names.{user_pattern, user_name_pattern, host_pattern, safe_password}

abbrev pub flush_sql : Text
flush_sql = codes "FLUSH PRIVILEGES"

-- the statements of `CreateUser`
abbrev pub user_statements : Text → Text → Text → List Statement
user_statements user host password =
    bare (create_user_sql user host password) ∷ bare (grant_all_sql user host) ∷ bare flush_sql ∷ []

-- `CreateUser`
unfoldable pub create_user : Text → Text → Text → Call (Unit {0})
create_user user host password d =
    if not (user_pattern user)
    then (err (unsafe_create user), d)
    else if not (safe_password password)
    then (err unsafe_password, d)
    else run_guarded (user_statements user host password) (bare (drop_user_sql user host))
        (codes "grant") d

-- behind the drop: the flush, whose own error is ignored
abbrev pub flushed : Result DbError ℕ × Driver → Result DbError (Unit {0}) × Driver
flushed (ok _, after) = (ok tt, (exec (bare flush_sql) after).1)
flushed (err e, after) = (err (context (codes "drop user") e), after)

unfoldable pub drop_and_flush : Text → Text → Call (Unit {0})
drop_and_flush user host d = flushed (exec (bare (drop_user_sql user host)) d)

-- `DropUser`
unfoldable pub drop_user : Text → Text → Call (Unit {0})
unfolding drop_and_flush
drop_user user host d =
    if not (user_pattern user) then (err (unsafe_drop user), d) else drop_and_flush user host d

-- the grant for a privilege level; any other level is "all"
unfoldable pub grant_sql : Text → Text → Text → Text
unfolding text_eq account grant_all_sql
grant_sql level user host =
    if text_eq level (codes "read")
    then codes "GRANT SELECT ON *.* TO " ++ account user host
    else if text_eq level (codes "readwrite")
    then codes "GRANT SELECT, INSERT, UPDATE, DELETE ON *.* TO " ++ account user host
    else grant_all_sql user host

-- the statements of `CreateAdminUser`
abbrev pub admin_statements : Text → Text → Text → Text → List Statement
admin_statements user host password level =
    bare (create_user_sql user host (esc_password password))
    ∷ bare (grant_sql level user host)
    ∷ bare flush_sql
    ∷ []

-- `CreateAdminUser`
unfoldable pub create_admin_user : Text → Text → Text → Text → Call (Unit {0})
create_admin_user user host password level d =
    if not (user_name_pattern user)
    then (err (invalid_user user), d)
    else if not (host_pattern host)
    then (err (invalid_host host), d)
    else if ltb (length password) 8
    then (err short_password, d)
    else run_guarded (admin_statements user host password level) (bare (drop_user_sql user host))
        (codes "create user") d

-- `DropAdminUser`
unfoldable pub drop_admin_user : Text → Text → Call (Unit {0})
unfolding drop_and_flush
drop_admin_user user host d =
    if user_pattern user
    then (err (session_user user), d)
    else if not (user_name_pattern user)
    then (err (invalid_user user), d)
    else if not (host_pattern host)
    then (err (invalid_host host), d)
    else drop_and_flush user host d
