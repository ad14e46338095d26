-- ===== src/Mysql/Users.antt =====
-- `ListUsers` of internal/mysql/admin.go, and `Open` and `dsn` of mysql.go. The
-- driver that reads a data source name is a parameter: the error that it reports, if any.
use flashaccess.Base.{
  int_text, Text, codes, Option, none, some, List, [], ◌∷◌, ◌++◌, Result, ok, err,
}
use flashaccess.Config.{DbConfig}
use flashaccess.Mysql.Driver.{Value, DbError, driver, context, Rows, Call, bare, query, connect}
use flashaccess.Mysql.Databases.{scan_string, scan_result}
use flashaccess.Mysql.Quote.Statements.{◌>>=◌}

-- `UserInfo`
pub record UserInfo : Type 0 where
  pub user : Text
  pub host : Text
  pub plugin : Text

abbrev scan_user : List Value → Option UserInfo
scan_user (u ∷ h ∷ p ∷ []) = do
  user ← scan_string u
  host ← scan_string h
  plugin ← scan_string p
  some (record { user = user; host = host; plugin = plugin })
scan_user _ = none

abbrev listed : Result DbError Rows → Result DbError (List UserInfo)
listed (ok rows) = scan_result scan_user (ok rows)
listed (err e) = err (context (codes "list users") e)

-- `ListUsers`, whose query has its white space as one blank; the accounts that were read before the
-- reading failed are left out
unfoldable pub list_users : Call (List UserInfo)
list_users d =
    let (r, after) =
      query (bare (codes "SELECT User, Host, plugin FROM mysql.user ORDER BY User, Host")) d in
    (listed r, after)

abbrev host_source : DbConfig → Text → Text
host_source c [] =
    c.admin_user
    ++ b':' ∷ c.admin_password
    ++ (codes "@tcp(" ++ (c.host ++ b':' ∷ int_text c.port ++ codes ")/?timeout=5s"))
host_source c (b ∷ socket) =
    c.admin_user
    ++ b':' ∷ c.admin_password
    ++ (codes "@unix(" ++ (b ∷ socket ++ codes ")/?timeout=5s"))

-- `dsn`
unfoldable pub dsn : DbConfig → Text
dsn c = host_source c c.socket

abbrev reached : Result DbError (Unit {0}) → Result DbError (Unit {0})
reached (ok _) = ok tt
reached (err e) = err (context (codes "connect to mysql admin") e)

abbrev pinged : Option Text → Call (Unit {0})
pinged (some fault) d = (err (driver fault), d)
pinged none d = let (r, after) = connect d in (reached r, after)

-- `Open`, with the error of `sql.Open` for a data source name, if any, and the ping behind it
unfoldable pub open_manager : (Text → Option Text) → DbConfig → Call (Unit {0})
unfolding dsn
open_manager dsn_fault c d = pinged (dsn_fault (dsn c)) d
