-- ===== src/Mysql/Quote.antt =====
-- Quoting of what goes inline into SQL text: `escIdent` of internal/mysql/query.go, the password
-- escape of `CreateAdminUser` in internal/mysql/admin.go, and the statement templates.
pub mod Reading
pub mod Statements
use flashaccess.Base.{ℕ, Text, codes, List, [], ◌∷◌, ◌++◌, replace_all}

-- `escIdent`
unfoldable pub esc_ident : Text → Text
unfolding replace_all
esc_ident s = replace_all s b'`' (codes "``")

-- the two `ReplaceAll` calls on a password, backslashes first
unfoldable pub esc_password : Text → Text
unfolding replace_all
esc_password p = replace_all (replace_all p b'\\' (codes "\\\\")) b'\'' (codes "\\'")

-- "`%s`" of an escaped identifier
unfoldable pub quote_ident : Text → Text
quote_ident s = codes "`" ++ (esc_ident s ++ codes "`")

-- "'%s'@'%s'"
unfoldable pub account : Text → Text → Text
account user host = codes "'" ++ (user ++ (codes "'@'" ++ (host ++ codes "'")))

-- "CREATE USER '%s'@'%s' IDENTIFIED BY '%s'"
unfoldable pub create_user_sql : Text → Text → Text → Text
unfolding account
create_user_sql user host password =
    codes "CREATE USER "
    ++ (account user host ++ (codes " IDENTIFIED BY '" ++ (password ++ codes "'")))

-- "DROP USER IF EXISTS '%s'@'%s'"
unfoldable pub drop_user_sql : Text → Text → Text
unfolding account
drop_user_sql user host = codes "DROP USER IF EXISTS " ++ account user host

-- "GRANT ALL PRIVILEGES ON *.* TO '%s'@'%s' WITH GRANT OPTION"
unfoldable pub grant_all_sql : Text → Text → Text
unfolding account
grant_all_sql user host =
    codes "GRANT ALL PRIVILEGES ON *.* TO " ++ (account user host ++ codes " WITH GRANT OPTION")
