-- ===== src/Access.antt =====
-- internal/access/activator.go: the side effects of a session's life, on MySQL and the firewall.
-- The log lines are left out.
pub mod Provisioning
pub mod Revocation
use flashaccess.Base.{
  ℤ, ℕ, zero, suc, ◌+◌, ◌%◌, Text, codes, text_eq, Bool, true, false, Option, none, some, List, [],
  ◌∷◌, ◌++◌, Result, ok, err, map, length,
}
use flashaccess.Config.{fill}
use flashaccess.Mysql.Driver.{Driver, DbError}
use flashaccess.Mysql.Hosts.{cidr_to_host}
use flashaccess.Mysql.Accounts.{create_user, drop_user}
use flashaccess.Mysql.Databases.{drop_playground_db}
use flashaccess.Firewall.{Firewall, Shell, FwError, allow, deny}
use flashaccess.Session.{Session}

-- what the hooks act on: the database, the shell, and the random bytes to come, one list for each
-- call of `rand.Read`, or its failure
pub record Host : Type 0 where
  pub db : Driver
  pub shell : Shell
  pub entropy : List (Option (List ℕ))

-- `Activator`, whose database and shell are in the host
pub record Activator : Type 0 where
  pub fw : Firewall
  pub port : ℤ

pub data ActError : Type 0 where
  no_entropy : ActError
  bad_host : DbError → ActError
  provision_db_user : DbError → ActError
  provision_firewall : FwError → ActError
  drop_failed : DbError → ActError
  close_failed : FwError → ActError
  both_failed : DbError → FwError → ActError

abbrev pub Hook : Type 0 → Type 0
Hook A = Host → Result ActError A × Host

-- the alphabet of `genPassword`
abbrev pub alphabet : Text
alphabet = codes "ABCDEFGHJKLMNPQRSTUVWXYZabcdefghijkmnpqrstuvwxyz23456789"

-- `alphabet[i]`, for an index within the bounds
unfoldable pub letter_at : Text → ℕ → ℕ
letter_at [] i = 0
letter_at (c ∷ s) zero = c
letter_at (c ∷ s) (suc i) = letter_at s i

-- `genPassword` on the bytes that were drawn
unfoldable pub gen_password : List ℕ → Text
unfolding letter_at
gen_password bytes = map (λ b. letter_at alphabet (b % length alphabet)) bytes

abbrev pub next_entropy : List (Option (List ℕ)) → Option (List ℕ)
next_entropy [] = none
next_entropy (e ∷ _) = e

abbrev pub later_entropy : List (Option (List ℕ)) → List (Option (List ℕ))
later_entropy [] = []
later_entropy (_ ∷ r) = r

abbrev pub session_user_name : Session → Text
session_user_name s = codes "tmp_" ++ s.id

abbrev pub stamped : Session → Text → Text → Text → Session
stamped s user pw host = record s { db_user = user; db_password = pw; db_host = host }

-- behind the firewall's answer: the roll-back of the grant, or the credentials
abbrev pub opened : Session → Text → Text → Result FwError (Unit {0}) × Shell → Hook Session
opened s host pw (err e, sh) h = (
  err (provision_firewall e),
  record h { db = (drop_user (session_user_name s) host h.db).1; shell = sh },
)
opened s host pw (ok _, sh) h =
    (ok (stamped s (session_user_name s) pw host), record h { shell = sh })

-- behind `CreateUser`
abbrev pub created :
    Activator → Session → Text → Text → Result DbError (Unit {0}) × Driver → Hook Session
created a s host pw (err e, d) h = (err (provision_db_user e), record h { db = d })
created a s host pw (ok _, d) h =
    opened s host pw (allow a.fw s.allowed_cidr a.port (codes "flashaccess:" ++ s.id) h.shell)
      (record h { db = d })

-- behind `rand.Read`, of 24 bytes: `genPassword(24)`
abbrev pub with_bytes : Activator → Session → Text → Option (List ℕ) → Hook Session
with_bytes a s host none h = (err no_entropy, h)
with_bytes a s host (some bytes) h =
    let pw = gen_password (fill 24 bytes) in
    created a s host pw (create_user (session_user_name s) host pw h.db) h

abbrev pub with_host : Activator → Session → Result DbError Text → Hook Session
with_host a s (err e) h = (err (bad_host e), h)
with_host a s (ok host) h =
    with_bytes a s host (next_entropy h.entropy) (record h { entropy = later_entropy h.entropy })

-- `Provision`
unfoldable pub provision : Activator → Session → Hook Session
provision a s h = with_host a s (cidr_to_host s.allowed_cidr) h

-- the drop of the account, if the session has one
abbrev pub drop_account : Text → Text → Driver → Result DbError (Unit {0}) × Driver
drop_account [] host d = (ok tt, d)
drop_account (c ∷ user) host d = drop_user (c ∷ user) host d

-- the drop of the playground, if the session has one; its error is only logged
abbrev pub drop_playground : Text → Driver → Driver
drop_playground [] d = d
drop_playground (c ∷ name) d = (drop_playground_db (c ∷ name) d).1

-- `errors.Join` of what went wrong
abbrev pub join_errors :
    Result DbError (Unit {0}) → Result FwError (Unit {0}) → Result ActError (Unit {0})
join_errors (ok _) (ok _) = ok tt
join_errors (err e) (ok _) = err (drop_failed e)
join_errors (ok _) (err f) = err (close_failed f)
join_errors (err e) (err f) = err (both_failed e f)

-- `Revoke`
unfoldable pub revoke : Activator → Session → Hook (Unit {0})
revoke a s h =
    let (dropped, d) = drop_account s.db_user s.db_host h.db in
    let (closed, sh) = deny a.fw s.allowed_cidr a.port h.shell in
    (join_errors dropped closed, record h { db = drop_playground s.playground_db d; shell = sh })
