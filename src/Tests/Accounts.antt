-- ===== src/Tests/Accounts.antt =====
-- The theorems on accounts, hosts, and the activator, for one session.
use flashaccess.Base.{
  pos, codes, true, not, ltb, length, ◌&&◌, List, [], ◌∷◌, ◌++◌, some, ok, All, has_prefix, ◌≡◌,
  ◌↔◌, refl, inl,
}
use flashaccess.Mysql.Driver.{Statement, bare}
use flashaccess.Mysql.Hosts.{cidr_to_host}
use flashaccess.Mysql.Names.{user_pattern, safe_password, user_name_pattern, host_pattern}
use flashaccess.Mysql.Quote.{esc_password}
use flashaccess.Mysql.Accounts.{
  create_user, user_statements, flush_sql, admin_statements, create_admin_user,
}
use flashaccess.Mysql.Accounts.Outcomes.{Creates, create_user-Creates, create_admin_user-Creates}
use flashaccess.Firewall.{Shell, ufw, deny}
use flashaccess.Access.{Host, Activator, provision, revoke, drop_account}
use flashaccess.Access.Provisioning.{EndsAt, provision-EndsAt, account_drop}
use flashaccess.Access.Revocation.{revoke_each_step, playground_drop}
use flashaccess.Tests.{sample, willing, refusing}

abbrev local_ufw : Activator
local_ufw = record { fw = ufw []; port = pos 3306 }

-- every program is found, and the first command fails
abbrev broken_shell : Shell
broken_shell = record { log = []; path = λ p. some p; failures = some (codes "exit 1") ∷ [] }

abbrev host : Host
host = record { db = willing; shell = broken_shell; entropy = some (1 ∷ 2 ∷ 3 ∷ []) ∷ [] }

provision-EndsAt_example :
    EndsAt local_ufw sample host
      (cidr_to_host (codes "10.0.0.7/32"))
      (provision local_ufw sample host)
provision-EndsAt_example = provision-EndsAt local_ufw sample host

is_session_user : user_pattern (codes "tmp_ab12cd34") ≡ true
unfolding user_pattern has_prefix
is_session_user = refl

revoke_each_step_example :
    ((after : List Statement) × ((revoke local_ufw sample host).1.db.log
        ≡ []
          ++ (account_drop (codes "tmp_ab12cd34") (codes "10.0.0.7")
              ∷ (after ++ playground_drop [])))
      × All (λ q. q ≡ bare flush_sql) after)
    × ((revoke local_ufw sample host).1.shell
        ≡ (deny (ufw []) (codes "10.0.0.7/32") (pos 3306) broken_shell).1)
    × (((revoke local_ufw sample host).0 ≡ ok tt) ↔ (
        ((drop_account (codes "tmp_ab12cd34") (codes "10.0.0.7") willing).0 ≡ ok tt)
        × ((deny (ufw []) (codes "10.0.0.7/32") (pos 3306) broken_shell).0 ≡ ok tt)))
revoke_each_step_example = revoke_each_step local_ufw sample host is_session_user (inl refl)

create_user-Creates_example :
    Creates
      (user_pattern (codes "tmp_ab12cd34") && safe_password (codes "pw1"))
      (codes "tmp_ab12cd34")
      (codes "10.0.0.7")
      (codes "pw1")
      (codes "pw1")
      (codes "grant")
      (user_statements (codes "tmp_ab12cd34") (codes "10.0.0.7") (codes "pw1"))
      refusing
      (create_user (codes "tmp_ab12cd34") (codes "10.0.0.7") (codes "pw1") refusing)
create_user-Creates_example =
    create_user-Creates (codes "tmp_ab12cd34") (codes "10.0.0.7") (codes "pw1") refusing refl

create_admin_user-Creates_example :
    Creates
      (user_name_pattern (codes "bob")
        && host_pattern (codes "%")
        && not (ltb (length (codes "it's'--\\")) 8))
      (codes "bob")
      (codes "%")
      (codes "it's'--\\")
      (esc_password (codes "it's'--\\"))
      (codes "create user")
      (admin_statements (codes "bob") (codes "%") (codes "it's'--\\") (codes "read"))
      refusing
      (create_admin_user (codes "bob") (codes "%") (codes "it's'--\\") (codes "read") refusing)
create_admin_user-Creates_example =
    create_admin_user-Creates (codes "bob") (codes "%") (codes "it's'--\\") (codes "read") refusing
