-- ===== src/Access/Revocation.antt =====
-- `Revoke` tries every step, whichever fails before it.
use flashaccess.Base.{
  Text, true, List, [], ◌∷◌, ◌++◌, Result, ok, err, ◌≡◌, ◌≢◌, ◌↔◌, refl, ◌∙◌, sym, ap, All, inl,
  inr, ◌⊎◌, append_assoc, append-nil,
}
use flashaccess.Mysql.Driver.{Driver, DbError, Statement, bare}
use flashaccess.Mysql.Names.{user_pattern, is_playground_db}
use flashaccess.Mysql.Accounts.{flush_sql}
use flashaccess.Mysql.Databases.{drop_database_sql}
use flashaccess.Mysql.Databases.Targets.{drop_playground_db-Drops}
use flashaccess.Firewall.{FwError, deny}
use flashaccess.Session.{Session}
use flashaccess.Access.{Host, Activator, revoke, drop_account, drop_playground, join_errors}
use flashaccess.Access.Provisioning.{account_drop, drop_user-log}

join_errors_iff :
    (r : Result DbError (Unit {0})) (c : Result FwError (Unit {0}))
    → (join_errors r c ≡ ok tt) ↔ ((r ≡ ok tt) × (c ≡ ok tt))
join_errors_iff (ok x) (ok y) = (λ e. (refl, refl), λ e. refl)
join_errors_iff (err e) (ok _) = (λ h. absurd (cc), λ h. absurd (cc))
join_errors_iff (ok _) (err f) = (λ h. absurd (cc), λ h. absurd (cc))
join_errors_iff (err e) (err f) = (λ h. absurd (cc), λ h. absurd (cc))

-- the drop of a session's playground, if it has one
abbrev pub playground_drop : Text → List Statement
playground_drop [] = []
playground_drop (c ∷ name) = bare (drop_database_sql (c ∷ name)) ∷ []

abbrev IsPlaygroundOrNone : Text → Type 0
IsPlaygroundOrNone name = (name ≡ []) ⊎ (is_playground_db name ≡ true)

drop_playground-log :
    (name : Text) (d : Driver)
    → IsPlaygroundOrNone name
    → (drop_playground name d).log ≡ d.log ++ playground_drop name
drop_playground-log [] d p = sym (append-nil d.log)
drop_playground-log (c ∷ name) d (inl e) = absurd (cc)
drop_playground-log (c ∷ name) d (inr e) = elim (drop_playground_db-Drops (c ∷ name) d) [
  | inl (f, _, _) ↦ absurd (cc)
  | inr (_, q, _) ↦ ap (λ x. x.log) q
]

none_is_user : user_pattern [] ≢ true
unfolding user_pattern
none_is_user h = absurd (cc)

drop_account-log :
    (user host : Text) (d : Driver)
    → user_pattern user ≡ true
    → (after : List Statement) × ((drop_account user host d).1.log
        ≡ d.log ++ account_drop user host ∷ after)
      × All (λ s. s ≡ bare flush_sql) after
drop_account-log [] host d u = absurd (none_is_user u)
drop_account-log (c ∷ user) host d u = drop_user-log (c ∷ user) host d u

-- `Revoke` of a session with its account, and with a playground or none. Whichever step fails,
-- all are tried: it has sent the drop of the account, with at most the flush behind it, and then
-- the drop of the playground, and it has run the firewall's `Deny`. It reports success exactly if
-- both the drop of the account and the `Deny` succeeded.
pub revoke_each_step :
    (a : Activator) (s : Session) (h : Host)
    → user_pattern s.db_user ≡ true
    → IsPlaygroundOrNone s.playground_db
    → ((after : List Statement) × ((revoke a s h).1.db.log
          ≡ h.db.log
            ++ (account_drop s.db_user s.db_host ∷ (after ++ playground_drop s.playground_db)))
        × All (λ q. q ≡ bare flush_sql) after)
      × ((revoke a s h).1.shell ≡ (deny a.fw s.allowed_cidr a.port h.shell).1)
      × (((revoke a s h).0 ≡ ok tt) ↔ (
          ((drop_account s.db_user s.db_host h.db).0 ≡ ok tt)
          × ((deny a.fw s.allowed_cidr a.port h.shell).0 ≡ ok tt)))
unfolding revoke
revoke_each_step a s h u p =
    let (after, l, f) = drop_account-log s.db_user s.db_host h.db u in
    let d = (drop_account s.db_user s.db_host h.db).1 in
    (
      (
        after,
        drop_playground-log s.playground_db d p
            ∙ (ap (λ x. x ++ playground_drop s.playground_db) l ∙ append_assoc h.db.log _ _),
        f,
      ),
      refl,
      join_errors_iff _ _,
    )
