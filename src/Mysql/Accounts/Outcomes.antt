-- ===== src/Mysql/Accounts/Outcomes.antt =====
-- What `CreateUser`, `CreateAdminUser`, `DropUser` and `DropAdminUser` send, on every branch.
use flashaccess.Base.{
  codes, Text, Bool, true, false, not, ◌&&◌, List, Result, err, some, ltb, length, ◌≡◌, refl, ◌⊎◌,
  inl, inr, all_of, Bool-cases,
}
use flashaccess.Mysql.Quote.{esc_password, create_user_sql, drop_user_sql}
use flashaccess.Mysql.Quote.Reading.{is_plain}
use flashaccess.Mysql.Quote.Statements.{
  read_create_user, read_create_user-plain, read_create_user-escaped,
}
use flashaccess.Mysql.Driver.{Driver, Statement, bare, DbError}
use flashaccess.Mysql.Driver.Runs.{Ran, run_guarded-Ran}
use flashaccess.Mysql.Names.{
  user_pattern, user_name_pattern, host_pattern, safe_password, user_pattern-is_plain,
  user_name_pattern-is_plain, host_pattern-is_plain, safe_password-is_plain,
}
use flashaccess.Mysql.Accounts.{
  user_statements, admin_statements, create_user, create_admin_user, drop_user, drop_admin_user,
}

-- A call that is refused without a word to the server, or sends its statements under a clean-up,
-- the first of which the server reads as creating just `user`@`host` with `password`.
abbrev pub Creates :
    Bool
    → Text
    → Text
    → Text
    → Text
    → Text
    → List Statement
    → Driver
    → Result DbError (Unit {0}) × Driver
    → Type 0
Creates valid user host password text label ss d out =
    ((valid ≡ false) × (e : DbError) × (out ≡ (err e, d)))
    ⊎ ((valid ≡ true)
        × Ran ss (bare (drop_user_sql user host)) label d out
        × (read_create_user (create_user_sql user host text) ≡ some (user, host, password)))

-- The session account of `CreateUser`: a name or a password outside its pattern is refused and
-- sends nothing. Otherwise its three statements go out in order. If the server accepts all three,
-- the call succeeds; the first that it refuses is followed by the drop of the account and by
-- nothing else, and its error is returned. For a host without quotes and
-- backslashes the server reads the first statement as creating just this account.
pub create_user-Creates :
    (user host password : Text) (d : Driver)
    → all_of is_plain host ≡ true
    → Creates
        (user_pattern user && safe_password password)
        user
        host
        password
        password
        (codes "grant")
        (user_statements user host password)
        d
        (create_user user host password d)
unfolding create_user
create_user-Creates user host password d h = elim (Bool-cases (user_pattern user)) [
  | inl u ↦ elim (Bool-cases (safe_password password)) [
    | inl p ↦
        rw (u, p)
          (inr (
            refl,
            run_guarded-Ran _ _ _ d,
            read_create_user-plain user host password (user_pattern-is_plain user u) h
                (safe_password-is_plain password p),
          ))
    | inr p ↦ rw (u, p) (inl (refl, _, refl))
  ]
  | inr u ↦ rw u (inl (refl, _, refl))
]

-- `CreateAdminUser`: a user name or host outside its pattern or a password below eight bytes is
-- refused and sends nothing. Otherwise its three statements go out in order; if the server accepts
-- all three the call succeeds, the first that it refuses is followed by the drop of the account
-- alone and its error is returned, and whatever bytes the password holds, the server
-- reads the first statement as creating just this account with just this password.
pub create_admin_user-Creates :
    (user host password level : Text) (d : Driver)
    → Creates
        (user_name_pattern user && host_pattern host && not (ltb (length password) 8))
        user
        host
        password
        (esc_password password)
        (codes "create user")
        (admin_statements user host password level)
        d
        (create_admin_user user host password level d)
unfolding create_admin_user
create_admin_user-Creates user host password level d = elim (Bool-cases (user_name_pattern user)) [
  | inl u ↦ elim (Bool-cases (host_pattern host)) [
    | inl h ↦ elim (Bool-cases (ltb (length password) 8)) [
      | inl p ↦ rw (u, h, p) (inl (refl, _, refl))
      | inr p ↦
          rw (u, h, p)
            (inr (
              refl,
              run_guarded-Ran _ _ _ d,
              read_create_user-escaped user host password (user_name_pattern-is_plain user u)
                  (host_pattern-is_plain host h),
            ))
    ]
    | inr h ↦ rw (u, h) (inl (refl, _, refl))
  ]
  | inr u ↦ rw u (inl (refl, _, refl))
]

-- The two drops divide the accounts: for every user name at least one of `DropUser`, which serves
-- sessions, and `DropAdminUser`, which serves the dashboard, refuses and sends nothing.
pub drops_disjoint :
    (user host host' : Text) (d d' : Driver)
    → ((drop_user user host d).1 ≡ d) ⊎ ((drop_admin_user user host' d').1 ≡ d')
unfolding drop_user drop_admin_user
drops_disjoint user host host' d d' = elim (Bool-cases (user_pattern user)) [
  | inl u ↦ inr (rw u refl)
  | inr u ↦ inl (rw u refl)
]
