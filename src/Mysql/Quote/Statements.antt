-- ===== src/Mysql/Quote/Statements.antt =====
-- How a MySQL server reads a CREATE USER statement: the words of the statement, and three string
-- literals. The statements of `CreateUser` and `CreateAdminUser` read back as they were meant.
use flashaccess.Base.{
  Text, codes, true, Option, none, some, [], ◌∷◌, ◌++◌, ◌≡◌, refl, all_of, has_prefix, append_assoc,
}
use flashaccess.Mysql.Quote.{create_user_sql, esc_password}
use flashaccess.Mysql.Quote.Reading.{
  plain, read_literal, read_literal-plain, read_literal-esc_password, is_plain, strip,
}

infixl 5 ◌>>=◌
abbrev pub ◌>>=◌ : {A B : Type 0} → Option A → (A → Option B) → Option B
none >>= f = none
some a >>= f = f a

-- at the end of the statement
abbrev finish : Text → Text → Text → Text → Option (Text × Text × Text)
finish user host password [] = some (user, host, password)
finish user host password (c ∷ s) = none

-- CREATE USER '…'@'…' IDENTIFIED BY '…', and nothing behind it: the user, the host, the password
unfoldable pub read_create_user : Text → Option (Text × Text × Text)
read_create_user s = do
  s1 ← strip (codes "CREATE USER '") s
  (user, s2) ← read_literal plain s1
  s3 ← strip (codes "@'") s2
  (host, s4) ← read_literal plain s3
  s5 ← strip (codes " IDENTIFIED BY '") s4
  (password, rest) ← read_literal plain s5
  finish user host password rest

-- The statement with each literal's tail bracketed to the right.
create_user_sql-tails :
    (u h p : Text)
    → create_user_sql u h p
      ≡ codes "CREATE USER '"
        ++ (u
            ++ (b'\''
                ∷ (codes "@'"
                    ++ (h ++ (b'\'' ∷ (codes " IDENTIFIED BY '" ++ (p ++ (b'\'' ∷ []))))))))
unfolding create_user_sql
create_user_sql-tails u h p = simp append_assoc

-- A statement whose literals read back as `user`, `host` and `password` is read as creating just
-- that account with just that password.
read_create_user-parts :
    (user host text password : Text)
    → all_of is_plain user ≡ true
    → all_of is_plain host ≡ true
    → read_literal plain (text ++ b'\'' ∷ []) ≡ some (password, [])
    → read_create_user (create_user_sql user host text) ≡ some (user, host, password)
unfolding read_create_user has_prefix
read_create_user-parts user host text password u h p =
    rw create_user_sql-tails
      (rw (read_literal-plain user _ u refl) (rw (read_literal-plain host _ h refl) (rw p)))

-- With an unescaped password of plain bytes.
pub read_create_user-plain :
    (user host password : Text)
    → all_of is_plain user ≡ true
    → all_of is_plain host ≡ true
    → all_of is_plain password ≡ true
    → read_create_user (create_user_sql user host password) ≡ some (user, host, password)
unfolding has_prefix
read_create_user-plain user host password u h p =
    read_create_user-parts user host password password u h (read_literal-plain password [] p refl)

pub read_create_user-escaped :
    (user host password : Text)
    → all_of is_plain user ≡ true
    → all_of is_plain host ≡ true
    → read_create_user (create_user_sql user host (esc_password password))
      ≡ some (user, host, password)
unfolding has_prefix
read_create_user-escaped user host password u h =
    read_create_user-parts user host (esc_password password) password u h
      (read_literal-esc_password password [] refl)
