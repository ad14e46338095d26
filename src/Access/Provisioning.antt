-- ===== src/Access/Provisioning.antt =====
-- `Provision` succeeds with the account created, the firewall open and the credentials in the
-- session, or fails with the account dropped behind it.
use flashaccess.Base.{
  ℕ, codes, zero, suc, ◌%◌, ◌<◌, Text, true, ◌&&◌, Option, none, some, List, [], ◌∷◌, ◌++◌, Result,
  ok, err, length, take, ◌≡◌, ◌≢◌, refl, arith, all_of, All, inl, inr, append_assoc,
}
use flashaccess.Config.{fill}
use flashaccess.Mysql.Quote.{drop_user_sql}
use flashaccess.Mysql.Quote.Reading.{is_plain}
use flashaccess.Mysql.Driver.{Driver, DbError, Statement, bare, exec, sent}
use flashaccess.Mysql.Driver.Runs.{all_sent, undone}
use flashaccess.Mysql.Names.{user_pattern, safe_password, is_alnum}
use flashaccess.Mysql.Accounts.{drop_user, flushed, user_statements, flush_sql}
use flashaccess.Mysql.Hosts.{cidr_to_host, IsPlainHost, cidr_to_host-IsPlainHost}
use flashaccess.Mysql.Accounts.Outcomes.{Creates, create_user-Creates}
use flashaccess.Firewall.{Shell, FwError, allow}
use flashaccess.Session.{Session}
use flashaccess.Access.{
  Host, Activator, ActError, alphabet, letter_at, gen_password, provision, opened, created,
  with_bytes, with_host, session_user_name, stamped, next_entropy, later_entropy, bad_host,
}

letter_at-is_alnum :
    (s : Text) (i : ℕ) → all_of is_alnum s ≡ true → i < length s → is_alnum (letter_at s i) ≡ true
unfolding letter_at
letter_at-is_alnum [] i h lt = absurd (omega arith)
letter_at-is_alnum (c ∷ s) zero h lt = ground arith
letter_at-is_alnum (c ∷ s) (suc i) h lt = ground (arith, letter_at-is_alnum s i)

gen_password-is_alnum : (bytes : List ℕ) → all_of is_alnum (gen_password bytes) ≡ true
unfolding gen_password
gen_password-is_alnum [] = refl
gen_password-is_alnum (b ∷ bytes) = ground (
  arith,
  letter_at-is_alnum alphabet (b % length alphabet) refl (omega arith),
  gen_password-is_alnum bytes,
)

-- A generated password is safe to stand inline in SQL, whatever bytes were drawn, so
-- `CreateUser` never refuses one.
pub gen_password-safe_password :
    (bytes : List ℕ) → bytes ≢ [] → safe_password (gen_password bytes) ≡ true
unfolding safe_password gen_password
gen_password-safe_password [] h = absurd (h refl)
gen_password-safe_password (b ∷ bytes) h = ground (arith, gen_password-is_alnum (b ∷ bytes))

abbrev pub account_drop : Text → Text → Statement
account_drop user host = bare (drop_user_sql user host)

-- Between two states nothing was sent, or the last that was sent is the drop of the account, but
-- for a flush of the privileges.
pub data CleanedUp (user host : Text) (d d' : Driver) : Type 0 where
  untouched : d'.log ≡ d.log → CleanedUp user host d d'
  dropped_last :
      (before after : List Statement)
      → d'.log ≡ d.log ++ (before ++ account_drop user host ∷ after)
      → All (λ s. s ≡ bare flush_sql) after
      → CleanedUp user host d d'

flushed-log :
    (r : Result DbError ℕ) (s : Statement) (d : Driver)
    → (after : List Statement) × ((flushed (r, sent s d)).1.log ≡ d.log ++ s ∷ after)
      × All (λ s. s ≡ bare flush_sql) after
unfolding exec
flushed-log (ok n) s d =
    (bare flush_sql ∷ [], append_assoc d.log (s ∷ []) (bare flush_sql ∷ []), (refl, tt))
flushed-log (err x) s d = ([], refl, tt)

-- The drop of a session's account is sent, whatever the server answers.
pub drop_user-log :
    (user host : Text) (d : Driver)
    → user_pattern user ≡ true
    → (after : List Statement) × ((drop_user user host d).1.log
        ≡ d.log ++ account_drop user host ∷ after)
      × All (λ s. s ≡ bare flush_sql) after
unfolding drop_user exec
drop_user-log user host d u = rw u (flushed-log _ (account_drop user host) d)

-- the firewall's answer for a session
abbrev pub opening : Activator → Session → Shell → Result FwError (Unit {0}) × Shell
opening a s sh = allow a.fw s.allowed_cidr a.port (codes "flashaccess:" ++ s.id) sh

-- How `Provision` ends for the account of session `s` at `host`.
abbrev pub Ends : Activator → Session → Text → Host → Result ActError Session × Host → Type 0
Ends a s host h (err e, h') = CleanedUp (session_user_name s) host h.db h'.db
Ends a s host h (ok s', h') =
    (pw : Text) × (s' ≡ stamped s (session_user_name s) pw host)
    × (safe_password pw ≡ true)
    × (h'.db.log ≡ h.db.log ++ user_statements (session_user_name s) host pw)
    × (opening a s h.shell ≡ (ok tt, h'.shell))

opened-Ends :
    (a : Activator) (s : Session) (host pw : Text) (out : Result FwError (Unit {0}) × Shell)
    (h h0 : Host)
    → user_pattern (session_user_name s) ≡ true
    → safe_password pw ≡ true
    → h.db.log ≡ h0.db.log ++ user_statements (session_user_name s) host pw
    → opening a s h0.shell ≡ out
    → Ends a s host h0 (opened s host pw out h)
opened-Ends a s host pw (ok _, sh) h h0 u p e o = (pw, refl, p, e, o)
opened-Ends a s host pw (err _, sh) h h0 u p e o =
    let (after, l, f) = drop_user-log (session_user_name s) host h.db u in
    dropped_last (user_statements (session_user_name s) host pw) after
      (rw l (rw e (append_assoc h0.db.log _ _))) f

created-Ends :
    (a : Activator) (s : Session) (host pw : Text) (out : Result DbError (Unit {0}) × Driver)
    (h : Host)
    → Creates
        (user_pattern (session_user_name s) && safe_password pw)
        (session_user_name s)
        host
        pw
        pw
        (codes "grant")
        (user_statements (session_user_name s) host pw)
        h.db
        out
    → Ends a s host h (created a s host pw out h)
created-Ends a s host pw (ok _, d) h (inl (v, e, p)) = absurd (cc)
created-Ends a s host pw (err _, d) h (inl (v, e, p)) = untouched (ground arith)
created-Ends a s host pw (ok _, d) h (inr (v, all_sent r acc l, q)) =
    opened-Ends a s host pw _ (record h { db = d }) h (ground arith) (ground arith) l refl
created-Ends a s host pw (err _, d) h (inr (v, all_sent r acc l, q)) = absurd (cc)
created-Ends a s host pw (ok _, d) h (inr (v, undone e n r ref lt l, q)) = absurd (cc)
created-Ends a s host pw (err _, d) h (inr (v, undone e n r ref lt l, q)) =
    dropped_last (take (suc n) (user_statements (session_user_name s) host pw)) [] l tt

with_bytes-Ends :
    (a : Activator) (s : Session) (host : Text) (o : Option (List ℕ)) (h : Host)
    → all_of is_plain host ≡ true
    → Ends a s host h (with_bytes a s host o h)
with_bytes-Ends a s host none h p = untouched refl
with_bytes-Ends a s host (some bytes) h p =
    created-Ends a s host (gen_password (fill 24 bytes)) _ h
      (create_user-Creates (session_user_name s) host (gen_password (fill 24 bytes)) h.db p)

abbrev pub EndsAt :
    Activator → Session → Host → Result DbError Text → Result ActError Session × Host → Type 0
EndsAt a s h (ok host) out = Ends a s host h out
EndsAt a s h (err e) out = out ≡ (err (bad_host e), h)

with_host-EndsAt :
    (a : Activator) (s : Session) (r : Result DbError Text) (h : Host)
    → IsPlainHost r
    → EndsAt a s h r (with_host a s r h)
with_host-EndsAt a s (err e) h p = refl
with_host-EndsAt a s (ok host) h p =
    with_bytes-Ends a s host (next_entropy h.entropy)
      (record h { entropy = later_entropy h.entropy }) p

-- `Provision` of any session, whatever MySQL, the firewall and the random source answer. An
-- allowed address that is none is refused and nothing is sent. Otherwise it returns the session
-- with its account, a safe password and the host stamped on it, has sent just the three statements
-- that create this account, and the firewall's `Allow` has succeeded; or it fails, and has sent nothing, or the drop of the
-- account behind whatever it sent.
pub provision-EndsAt :
    (a : Activator) (s : Session) (h : Host)
    → EndsAt a s h (cidr_to_host s.allowed_cidr) (provision a s h)
unfolding provision
provision-EndsAt a s h = with_host-EndsAt a s _ h (cidr_to_host-IsPlainHost s.allowed_cidr)
