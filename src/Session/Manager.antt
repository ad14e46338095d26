-- ===== src/Session/Manager.antt =====
-- The operations of internal/session/manager.go and active.go, over the state of State.antt. The
-- current time and the random values that were drawn are arguments.
pub mod Leak
pub mod Gate
pub mod Lockout
pub mod Reaper
pub mod Running
use flashaccess.Base.{
  ℤ, pos, negsuc, find, put, remove, ℕ, ◌+◌, ◌-◌, Text, text_eq, codes, Bool, true, false, not,
  ◌&&◌, ◌||◌, Option, none, some, List, [], ◌∷◌, ◌++◌, Result, ok, err, leb, ltb, if◌then◌else◌,
  keep, map,
}
use flashaccess.Net.{Ip}
use flashaccess.Session.{
  Session, Status, active, expired, revoked, is_active, is_live, remaining, ip_allowed,
  normalize_cidr,
}
use flashaccess.Session.Lock.{Outcome, returns, blocks}
use flashaccess.Session.State.{
  max_failed_attempts, lockout_window, Sessions, snapshot, MgrError, not_found, not_live,
  locked_out, ip_rejected, bad_key, failed, provision_failed, Setup, Persister, Effect, State, Op,
  Attempt, pure, gets, ◌>>=◌, ◌>>◌, modify, lock_mu, r_lock_mu, unlock_mu, r_unlock_mu, call,
}

-- `NewParams`
pub record NewParams : Type 0 where
  pub allowed_cidr : Text
  pub database : Text
  pub duration : ℤ

-- what `GenerateKey`, `HashKey` and `newID` return
pub record Drawn (E : Type 0) : Type 0 where
  pub raw_key : Result E Text
  pub hash : Result E Text
  pub id : Result E Text

-- `t.Add(d)`, from the zero time on
abbrev pub later : ℕ → ℤ → ℕ
later t (pos d) = t + d
later t (negsuc n) = t - (n + 1)

-- the session that `New` makes
abbrev pub fresh_session : NewParams → Text → Text → ℕ → Session
fresh_session p hash id now = record {
  id = id;
  key_hash = hash;
  allowed_cidr = normalize_cidr p.allowed_cidr;
  database = p.database;
  created_at = now;
  expires_at = later now p.duration;
  status = active;
  db_user = [];
  db_password = [];
  db_host = [];
  playground_db = [];
  failed_attempts = 0;
  last_attempt = 0;
}

-- a failed attempt is counted and dated
abbrev pub count_failure : Session → ℕ → Session
count_failure s now = record s { failed_attempts = s.failed_attempts + 1; last_attempt = now }

abbrev pub is_locked_out : Session → ℕ → Bool
is_locked_out s now =
    leb max_failed_attempts s.failed_attempts && ltb (now - s.last_attempt) lockout_window

-- the session objects of which `reap` makes expired ones
abbrev pub is_due : ℕ → Session → Bool
is_due now s = is_active s.status && not (ltb now s.expires_at)

abbrev pub expire : ℕ → Session → Session
expire now s = if is_due now s then record s { status = expired } else s

abbrev pub first_live : ℕ → List Session → Option Session
first_live now [] = none
first_live now (s ∷ r) = let rest = first_live now r in if is_live s now then some s else rest

abbrev insert_by_age : Session → List Session → List Session
insert_by_age s [] = s ∷ []
insert_by_age s (t ∷ r) =
    let rest = insert_by_age s r in if leb t.created_at s.created_at then s ∷ t ∷ r else t ∷ rest

abbrev newest_first : List Session → List Session
newest_first [] = []
newest_first (s ∷ r) = insert_by_age s (newest_first r)

module _ {W E : Type 0} (u : Setup W E) where
  abbrev pub saved : Result E (Unit {0}) → Result (MgrError E) (Unit {0})
  saved (ok _) = ok tt
  saved (err e) = err (failed e)

  abbrev pub persist_in : Option (Persister W E) → Attempt W E (Unit {0})
  persist_in none = pure (ok tt)
  persist_in (some p) = do
    r_lock_mu
    r_lock_mu
    list ← gets snapshot
    r_unlock_mu
    r ← call (p.save_all list)
    pure (saved r)

  -- `persist`
  unfoldable pub persist : Attempt W E (Unit {0})
  persist = persist_in u.store

  abbrev pub provision_by :
      Option (Session → Effect W E Session) → Session → Op W (Result E Session)
  provision_by none s = pure (ok s)
  provision_by (some f) s = call (f s)

  abbrev pub revoke_by :
      Option (Session → Effect W E (Unit {0})) → Session → Op W (Result E (Unit {0}))
  revoke_by none s = pure (ok tt)
  revoke_by (some f) s = call (f s)

  -- behind `persist` in `New`
  abbrev pub recorded :
      Text → Text → Session → Result (MgrError E) (Unit {0}) → Attempt W E (Session × Text)
  recorded key id s (ok _) = pure (ok (s, key))
  recorded key id s (err e) = do
    r ← revoke_by u.hooks.on_revoke s
    lock_mu
    modify (remove id)
    unlock_mu
    pure (err e)

  -- behind `OnProvision` in `New`
  abbrev pub provisioned : Text → Text → Result E Session → Attempt W E (Session × Text)
  provisioned key id (err e) = pure (err (provision_failed e))
  provisioned key id (ok s) = do
    lock_mu
    modify (put id s)
    unlock_mu
    r ← persist
    recorded key id s r

  -- behind the three draws of `New`
  unfoldable pub start_session : NewParams → ℕ → Text → Text → Text → Attempt W E (Session × Text)
  start_session p now key hash id = do
    r ← provision_by u.hooks.on_provision (fresh_session p hash id now)
    provisioned key id r

  abbrev pub drawn_all :
      NewParams → ℕ → Result E Text → Result E Text → Result E Text → Attempt W E (Session × Text)
  drawn_all p now (err e) h i = pure (err (failed e))
  drawn_all p now (ok key) (err e) i = pure (err (failed e))
  drawn_all p now (ok key) (ok hash) (err e) = pure (err (failed e))
  drawn_all p now (ok key) (ok hash) (ok id) = start_session p now key hash id

  -- `New`: the session and its raw key
  unfoldable pub new : NewParams → Drawn E → ℕ → Attempt W E (Session × Text)
  unfolding start_session
  new p drawn now = drawn_all p now drawn.raw_key drawn.hash drawn.id

  abbrev key_verdict : Session → ℕ → Result E Bool → Result (MgrError E) Session × Session
  key_verdict s now (err e) = (err (failed e), s)
  key_verdict s now (ok false) = (err bad_key, count_failure s now)
  key_verdict s now (ok true) = let s' = record s { failed_attempts = 0 } in (ok s', s')

  -- `VerifyAccess` on the session that it found: the result, and the session afterwards
  unfoldable pub judge : Session → Text → Ip → ℕ → Result (MgrError E) Session × Session
  judge s key ip now =
      if not (is_live s now)
      then (err not_live, s)
      else if is_locked_out s now
      then (err locked_out, s)
      else if not (ip_allowed s ip)
      then (err ip_rejected, count_failure s now)
      else key_verdict s now (u.verify_key key s.key_hash)

  abbrev pub judge_found : Text → Text → Ip → ℕ → Option Session → Attempt W E Session
  judge_found id key ip now none = pure (err not_found)
  judge_found id key ip now (some s) = do
    let (r, s') = judge s key ip now
    modify (put id s')
    pure r

  -- `VerifyAccess`
  unfoldable pub verify_access : Text → Text → Ip → ℕ → Attempt W E Session
  verify_access id key ip now = do
    lock_mu
    found ← gets (find id)
    r ← judge_found id key ip now found
    unlock_mu
    pure r

  abbrev pub revoked_then : Result E (Unit {0}) → Attempt W E (Unit {0})
  revoked_then (err e) = pure (err (failed e))
  revoked_then (ok _) = persist

  abbrev pub end_found : Text → Option Session → Attempt W E (Unit {0})
  end_found id none = do unlock_mu; pure (err not_found)
  end_found id (some s) = do
    let s' = record s { status = revoked }
    modify (put id s')
    unlock_mu
    r ← revoke_by u.hooks.on_revoke s'
    revoked_then r

  -- `End`
  unfoldable pub end : Text → Attempt W E (Unit {0})
  end id = do lock_mu; found ← gets (find id); end_found id found

  -- `Get`
  unfoldable pub get : Text → Op W (Option Session)
  get id = do r_lock_mu; found ← gets (find id); r_unlock_mu; pure found

  -- `List`
  unfoldable pub list : Op W (List Session)
  list = do r_lock_mu; all ← gets snapshot; r_unlock_mu; pure (newest_first all)

  abbrev playground_found : Text → Text → Option Session → Attempt W E (Unit {0})
  playground_found id name none = pure (err not_found)
  playground_found id name (some s) = do
    modify (put id (record s { playground_db = name }))
    persist

  -- `SetPlaygroundDB`
  unfoldable pub set_playground_db : Text → Text → Attempt W E (Unit {0})
  set_playground_db id name = do
    lock_mu
    found ← gets (find id)
    r ← playground_found id name found
    unlock_mu
    pure r

  -- the hooks of the sessions that have just expired, whose errors are ignored
  unfoldable pub revoke_each : List Session → Op W (Unit {0})
  revoke_each [] = pure tt
  revoke_each (s ∷ r) = do e ← revoke_by u.hooks.on_revoke s; revoke_each r

  abbrev persist_if_any : List Session → Op W (Unit {0})
  persist_if_any [] = pure tt
  persist_if_any (s ∷ r) = do e ← persist; pure tt

  -- `reap`
  unfoldable pub reap : ℕ → Op W (Unit {0})
  reap now = do
    lock_mu
    before ← gets snapshot
    let gone = map (expire now) (keep (is_due now) before)
    modify (map (λ (k, s). (k, expire now s)))
    unlock_mu
    revoke_each gone
    persist_if_any gone

  -- `ActiveSession`
  unfoldable pub active_session : ℕ → Op W (Option Session)
  active_session now = do r_lock_mu; all ← gets snapshot; r_unlock_mu; pure (first_live now all)

  -- `ActiveSessions`
  unfoldable pub active_sessions : ℕ → Op W (List Session)
  active_sessions now = do
    r_lock_mu
    all ← gets snapshot
    r_unlock_mu
    pure (keep (λ s. is_live s now) all)

  abbrev remaining_of : ℕ → Option Session → ℕ
  remaining_of now none = 0
  remaining_of now (some s) = remaining s now

  -- `RemainingFor`
  unfoldable pub remaining_for : Text → ℕ → Op W ℕ
  remaining_for id now = do
    r_lock_mu
    found ← gets (find id)
    r_unlock_mu
    pure (remaining_of now found)
