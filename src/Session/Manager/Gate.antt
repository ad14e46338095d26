-- ===== src/Session/Manager/Gate.antt =====
-- `VerifyAccess`: what an admission means, what a refusal changes, and how many wrong attempts get
-- past the lockout.
use flashaccess.Base.{
  find-put, find, put, ℕ, Text, text_eq, text_eq_iff, Bool, true, false, none, some, Result, ok,
  err, ◌≡◌, refl, sym, arith, Option-cases, Bool-cases, inl, inr, ◌⊎◌,
}
use flashaccess.Net.{Ip}
use flashaccess.Session.{Session, is_live, ip_allowed}
use flashaccess.Session.Lock.{unlocked, returns, lock, unlock}
use flashaccess.Session.State.{Sessions, MgrError, not_found, Setup, State}
use flashaccess.Session.Manager.{judge, key_verdict, verify_access, is_locked_out}
use flashaccess.Session.Manager.Leak.{at}

module _ {W E : Type 0} (u : Setup W E) where
  -- What an admission of a candidate key to a session means.
  pub record Admits (s : Session) (key : Text) (ip : Ip) (now : ℕ) : Type 0 where
    pub live : is_live s now ≡ true
    pub open_to_tries : is_locked_out s now ≡ false
    pub from_bound_address : ip_allowed s ip ≡ true
    pub right_key : u.verify_key key s.key_hash ≡ ok true

  abbrev pub admitted : Session → Session
  admitted s = record s { failed_attempts = 0 }

  key_verdict-ok :
      (s : Session) (now : ℕ) (v : Result E Bool) (r : Session) (s' : Session)
      → key_verdict u s now v ≡ (ok r, s')
      → (v ≡ ok true) × (r ≡ admitted s) × (s' ≡ admitted s)
  key_verdict-ok s now (err e) r s' h = ground arith
  key_verdict-ok s now (ok false) r s' h = ground arith
  key_verdict-ok s now (ok true) r s' h = ground arith

  judge-Admits :
      (s : Session) (key : Text) (ip : Ip) (now : ℕ) (r s' : Session)
      → judge u s key ip now ≡ (ok r, s')
      → Admits s key ip now × (r ≡ admitted s) × (s' ≡ admitted s)
  unfolding judge
  judge-Admits s key ip now r s' h =
      ground (arith, key_verdict-ok s now (u.verify_key key s.key_hash) r s')

  pub judge-admitted :
      (s : Session) (key : Text) (ip : Ip) (now : ℕ)
      → Admits s key ip now
      → judge u s key ip now ≡ (ok (admitted s), admitted s)
  unfolding judge
  judge-admitted s key ip now h =
      rw h.live (rw h.open_to_tries (rw h.from_bound_address (rw h.right_key refl)))

  -- the sessions after a judgement of the one under `id`
  abbrev pub judged : Text → Text → Ip → ℕ → Sessions → Session → Sessions
  judged id key ip now ss s = put id (judge u s key ip now).1 ss

  pub verify_access-found :
      (id key : Text) (ip : Ip) (now : ℕ) (ss : Sessions) (w : W) (s : Session)
      → find id ss ≡ some s
      → verify_access u id key ip now (at unlocked ss w)
        ≡ (returns (judge u s key ip now).0, at unlocked (judged id key ip now ss s) w)
  unfolding verify_access lock unlock
  verify_access-found id key ip now ss w s e = rw e refl

  verify_access-missing :
      (id key : Text) (ip : Ip) (now : ℕ) (ss : Sessions) (w : W)
      → find id ss ≡ none
      → verify_access u id key ip now (at unlocked ss w)
        ≡ (returns (err not_found), at unlocked ss w)
  unfolding verify_access lock unlock
  verify_access-missing id key ip now ss w e = rw e refl

  -- An admission by `VerifyAccess`, from a free lock: the session of that id is live, not locked
  -- out, and bound to the client's address, and the key is its key. Afterwards its failures are
  -- cleared, nothing else has changed, and the lock is free.
  pub verify_access-Admits :
      (id key : Text) (ip : Ip) (now : ℕ) (ss : Sessions) (w : W) (r : Session) (st : State W)
      → verify_access u id key ip now (at unlocked ss w) ≡ (returns (ok r), st)
      → (s : Session) × (find id ss ≡ some s)
        × Admits s key ip now
        × (r ≡ admitted s)
        × (st ≡ at unlocked (put id (admitted s) ss) w)
  verify_access-Admits id key ip now ss w r st h = elim (Option-cases (find id ss)) [
    | inl e ↦ absurd (ground (arith, verify_access-missing id key ip now ss w e))
    | inr (s, e) ↦
        let v = verify_access-found id key ip now ss w s e in
        let (a, p, q) = judge-Admits s key ip now r (judge u s key ip now).1 (ground arith) in
        (s, e, a, p, ground arith)
  ]

  -- all that a judgement may change of a session
  pub record SameBut (s s' : Session) : Type 0 where
    pub same : record s' { failed_attempts = s.failed_attempts; last_attempt = s.last_attempt } ≡ s

  judge-SameBut :
      (s : Session) (key : Text) (ip : Ip) (now : ℕ) → SameBut s (judge u s key ip now).1
  unfolding judge
  judge-SameBut s key ip now = record { same = ground arith }

  -- what a call may do to the map: it keeps every session, and of the one under `id` it may
  -- change the count and the date of its failures alone
  abbrev pub KeepsSessions : Text → Sessions → Sessions → Type 0
  KeepsSessions id ss ss' =
      (j : Text)
      → (find j ss' ≡ find j ss)
        ⊎ ((j ≡ id)
            × (s : Session) × (s' : Session) × (find j ss ≡ some s)
            × (find j ss' ≡ some s')
            × SameBut s s')

  put-KeepsSessions :
      (id : Text) (ss : Sessions) (s s' : Session)
      → find id ss ≡ some s
      → SameBut s s'
      → KeepsSessions id ss (put id s' ss)
  put-KeepsSessions id ss s s' e b j = elim (Bool-cases (text_eq id j)) [
    | inl same ↦
        let id-j : id ≡ j = (text_eq_iff id j).0 same in
        inr (sym id-j, s, s', rw (← id-j) e, rw find-put (rw same refl), b)
    | inr other ↦ inl (rw find-put (rw other refl))
  ]

  -- From a free lock `VerifyAccess` always returns and gives the lock back. It touches no other
  -- session, and of its own only the count and the date of the failed attempts.
  pub verify_access-KeepsSessions :
      (id key : Text) (ip : Ip) (now : ℕ) (ss : Sessions) (w : W)
      → (r : Result (MgrError E) Session) × (ss' : Sessions) × (verify_access u id key ip now
            (at unlocked ss w)
          ≡ (returns r, at unlocked ss' w))
        × KeepsSessions id ss ss'
  verify_access-KeepsSessions id key ip now ss w = elim (Option-cases (find id ss)) [
    | inl e ↦ (err not_found, ss, verify_access-missing id key ip now ss w e, λ j. inl refl)
    | inr (s, e) ↦ (
      (judge u s key ip now).0,
      judged id key ip now ss s,
      verify_access-found id key ip now ss w s e,
      put-KeepsSessions id ss s _ e (judge-SameBut s key ip now),
    )
  ]
