-- ===== src/Session/Manager/Reaper.antt =====
-- `reap`: what one round of the reaper does to the sessions, and to the lock.
use flashaccess.Base.{
  find, ℕ, ◌≤◌, ◌<◌, ltb, Text, true, false, ◌≢◌, ◌⊎◌, inl, inr, Bool-cases, Option, none, some,
  List, [], ◌∷◌, ◌≡◌, refl, ◌∙◌, sym, subst, arith, map, keep, All,
}
use flashaccess.Session.{Session, Status, active, expired, revoked, is_active}
use flashaccess.Session.Lock.{RwMutex, unlocked, Outcome, returns, lock, unlock, r_lock, r_unlock}
use flashaccess.Session.State.{Sessions, snapshot, Setup, Persister, Effect, State, Op, ◌>>=◌}
use flashaccess.Session.Manager.{
  persist, revoke_by, revoke_each, persist_if_any, reap, is_due, expire,
}
use flashaccess.Session.Manager.Leak.{at, one_reader}

abbrev pub expire_found : ℕ → Option Session → Option Session
expire_found now none = none
expire_found now (some s) = some (expire now s)

abbrev pub all_expired : ℕ → Sessions → Sessions
all_expired now = map (λ (k, s). (k, expire now s))

-- the sessions that a round at `now` ends
abbrev pub due : ℕ → Sessions → List Session
due now ss = map (expire now) (keep (is_due now) (snapshot ss))

find-all_expired :
    (now : ℕ) (ss : Sessions) (j : Text)
    → find j (all_expired now ss) ≡ expire_found now (find j ss)
unfolding find
find-all_expired now [] j = refl
find-all_expired now ((k, s) ∷ ss) j = ground (arith, find-all_expired now ss j)

expire-settles : (now : ℕ) (s : Session) → is_due now (expire now s) ≡ false
expire-settles now s = ground arith

all_expired-settled :
    (now : ℕ) (ss : Sessions) → All (λ (_, s). is_due now s ≡ false) (all_expired now ss)
all_expired-settled now [] = tt
all_expired-settled now ((k, s) ∷ ss) = (expire-settles now s, all_expired-settled now ss)

-- a session that is over at `now`, though its status still says that it is active
abbrev pub IsOver : ℕ → Session → Type 0
IsOver now s = (s.status ≡ active) × (s.expires_at ≤ now)

abbrev pub IsKept : ℕ → Session → Type 0
IsKept now s = (s.status ≢ active) ⊎ (now < s.expires_at)

-- what stands under an id before a round and after it
abbrev pub Aged : ℕ → Option Session → Option Session → Type 0
Aged now none o = o ≡ none
Aged now (some s) o =
    (IsOver now s × (o ≡ some (record s { status = expired }))) ⊎ (IsKept now s × (o ≡ some s))

-- The second list has the sessions of the first that are over, in their order, as expired ones.
pub data Ends (now : ℕ) : List Session → List Session → Type 0 where
  all_seen : Ends now [] []
  over :
      {l r : List Session} (s : Session)
      → IsOver now s
      → Ends now l r
      → Ends now (s ∷ l) (record s { status = expired } ∷ r)
  kept : {l r : List Session} (s : Session) → IsKept now s → Ends now l r → Ends now (s ∷ l) r

is_active_yes : (x : Status) → is_active x ≡ true → x ≡ active
is_active_yes active h = refl
is_active_yes expired h = absurd (cc)
is_active_yes revoked h = absurd (cc)

is_active_no : (x : Status) → is_active x ≡ false → x ≢ active
is_active_no active h = absurd (cc)
is_active_no expired h = λ e. absurd (cc)
is_active_no revoked h = λ e. absurd (cc)

due_cases :
    (now : ℕ) (s : Session)
    → (IsOver now s × (is_due now s ≡ true)) ⊎ (IsKept now s × (is_due now s ≡ false))
due_cases now s = elim (Bool-cases (is_active s.status)) [
  | inl a ↦ elim (Bool-cases (ltb now s.expires_at)) [
    | inl b ↦ inr (inr (ground (arith, b)), rw (a, b) refl)
    | inr b ↦ inl ((is_active_yes s.status a, ground (arith, b)), rw (a, b) refl)
  ]
  | inr a ↦ inr (inl (is_active_no s.status a), rw a refl)
]

expire_found-Aged : (now : ℕ) (o : Option Session) → Aged now o (expire_found now o)
expire_found-Aged now none = refl
expire_found-Aged now (some s) = elim (due_cases now s) [
  | inl (o, d) ↦ inl (o, rw d refl)
  | inr (k, d) ↦ inr (k, rw d refl)
]

due-Ends : (now : ℕ) (l : List Session) → Ends now l (map (expire now) (keep (is_due now) l))
unfolding keep
due-Ends now [] = all_seen
due-Ends now (s ∷ l) = elim (due_cases now s) [
  | inl (o, d) ↦ rw d (rw d (over s o (due-Ends now l)))
  | inr (k, d) ↦ rw d (kept s k (due-Ends now l))
]

module _ {W E : Type 0} (u : Setup W E) where
  -- the world after a session's hook, and after those of one session after the other
  abbrev hooked : Option (Session → Effect W E (Unit {0})) → Session → W → W
  hooked none s w = w
  hooked (some f) s w = (f s w).1

  abbrev pub all_hooked : List Session → W → W
  all_hooked [] w = w
  all_hooked (s ∷ r) w = all_hooked r (hooked u.hooks.on_revoke s w)

  revoke_by-hooked :
      {A : Type 0} (o : Option (Session → Effect W E (Unit {0}))) (s : Session) (k : Op W A)
      (m : RwMutex) (ss : Sessions) (w : W)
      → (revoke_by u o s >>= λ _. k) (at m ss w) ≡ k (at m ss (hooked o s w))
  revoke_by-hooked none s k m ss w = refl
  revoke_by-hooked (some f) s k m ss w = refl

  revoke_each-all_hooked :
      (l : List Session) (m : RwMutex) (ss : Sessions) (w : W)
      → revoke_each u l (at m ss w) ≡ (returns tt, at m ss (all_hooked l w))
  unfolding revoke_each
  revoke_each-all_hooked [] m ss w = refl
  revoke_each-all_hooked (s ∷ l) m ss w =
      revoke_by-hooked u.hooks.on_revoke s (revoke_each u l) m ss w
      ∙ revoke_each-all_hooked l m ss (hooked u.hooks.on_revoke s w)

  -- the lock after a round: free, but for the read lock that saving to a store leaves behind
  abbrev pub lock_left : Option (Persister W E) → List Session → RwMutex
  lock_left none l = unlocked
  lock_left (some p) [] = unlocked
  lock_left (some p) (s ∷ l) = one_reader

  abbrev pub saved_world : Option (Persister W E) → List Session → Sessions → W → W
  saved_world none l ss w = w
  saved_world (some p) [] ss w = w
  saved_world (some p) (s ∷ l) ss w = (p.save_all (snapshot ss) w).1

  persist_if_any-runs :
      (o : Option (Persister W E)) (l : List Session) (ss : Sessions) (w : W)
      → u.store ≡ o
      → persist_if_any u l (at unlocked ss w)
        ≡ (returns tt, at (lock_left o l) ss (saved_world o l ss w))
  unfolding persist r_lock r_unlock
  persist_if_any-runs none [] ss w e = refl
  persist_if_any-runs (some p) [] ss w e = refl
  persist_if_any-runs none (s ∷ l) ss w e = rw e refl
  persist_if_any-runs (some p) (s ∷ l) ss w e = rw e refl

  -- the round, in terms of `is_due` and `expire`
  pub record Round (now : ℕ) (ss : Sessions) (w : W) (out : Outcome (Unit {0}) × State W)
      : Type 0 where
    pub comes_back : out.0 ≡ returns tt
    pub each_expired : (j : Text) → find j out.1.sessions ≡ expire_found now (find j ss)
    pub none_due : All (λ (_, s). is_due now s ≡ false) out.1.sessions
    pub hooks_then_save :
        out.1.world ≡ saved_world u.store (due now ss) out.1.sessions (all_hooked (due now ss) w)
    pub lock_after : out.1.mutex ≡ lock_left u.store (due now ss)

  reap-runs :
      (now : ℕ) (ss : Sessions) (w : W)
      → reap u now (at unlocked ss w)
        ≡ persist_if_any u
            (due now ss)
            (at unlocked (all_expired now ss) (all_hooked (due now ss) w))
  unfolding reap lock unlock
  reap-runs now ss w = rw (revoke_each-all_hooked (due now ss) unlocked (all_expired now ss) w) refl

  pub reap-Round :
      (now : ℕ) (ss : Sessions) (w : W) → Round now ss w (reap u now (at unlocked ss w))
  reap-Round now ss w =
      subst (Round now ss w)
        (sym (reap-runs now ss w ∙ persist_if_any-runs u.store (due now ss) _ _ refl))
        (record {
          comes_back = refl;
          each_expired = find-all_expired now ss;
          none_due = all_expired-settled now ss;
          hooks_then_save = refl;
          lock_after = refl;
        })

  -- what a round of the reaper at `now` makes of the sessions `ss` and of the world `w`
  pub record Reaped (now : ℕ) (ss : Sessions) (w : W) (out : Outcome (Unit {0}) × State W)
      : Type 0 where
    pub comes_back : out.0 ≡ returns tt
    pub each : (j : Text) → Aged now (find j ss) (find j out.1.sessions)
    pub ended : List Session
    pub ended_are : Ends now (snapshot ss) ended
    pub hooks_then_save :
        out.1.world ≡ saved_world u.store ended out.1.sessions (all_hooked ended w)
    pub lock_after : out.1.mutex ≡ lock_left u.store ended

  -- A round of the reaper, from a free lock: it returns. Each session that was active, and whose end
  -- is not after `now`, is expired and else the same; every other session is as before, and none
  -- has come or gone. The hook has run once for each session that has expired, in order and with
  -- its new status, and then, if there was any, the store has saved the sessions. The lock is
  -- free if there was none or there is no store, and else keeps the read lock of `persist`.
  pub reap-Reaped :
      (now : ℕ) (ss : Sessions) (w : W) → Reaped now ss w (reap u now (at unlocked ss w))
  reap-Reaped now ss w =
      let h = reap-Round now ss w in
      record {
        comes_back = h.comes_back;
        each = λ j.
            subst (Aged now (find j ss)) (sym (h.each_expired j))
              (expire_found-Aged now (find j ss));
        ended = due now ss;
        ended_are = due-Ends now (snapshot ss);
        hooks_then_save = h.hooks_then_save;
        lock_after = h.lock_after;
      }
