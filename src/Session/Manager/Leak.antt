-- ===== src/Session/Manager/Leak.antt =====
-- The read lock that `persist` takes twice and gives back once, and what it does to the manager
-- when there is a store, as `main` always provides.
use flashaccess.Base.{
  put, find, ℕ, Text, false, Option, none, some, Result, ok, err, ◌≡◌, refl, sym, subst,
}
use flashaccess.Net.{Ip}
use flashaccess.Session.{Session}
use flashaccess.Session.Lock.{
  RwMutex, unlocked, Outcome, returns, blocks, lock, unlock, r_lock, r_unlock,
}
use flashaccess.Session.State.{
  Sessions, snapshot, MgrError, failed, provision_failed, Setup, Persister, Effect, State, Op,
  ◌>>=◌,
}
use flashaccess.Session.Manager.{
  NewParams, Drawn, fresh_session, persist, saved, revoke_by, provision_by, recorded, provisioned,
  drawn_all, start_session, new, verify_access, end, set_playground_db, reap, active_session,
}

-- a lock that is held by one reader, with nobody waiting; and with one writer waiting
abbrev pub one_reader : RwMutex
one_reader = record { writer = false; readers = 1; waiting = 0 }

abbrev pub stalled : RwMutex
stalled = record { writer = false; readers = 1; waiting = 1 }

abbrev pub at : {W : Type 0} → RwMutex → Sessions → W → State W
at m ss w = record { mutex = m; sessions = ss; world = w }

module _ {W E : Type 0} (u : Setup W E) where
  -- What `New` leaves of a free lock, by how it ends.
  abbrev pub Leaves : Sessions → Outcome (Result (MgrError E) (Session × Text)) × State W → Type 0
  Leaves ss (returns (ok _), st) = st.mutex ≡ one_reader
  Leaves ss (returns (err _), st) = (st.sessions ≡ ss) × (st.mutex ≡ unlocked)
  Leaves ss (blocks, st) = st.mutex ≡ stalled

  -- What a hook does to its world is not known: what follows it must hold in every world.
  pub revoke_by-then :
      {A : Type 0} (P : Outcome A × State W → Type 0) (o : Option (Session → Effect W E (Unit {0})))
      (s : Session) (next : Result E (Unit {0}) → Op W A) (m : RwMutex) (ss : Sessions) (w : W)
      → ((r : Result E (Unit {0})) (w' : W) → P (next r (at m ss w')))
      → P ((revoke_by u o s >>= next) (at m ss w))
  revoke_by-then P none s next m ss w h = h (ok tt) w
  revoke_by-then P (some f) s next m ss w h = h (f s w).0 (f s w).1

  provision_by-then :
      {A : Type 0} (P : Outcome A × State W → Type 0) (o : Option (Session → Effect W E Session))
      (s : Session) (next : Result E Session → Op W A) (m : RwMutex) (ss : Sessions) (w : W)
      → ((r : Result E Session) (w' : W) → P (next r (at m ss w')))
      → P ((provision_by u o s >>= next) (at m ss w))
  provision_by-then P none s next m ss w h = h (ok s) w
  provision_by-then P (some f) s next m ss w h = h (f s w).0 (f s w).1

  recorded-Leaves :
      (r : Result E (Unit {0})) (key id : Text) (s : Session) (ss ms : Sessions) (w : W)
      → Leaves ss (recorded u key id s (saved u r) (at one_reader ms w))
  unfolding lock
  recorded-Leaves (ok _) key id s ss ms w = refl
  recorded-Leaves (err e) key id s ss ms w =
      revoke_by-then (Leaves ss) u.hooks.on_revoke s _ one_reader ms w (λ r w'. refl)

  module _ (p : Persister W E) (has_store : u.store ≡ some p) where
    provisioned-Leaves :
        (r : Result E Session) (key id : Text) (ss : Sessions) (w : W)
        → Leaves ss (provisioned u key id r (at unlocked ss w))
    unfolding persist lock r_lock unlock r_unlock
    provisioned-Leaves (err e) key id ss w = (refl, refl)
    provisioned-Leaves (ok s) key id ss w = rw has_store (
        recorded-Leaves (p.save_all (snapshot (put id s ss)) w).0 key id s ss (put id s ss)
          (p.save_all (snapshot (put id s ss)) w).1)

    start_session-Leaves :
        (q : NewParams) (now : ℕ) (key hash id : Text) (ss : Sessions) (w : W)
        → Leaves ss (start_session u q now key hash id (at unlocked ss w))
    unfolding start_session
    start_session-Leaves q now key hash id ss w =
        provision_by-then (Leaves ss) u.hooks.on_provision (fresh_session q hash id now) _ unlocked
          ss w (λ r w'. provisioned-Leaves r key id ss w')

    drawn_all-Leaves :
        (q : NewParams) (now : ℕ) (key hash id : Result E Text) (ss : Sessions) (w : W)
        → Leaves ss (drawn_all u q now key hash id (at unlocked ss w))
    drawn_all-Leaves q now (err e) h i ss w = (refl, refl)
    drawn_all-Leaves q now (ok key) (err e) i ss w = (refl, refl)
    drawn_all-Leaves q now (ok key) (ok hash) (err e) ss w = (refl, refl)
    drawn_all-Leaves q now (ok key) (ok hash) (ok id) ss w =
        start_session-Leaves q now key hash id ss w

    new-Leaves :
        (q : NewParams) (drawn : Drawn E) (now : ℕ) (ss : Sessions) (w : W)
        → Leaves ss (new u q drawn now (at unlocked ss w))
    unfolding new
    new-Leaves q drawn now ss w = drawn_all-Leaves q now drawn.raw_key drawn.hash drawn.id ss w

    -- how `New` ends behind the store's answer, with the sessions `ms` registered
    abbrev Stored :
        Result E (Unit {0})
        → Session
        → Text
        → Sessions
        → Outcome (Result (MgrError E) (Session × Text)) × State W
        → Type 0
    Stored (ok _) s key ms (o, st) =
        (o ≡ returns (ok (s, key))) × (st.sessions ≡ ms) × (st.mutex ≡ one_reader)
    Stored (err e) s key ms (o, st) = (o ≡ blocks) × (st.mutex ≡ stalled)

    -- with the answer of the hook, and the world that it leaves
    abbrev Provisioned :
        Result E Session
        → W
        → Text
        → Text
        → Sessions
        → Outcome (Result (MgrError E) (Session × Text)) × State W
        → Type 0
    Provisioned (err e) w key id ss out =
        out ≡ (returns (err (provision_failed e)), at unlocked ss w)
    Provisioned (ok s) w key id ss out =
        Stored (p.save_all (snapshot (put id s ss)) w).0 s key (put id s ss) out

    abbrev Hooked :
        Option (Session → Effect W E Session)
        → Session
        → Text
        → Text
        → Sessions
        → W
        → Outcome (Result (MgrError E) (Session × Text)) × State W
        → Type 0
    Hooked none s key id ss w out = Provisioned (ok s) w key id ss out
    Hooked (some f) s key id ss w out = Provisioned (f s w).0 (f s w).1 key id ss out

    -- How `New` ends from a free lock, by the three draws, the answer of the hook and that of the
    -- store.
    abbrev pub Left :
        NewParams
        → ℕ
        → Result E Text
        → Result E Text
        → Result E Text
        → Sessions
        → W
        → Outcome (Result (MgrError E) (Session × Text)) × State W
        → Type 0
    Left q now (err e) hash id ss w out = out ≡ (returns (err (failed e)), at unlocked ss w)
    Left q now (ok key) (err e) id ss w out = out ≡ (returns (err (failed e)), at unlocked ss w)
    Left q now (ok key) (ok hash) (err e) ss w out =
        out ≡ (returns (err (failed e)), at unlocked ss w)
    Left q now (ok key) (ok hash) (ok id) ss w out =
        Hooked u.hooks.on_provision (fresh_session q hash id now) key id ss w out

    recorded-Stored :
        (r : Result E (Unit {0})) (s : Session) (key id : Text) (ms : Sessions) (w : W)
        → Stored r s key ms (recorded u key id s (saved u r) (at one_reader ms w))
    unfolding lock
    recorded-Stored (ok _) s key id ms w = (refl, refl, refl)
    recorded-Stored (err e) s key id ms w =
        revoke_by-then (Stored (err e) s key ms) u.hooks.on_revoke s _ one_reader ms w
          (λ r w'. (refl, refl))

    provisioned-Provisioned :
        (r : Result E Session) (key id : Text) (ss : Sessions) (w : W)
        → Provisioned r w key id ss (provisioned u key id r (at unlocked ss w))
    unfolding persist lock r_lock unlock r_unlock
    provisioned-Provisioned (err e) key id ss w = refl
    provisioned-Provisioned (ok s) key id ss w = rw has_store (
        recorded-Stored (p.save_all (snapshot (put id s ss)) w).0 s key id (put id s ss)
          (p.save_all (snapshot (put id s ss)) w).1)

    provision_by-Hooked :
        (o : Option (Session → Effect W E Session)) (s : Session) (key id : Text) (ss : Sessions)
        (w : W)
        → Hooked o s key id ss w ((provision_by u o s >>= provisioned u key id) (at unlocked ss w))
    provision_by-Hooked none s key id ss w = provisioned-Provisioned (ok s) key id ss w
    provision_by-Hooked (some f) s key id ss w =
        provisioned-Provisioned (f s w).0 key id ss (f s w).1

    drawn_all-Left :
        (q : NewParams) (now : ℕ) (key hash id : Result E Text) (ss : Sessions) (w : W)
        → Left q now key hash id ss w (drawn_all u q now key hash id (at unlocked ss w))
    unfolding start_session
    drawn_all-Left q now (err e) hash id ss w = refl
    drawn_all-Left q now (ok key) (err e) id ss w = refl
    drawn_all-Left q now (ok key) (ok hash) (err e) ss w = refl
    drawn_all-Left q now (ok key) (ok hash) (ok id) ss w =
        provision_by-Hooked u.hooks.on_provision (fresh_session q hash id now) key id ss w

    -- With a store, and from a free lock, how `New` ends is decided by its draws, the hook and the
    -- store. If a draw fails, or the hook, it returns that error, nothing is registered, and the lock
    -- is free. If the store saves the sessions, with the one that the hook has returned, it returns
    -- this session and the key, the session is registered, and the lock is left with a reader that
    -- never gives it back. If the store fails, it never returns: it waits for the lock that it
    -- holds itself.
    pub new-Left :
        (q : NewParams) (drawn : Drawn E) (now : ℕ) (ss : Sessions) (w : W)
        → Left q now drawn.raw_key drawn.hash drawn.id ss w (new u q drawn now (at unlocked ss w))
    unfolding new
    new-Left q drawn now ss w = drawn_all-Left q now drawn.raw_key drawn.hash drawn.id ss w

  -- the operations that take the lock for writing never return
  abbrev pub BlocksWriters : State W → Type 0
  BlocksWriters st =
      ((id key : Text) (ip : Ip) (now : ℕ) → (verify_access u id key ip now st).0 ≡ blocks)
      × ((id : Text) → (end u id st).0 ≡ blocks)
      × ((id name : Text) → (set_playground_db u id name st).0 ≡ blocks)
      × ((now : ℕ) → (reap u now st).0 ≡ blocks)

  one_reader-BlocksWriters : (ss : Sessions) (w : W) → BlocksWriters (at one_reader ss w)
  unfolding verify_access end set_playground_db reap lock
  one_reader-BlocksWriters ss w = (λ id key ip now. refl, λ id. refl, λ id name. refl, λ now. refl)

  -- Once a session has been started with a store, no key can be verified, no session ended or
  -- reaped, and no playground recorded: each of these calls blocks.
  pub new-BlocksWriters :
      (p : Persister W E) (q : NewParams) (drawn : Drawn E) (now : ℕ) (ss : Sessions) (w : W)
      (s : Session) (key : Text) (st : State W)
      → u.store ≡ some p
      → new u q drawn now (at unlocked ss w) ≡ (returns (ok (s, key)), st)
      → BlocksWriters st
  new-BlocksWriters p q drawn now ss w s key st has_store e =
      let m : st.mutex ≡ one_reader =
        subst (Leaves ss) e (new-Leaves p has_store q drawn now ss w) in
      subst (λ x. BlocksWriters (at x st.sessions st.world)) (sym m)
        (one_reader-BlocksWriters st.sessions st.world)

  one_reader-stalls :
      (ss : Sessions) (w : W) (now now' : ℕ)
      → (active_session u now' (reap u now (at one_reader ss w)).1).0 ≡ blocks
  unfolding reap active_session lock r_lock
  one_reader-stalls ss w now now' = refl

  -- After a session has been started with a store, the next round of the reaper waits for the
  -- lock, and from then on the look-up of the live session, which every page begins with, blocks.
  pub new-stalls :
      (p : Persister W E) (q : NewParams) (drawn : Drawn E) (now : ℕ) (ss : Sessions) (w : W)
      (s : Session) (key : Text) (st : State W) (tick later : ℕ)
      → u.store ≡ some p
      → new u q drawn now (at unlocked ss w) ≡ (returns (ok (s, key)), st)
      → (active_session u later (reap u tick st).1).0 ≡ blocks
  new-stalls p q drawn now ss w s key st tick later has_store e =
      let m : st.mutex ≡ one_reader =
        subst (Leaves ss) e (new-Leaves p has_store q drawn now ss w) in
      subst (λ x. (active_session u later (reap u tick (at x st.sessions st.world)).1).0 ≡ blocks)
        (sym m) (one_reader-stalls st.sessions st.world tick later)

  -- With a store, `SetPlaygroundDB` of a registered session never returns: it holds the lock and
  -- saves, which asks for the same lock. Every look-up of the live session blocks from then on.
  pub set_playground_db-blocks :
      (p : Persister W E) (id name : Text) (s : Session) (ss : Sessions) (w : W) (later : ℕ)
      → u.store ≡ some p
      → find id ss ≡ some s
      → ((set_playground_db u id name (at unlocked ss w)).0 ≡ blocks)
        × ((active_session u later (set_playground_db u id name (at unlocked ss w)).1).0 ≡ blocks)
  unfolding set_playground_db active_session persist lock r_lock
  set_playground_db-blocks p id name s ss w later e f = (rw (f, e) refl, rw (f, e) refl)
