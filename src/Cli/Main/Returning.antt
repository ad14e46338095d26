-- ===== src/Cli/Main/Returning.antt =====
-- `main` and its locks: the commands as calls that come back or block.
use flashaccess.Base.{
  ℕ, Bool, true, false, Text, text_eq, text_eq_iff, codes, Option, none, some, List, [], ◌∷◌,
  Result, ok, err, if◌then◌else◌, ℤ, find, put, ◌≡◌, ◌≢◌, refl, sym, ap, subst,
}
use flashaccess.Config.{Config}
use flashaccess.Session.{Session, revoked}
use flashaccess.Session.Lock.{Outcome, returns, blocks, unlocked, lock, unlock, r_lock, r_unlock}
use flashaccess.Session.State.{Setup, Persister, Sessions, State, Op, MgrError, ◌>>=◌, proceed}
use flashaccess.Session.Manager.{Drawn, persist, persist_in, revoked_then, end_found, end, list}
use flashaccess.Session.Manager.Leak.{at, revoke_by-then}
use flashaccess.Web.Site.{World}
use flashaccess.Web.Grants.{GrantsJson}
use flashaccess.Cli.{
  Program, ProgramError, Environment, Draws, drawn_by, Exit, CliError, Started, start_up,
}
use flashaccess.Cli.Sessions.{first_or_empty, ended, session_end, session_list, cmd_session}
use flashaccess.Cli.Refusals.{KeepsWorld, session_activate-KeepsWorld}
use flashaccess.Cli.Terminal.{Terminal}
use flashaccess.Cli.Main.{running, run_main}
use flashaccess.Cli.Main.Closed.{start_up-unlocked}

-- a call comes back, with whatever value
abbrev pub Returns : {A B : Type 0} → Outcome A × B → Type 0
Returns {A} out = (x : A) × (out.0 ≡ returns x)

one_of-Returns :
    {A B : Type 0} (b : Bool) (o o' : Outcome A × B)
    → (b ≡ true → Returns o)
    → Returns o'
    → Returns (if b then o else o')
one_of-Returns true o o' h h' = h refl
one_of-Returns false o o' h h' = h'

either-Returns :
    {A : Type 0} (b : Bool) (f g : Op World A) (st : State World)
    → (b ≡ true → Returns (f st))
    → Returns (g st)
    → Returns ((if b then f else g) st)
either-Returns true f g st h h' = h refl
either-Returns false f g st h h' = h'

module _ (u : Setup World ProgramError) where
  persist_in-Returns :
      (o : Option (Persister World ProgramError)) (ss : Sessions) (w : World)
      → Returns (persist_in u o (at unlocked ss w))
  unfolding r_lock r_unlock
  persist_in-Returns none ss w = (ok tt, refl)
  persist_in-Returns (some p) ss w = (_, refl)

  revoked_then-Returns :
      (r : Result ProgramError (Unit {0})) (ss : Sessions) (w : World)
      → Returns (revoked_then u r (at unlocked ss w))
  unfolding persist
  revoked_then-Returns (err e) ss w = (_, refl)
  revoked_then-Returns (ok _) ss w = persist_in-Returns u.store ss w

  bind-Returns :
      {A B : Type 0} (m : Op World A) (f : A → Op World B) (st : State World)
      → Returns (m st)
      → ((a : A) (st' : State World) → Returns (f a st'))
      → Returns ((m >>= f) st)
  bind-Returns m f st h k = bound (m st) h
    where
      bound : (out : Outcome _ × State World) → Returns out → Returns (proceed out f)
      bound (returns a, st') h' = k a st'
      bound (blocks, st') (a, e) = absurd (cc)

  -- with the lock that `End` has taken
  end_found-Returns :
      (id : Text) (o : Option Session) (ss : Sessions) (w : World)
      → Returns (end_found u id o (at (record unlocked { writer = true }) ss w))
  unfolding unlock
  end_found-Returns id none ss w = (_, refl)
  end_found-Returns id (some s) ss w =
      revoke_by-then u Returns u.hooks.on_revoke (record s { status = revoked }) (revoked_then u)
        unlocked (put id (record s { status = revoked }) ss) w (λ r w'. revoked_then-Returns r _ w')

  end-Returns : (id : Text) (ss : Sessions) (w : World) → Returns (end u id (at unlocked ss w))
  unfolding end lock
  end-Returns id ss w = end_found-Returns id (find id ss) ss w

  ended-Returns :
      (cfg : Config) (r : Result (MgrError ProgramError) (Unit {0})) (st : State World)
      → Returns (ended u cfg r st)
  ended-Returns cfg (ok _) st = (_, refl)
  ended-Returns cfg (err e) st = (_, refl)

  session_end-Returns :
      (cfg : Config) (args : List Text) (ss : Sessions) (w : World)
      → Returns (session_end u cfg args (at unlocked ss w))
  session_end-Returns cfg [] ss w = (_, refl)
  session_end-Returns cfg (id ∷ _) ss w =
      bind-Returns (end u id) (ended u cfg) (at unlocked ss w) (end-Returns id ss w)
        (ended-Returns cfg)

  session_list-Returns :
      (cfg : Config) (now : ℕ) (ss : Sessions) (w : World)
      → Returns (session_list u cfg now (at unlocked ss w))
  unfolding list r_lock r_unlock
  session_list-Returns cfg now ss w = (_, refl)

  KeepsWorld-Returns :
      (cfg : Config) (w : World) (out : Outcome Exit × State World)
      → KeepsWorld u cfg w out
      → Returns out
  KeepsWorld-Returns cfg w out (x, ss, e) = (x, ap (λ o. o.0) e)

  -- `session`, but for `session new`
  cmd_session-Returns :
      (cfg : Config) (parse_duration : Text → Option ℤ) (drawn : Drawn ProgramError) (now : ℕ)
      (args : List Text) (ss : Sessions) (w : World)
      → first_or_empty args ≢ codes "new"
      → Returns (cmd_session u cfg parse_duration drawn now args (at unlocked ss w))
  unfolding cmd_session
  cmd_session-Returns cfg parse_duration drawn now [] ss w other = (_, refl)
  cmd_session-Returns cfg parse_duration drawn now (command ∷ args) ss w other =
      let st = at unlocked ss w in
      either-Returns (text_eq command (codes "new")) _ _ st
        (λ e. absurd (other ((text_eq_iff command (codes "new")).0 e)))
        (either-Returns (text_eq command (codes "activate")) _ _ st
          (λ _. KeepsWorld-Returns cfg w _ (session_activate-KeepsWorld u cfg now args ss w))
          (either-Returns (text_eq command (codes "end")) _ _ st
            (λ _. session_end-Returns cfg args ss w)
            (either-Returns (text_eq command (codes "list")) _ _ st
              (λ _. session_list-Returns cfg now ss w) (_, refl))))

module _ (json : GrantsJson) (env : Environment) (p : Program) (draws : Draws) (now : ℕ) where
  running-Returns :
      (command : Text) (args : List Text) (out : Result CliError Started × World)
      → ((s : Started) → out.0 ≡ ok s → s.mgr.mutex ≡ unlocked)
      → first_or_empty args ≢ codes "new"
      → Returns (running json env p draws now command args out)
  running-Returns command args (err e, w) free other = (_, refl)
  running-Returns command args (ok s, w) free other =
      one_of-Returns (text_eq command (codes "serve")) _ _ (λ _. (_, refl))
        (one_of-Returns (text_eq command (codes "session")) _ _
          (λ _.
            subst
              (λ m. Returns (
                cmd_session s.setup s.cfg p.parse_duration (drawn_by p draws) now args
                  (at m s.mgr.sessions s.mgr.world)))
              (sym (free s refl))
              (cmd_session-Returns s.setup s.cfg p.parse_duration (drawn_by p draws) now args
                s.mgr.sessions s.mgr.world other))
          (_, refl))

  -- Every command whose first argument is not `new`, as that of `session new` is, comes back, whatever
  -- the disk, the database, the firewall, the terminal and the random source do: no call waits for a
  -- lock that nobody gives back. The command `serve` comes as far as its first request.
  pub run_main-Returns :
      (terminal : Terminal) (command : Text) (args : List Text) (w : World)
      → first_or_empty args ≢ codes "new"
      → Returns (run_main json env p draws now terminal (command ∷ args) w)
  unfolding run_main
  run_main-Returns terminal command args w other =
      one_of-Returns (text_eq command (codes "version")) _ _ (λ _. (_, refl))
        (one_of-Returns (text_eq command (codes "connect")) _ _ (λ _. (_, refl))
          (one_of-Returns (text_eq command (codes "mode")) _ _ (λ _. (_, refl))
            (running-Returns command args (start_up p env w)
              (λ s e. start_up-unlocked p env w _ s (ap (λ r. (r, (start_up p env w).1)) e))
              other)))
