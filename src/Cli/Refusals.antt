-- ===== src/Cli/Refusals.antt =====
-- `session new` and `session activate`, of `cmdSession`.
use flashaccess.Base.{
  ℕ, Text, codes, Option, none, some, List, [], ◌∷◌, Result, ok, err, ℤ, ◌≡◌, refl, trim_space,
  trim_left, trim_right, contains, index_of, has_prefix,
}
use flashaccess.Net.{Ip, parse_ip, parse_cidr}
use flashaccess.Net.Parse.{parse_addr, split_slash}
use flashaccess.Config.{Config}
use flashaccess.Mysql.Driver.{DbError, invalid_cidr}
use flashaccess.Mysql.Hosts.{cidr_to_host}
use flashaccess.Access
use flashaccess.Access.{Activator, bad_host, provision}
use flashaccess.Session.{Session, normalize_cidr}
use flashaccess.Session.Lock.{Outcome, returns, unlocked}
use flashaccess.Session.State.{Sessions, Setup, State, MgrError, failed, provision_failed}
use flashaccess.Session.Manager.{NewParams, Drawn, new, start_session, fresh_session, drawn_all}
use flashaccess.Session.Manager.Leak.{at}
use flashaccess.Session.Manager.Gate.{verify_access-KeepsSessions}
use flashaccess.Web.Site.{World}
use flashaccess.Cli.{
  Program, ProgramError, CliError, bad_duration, act, manager_failed, Exit, fatal, setup_of,
}
use flashaccess.Cli.Sessions.{
  starts_for, or_half_hour, session_activate, activated, admitted, cmd_session,
}

-- An address that is none is refused by the hook, before anything has happened.
provision_refused :
    (a : Activator) (s : Session) (h : Access.Host) (e : DbError)
    → cidr_to_host s.allowed_cidr ≡ err e
    → provision a s h ≡ (err (bad_host e), h)
unfolding provision
provision_refused a s h e no_host = rw no_host refl

module _ (p : Program) (a : Activator) where
  start_refused :
      (q : NewParams) (now : ℕ) (key hash id : Text) (st : State World) (e : DbError)
      → cidr_to_host (normalize_cidr q.allowed_cidr) ≡ err e
      → start_session (setup_of p a) q now key hash id st
        ≡ (returns (err (provision_failed (act (bad_host e)))), st)
  unfolding start_session
  start_refused q now key hash id st e no_host =
      rw (provision_refused a (fresh_session q hash id now) st.world.host e no_host) refl

-- the error of `New` for an empty address, by its three draws
abbrev drawn_refusal :
    Result ProgramError Text
    → Result ProgramError Text
    → Result ProgramError Text
    → MgrError ProgramError
drawn_refusal (err e) hash id = failed e
drawn_refusal (ok key) (err e) id = failed e
drawn_refusal (ok key) (ok hash) (err e) = failed e
drawn_refusal (ok key) (ok hash) (ok id) = provision_failed (act (bad_host (invalid_cidr [])))

no_address : cidr_to_host (normalize_cidr []) ≡ err (invalid_cidr [])
unfolding cidr_to_host normalize_cidr trim_space trim_left trim_right contains index_of has_prefix
    parse_ip parse_cidr parse_addr split_slash
no_address = refl

module _ (p : Program) (a : Activator) where
  drawn_refused :
      (q : NewParams) (now : ℕ) (key hash id : Result ProgramError Text) (st : State World)
      → cidr_to_host (normalize_cidr q.allowed_cidr) ≡ err (invalid_cidr [])
      → drawn_all (setup_of p a) q now key hash id st
        ≡ (returns (err (drawn_refusal key hash id)), st)
  drawn_refused q now (err e) hash id st h = refl
  drawn_refused q now (ok key) (err e) id st h = refl
  drawn_refused q now (ok key) (ok hash) (err e) st h = refl
  drawn_refused q now (ok key) (ok hash) (ok id) st h =
      start_refused p a q now key hash id st (invalid_cidr []) h

module _ (p : Program) (a : Activator) (cfg : Config) (parse_duration : Text → Option ℤ) where
  -- the error that is reported, by the duration of the configuration and the draws
  abbrev pub new_refusal : Text → Option ℤ → Drawn ProgramError → CliError
  new_refusal text none drawn = bad_duration text
  new_refusal text (some d) drawn = manager_failed (drawn_refusal drawn.raw_key drawn.hash drawn.id)

  starts_refused :
      (text : Text) (o : Option ℤ) (drawn : Drawn ProgramError) (now : ℕ) (st : State World)
      → starts_for (setup_of p a) cfg drawn now [] text o st
        ≡ (returns (fatal (new_refusal text o drawn)), st)
  unfolding new
  starts_refused text none drawn now st = refl
  starts_refused text (some d) drawn now st =
      rw
        (drawn_refused p a (record { allowed_cidr = []; database = []; duration = d }) now
          drawn.raw_key drawn.hash drawn.id st no_address)
        refl

  -- `session new` without an address, as the usage shows it, is always refused, whatever the
  -- configuration says and whatever is drawn, and nothing changes: the duration of the configuration
  -- does not parse, or one of the three draws fails, or else the empty address is none.
  pub cmd_session-no_address :
      (drawn : Drawn ProgramError) (now : ℕ) (st : State World)
      → let text = or_half_hour cfg.defaults.duration in
        cmd_session (setup_of p a) cfg parse_duration drawn now (codes "new" ∷ []) st
        ≡ (returns (fatal (new_refusal text (parse_duration text) drawn)), st)
  unfolding cmd_session
  cmd_session-no_address drawn now st =
      starts_refused (or_half_hour cfg.defaults.duration)
        (parse_duration (or_half_hour cfg.defaults.duration)) drawn now st

module _ (u : Setup World ProgramError) (cfg : Config) where
  -- What a call leaves: it returns, and leaves the world and a free lock.
  abbrev pub KeepsWorld : World → Outcome Exit × State World → Type 0
  KeepsWorld w out = (x : Exit) × (ss : Sessions) × (out ≡ (returns x, at unlocked ss w))

  admitted-KeepsWorld :
      (r : Result (MgrError ProgramError) Session) (ss : Sessions) (w : World)
      → KeepsWorld w (admitted u cfg r (at unlocked ss w))
  admitted-KeepsWorld (ok s) ss w = (_, ss, refl)
  admitted-KeepsWorld (err e) ss w = (_, ss, refl)

  activated-KeepsWorld :
      (id key text : Text) (now : ℕ) (o : Option Ip) (ss : Sessions) (w : World)
      → KeepsWorld w (activated u cfg id key text now o (at unlocked ss w))
  activated-KeepsWorld id key text now none ss w = (_, ss, refl)
  activated-KeepsWorld id key text now (some ip) ss w =
      let (r, ss', e, _) = verify_access-KeepsSessions u id key ip now ss w in
      rw e (admitted-KeepsWorld r ss' w)

  pub session_activate-KeepsWorld :
      (now : ℕ) (args : List Text) (ss : Sessions) (w : World)
      → KeepsWorld w (session_activate u cfg now args (at unlocked ss w))
  session_activate-KeepsWorld now [] ss w = (_, ss, refl)
  session_activate-KeepsWorld now (_ ∷ []) ss w = (_, ss, refl)
  session_activate-KeepsWorld now (_ ∷ _ ∷ []) ss w = (_, ss, refl)
  session_activate-KeepsWorld now (id ∷ key ∷ ip ∷ _) ss w =
      activated-KeepsWorld id key ip now (parse_ip ip) ss w

  -- `session activate`, from a free lock, always returns, and it leaves the database, the firewall
  -- and the files as they are: so a wrong key is counted in the memory of this process alone, and
  -- no later process knows of it.
  pub cmd_session-KeepsWorld :
      (parse_duration : Text → Option ℤ) (drawn : Drawn ProgramError) (now : ℕ) (args : List Text)
      (ss : Sessions) (w : World)
      → KeepsWorld w
          (cmd_session u cfg parse_duration drawn now (codes "activate" ∷ args) (at unlocked ss w))
  unfolding cmd_session
  cmd_session-KeepsWorld parse_duration drawn now args ss w =
      session_activate-KeepsWorld now args ss w
