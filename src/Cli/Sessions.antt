-- ===== src/Cli/Sessions.antt =====
-- `cmdSession`: the sessions from the command line, on the manager that `main` has started.
use flashaccess.Base.{
  ℕ, ◌+◌, ◌-◌, ◌/◌, ltb, Text, text_eq, codes, ◌&&◌, Option, none, some, List, [], ◌∷◌, Result, ok,
  err, if◌then◌else◌, ℤ, map,
}
use flashaccess.Net.{Ip, parse_ip}
use flashaccess.Config.{Config}
use flashaccess.Session.{Session, is_active}
use flashaccess.Session.State.{Setup, MgrError, Op, pure, ◌>>=◌}
use flashaccess.Session.Manager.{Drawn, new, verify_access, end, list}
use flashaccess.Cli.{
  ProgramError, manager_failed, unknown_command, bad_duration, bad_address, bad_usage,
  ListedSession, Exit, usage_shown, fatal, shows_key, shows_account, session_ended, no_sessions,
  lists,
}
use flashaccess.Web.Site.{World}

abbrev pub or_half_hour : Text → Text
or_half_hour [] = codes "30m"
or_half_hour (c ∷ s) = c ∷ s

-- `rem.Round(time.Second)`, in seconds
abbrev whole_seconds : ℕ → ℕ
whole_seconds ns = (ns + 500000000) / 1000000000

abbrev listed : ℕ → Session → ListedSession
listed now s = record {
  id = s.id;
  status = s.status;
  created_at = s.created_at;
  expires_at = s.expires_at;
  left =
      if is_active s.status && ltb now s.expires_at
      then some (whole_seconds (s.expires_at - now))
      else none;
  allowed_cidr = s.allowed_cidr;
  db_user = s.db_user;
}

abbrev all_listed : ℕ → List Session → Exit
all_listed now [] = no_sessions
all_listed now (s ∷ ss) = lists (map (listed now) (s ∷ ss))

abbrev pub first_or_empty : List Text → Text
first_or_empty [] = []
first_or_empty (a ∷ _) = a

module _ (u : Setup World ProgramError) (cfg : Config) where
  abbrev made : Result (MgrError ProgramError) (Session × Text) → Op World Exit
  made (err e) = pure (fatal (manager_failed e))
  made (ok (s, key)) = pure (shows_key s.id key s.expires_at)

  abbrev pub starts_for : Drawn ProgramError → ℕ → Text → Text → Option ℤ → Op World Exit
  starts_for drawn now cidr text none = pure (fatal (bad_duration text))
  starts_for drawn now cidr text (some d) = do
    r ← new u (record { allowed_cidr = cidr; database = []; duration = d }) drawn now
    made r

  -- `session new`, for the arguments behind it
  abbrev pub session_new : (Text → Option ℤ) → Drawn ProgramError → ℕ → List Text → Op World Exit
  session_new parse_duration drawn now args =
      let text = or_half_hour cfg.defaults.duration in
      starts_for drawn now (first_or_empty args) text (parse_duration text)

  abbrev pub admitted : Result (MgrError ProgramError) Session → Op World Exit
  admitted (err e) = pure (fatal (manager_failed e))
  admitted (ok s) =
      pure (shows_account cfg.db.host cfg.db.port s.db_user s.db_password s.expires_at)

  abbrev pub activated : Text → Text → Text → ℕ → Option Ip → Op World Exit
  activated id key text now none = pure (fatal (bad_address text))
  activated id key text now (some ip) = do r ← verify_access u id key ip now; admitted r

  -- `session activate`
  abbrev pub session_activate : ℕ → List Text → Op World Exit
  session_activate now (id ∷ key ∷ ip ∷ _) = activated id key ip now (parse_ip ip)
  session_activate now _ = pure (fatal bad_usage)

  abbrev pub ended : Result (MgrError ProgramError) (Unit {0}) → Op World Exit
  ended (err e) = pure (fatal (manager_failed e))
  ended (ok _) = pure session_ended

  -- `session end`
  abbrev pub session_end : List Text → Op World Exit
  session_end [] = pure (fatal bad_usage)
  session_end (id ∷ _) = do r ← end u id; ended r

  -- `session list`
  abbrev pub session_list : ℕ → Op World Exit
  session_list now = do all ← list u; pure (all_listed now all)

  -- `cmdSession`
  unfoldable pub cmd_session :
      (Text → Option ℤ) → Drawn ProgramError → ℕ → List Text → Op World Exit
  unfolding text_eq
  cmd_session parse_duration drawn now [] = pure usage_shown
  cmd_session parse_duration drawn now (command ∷ args) =
      if text_eq command (codes "new")
      then session_new parse_duration drawn now args
      else if text_eq command (codes "activate")
      then session_activate now args
      else if text_eq command (codes "end")
      then session_end args
      else if text_eq command (codes "list")
      then session_list now
      else pure (fatal (unknown_command command))
