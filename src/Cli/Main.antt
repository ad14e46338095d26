-- ===== src/Cli/Main.antt =====
-- `main` and `cmdServe`: which command runs, and what the server starts with. The templates are
-- part of the program, and their parsing is left out.
pub mod Closed
pub mod Configured
pub mod Returning
use flashaccess.Base.{
  ℕ, Text, text_eq, codes, List, [], ◌∷◌, Result, ok, err, if◌then◌else◌, ℤ, Option,
}
use flashaccess.Disk.{Disk}
use flashaccess.Config.{Config, effective_mode, in_dir}
use flashaccess.Session.Lock.{Outcome, returns, blocks}
use flashaccess.Session.State.{State}
use flashaccess.Web.Grants.{GrantsJson, PermanentStore, new_permanent_store}
use flashaccess.Web.Site.{World, Site}
use flashaccess.Cli.{
  Program, Draws, drawn_by, CliError, Exit, usage_shown, fatal, shows_version, serves, Environment,
  Started, start_up, default_dir,
}
use flashaccess.Cli.Sessions.{cmd_session}
use flashaccess.Cli.Modes.{cmd_mode}
use flashaccess.Cli.Connect.{cmd_connect}
use flashaccess.Cli.Terminal.{Setting, Terminal}
use flashaccess.Config.{Vault}

-- the address to listen on: of the environment, of the configuration, or the default
abbrev or_next : Text → Text → Text
or_next [] next = next
or_next (c ∷ s) next = c ∷ s

abbrev pub listen_on : Environment → Config → Text
listen_on env cfg = or_next env.addr (or_next cfg.listen_addr (codes "127.0.0.1:7432"))

abbrev with_disk : World → Disk → World
with_disk w d = record w { vault = record w.vault { disk = d } }

-- `web.New` on the manager that runs, with no tokens and the grants of the file
abbrev pub new_server : State World → PermanentStore × Disk → Site
new_server st (grants, d) = record {
  server = record { mgr = record st { world = with_disk st.world d }; tokens = [] };
  grants = grants;
}

module _ (json : GrantsJson) (env : Environment) where
  -- `cmdServe`, up to the first request
  unfoldable pub cmd_serve : Started → Exit
  cmd_serve s = serves (listen_on env s.cfg) (effective_mode s.cfg) (
      new_server s.mgr (
        new_permanent_store json (in_dir default_dir (codes "permanent_grants.json"))
          s.mgr.world.vault.disk))

  abbrev moded : World → Exit × Vault → Outcome Exit × World
  moded w (x, v) = (returns x, record w { vault = v })

  abbrev connected : Exit × Setting → Outcome Exit × World
  connected (x, s) = (returns x, s.world)

  abbrev left_world : Outcome Exit × State World → Outcome Exit × World
  left_world (x, st) = (x, st.world)

  module _ (p : Program) (draws : Draws) (now : ℕ) where
    abbrev pub running : Text → List Text → Result CliError Started × World → Outcome Exit × World
    running command args (err e, w) = (returns (fatal e), w)
    running command args (ok s, w) =
        if text_eq command (codes "serve")
        then (returns (cmd_serve s), w)
        else if text_eq command (codes "session")
        then left_world
            (cmd_session s.setup s.cfg p.parse_duration (drawn_by p draws) now args s.mgr)
        else (returns usage_shown, w)

    -- `main`, for the arguments behind the program's name
    unfoldable pub run_main : Terminal → List Text → World → Outcome Exit × World
    unfolding cmd_serve text_eq
    run_main terminal [] w = (returns usage_shown, w)
    run_main terminal (command ∷ args) w =
        if text_eq command (codes "version")
        then (returns shows_version, w)
        else if text_eq command (codes "connect")
        then connected (cmd_connect p (record { terminal = terminal; world = w }))
        else if text_eq command (codes "mode")
        then moded w (cmd_mode p.gcm p.config_json default_dir args w.vault)
        else running command args (start_up p env w)
