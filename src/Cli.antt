-- ===== src/Cli.antt =====
-- cmd/flashaccess/main.go: the command line, which puts the parts together. The hooks of the manager
-- are those of the activator on the host, its store the encrypted one on the vault. What the
-- command prints is a value, with no layout; the log is left out. A round of the reaper comes two
-- seconds after the start, and the commands but `serve` are over by then.
pub mod Terminal
pub mod Sessions
pub mod Modes
pub mod Connect
pub mod Main
pub mod Handover
pub mod Refusals
use flashaccess.Base.{
  ℕ, zero, suc, ◌+◌, ◌-◌, ◌==◌, ltb, Text, text_eq, codes, Option, none, some, List, [], ◌∷◌, ◌++◌,
  Result, ok, err, if◌then◌else◌, ℤ, pos, negsuc,
}
use flashaccess.Disk.{Json, IoError}
use flashaccess.Config.{Aead, Config, DbConfig, Vault, CfgError, in_dir, load_config}
use flashaccess.Mysql.Driver.{Driver, DbError}
use flashaccess.Mysql.Users.{open_manager}
use flashaccess.Firewall.{Firewall, ufw, noop}
use flashaccess.Access.{Host, Activator, ActError, Hook, provision, revoke}
use flashaccess.Session.{Session, Status}
use flashaccess.Session.State.{Setup, State, Effect, Persister, MgrError}
use flashaccess.Session.Manager.{Drawn}
use flashaccess.Session.Manager.Running.{new_id}
use flashaccess.Session.Restart.{new_manager}
use flashaccess.Session.Keys.{Derivation, KeyError, generate_key, hash_key, verify_key}
use flashaccess.Session.Persisters.{encrypted_persister}
use flashaccess.Web.Site.{World, Site}

-- the libraries that the program calls: AES-GCM, JSON, Argon2id, bcrypt, and the parser of durations
pub record Program : Type 0 where
  pub gcm : Aead
  pub config_json : Json Config
  pub sessions_json : Json (List Session)
  pub derive : Derivation
  pub hash_password : Text → Option Text
  pub parse_duration : Text → Option ℤ
  pub dsn_fault : Text → Option Text

-- the errors of the manager's hooks, its store and its draws
pub data ProgramError : Type 0 where
  act : ActError → ProgramError
  stored : CfgError → ProgramError
  keyed : KeyError → ProgramError
  no_id : ProgramError

pub data CliError : Type 0 where
  no_config save_failed : CfgError → CliError
  no_mysql : DbError → CliError
  start_failed : ProgramError → CliError
  manager_failed : MgrError ProgramError → CliError
  unknown_mode unknown_command bad_duration bad_address : Text → CliError
  wipe_failed : IoError → CliError
  bad_usage short_password no_hash : CliError

-- a line of `session list`; what is left of a live session is in whole seconds
pub record ListedSession : Type 0 where
  pub id : Text
  pub status : Status
  pub created_at : ℕ
  pub expires_at : ℕ
  pub left : Option ℕ
  pub allowed_cidr : Text
  pub db_user : Text

-- what a command ends with: the usage or an error, both with the exit code 1, or what it prints;
-- `serves` is the server, with its address and the mode, before its first request
pub data Exit : Type 0 where
  usage_shown : Exit
  fatal : CliError → Exit
  shows_version : Exit
  shows_mode sets_mode : Text → Exit
  configured : Text → Exit
  shows_key : Text → Text → ℕ → Exit
  shows_account : Text → ℤ → Text → Text → ℕ → Exit
  session_ended : Exit
  no_sessions : Exit
  lists : List ListedSession → Exit
  serves : Text → Text → Site → Exit

-- `config.DefaultDir`
abbrev pub default_dir : Text
default_dir = codes "/var/lib/flashaccess"

abbrev pub sessions_path : Text
sessions_path = in_dir default_dir (codes "sessions.enc")

-- a call of the host, and of the vault, in the world of both
abbrev pub from_host :
    {A : Type 0} → World → Result ActError A × Host → Result ProgramError A × World
from_host w (ok a, h) = (ok a, record w { host = h })
from_host w (err e, h) = (err (act e), record w { host = h })

abbrev pub on_host : {A : Type 0} → Hook A → Effect World ProgramError A
on_host f w = from_host w (f w.host)

abbrev pub from_vault :
    {A : Type 0} → World → Result CfgError A × Vault → Result ProgramError A × World
from_vault w (ok a, v) = (ok a, record w { vault = v })
from_vault w (err e, v) = (err (stored e), record w { vault = v })

abbrev pub on_vault :
    {A : Type 0} → (Vault → Result CfgError A × Vault) → Effect World ProgramError A
on_vault f w = from_vault w (f w.vault)

-- a result of package session's keys
abbrev pub as_keyed : {A : Type 0} → Result KeyError A → Result ProgramError A
as_keyed (ok a) = ok a
as_keyed (err e) = err (keyed e)

-- the random bytes that `New` draws: of the key, of the salt, of the id
pub record Draws : Type 0 where
  pub key : Option Text
  pub salt : Option Text
  pub id : Option Text

module _ (p : Program) where
  abbrev hash_of : Option Text → Result KeyError Text → Result ProgramError Text
  hash_of salt (err e) = err (keyed e)
  hash_of salt (ok key) = as_keyed (hash_key p.derive key salt)

  -- what `New` makes of them
  abbrev pub drawn_by : Draws → Drawn ProgramError
  drawn_by d = record {
    raw_key = as_keyed (generate_key d.key);
    hash = hash_of d.salt (generate_key d.key);
    id = new_id no_id d.id;
  }

  -- the session store of `main`
  abbrev pub session_store : Persister World ProgramError
  session_store =
      let store = encrypted_persister p.sessions_json sessions_path p.gcm default_dir in
      record { save_all = λ l. on_vault (store.save_all l); load_all = on_vault store.load_all }

  -- the manager of `main`
  abbrev pub setup_of : Activator → Setup World ProgramError
  setup_of a = record {
    hooks = record {
      on_provision = some (λ s. on_host (provision a s));
      on_revoke = some (λ s. on_host (revoke a s));
    };
    store = some session_store;
    verify_key = λ key hash. as_keyed (verify_key p.derive key hash);
  }

-- what runs behind the start-up of `main`
pub record Started : Type 0 where
  pub cfg : Config
  pub fw : Firewall
  pub setup : Setup World ProgramError
  pub mgr : State World

-- `FLASHACCESS_NOFW` and `FLASHACCESS_ADDR`
pub record Environment : Type 0 where
  pub no_fw : Text
  pub addr : Text

abbrev pub firewall_of : Environment → Firewall
firewall_of env = if text_eq env.no_fw (codes "1") then noop else ufw []

abbrev pub port_or_default : ℤ → ℤ
port_or_default (pos zero) = pos 3306
port_or_default (pos (suc n)) = pos (suc n)
port_or_default (negsuc n) = negsuc n

abbrev pub activator_of : Config → Environment → Activator
activator_of cfg env = record { fw = firewall_of env; port = port_or_default cfg.db.port }

module _ (p : Program) (env : Environment) where
  abbrev pub manager_started :
      Config → World → Result ProgramError (State World) → Result CliError Started × World
  manager_started cfg w (err e) = (err (start_failed e), w)
  manager_started cfg w (ok st) = (
    ok (record {
      cfg = cfg;
      fw = firewall_of env;
      setup = setup_of p (activator_of cfg env);
      mgr = st;
    }),
    st.world,
  )

  abbrev pub mysql_opened :
      Config → World → Result DbError (Unit {0}) × Driver → Result CliError Started × World
  mysql_opened cfg w (err e, d) = (err (no_mysql e), record w { host = record w.host { db = d } })
  mysql_opened cfg w (ok _, d) =
      let w' = record w { host = record w.host { db = d } } in
      manager_started cfg ((session_store p).load_all w').1
        (new_manager (setup_of p (activator_of cfg env)) w')

  abbrev pub config_loaded :
      World → Result CfgError Config × Vault → Result CliError Started × World
  config_loaded w (err e, v) = (err (no_config e), record w { vault = v })
  config_loaded w (ok cfg, v) =
      mysql_opened cfg (record w { vault = v }) (open_manager p.dsn_fault cfg.db w.host.db)

  -- the start-up of `main`, for the commands that need a configuration and the database
  unfoldable pub start_up : World → Result CliError Started × World
  start_up w = config_loaded w (load_config p.gcm p.config_json default_dir w.vault)
