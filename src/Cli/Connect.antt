-- ===== src/Cli/Connect.antt =====
-- `cmdConnect` and `stopService`: the configuration, as it is asked for at the terminal.
pub mod Saved
use flashaccess.Base.{
  ℕ, ◌-◌, ◌^◌, ltb, ◌==◌, ◌||◌, ◌&&◌, Bool, true, false, not, Text, text_eq, codes, Option, none,
  some, List, [], ◌∷◌, ◌++◌, Result, ok, err, if◌then◌else◌, ℤ, pos, negsuc, negated, length,
  trim_space, to_lower, has_prefix,
}
use flashaccess.Disk.{Disk, IoError, io_error, IoOutcome, done, fails, next_outcome, spent}
use flashaccess.Config.{
  Config, Vault, CfgError, mode_strict, mode_unrestricted, save_config, load_config,
}
use flashaccess.Mysql.Driver.{Driver, DbError}
use flashaccess.Mysql.Users.{open_manager}
use flashaccess.Firewall.{Shell, FwError, run_command}
use flashaccess.Session.Keys.{skip_blanks, number_here}
use flashaccess.Web.Site.{World}
use flashaccess.Cli.{
  Program, CliError, no_mysql, save_failed, wipe_failed, short_password, no_hash, Exit, fatal,
  configured, default_dir, port_or_default,
}
use flashaccess.Cli.Terminal.{
  Setting, Step, done_with, prompt, prompt_yn, read_password, stops, ◌>>=◌, ◌>>◌,
}

abbrev ran : World → Result FwError (Unit {0}) × Shell → World
ran w (r, sh) = record w { host = record w.host { shell = sh } }

abbrev stopped_by : Option Text → World → World
stopped_by none w = w
stopped_by (some path) w =
    let words = codes "stop" ∷ codes "flashaccess" ∷ [] in
    ran w (run_command (path ∷ words) words w.host.shell)

-- `stopService`, whose error is ignored
abbrev pub stop_service : Step (Unit {0})
stop_service s =
    (ok tt, record s { world = stopped_by (s.world.host.shell.path (codes "systemctl")) s.world })

-- the files that stay when those in a directory go
abbrev outside : Text → List (Text × Text) → List (Text × Text)
outside dir [] = []
outside dir ((path, content) ∷ files) =
    let rest = outside dir files in
    if has_prefix path (dir ++ codes "/") then rest else (path, content) ∷ rest

-- `os.RemoveAll`; how much one that fails has removed is not known, and nobody looks: the program
-- ends, and the model has nothing removed
abbrev removed : Text → IoOutcome → Disk → Result CliError (Unit {0}) × Disk
removed dir done d = (ok tt, record (spent d) { files = outside dir d.files })
removed dir (fails _) d = (err (wipe_failed io_error), spent d)

abbrev with_disk :
    Setting → Result CliError (Unit {0}) × Disk → Result CliError (Unit {0}) × Setting
with_disk s (r, d) =
    (r, record s { world = record s.world { vault = record s.world.vault { disk = d } } })

abbrev pub remove_all : Text → Step (Unit {0})
remove_all dir s =
    let d = s.world.vault.disk in with_disk s (removed dir (next_outcome d.outcomes) d)

abbrev negative : Option (ℕ × Text) → ℤ
negative none = pos 0
negative (some (n, rest)) = negated n

abbrev positive : Option (ℕ × Text) → ℤ
positive none = pos 0
positive (some (n, rest)) = pos n

abbrev signed_here : Text → ℤ
signed_here [] = pos 0
signed_here (c ∷ s) =
    if c == b'-'
    then negative (number_here (2 ^ 63) s)
    else if c == b'+'
    then positive (number_here (2 ^ 63 - 1) s)
    else positive (number_here (2 ^ 63 - 1) (c ∷ s))

-- the port that "%d" reads, zero where it reads none
unfoldable pub scan_port : Text → ℤ
unfolding skip_blanks
scan_port s = signed_here (skip_blanks s)

abbrev on_vault : {A : Type 0} → Setting → Result CfgError A × Vault → Result CfgError A × Setting
on_vault s (r, v) = (r, record s { world = record s.world { vault = v } })

module _ (p : Program) where
  -- an existing configuration may be wiped, the service stopped before
  abbrev wiped : Bool → Step (Unit {0})
  wiped false = done_with tt
  wiped true = do stop_service; remove_all default_dir

  abbrev offered : Result CfgError Config × Setting → Result CliError (Unit {0}) × Setting
  offered (err e, s) = (ok tt, s)
  offered (ok c, s) = (prompt_yn false >>= wiped) s

  abbrev pub offer_wipe : Step (Unit {0})
  offer_wipe s = offered (on_vault s (load_config p.gcm p.config_json default_dir s.world.vault))

  abbrev pub hashed : Option Text → Step Text
  hashed none = stops no_hash
  hashed (some hash) = done_with hash

  -- the hash of the administrator's password, which has eight bytes at least
  abbrev pub hash_admin : Text → Step Text
  hash_admin pw = if ltb (length pw) 8 then stops short_password else hashed (p.hash_password pw)

  abbrev reached :
      Setting → Result DbError (Unit {0}) × Driver → Result CliError (Unit {0}) × Setting
  reached s (ok _, d) =
      (ok tt, record s { world = record s.world { host = record s.world.host { db = d } } })
  reached s (err e, d) = (
    err (no_mysql e),
    record s { world = record s.world { host = record s.world.host { db = d } } },
  )

  abbrev pub try_mysql : Config → Step (Unit {0})
  try_mysql c s = reached s (open_manager p.dsn_fault c.db s.world.host.db)

  abbrev stored :
      Setting → Result CfgError (Unit {0}) × Vault → Result CliError (Unit {0}) × Setting
  stored s (ok _, v) = (ok tt, record s { world = record s.world { vault = v } })
  stored s (err e, v) = (err (save_failed e), record s { world = record s.world { vault = v } })

  abbrev pub store_config : Config → Step (Unit {0})
  store_config c s = stored s (save_config p.gcm p.config_json default_dir c s.world.vault)

  abbrev pub mode_of : Bool → Text
  mode_of strict = if strict then mode_strict else mode_unrestricted

  abbrev pub config_from : Text → Text → Text → Text → Text → Text → Text → Bool → Config
  config_from host port socket user pw listen hash strict = record {
    db = record {
      socket = socket;
      host = host;
      port = port_or_default (scan_port port);
      admin_user = user;
      admin_password = pw;
    };
    listen_addr = listen;
    admin_password_hash = hash;
    defaults = record { duration = codes "30m"; allowed_cidr = [] };
    mode = mode_of strict;
  }

  -- the answers of the terminal, as the configuration that they make
  unfoldable pub ask_config : Step Config
  ask_config = do
    offer_wipe
    host ← prompt (codes "127.0.0.1")
    port ← prompt (codes "3306")
    socket ← prompt []
    user ← prompt (codes "root")
    pw ← read_password
    listen ← prompt (codes "127.0.0.1:7432")
    admin_pw ← read_password
    hash ← hash_admin admin_pw
    strict ← prompt_yn false
    done_with (config_from host port socket user pw listen hash strict)

  -- behind the answers: the database must be reached before the configuration is saved
  abbrev pub keep_config : Config → Step Exit
  keep_config c = do try_mysql c; store_config c; done_with (configured c.mode)

  abbrev pub exit_of : Result CliError Exit × Setting → Exit × Setting
  exit_of (ok x, s) = (x, s)
  exit_of (err e, s) = (fatal e, s)

  -- `cmdConnect`
  unfoldable pub cmd_connect : Setting → Exit × Setting
  cmd_connect s = exit_of ((ask_config >>= keep_config) s)
