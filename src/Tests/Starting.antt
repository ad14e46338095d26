-- ===== src/Tests/Starting.antt =====
-- The theorems on `cmdConnect`, `cmdMode` and the start of the program, on a machine that has nothing
-- yet and on those that it leaves.
use flashaccess.Base.{
  text_eq_iff, ◌≢◌, text_eq, codes, some, [], ◌∷◌, Result, ok, err, find, ◌≡◌, refl, has_prefix,
  put, remove, trim_left, trim_right, trim_space,
}
use flashaccess.Config.{
  Vault, fill, key_path, config_path, Config, mode_strict, decrypt, effective_mode, encrypt,
  load_config, master_key, save_config,
}
use flashaccess.Config.Sealing.{mended}
use flashaccess.Firewall.{noop}
use flashaccess.Mysql.Driver.{connect}
use flashaccess.Session.Lock.{unlocked}
use flashaccess.Session.Manager.Leak.{at}
use flashaccess.Web.Site.{World}
use flashaccess.Cli.{
  sessions_path, serves, Started, CliError, Exit, start_up, configured, Program, Environment,
  setup_of, default_dir,
}
use flashaccess.Cli.Modes.{SetsMode, cmd_mode, cmd_mode-SetsMode}
use flashaccess.Cli.Connect.{cmd_connect, ask_config, scan_port}
use flashaccess.Cli.Terminal.{Setting, prompt, prompt_yn, read_line, read_password, trim_end}
use flashaccess.Cli.Connect.Saved.{IsMade}
use flashaccess.Cli.Main.Returning.{Returns, run_main-Returns}
use flashaccess.Cli.Main.Configured.{StartsWith, start_up-StartsWith}
use flashaccess.Cli.Main.{new_server, cmd_serve, run_main}
use flashaccess.Cli.Main.Closed.{app_of, start_up-Untouched}
use flashaccess.Web.Site.{Site}
use flashaccess.Web.Site.Routes.{serve, api_stats}
use flashaccess.Web.Site.Routes.Closed.{Untouched}
use flashaccess.Tests.Figures.{whole_numbers}
use flashaccess.Tests.{sample}
use flashaccess.Tests.Packing.{config_json, config_reads, marked, marked_unseals}
use flashaccess.Tests.Site.{plain_json, visit}
use flashaccess.Tests.Vaults.{sample_config}
use flashaccess.Disk.{write_atomically}
use flashaccess.Mysql.Users.{open_manager}
use flashaccess.Session.Keys.{scan_digits, skip_blanks}
use flashaccess.Session.Persisters.{load_sealed}
use flashaccess.Session.Restart.{new_manager}
use flashaccess.Tests.Commands.{draws, program, machine, activator}

abbrev environment : Environment
environment = record { no_fw = codes "1"; addr = [] }

abbrev setting : Setting
setting = record {
  terminal = record {
    input = codes "\n3307\n\n\n\ny\n";
    passwords = some (codes "pw") ∷ some (codes "long enough") ∷ [];
  };
  world = machine;
}

abbrev asked : Result CliError Config → Config
asked (ok c) = c
asked (err e) = sample_config

abbrev answers : Result CliError Config × Setting
answers = ask_config program setting

connects :
    (answers ≡ (ok (asked answers.0), answers.1))
    × (cmd_connect program setting ≡ (configured mode_strict, (cmd_connect program setting).1))
unfolding cmd_connect ask_config load_config master_key find put text_eq prompt read_password
    prompt_yn open_manager connect save_config encrypt fill write_atomically trim_space trim_right
    remove has_prefix trim_left read_line scan_port trim_end scan_digits skip_blanks
connects = (refl, refl)

end_ne_new : codes "end" ≢ codes "new"
unfolding text_eq
end_ne_new e = absurd (cc ((text_eq_iff (codes "end") (codes "new")).1 e))

abbrev restarted_world : World
restarted_world = record machine { vault = mended (cmd_connect program setting).1.world.vault }

start_up-StartsWith_example :
    IsMade program (asked answers.0)
    × StartsWith (asked answers.0) mode_strict (start_up program environment restarted_world).0
unfolding open_manager connect
start_up-StartsWith_example =
    start_up-StartsWith program marked_unseals (asked answers.0) setting _ _ mode_strict environment
      restarted_world (config_reads (asked answers.0)) connects.0 connects.1 refl refl

-- the disk that `cmdConnect` has left, with more random bytes
abbrev configured_vault : Vault
configured_vault = record (cmd_connect program setting).1.world.vault {
  entropy = some (codes "other") ∷ [];
}

cmd_mode-SetsMode_example :
    SetsMode marked config_json default_dir
      (codes "unrestricted")
      configured_vault
      (cmd_mode marked config_json default_dir (codes "unrestricted" ∷ []) configured_vault)
cmd_mode-SetsMode_example =
    cmd_mode-SetsMode marked config_json default_dir marked_unseals config_reads
      (codes "unrestricted") [] configured_vault

-- a machine with a configuration and a session, for a program that does not look at the texts
abbrev prepared : World
prepared = record machine {
  vault = record {
    disk = record {
      files =
          (key_path default_dir, fill 32 [])
          ∷ (config_path default_dir, fill 12 [])
          ∷ (sessions_path, fill 12 [])
          ∷ [];
      outcomes = [];
    };
    entropy = [];
  };
}

abbrev constant : Program
constant = record program {
  gcm = record { seal = λ k n t. t; unseal = λ k n t. some t };
  config_json = record { marshal = λ c. []; unmarshal = λ t. some sample_config };
  sessions_json = record { marshal = λ l. []; unmarshal = λ t. some (sample ∷ []) };
}

abbrev unstarted : Started
unstarted = record {
  cfg = sample_config;
  fw = noop;
  setup = setup_of program activator;
  mgr = at unlocked [] machine;
}

abbrev started : Result CliError Started → Started
started (ok s) = s
started (err e) = unstarted

abbrev begun : Result CliError Started × World
begun = start_up constant environment prepared

abbrev site_of : Exit → Site
site_of (serves addr mode site) = site
site_of _ = new_server unstarted.mgr (record { path = []; grants = [] }, machine.vault.disk)

abbrev serving_site : Site
serving_site = site_of (cmd_serve plain_json environment (started begun.0))

starts_up :
    (begun ≡ (ok (started begun.0), begun.1))
    × (cmd_serve plain_json environment (started begun.0)
        ≡ serves (codes ":8080") mode_strict serving_site)
unfolding start_up cmd_serve load_config master_key find text_eq fill open_manager connect
    new_manager load_sealed decrypt effective_mode
starts_up = (refl, refl)

start_up-Untouched_example :
    Untouched serving_site
      (serve (app_of plain_json whole_numbers (started begun.0)) api_stats visit serving_site).1
start_up-Untouched_example =
    start_up-Untouched constant environment plain_json whole_numbers prepared _ _ _ _ serving_site
      api_stats visit starts_up.0 starts_up.1

run_main-Returns_example : Returns (
    run_main plain_json environment program draws 5 setting.terminal
      (codes "session" ∷ codes "end" ∷ codes "a1b2" ∷ [])
      restarted_world)
run_main-Returns_example =
    run_main-Returns plain_json environment program draws 5 setting.terminal (codes "session")
      (codes "end" ∷ codes "a1b2" ∷ []) restarted_world end_ne_new
