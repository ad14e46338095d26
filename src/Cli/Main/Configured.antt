-- ===== src/Cli/Main/Configured.antt =====
-- `cmdConnect`, and the start-up of `main` in a later process.
use flashaccess.Base.{
  Text, text_eq, some, Result, ok, err, ◌≡◌, refl, sym, ◌∙◌, ap, subst, inl, inr, ◌⊎◌,
}
use flashaccess.Config.{
  Config, Vault, CfgError, mode_strict, mode_unrestricted, effective_mode, load_config,
}
use flashaccess.Config.Sealing.{mended}
use flashaccess.Mysql.Driver.{Driver, DbError}
use flashaccess.Mysql.Users.{open_manager}
use flashaccess.Session.State.{State}
use flashaccess.Web.Site.{World}
use flashaccess.Cli.{
  Program, ProgramError, Environment, CliError, start_failed, Started, configured, default_dir,
  start_up, config_loaded, mysql_opened, manager_started,
}
use flashaccess.Cli.Connect.{ask_config, cmd_connect}
use flashaccess.Cli.Terminal.{Setting}
use flashaccess.Cli.Connect.Saved.{IsMade, cmd_connect-IsMade}

-- How a start ends that has the configuration `c`: with `c` as it is, and the mode `m` in effect; or
-- the stored sessions cannot be loaded.
abbrev pub StartsWith : Config → Text → Result CliError Started → Type 0
StartsWith c m (ok s) = (s.cfg ≡ c) × (effective_mode s.cfg ≡ m)
StartsWith c m (err e) = (x : ProgramError) × (e ≡ start_failed x)

effective_mode-one :
    (c : Config) → (c.mode ≡ mode_strict) ⊎ (c.mode ≡ mode_unrestricted) → effective_mode c ≡ c.mode
unfolding effective_mode text_eq
effective_mode-one c (inl e) = rw e refl
effective_mode-one c (inr e) = rw e refl

module _ (p : Program) (env : Environment) (c : Config) (m : Text)
    (same : effective_mode c ≡ m) where
  manager_started-StartsWith :
      (w : World) (r : Result ProgramError (State World))
      → StartsWith c m (manager_started p env c w r).0
  manager_started-StartsWith w (err e) = (e, refl)
  manager_started-StartsWith w (ok st) = (refl, same)

  mysql_opened-StartsWith :
      (w : World) (out : Result DbError (Unit {0}) × Driver)
      → out.0 ≡ ok tt
      → StartsWith c m (mysql_opened p env c w out).0
  mysql_opened-StartsWith w (err e, d) h = absurd (cc)
  mysql_opened-StartsWith w (ok _, d) h = manager_started-StartsWith _ _

  config_loaded-StartsWith :
      (w : World) (out : Result CfgError Config × Vault)
      → out.0 ≡ ok c
      → (open_manager p.dsn_fault c.db w.host.db).0 ≡ ok tt
      → StartsWith c m (config_loaded p env w out).0
  config_loaded-StartsWith w (err e, v) h opens = absurd (cc)
  config_loaded-StartsWith w (ok c', v) h opens =
      subst (λ r. StartsWith c m (config_loaded p env w (r, v)).0) (sym h)
        (mysql_opened-StartsWith (record w { vault = v }) (open_manager p.dsn_fault c.db w.host.db)
          opens)

module _ (p : Program)
    (unseals : (k n t : Text) → p.gcm.unseal k n (p.gcm.seal k n t) ≡ some t) where
  -- When the answers have made the configuration `c`, which JSON reads back, as it does one whose
  -- texts are valid UTF-8, and `cmdConnect` has reported a configuration in mode `m`, whatever failed
  -- before, then a later process on a disk that works, and that reaches the database of `c`, starts
  -- with `c`, in mode `m`; only the stored sessions can keep it from starting. `c` has one of the
  -- two modes, the hash of a password of eight bytes at least, and a port that is not zero.
  pub start_up-StartsWith :
      (c : Config) (s s1 s' : Setting) (m : Text) (env : Environment) (w : World)
      → p.config_json.unmarshal (p.config_json.marshal c) ≡ some c
      → ask_config p s ≡ (ok c, s1)
      → cmd_connect p s ≡ (configured m, s')
      → w.vault ≡ mended s'.world.vault
      → (open_manager p.dsn_fault c.db w.host.db).0 ≡ ok tt
      → IsMade p c × StartsWith c m (start_up p env w).0
  unfolding start_up
  start_up-StartsWith c s s1 s' m env w reads asked ends same_vault opens =
      let (made, same, holds) = cmd_connect-IsMade p unseals c reads s s1 s' m asked ends in
      (
        made,
        config_loaded-StartsWith p env c m (effective_mode-one c made.one_mode ∙ sym same) w
            (load_config p.gcm p.config_json default_dir w.vault)
            (ap (λ v. (load_config p.gcm p.config_json default_dir v).0) same_vault ∙ holds) opens,
      )
