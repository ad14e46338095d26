-- ===== src/Cli/Main/Closed.antt =====
-- The start-up of `main`, `cmdServe`, and the first request to the server that it starts.
use flashaccess.Base.{Text, [], Result, ok, err, ◌≡◌, refl, sym, ◌∙◌, ap, subst, inl, inr, ◌⊎◌}
use flashaccess.Config.{Config, Vault, CfgError}
use flashaccess.Disk.{Disk}
use flashaccess.Mysql.Driver.{Driver, DbError}
use flashaccess.Mysql.Users.{open_manager}
use flashaccess.Session.Lock.{unlocked}
use flashaccess.Session.State.{State, Setup}
use flashaccess.Session.Restart.{new_manager-unlocked}
use flashaccess.Session.Manager.Leak.{at}
use flashaccess.Stats.{Floats}
use flashaccess.Web.Auth.Tokens.{history, Standing-ne-nil}
use flashaccess.Web.Gate.Passage.{Passes}
use flashaccess.Web.Grants.{GrantsJson, PermanentStore}
use flashaccess.Web.Site.{World, Site, App}
use flashaccess.Web.Site.Routes.{Endpoint, Visit, serve}
use flashaccess.Web.Site.Routes.Closed.{Untouched, serve-Passes}
use flashaccess.Cli.{
  Program, ProgramError, Environment, CliError, Started, Exit, serves, start_up, config_loaded,
  mysql_opened, manager_started, activator_of, setup_of,
}
use flashaccess.Cli.Main.{new_server, cmd_serve}

abbrev pub app_of : GrantsJson → Floats → Started → App ProgramError
app_of json floats s = record {
  cfg = s.cfg;
  setup = s.setup;
  fw = s.fw;
  grants_json = json;
  floats = floats;
}

module _ (p : Program) (env : Environment) where
  manager_started-unlocked :
      (cfg : Config) (w w' : World) (r : Result ProgramError (State World)) (s : Started)
      → ((st : State World) → r ≡ ok st → st.mutex ≡ unlocked)
      → manager_started p env cfg w r ≡ (ok s, w')
      → s.mgr.mutex ≡ unlocked
  manager_started-unlocked cfg w w' (err e) s free h = absurd (cc (ap (λ o. o.0) h))
  manager_started-unlocked cfg w w' (ok st) s free h =
      ap (λ m. m.mutex) (sym (mgr_inj _ s (ap (λ o. o.0) h))) ∙ free st refl
    where
      mgr_inj : (a b : Started) → ◌≡◌ {A = Result CliError Started} (ok a) (ok b) → a.mgr ≡ b.mgr
      mgr_inj a b e = cc

  mysql_opened-unlocked :
      (cfg : Config) (w w' : World) (out : Result DbError (Unit {0}) × Driver) (s : Started)
      → mysql_opened p env cfg w out ≡ (ok s, w')
      → s.mgr.mutex ≡ unlocked
  mysql_opened-unlocked cfg w w' (err e, d) s h = absurd (cc (ap (λ o. o.0) h))
  mysql_opened-unlocked cfg w w' (ok _, d) s h =
      manager_started-unlocked cfg _ w' _ s
        (λ st e. new_manager-unlocked (setup_of p (activator_of cfg env)) _ st e) h

  config_loaded-unlocked :
      (w w' : World) (out : Result CfgError Config × Vault) (s : Started)
      → config_loaded p env w out ≡ (ok s, w')
      → s.mgr.mutex ≡ unlocked
  config_loaded-unlocked w w' (err e, v) s h = absurd (cc (ap (λ o. o.0) h))
  config_loaded-unlocked w w' (ok cfg, v) s h =
      mysql_opened-unlocked cfg (record w { vault = v }) w'
        (open_manager p.dsn_fault cfg.db w.host.db) s h

  pub start_up-unlocked :
      (w w' : World) (s : Started) → start_up p env w ≡ (ok s, w') → s.mgr.mutex ≡ unlocked
  unfolding start_up
  start_up-unlocked w w' s h = config_loaded-unlocked w w' _ s h

-- Nothing passes before a token was issued.
not_passed :
    (u : Setup World ProgramError) (v : Visit) (site : Site) (rest : Site)
    → Untouched site rest ⊎ Passes u v.call.request v.times site.server.mgr.sessions []
    → Untouched site rest
not_passed u v site rest (inl same) = same
not_passed u v site rest (inr h) =
    absurd (Standing-ne-nil h.vouched.token h.vouched.entry [] h.vouched.standing refl)

fresh_site-Untouched :
    (app : App ProgramError) (e : Endpoint) (v : Visit) (st : State World)
    (out : PermanentStore × Disk)
    → st.mutex ≡ unlocked
    → Untouched (new_server st out) (serve app e v (new_server st out)).1
unfolding history
fresh_site-Untouched app e v st (g, d) free =
    let w = record st.world { vault = record st.world.vault { disk = d } } in
    subst
      (λ m.
        Untouched (new_server (at m st.sessions st.world) (g, d))
          (serve app e v (new_server (at m st.sessions st.world) (g, d))).1)
      (sym free)
      (not_passed app.setup v (new_server (at unlocked st.sessions st.world) (g, d)) _
        (serve-Passes app e v st.sessions w [] g))

serves_inj : (a b m n : Text) (s t : Site) → ◌≡◌ {A = Exit} (serves a m s) (serves b n t) → s ≡ t
serves_inj a b m n s t e = cc

-- The server that `serve` starts is closed to every cookie, also to those of an earlier process,
-- though the sessions are back: a request to a route behind the middleware leaves the databases, the
-- firewall, the files, the sessions and the grants untouched.
pub start_up-Untouched :
    (p : Program) (env : Environment) (json : GrantsJson) (floats : Floats) (w w' : World)
    (s : Started) (addr mode : Text) (site : Site) (e : Endpoint) (v : Visit)
    → start_up p env w ≡ (ok s, w')
    → cmd_serve json env s ≡ serves addr mode site
    → Untouched site (serve (app_of json floats s) e v site).1
unfolding cmd_serve
start_up-Untouched p env json floats w w' s addr mode site e v started served =
    subst (λ x. Untouched x (serve (app_of json floats s) e v x).1)
      (serves_inj _ addr _ mode _ site served)
      (fresh_site-Untouched (app_of json floats s) e v s.mgr _
        (start_up-unlocked p env w w' s started))
