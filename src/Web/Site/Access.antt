-- ===== src/Web/Site/Access.antt =====
-- The handlers of the playground and of the permanent grants. The program always has a firewall.
pub mod Granting
use flashaccess.Base.{
  Text, text_eq, codes, Bool, false, not, ◌&&◌, Option, none, some, List, [], ◌∷◌, ◌++◌, Result, ok,
  err, has_prefix, drop, trim_space, if◌then◌else◌, ℕ,
}
use flashaccess.Mysql.Driver.{Driver, DbError}
use flashaccess.Mysql.Names.{playground_db_name}
use flashaccess.Mysql.Accounts.{create_admin_user, drop_admin_user}
use flashaccess.Mysql.Databases.{
  create_database, drop_database, create_playground_db, drop_playground_db, clone_database,
  generate_sample_database,
}
use flashaccess.Mysql.Users.{UserInfo, list_users}
use flashaccess.Mysql.Rows.{insert_row, update_row, delete_row}
use flashaccess.Firewall.{Shell, FwError, allow, deny}
use flashaccess.Disk.{Disk, IoError}
use flashaccess.Session.{Session}
use flashaccess.Session.State.{MgrError}
use flashaccess.Session.Manager.{active_session, set_playground_db}
use flashaccess.Web.Forms.{Values, form_value}
use flashaccess.Web.Grants.{PermanentGrant, PermanentStore, add, remove_grant, get_grant}
use flashaccess.Web.Site.{
  App, Call, DashBase, View, users, Reply, redirect, redirect_db, redirect_fw, redirect_mgr,
  http_error, page, panics, Action, Site, reply, on_db, on_mgr, ok_or, fails_with, with_form,
  build_dash_base,
}
use flashaccess.Web.Site.Pages.{is_strict}
use flashaccess.Web.Site.Changes.{or_any}

-- a call of the firewall, and what follows
abbrev pub then_shell : {A : Type 0} → A × Shell → (A → Action) → Action
then_shell (a, sh) k s = k a (record s {
  server = record s.server {
    mgr = record s.server.mgr {
      world = record s.server.mgr.world { host = record s.server.mgr.world.host { shell = sh } };
    };
  };
})

abbrev pub on_shell : {A : Type 0} → (Shell → A × Shell) → (A → Action) → Action
on_shell f k s = then_shell (f s.server.mgr.world.host.shell) k s

-- a call of the store of the grants, whose error is ignored
abbrev pub stored : Action → Result IoError (Unit {0}) × PermanentStore × Disk → Site → Site
stored k (r, ps, d) s = record s {
  server = record s.server {
    mgr = record s.server.mgr {
      world = record s.server.mgr.world { vault = record s.server.mgr.world.vault { disk = d } };
    };
  };
  grants = ps;
}

abbrev pub on_grants :
    (PermanentStore → Disk → Result IoError (Unit {0}) × PermanentStore × Disk) → Action → Action
on_grants f k s = k (stored k (f s.grants s.server.mgr.world.vault.disk) s)

module _ {E : Type 0} (app : App E) where
  -- a call whose error is ignored
  abbrev pub ignoring : {A : Type 0} → (Driver → Result DbError A × Driver) → Action → Action
  ignoring f k = on_db f (λ _. k)

  -- the drop of a playground, if the session has one
  abbrev pub without_old : Text → Action → Action
  without_old [] k = k
  without_old (x ∷ old) k = ignoring (drop_playground_db (x ∷ old)) k

  abbrev playground_recorded : Text → Result (MgrError E) (Unit {0}) → Action
  playground_recorded name (err e) = reply (redirect_mgr (codes "/playground?error="))
  playground_recorded name (ok _) =
      reply (redirect (codes "/dashboard/" ++ (name ++ codes "?notice=Playground+ready")))

  abbrev pub playground_filled : Session → Text → Result DbError (Unit {0}) → Action
  playground_filled a name (err e) =
      ignoring (drop_playground_db name) (reply (redirect_db (codes "/playground?error=") e))
  playground_filled a name (ok _) =
      on_mgr (set_playground_db app.setup a.id name) (playground_recorded name)

  -- the source of a clone
  abbrev pub clone_from : Session → Text → Text → Action
  clone_from a name [] =
      reply (redirect (codes "/playground?error=source+database+required+for+clone"))
  clone_from a name (x ∷ src) = on_db (clone_database (x ∷ src) name) (playground_filled a name)

  abbrev pub playground_made : Values → Session → Text → Result DbError (Unit {0}) → Action
  playground_made f a name (err e) = reply (redirect_db (codes "/playground?error=") e)
  playground_made f a name (ok _) =
      if text_eq (form_value (codes "mode") f) (codes "clone")
      then clone_from a name (form_value (codes "source_db") f)
      else on_db (generate_sample_database name) (playground_filled a name)

  abbrev pub make_playground : Values → Option Session → Action
  make_playground f none = reply (redirect (codes "/setup"))
  make_playground f (some a) =
      let name = playground_db_name a.id in
      without_old a.playground_db (on_db (create_playground_db name) (playground_made f a name))

  -- `handlePlaygroundCreate`
  unfoldable pub handle_playground_create : Call → ℕ → Action
  handle_playground_create c now =
      with_form c.form (λ f. on_mgr (active_session app.setup now) (make_playground f))

  abbrev old_dropped : Session → Text → Action
  old_dropped a [] = reply (redirect (codes "/playground"))
  old_dropped a (x ∷ old) = ignoring (drop_playground_db (x ∷ old)) (
      on_mgr (set_playground_db app.setup a.id [])
        (λ _. reply (redirect (codes "/playground?notice=Playground+dropped"))))

  abbrev drop_of : Option Session → Action
  drop_of none = reply (redirect (codes "/playground"))
  drop_of (some a) = old_dropped a a.playground_db

  -- `handlePlaygroundDrop`
  unfoldable pub handle_playground_drop : ℕ → Action
  handle_playground_drop now = on_mgr (active_session app.setup now) drop_of

  -- the grant that a form asks for
  abbrev pub grant_of : Values → Text → ℕ → PermanentGrant
  grant_of f id now = record {
    id = id;
    db_user = trim_space (form_value (codes "username") f);
    db_host = or_any (trim_space (form_value (codes "host") f));
    allowed_cidr = trim_space (form_value (codes "cidr") f);
    port = app.cfg.db.port;
    priv_level = form_value (codes "privs") f;
    description = trim_space (form_value (codes "description") f);
    created_at = now;
  }

  abbrev pub granted_reply : Text → Result FwError (Unit {0}) → Reply
  granted_reply user (ok _) = redirect (codes "/permanent?notice=Access+granted+for+" ++ user)
  granted_reply user (err e) =
      redirect_fw (codes "/permanent?notice=User+created+but++firewall+open+failed:+") e

  abbrev pub recorded : PermanentGrant → Result FwError (Unit {0}) → Action
  recorded g r = on_grants (add app.grants_json g) (reply (granted_reply g.db_user r))

  abbrev pub opens : Values → Text → Bool
  opens f [] = false
  opens f (x ∷ cidr) = text_eq (form_value (codes "open_firewall") f) (codes "1")

  abbrev pub granted : Values → PermanentGrant → Result DbError (Unit {0}) → Action
  granted f g (err e) = reply (redirect_db (codes "/permanent?error=") e)
  granted f g (ok _) =
      if opens f g.allowed_cidr
      then on_shell (allow app.fw g.allowed_cidr g.port (codes "permanent:" ++ g.id)) (recorded g)
      else recorded g (ok tt)

  -- `handlePermanentGrant`, with the id of `newGrantID`
  unfoldable pub handle_permanent_grant : Call → Text → ℕ → Action
  handle_permanent_grant c id now = with_form c.form (λ f.
      let g = grant_of f id now in
      on_db
        (create_admin_user g.db_user g.db_host (trim_space (form_value (codes "password") f))
          g.priv_level)
        (granted f g))

  abbrev pub forget : Text → Action
  forget id =
      on_grants (remove_grant app.grants_json id)
        (reply (redirect (codes "/permanent?notice=Access+revoked")))

  abbrev pub closed : PermanentGrant → Text → Action → Action
  closed g [] k = k
  closed g (x ∷ cidr) k = on_shell (deny app.fw (x ∷ cidr) g.port) (λ _. k)

  abbrev pub revoke_grant : Text → Option PermanentGrant → Action
  revoke_grant id none = reply (redirect (codes "/permanent?error=grant+not+found"))
  revoke_grant id (some g) =
      ignoring (drop_admin_user g.db_user g.db_host) (closed g g.allowed_cidr (forget id))

  abbrev pub revoke_in : Values → Action
  revoke_in f s = let id = form_value (codes "id") f in revoke_grant id (get_grant id s.grants) s

  -- `handlePermanentRevoke`
  unfoldable pub handle_permanent_revoke : Call → Action
  handle_permanent_revoke c = with_form c.form revoke_in
