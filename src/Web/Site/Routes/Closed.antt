-- ===== src/Web/Site/Routes/Closed.antt =====
-- The routes of `Handler`, behind `requireAuth`.
use flashaccess.Base.{Text, Option, none, some, List, ◌≡◌, refl, ap, Bool-cases, inl, inr, ◌⊎◌}
use flashaccess.Session.{Session, ip_allowed}
use flashaccess.Session.Lock.{Outcome, returns, blocks, r_lock, r_unlock}
use flashaccess.Session.State.{Sessions, snapshot}
use flashaccess.Session.Manager.{active_session, first_live}
use flashaccess.Web.Auth.{Tokens, validate}
use flashaccess.Web.Auth.Tokens.{Event, history}
use flashaccess.Web.Client.{Request, real_ip, or_nil}
use flashaccess.Web.Gate.{
  Response, Server, Times, Page, forwarded, redirect, gate, error_page, not_found, setup_page,
  key_page, require_auth, guarded, passed,
}
use flashaccess.Web.Gate.Passage.{serving, IsForwarded, Passes, require_auth-Passes}
use flashaccess.Web.Grants.{PermanentStore}
use flashaccess.Web.Site.{World, Site, App, answered, Action, reply}
use flashaccess.Web.Site.Routes.{Endpoint, Visit, served, page_or, handle, serve}

-- Nothing outside of the tokens has changed: not the databases, the firewall or the files, nor the
-- sessions and the grants.
pub record Untouched (s s' : Site) : Type 0 where
  pub same_world : s'.server.mgr.world ≡ s.server.mgr.world
  pub same_sessions : s'.server.mgr.sessions ≡ s.server.mgr.sessions
  pub same_grants : s'.grants ≡ s.grants

page-Untouched :
    (p : Page) (r : Response) (next : Action) (s s' : Site)
    → Untouched s s'
    → Untouched s (page_or p next (reply (answered r)) s').1 ⊎ (p ≡ forwarded)
page-Untouched forwarded r next s s' h = inr refl
page-Untouched (redirect _) r next s s' h = inl h
page-Untouched (gate _ _) r next s s' h = inl h
page-Untouched (error_page _) r next s s' h = inl h
page-Untouched not_found r next s s' h = inl h
page-Untouched (setup_page _ _ _ _) r next s s' h = inl h
page-Untouched (key_page _ _ _ _ _) r next s s' h = inl h

-- a server with the manager of the site
mgr-Untouched :
    (s : Site) (srv : Server World)
    → srv.mgr ≡ s.server.mgr
    → Untouched s (record s { server = srv })
mgr-Untouched s srv e = record {
  same_world = ap (λ m. m.world) e;
  same_sessions = ap (λ m. m.sessions) e;
  same_grants = refl;
}

module _ {E : Type 0} (app : App E) where
  served-Untouched :
      (out : Outcome Response × Server World) (next : Action) (s : Site)
      → out.1.mgr ≡ s.server.mgr
      → Untouched s (served out (λ r. page_or r.page next (reply (answered r))) s).1
        ⊎ IsForwarded app.setup out.0
  served-Untouched (blocks, srv) next s e = inl (mgr-Untouched s srv e)
  served-Untouched (returns r, srv) next s e =
      page-Untouched r.page r next s (record s { server = srv }) (mgr-Untouched s srv e)

  passed-mgr :
      (a : Session) (v : Option Text × Tokens) (srv : Server World)
      → (passed a v srv).1.mgr ≡ srv.mgr
  passed-mgr a (none, m) srv = refl
  passed-mgr a (some id, m) srv = refl

  guarded-mgr :
      (r : Request) (t : Times) (o : Option Session) (srv : Server World)
      → (guarded r t o srv).1.mgr ≡ srv.mgr
  guarded-mgr r t none srv = refl
  guarded-mgr r t (some a) srv = elim (Bool-cases (ip_allowed a (or_nil (real_ip r)))) [
    | inl e ↦ rw e (passed-mgr a (validate r.cookie t.check srv.tokens) srv)
    | inr e ↦ rw e refl
  ]

  require_auth-mgr :
      (r : Request) (t : Times) (ss : Sessions) (w : World) (m : Tokens)
      → (require_auth app.setup r t (serving ss w m)).1.mgr ≡ (serving ss w m).mgr
  unfolding require_auth active_session r_lock r_unlock
  require_auth-mgr r t ss w m = guarded-mgr r t (first_live t.lookup (snapshot ss)) (serving ss w m)

  -- A request to a route behind the middleware, with the manager's lock free and the tokens as any
  -- sequence of operations left them, leaves the databases, the firewall, the files, the sessions
  -- and the grants untouched, or it has passed the check: it comes from the bound address of a live
  -- session and has a token that was issued for it.
  pub serve-Passes :
      (e : Endpoint) (v : Visit) (ss : Sessions) (w : World) (es : List Event) (g : PermanentStore)
      → let s : Site = record { server = serving ss w (history es); grants = g } in
        Untouched s (serve app e v s).1 ⊎ Passes app.setup v.call.request v.times ss es
  unfolding serve
  serve-Passes e v ss w es g =
      elim (served-Untouched
        (require_auth app.setup v.call.request v.times (serving ss w (history es))) (handle app e v)
        (record { server = serving ss w (history es); grants = g })
        (require_auth-mgr v.call.request v.times ss w (history es))) [
          | inl same ↦ inl same
          | inr f ↦ inr (require_auth-Passes app.setup v.call.request v.times ss w es f)
        ]
