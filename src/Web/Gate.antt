-- ===== src/Web/Gate.antt =====
-- `requireAuth` of internal/web/auth.go, and `handleGatePost` and `handleSessionEnd` of
-- internal/web/handlers.go. A handler reads the clock anew for each step; the pause after a wrong
-- key is left out.
pub mod Passage
use flashaccess.Base.{
  ℕ, Text, text_eq, codes, Bool, true, false, not, Option, none, some, List, [], ◌∷◌, ◌++◌, Result,
  ok, err, if◌then◌else◌, trim_space,
}
use flashaccess.Net.{Ip, ip_string}
use flashaccess.Session.{Session, ip_allowed}
use flashaccess.Session.Lock.{Outcome, returns, blocks}
use flashaccess.Session.State.{Setup, State, Op, MgrError, ip_rejected}
use flashaccess.Session.Manager.{active_session, verify_access, end}
use flashaccess.Web.Auth.{Tokens, Cookie, issue_token, validate, revoke_session, cleared_cookie}
use flashaccess.Web.Client.{Request, real_ip, or_nil}

-- what the page of the setup says
pub data SetupNotice : Type 0 where
  nothing_wrong invalid_form not_configured wrong_password no_address out_of_range failed_start :
      SetupNotice
  invalid_duration : Text → SetupNotice

-- what a request is answered with; `forwarded` stands for the handler behind the middleware. The
-- page of a setup has the defaults for a duration and an address, and the client's address; the
-- page of a key has the key, the session, its address, its end, and the time.
pub data Page : Type 0 where
  forwarded : Page
  redirect : Text → Page
  gate : Text → Text → Page
  error_page : ℕ → Page
  not_found : Page
  setup_page : SetupNotice → Text → Text → Text → Page
  key_page : Text → Text → Text → ℕ → ℕ → Page

pub record Response : Type 0 where
  pub page : Page
  pub cookies : List Cookie

-- the parts of `Server` that the gate uses
pub record Server (W : Type 0) : Type 0 where
  pub mgr : State W
  pub tokens : Tokens

abbrev pub Handler : Type 0 → Type 0
Handler W = Server W → Outcome Response × Server W

-- the clock as a handler reads it, step by step
pub record Times : Type 0 where
  pub lookup : ℕ
  pub check : ℕ
  pub issue : ℕ

module _ {W : Type 0} where
  abbrev pub respond : Page → List Cookie → Handler W
  respond p cs srv = (returns (record { page = p; cookies = cs }), srv)

  abbrev pub continued : {A : Type 0} → Outcome A × State W → (A → Handler W) → Handler W
  continued (returns a, st) k srv = k a (record srv { mgr = st })
  continued (blocks, st) k srv = (blocks, record srv { mgr = st })

  -- a call of the manager, and what follows when it comes back
  abbrev pub on_mgr : {A : Type 0} → Op W A → (A → Handler W) → Handler W
  on_mgr m k srv = continued (m srv.mgr) k srv

  -- the page behind the check of the token
  abbrev pub passed : Session → Option Text × Tokens → Handler W
  passed a (none, m) srv = respond (redirect (codes "/gate")) [] (record srv { tokens = m })
  passed a (some id, m) srv =
      respond (if text_eq id a.id then forwarded else redirect (codes "/gate")) []
        (record srv { tokens = m })

  abbrev pub guarded : Request → Times → Option Session → Handler W
  guarded r t none srv = respond (redirect (codes "/setup")) [] srv
  guarded r t (some a) srv =
      if not (ip_allowed a (or_nil (real_ip r)))
      then respond (error_page 403) [] srv
      else passed a (validate r.cookie t.check srv.tokens) srv

-- its bytes in UTF-8
abbrev em_dash : Text
em_dash = 226 ∷ 128 ∷ 148 ∷ []

module _ {W E : Type 0} (u : Setup W E) where
  -- `requireAuth`
  unfoldable pub require_auth : Request → Times → Handler W
  require_auth r t = on_mgr (active_session u t.lookup) (guarded r t)

  abbrev pub detected : Option Ip → Text
  detected none = []
  detected (some ip) = ip_string ip

  abbrev refusal : Session → Text → MgrError E → Text
  refusal a ip ip_rejected =
      codes "IP not allowed "
      ++ (em_dash
          ++ (codes " server sees your IP as "
              ++ (ip ++ (codes ", but the session allows " ++ a.allowed_cidr))))
  refusal a ip _ = codes "invalid key or IP not allowed"

  abbrev pub verified : Session → Request → Times → List ℕ → Result (MgrError E) Session → Handler W
  verified a r t drawn (err e) srv =
      let ip = detected (real_ip r) in respond (gate (refusal a ip e) ip) [] srv
  verified a r t drawn (ok _) srv =
      let (m, c) = issue_token drawn a.id t.issue srv.tokens in
      respond (redirect (codes "/dashboard")) (c ∷ []) (record srv { tokens = m })

  abbrev pub submitted : Session → Request → Times → List ℕ → Option Text → Handler W
  submitted a r t drawn none srv = respond (gate (codes "invalid form") []) [] srv
  submitted a r t drawn (some key) srv =
      on_mgr (verify_access u a.id (trim_space key) (or_nil (real_ip r)) t.check)
        (verified a r t drawn) srv

  abbrev pub gate_found : Request → Times → List ℕ → Option Session → Handler W
  gate_found r t drawn none srv = respond (redirect (codes "/setup")) [] srv
  gate_found r t drawn (some a) srv = submitted a r t drawn r.key srv

  -- `handleGatePost`
  unfoldable pub handle_gate_post : Request → Times → List ℕ → Handler W
  handle_gate_post r t drawn = on_mgr (active_session u t.lookup) (gate_found r t drawn)

  abbrev pub ended : Result (MgrError E) (Unit {0}) → Handler W
  ended (err e) srv = respond (error_page 500) [] srv
  ended (ok _) srv = respond (redirect (codes "/setup")) (cleared_cookie ∷ []) srv

  abbrev pub end_active : Option Session → Handler W
  end_active none srv = respond (redirect (codes "/setup")) [] srv
  end_active (some a) srv =
      on_mgr (end u a.id) ended (record srv { tokens = revoke_session a.id srv.tokens })

  -- `handleSessionEnd`
  unfoldable pub handle_session_end : Times → Handler W
  handle_session_end t = on_mgr (active_session u t.lookup) end_active
