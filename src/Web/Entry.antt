-- ===== src/Web/Entry.antt =====
-- The handlers of internal/web/handlers.go that stand before the gate: `handleRoot`,
-- `handleSetupGet`, `handleSetupPost`, `handleKeyShow` and `handleGateGet`. The check of a password
-- against its bcrypt hash and the parser of durations are parameters; the pause after a wrong
-- password is left out.
pub mod Starting
use flashaccess.Base.{
  int_text, ℕ, ◌+◌, ◌*◌, ◌==◌, Text, text_eq, codes, Bool, true, false, not, ◌&&◌, ◌||◌, leb, ltb,
  ℤ, pos, negsuc, Option, none, some, List, [], ◌∷◌, ◌++◌, Result, ok, err, if◌then◌else◌,
  trim_space, itoa, split_at_colon,
}
use flashaccess.Net.{Ip, parse_ip, to_4}
use flashaccess.Config.{Config}
use flashaccess.Session.{Session}
use flashaccess.Session.State.{Setup, MgrError}
use flashaccess.Session.Manager.{NewParams, Drawn, new, get, active_session}
use flashaccess.Web.Auth.{Tokens, Cookie, validate, seconds, delete_now}
use flashaccess.Web.Client.{Request, real_ip}
use flashaccess.Web.Forms.{Values, form_value}
use flashaccess.Web.Gate.{
  Page, redirect, gate, not_found, setup_page, key_page, SetupNotice, nothing_wrong, invalid_form,
  not_configured, wrong_password, no_address, out_of_range, failed_start, invalid_duration, Handler,
  Times, respond, on_mgr, detected,
}

module _ {W : Type 0} where
  -- to the dashboard with a valid token, to `p` without
  abbrev by_token : Page → Option Text × Tokens → Handler W
  by_token p (none, m) srv = respond p [] (record srv { tokens = m })
  by_token p (some _, m) srv =
      respond (redirect (codes "/dashboard")) [] (record srv { tokens = m })

  abbrev gated : Page → Request → Times → Option Session → Handler W
  gated p r t none srv = respond (redirect (codes "/setup")) [] srv
  gated p r t (some a) srv = by_token p (validate r.cookie t.check srv.tokens) srv

  abbrev says : SetupNotice → Handler W
  says notice = respond (setup_page notice [] [] []) []

-- the address that the form suggests: that of the configuration, or the client's
abbrev is_v4 : Option Ip → Bool
is_v4 none = false
is_v4 (some ip) = elim (to_4 ip) [ none ↦ false | some _ ↦ true ]

abbrev suggested : Text → Text → Text
suggested [] [] = []
suggested [] (c ∷ ip) =
    if is_v4 (parse_ip (c ∷ ip)) then c ∷ ip ++ codes "/32" else c ∷ ip ++ codes "/128"
suggested (c ∷ cidr) ip = c ∷ cidr

abbrev pub one_minute : ℕ
one_minute = 60 * 1000000000

abbrev pub two_days : ℕ
two_days = 48 * 3600 * 1000000000

-- `dur < time.Minute || dur > 48*time.Hour`
abbrev pub is_out_of_range : ℤ → Bool
is_out_of_range (pos n) = ltb n one_minute || ltb two_days n
is_out_of_range (negsuc n) = true

abbrev pub or_four_hours : Text → Text
or_four_hours [] = codes "4h"
or_four_hours (c ∷ s) = c ∷ s

-- the cookie fa_newkey, for two minutes
abbrev pub key_cookie : Text → Text → Cookie
key_cookie key id = record {
  name = codes "fa_newkey";
  path = codes "/keyshow";
  value = key ++ b':' ∷ id;
  max_age = seconds 120;
  http_only = true;
  secure = true;
  same_site_strict = true;
}

-- its removal
abbrev pub no_key_cookie : Cookie
no_key_cookie = record {
  name = codes "fa_newkey";
  path = codes "/keyshow";
  value = [];
  max_age = delete_now;
  http_only = false;
  secure = false;
  same_site_strict = false;
}

module _ {W E : Type 0} (u : Setup W E) where
  -- `handleRoot`
  unfoldable pub handle_root : Text → Request → Times → Handler W
  handle_root path r t =
      if not (text_eq path (codes "/"))
      then respond not_found []
      else on_mgr (active_session u t.lookup) (gated (redirect (codes "/gate")) r t)

  -- `handleGateGet`
  unfoldable pub handle_gate_get : Request → Times → Handler W
  handle_gate_get r t = on_mgr (active_session u t.lookup) (gated (gate [] []) r t)

  abbrev setup_form : Config → Request → Option Session → Handler W
  setup_form cfg r (some a) = respond (redirect (codes "/dashboard")) []
  setup_form cfg r none =
      let ip = detected u (real_ip r) in
      respond
        (setup_page nothing_wrong cfg.defaults.duration (suggested cfg.defaults.allowed_cidr ip) ip)
        []

  -- `handleSetupGet`
  unfoldable pub handle_setup_get : Config → Request → Times → Handler W
  handle_setup_get cfg r t = on_mgr (active_session u t.lookup) (setup_form cfg r)

  -- behind `New`
  abbrev pub started : Result (MgrError E) (Session × Text) → Handler W
  started (err e) = says failed_start
  started (ok (s, key)) = respond (redirect (codes "/keyshow")) (key_cookie key s.id ∷ [])

  abbrev pub new_params : Config → Text → ℤ → NewParams
  new_params cfg cidr d = record {
    allowed_cidr = cidr;
    database = cfg.db.host ++ b':' ∷ int_text cfg.db.port;
    duration = d;
  }

  abbrev with_duration : Config → Text → Text → Drawn E → Times → Option ℤ → Handler W
  with_duration cfg cidr text drawn t none = says (invalid_duration text)
  with_duration cfg cidr text drawn t (some d) =
      if is_out_of_range d
      then says out_of_range
      else on_mgr (new u (new_params cfg cidr d) drawn t.issue) started

  module _ (check_password : Text → Text → Bool) (parse_duration : Text → Option ℤ) where
    abbrev pub with_address : Config → Values → Drawn E → Times → Text → Handler W
    with_address cfg f drawn t [] = says no_address
    with_address cfg f drawn t (c ∷ cidr) =
        let text = or_four_hours (form_value (codes "duration") f) in
        with_duration cfg (c ∷ cidr) text drawn t (parse_duration text)

    abbrev pub with_hash : Config → Values → Drawn E → Times → Text → Handler W
    with_hash cfg f drawn t [] = says not_configured
    with_hash cfg f drawn t (c ∷ hash) =
        if not (check_password (c ∷ hash) (form_value (codes "admin_password") f))
        then says wrong_password
        else with_address cfg f drawn t (trim_space (form_value (codes "allowed_ip") f))

    abbrev pub with_form : Config → Drawn E → Times → Option Values → Option Session → Handler W
    with_form cfg drawn t form (some a) = respond (redirect (codes "/dashboard")) []
    with_form cfg drawn t none none = says invalid_form
    with_form cfg drawn t (some f) none = with_hash cfg f drawn t cfg.admin_password_hash

    -- `handleSetupPost`
    unfoldable pub handle_setup_post : Config → Option Values → Drawn E → Times → Handler W
    handle_setup_post cfg form drawn t =
        on_mgr (active_session u t.lookup) (with_form cfg drawn t form)

  abbrev key_found : Text → Text → ℕ → Option Session → Handler W
  key_found key id now none = respond (redirect (codes "/setup")) (no_key_cookie ∷ [])
  key_found key id now (some s) =
      respond (key_page key id s.allowed_cidr s.expires_at now) (no_key_cookie ∷ [])

  abbrev key_parts : ℕ → Option (Text × Text) → Handler W
  key_parts now none = respond (redirect (codes "/setup")) []
  key_parts now (some (key, id)) = on_mgr (get u id) (key_found key id now)

  abbrev key_cookie_found : ℕ → Option Text → Handler W
  key_cookie_found now none = respond (redirect (codes "/setup")) []
  key_cookie_found now (some value) = key_parts now (split_at_colon value)

  -- `handleKeyShow`, for the value of the cookie fa_newkey, if there is one
  unfoldable pub handle_key_show : Option Text → ℕ → Handler W
  handle_key_show cookie now = key_cookie_found now cookie
