-- ===== src/Tests/Site.antt =====
-- The theorems on the handlers, on a server with one session.
use flashaccess.Base.{
  Text, text_eq, codes, Option, none, some, [], ◌∷◌, ok, err, ℤ, pos, find, trim_space, has_prefix,
  ◌≡◌, refl, ◌⊎◌,
}
use flashaccess.Config.{Config}
use flashaccess.Firewall.{noop}
use flashaccess.Mysql.Driver.{DbError, bytes}
use flashaccess.Session.Lock.{returns}
use flashaccess.Mysql.Accounts.{create_admin_user}
use flashaccess.Mysql.Rows.Reading.{read_insert, read_update}
use flashaccess.Mysql.Rows.Sent.{SendsRead}
use flashaccess.Session.State.{Setup, snapshot}
use flashaccess.Session.Keys.{generate_key, encode}
use flashaccess.Session.Manager.{Drawn, first_live}
use flashaccess.Web.Auth.Tokens.{history}
use flashaccess.Web.Client.{Request}
use flashaccess.Web.Forms.{Values, form_value}
use flashaccess.Web.Gate.{Server, Times, key_page}
use flashaccess.Session.Manager.Leak.{at, one_reader}
use flashaccess.Web.Gate.Passage.{serving, Passes}
use flashaccess.Web.Grants.{PermanentGrant, PermanentStore, GrantsJson}
use flashaccess.Web.Entry.{handle_setup_post, handle_key_show, no_key_cookie}
use flashaccess.Web.Entry.Starting.{
  IsEntitled, starts, handle_setup_post-Starts, handle_key_show-key_cookie,
}
use flashaccess.Web.Site.{World, Site, App, Call, redirect_db, driver_of, with_driver}
use flashaccess.Web.Site.Changes.{column_fields, handle_row_insert, handle_row_update}
use flashaccess.Web.Site.Access.{grant_of, handle_permanent_grant}
use flashaccess.Web.Site.Changes.Rows.{handle_row_insert-SendsRead, handle_row_update-SendsRead}
use flashaccess.Web.Site.Access.Granting.{Added, handle_permanent_grant-Added}
use flashaccess.Web.Site.Routes.{Visit, user_drop, browse, handle, serve}
use flashaccess.Web.Site.Routes.Closed.{Untouched, serve-Passes}
use flashaccess.Web.Site.Looking.{Looked}
use flashaccess.Web.Site.Looking.Shown.{handle-Looked}
use flashaccess.Tests.Figures.{whole_numbers, no_figures}
use flashaccess.Tests.{sample, one_session}
use flashaccess.Tests.Vaults.{sample_config, failing}

abbrev pub world : World
world = record {
  host = record {
    db = record { log = []; answers = [] };
    shell = record { log = []; path = λ p. none; failures = [] };
    entropy = [];
  };
  vault = failing;
}

abbrev world_setup : Setup World Text
world_setup = record {
  hooks = record { on_provision = none; on_revoke = none };
  store = none;
  verify_key = λ key hash. ok (text_eq key hash);
}

abbrev pub plain_json : GrantsJson
plain_json = record { marshal = λ gs. []; unmarshal = λ t. [] }

abbrev app : App Text
app = record {
  cfg = sample_config;
  setup = world_setup;
  fw = noop;
  grants_json = plain_json;
  floats = whole_numbers;
}

abbrev grant : PermanentGrant
grant = record {
  id = codes "g1";
  db_user = codes "app";
  db_host = codes "10.0.0.7";
  allowed_cidr = [];
  port = pos 3306;
  priv_level = codes "read";
  description = [];
  created_at = 0;
}

abbrev store : PermanentStore
store = record { path = codes "grants"; grants = grant ∷ [] }

abbrev site : Site
site = record { server = serving one_session world []; grants = store }

abbrev request : Request
request = record {
  cf_connecting_ip = [];
  x_real_ip = [];
  remote_addr = codes "10.0.0.7:5000";
  cookie = none;
  key = none;
}

abbrev form : Values
form =
    (codes "_pk_col", codes "id" ∷ [])
    ∷ (codes "_pk_val", codes "7" ∷ [])
    ∷ (codes "col_name", codes "x`y" ∷ [])
    ∷ (codes "id", codes "g1" ∷ [])
    ∷ (codes "mode", codes "clone" ∷ [])
    ∷ (codes "username", codes "app" ∷ [])
    ∷ (codes "password", codes "long enough" ∷ [])
    ∷ []

abbrev call : Call
call = record {
  request = request;
  db = codes "shop";
  table = codes "item";
  query = [];
  form = some form;
}

abbrev times : Times
times = record { lookup = 60; check = 60; issue = 60 }

abbrev pub visit : Visit
visit = record {
  call = call;
  times = times;
  now = 60;
  file = err 400;
  body = none;
  grant_id = codes "g2";
  probe = no_figures;
}

serve-Passes_example :
    Untouched site (serve app user_drop visit site).1
    ⊎ Passes world_setup request times one_session []
unfolding history
serve-Passes_example = serve-Passes app user_drop visit one_session world [] store

handle-Looked_example : Looked site (handle app browse visit site).1
handle-Looked_example = handle-Looked app browse visit site refl

abbrev draws : Drawn Text
draws = record { raw_key = ok (codes "k"); hash = ok (codes "k"); id = ok (codes "ef56") }

abbrev setup_values : Values
setup_values =
    (codes "admin_password", codes "pw" ∷ []) ∷ (codes "allowed_ip", codes "10.0.0.8" ∷ []) ∷ []

abbrev with_password : Config
with_password = record sample_config { admin_password_hash = codes "pw" }

abbrev pub one_hour : Text → Option ℤ
one_hour t = some (pos 3600000000000)

handle_setup_post-Starts_example :
    let out =
      handle_setup_post world_setup text_eq one_hour with_password
        (some setup_values)
        draws
        times
        (serving [] world []) in
    (out.1 ≡ serving [] world [])
    ⊎ ((f : Values) × (some setup_values ≡ some f)
        × (first_live 60 (snapshot []) ≡ none)
        × (h : IsEntitled world_setup text_eq one_hour with_password f) × (out
            ≡ starts world_setup text_eq one_hour with_password f h.duration draws times
                (serving [] world [])))
handle_setup_post-Starts_example =
    handle_setup_post-Starts world_setup text_eq one_hour with_password (some setup_values) draws
      times [] world []

handle_key_show-key_cookie_example :
    let srv : Server World = record { mgr = at one_reader one_session world; tokens = [] } in
    handle_key_show world_setup (some (codes "_w:ab12cd34")) 60 srv ≡ (
      returns (record {
        page = key_page (codes "_w") (codes "ab12cd34") sample.allowed_cidr sample.expires_at 60;
        cookies = no_key_cookie ∷ [];
      }),
      srv,
    )
unfolding find text_eq encode generate_key
handle_key_show-key_cookie_example =
    handle_key_show-key_cookie world_setup (some (255 ∷ [])) (codes "_w") (codes "ab12cd34") 60
      sample one_reader one_session world [] refl refl refl

handle_row_insert-SendsRead_example :
    SendsRead
      (read_insert 1)
      (codes "shop", codes "item", codes "name" ∷ [], 1)
      (bytes (codes "x`y") ∷ [])
      (driver_of site)
      (driver_of (handle_row_insert call site).1)
unfolding column_fields has_prefix
handle_row_insert-SendsRead_example =
    handle_row_insert-SendsRead call form site refl (λ e. absurd (cc (e)))

handle_row_update-SendsRead_example :
    SendsRead
      (read_update 1)
      (codes "shop", codes "item", codes "name" ∷ [], codes "id")
      (bytes (codes "x`y") ∷ bytes (codes "7") ∷ [])
      (driver_of site)
      (driver_of (handle_row_update call site).1)
unfolding column_fields has_prefix form_value find text_eq
handle_row_update-SendsRead_example =
    handle_row_update-SendsRead call form site refl (λ e. absurd (cc (e))) (λ e. absurd (cc (e)))

handle_permanent_grant-Added_example :
    let g = grant_of app form (codes "g2") 60 in
    let made =
      create_admin_user g.db_user g.db_host
        (trim_space (form_value (codes "password") form))
        g.priv_level
        (driver_of site) in
    ((e : DbError) × (made.0 ≡ err e)
      × (handle_permanent_grant app call (codes "g2") 60 site
          ≡ (returns (redirect_db (codes "/permanent?error=") e), with_driver site made.1)))
    ⊎ ((made.0 ≡ ok tt)
        × Added app g site made.1 (handle_permanent_grant app call (codes "g2") 60 site).1)
handle_permanent_grant-Added_example =
    handle_permanent_grant-Added app call (codes "g2") 60 form site refl
