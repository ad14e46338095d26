-- ===== src/Web/Site/Routes.antt =====
-- `Handler` of internal/web/server.go: the routes behind `requireAuth`.
pub mod Closed
use flashaccess.Base.{ℕ, Text, Bool, true, false, Option, Result}
use flashaccess.Session.Lock.{Outcome, returns, blocks}
use flashaccess.Web.Gate.{
  Response, Server, Handler, Times, Page, forwarded, require_auth, handle_session_end,
}
use flashaccess.Web.Site.{World, Site, App, Call, Reply, answered, Action, reply}
use flashaccess.Web.Site.Pages.{
  handle_dashboard, handle_db_page, handle_browse, handle_structure, handle_query,
  handle_upload_sql, handle_users, handle_playground, handle_ai_settings, handle_permanent_access,
  handle_api_query_preview, handle_ai_execute, handle_api_schema,
}
use flashaccess.Web.Site.Changes.{
  handle_row_insert, handle_row_update, handle_row_delete, handle_db_create, handle_db_drop,
  handle_user_create, handle_user_drop,
}
use flashaccess.Web.Site.Statistics.{handle_stats, handle_api_stats}
use flashaccess.Stats.{Probe}
use flashaccess.Web.Site.Access.{
  handle_playground_create, handle_playground_drop, handle_permanent_grant, handle_permanent_revoke,
}

pub data Endpoint : Type 0 where
  dashboard db_page browse structure query upload users user_create user_drop db_create db_drop
        playground playground_create playground_drop ai_settings api_schema ai_execute query_preview
        session_end permanent permanent_grant permanent_revoke row_insert row_update row_delete
        stats api_stats :
      Endpoint

-- a request with all that a handler draws on: the clock of the middleware and of the handler, the
-- uploaded file, the body that is JSON, the id of a grant, and the figures of the kernel
pub record Visit : Type 0 where
  pub call : Call
  pub times : Times
  pub now : ℕ
  pub file : Result ℕ Text
  pub body : Option (Text × Text)
  pub grant_id : Text
  pub probe : Probe

abbrev pub served : Outcome Response × Server World → (Response → Action) → Action
served (returns r, srv) k s = k r (record s { server = srv })
served (blocks, srv) k s = (blocks, record s { server = srv })

-- a handler of the gate
abbrev pub on_server : Handler World → (Response → Action) → Action
on_server h k s = served (h s.server) k s

abbrev pub page_or : Page → Action → Action → Action
page_or forwarded next other = next
page_or _ next other = other

module _ {E : Type 0} (app : App E) where
  -- the handler of a route
  abbrev pub handle : Endpoint → Visit → Action
  handle dashboard v = handle_dashboard app v.call v.now
  handle db_page v = handle_db_page app v.call v.now
  handle browse v = handle_browse app v.call v.now
  handle structure v = handle_structure app v.call v.now
  handle query v = handle_query app v.call v.now
  handle upload v = handle_upload_sql app v.call v.now v.file
  handle users v = handle_users app v.call v.now
  handle user_create v = handle_user_create app v.call v.now
  handle user_drop v = handle_user_drop app v.call v.now
  handle db_create v = handle_db_create v.call
  handle db_drop v = handle_db_drop app v.call
  handle playground v = handle_playground app v.call v.now
  handle playground_create v = handle_playground_create app v.call v.now
  handle playground_drop v = handle_playground_drop app v.now
  handle ai_settings v = handle_ai_settings app v.call v.now
  handle api_schema v = handle_api_schema v.call.db
  handle ai_execute v = handle_ai_execute v.body
  handle query_preview v = handle_api_query_preview v.body
  handle session_end v = on_server (handle_session_end app.setup v.times) (λ r. reply (answered r))
  handle permanent v = handle_permanent_access app v.call v.now
  handle permanent_grant v = handle_permanent_grant app v.call v.grant_id v.now
  handle permanent_revoke v = handle_permanent_revoke app v.call
  handle row_insert v = handle_row_insert v.call
  handle row_update v = handle_row_update v.call
  handle row_delete v = handle_row_delete v.call
  handle stats v = handle_stats app v.probe v.now
  handle api_stats v = handle_api_stats app v.probe

  -- a route behind `requireAuth`
  unfoldable pub serve : Endpoint → Visit → Action
  serve e v =
      on_server (require_auth app.setup v.call.request v.times)
        (λ r. page_or r.page (handle e v) (reply (answered r)))
