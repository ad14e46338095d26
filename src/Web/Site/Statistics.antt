-- ===== src/Web/Site/Statistics.antt =====
-- `handleStats` and `handleAPIStats` of internal/web/handlers.go, for what the kernel answers.
use flashaccess.Base.{some, [], ℕ, ◌+◌, ◌/◌, codes, ℤ, pos, negsuc, negated}
use flashaccess.Mysql.Rows.{run_user_query}
use flashaccess.Stats.{Probe, Snapshot, collect}
use flashaccess.Stats.Shown.{fmt_bytes, fmt_uptime}
use flashaccess.Web.Site.{
  App, StatsJson, stats_page, stats_json, page, Action, reply, on_db, ok_or, fails_with, with_base,
}
use flashaccess.Web.Site.Pages.{in_section}

abbrev second : ℕ
second = 1000000000

-- `int64(d.Seconds())`
abbrev whole_seconds : ℤ → ℤ
whole_seconds (pos d) = pos (d / second)
whole_seconds (negsuc n) = negated ((n + 1) / second)

abbrev pub json_of : Snapshot → StatsJson
json_of s = record {
  cpu = s.cpu;
  mem_used = s.mem_used;
  mem_total = s.mem_total;
  mem_pct = s.mem_percent;
  disk_used = s.disk_used;
  disk_total = s.disk_total;
  disk_pct = s.disk_percent;
  uptime_sec = whole_seconds s.uptime;
  mem_used_fmt = fmt_bytes s.mem_used;
  mem_total_fmt = fmt_bytes s.mem_total;
  disk_used_fmt = fmt_bytes s.disk_used;
  disk_total_fmt = fmt_bytes s.disk_total;
  uptime_fmt = fmt_uptime s.uptime;
}

module _ {E : Type 0} (app : App E) where
  -- `handleStats`
  unfoldable pub handle_stats : Probe → ℕ → Action
  handle_stats p now = with_base app [] now (λ b.
      on_db (run_user_query [] (codes "SHOW PROCESSLIST")) (λ r.
        reply (page (some (in_section b (codes "stats"))) (stats_page (collect app.floats p) r))))

  -- `handleAPIStats`
  unfoldable pub handle_api_stats : Probe → Action
  handle_api_stats p =
      ok_or (fails_with 500) (λ s. reply (stats_json (json_of s))) (collect app.floats p)
