-- ===== src/Server/Stats/Sent.antt =====
-- What `do_stats` sends.
use nastd.Prelude.{ℕ, ◌≤◌, ◌≡◌, refl, ◌∙◌, List, [], ◌∷◌, ◌++◌, length}
use nastd.Prelude.Bytes.{Bytes}
use nastd.Prelude.Outcome.{returns}
use nastd.Array.{Array, array_new}
use nastd.Array.Laws.{va_array_add_nil}
use nastd.Ipc.{nastok}
use nastd.Server.{Server, Rc, ok, Act, ◌>>=◌}
use nastd.Server.Respond.Sent.{response, arr_send_response_fits}
use nastd.Server.Stats.{Report, split_uptime, add_lines, do_stats}

-- the lines of a report, in order
abbrev pub report_lines : Report → ℕ → List Bytes
report_lines r uptime =
    let up = split_uptime uptime in
    r.mysqldb ∷ ((r.cdb ++ r.memdb) ++ r.uptime up.up_day up.up_hour up.up_min up.up_sec ∷ [])
    ++ r.version ∷ []

add_lines_returns :
    (reqid : ℕ) (lines : List Bytes) (message : Bytes) (next : Array → Act Rc) (aa : Array)
    (s : Server)
    → s.heap ≡ []
    → add_lines reqid lines message next aa s ≡ next (aa ++ lines) (record s { heap = [] })
unfolding add_lines
add_lines_returns reqid lines message next aa s memory =
    rw (memory, add_lines) (rw (va_array_add_nil lines aa, ◌>>=◌) refl)

-- Where there is memory, the socket takes what it is given, and the response has at most 1024 bytes,
-- `do_stats` sends the lines of the report in one response and returns 0.
pub do_stats_sent :
    (r : Report) (uptime reqid : ℕ) (s : Server)
    → s.heap ≡ []
    → s.net ≡ []
    → length (response reqid nastok (report_lines r uptime)) ≤ 1024
    → do_stats r uptime reqid s
      ≡ returns (
        ok,
        record s {
          heap = [];
          net = [];
          sent = s.sent ++ response reqid nastok (report_lines r uptime);
        },
      )
unfolding do_stats array_new
do_stats_sent r uptime reqid s memory whole fits =
    rw (memory, do_stats)
      (add_lines_returns reqid (r.mysqldb ∷ []) _ _ [] (record s { heap = [] }) refl
        ∙ add_lines_returns reqid r.cdb _ _ _ (record s { heap = [] }) refl
        ∙ add_lines_returns reqid r.memdb _ _ _ (record s { heap = [] }) refl
        ∙ add_lines_returns reqid _ _ _ _ (record s { heap = [] }) refl
        ∙ add_lines_returns reqid (r.version ∷ []) _ _ _ (record s { heap = [] }) refl
        ∙ arr_send_response_fits reqid nastok (report_lines r uptime) (record s { heap = [] }) fits
            whole)
