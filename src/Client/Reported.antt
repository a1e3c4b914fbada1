-- ===== src/Client/Reported.antt =====
-- A report's way: the bytes of `nast_stats`, the lines that the server sends, and what the client
-- reads.
use nastd.Prelude.{ℕ, suc, ◌≤◌, ◌<◌, ◌≡◌, refl, arith, List, [], ◌∷◌, ◌++◌, some, length}
use nastd.Prelude.Bytes.{Bytes}
use nastd.Prelude.Fields.{join, ArePlain}
use nastd.Prelude.Outcome.{returns}
use nastd.Ipc.{nastcmd, naststats, nastok, nastsep}
use nastd.Server.{Server}
use nastd.Server as Srv
use nastd.Server.Respond.Sent.{response}
use nastd.Server.Stats.{Report}
use nastd.Server.Stats.Sent.{report_lines, do_stats_sent}
use nastd.Server.Command.{process_cmd}
use nastd.Server.Command.Frames.{encode, stats, serve}
use nastd.Server.Command.One.{process_cmd-serve}
use nastd.Client.{NastResponse}
use nastd.Client.Session.{Sphincter, Arrival, got, ok}
use nastd.Client.Commands.{nast_stats, nast_get_result}
use nastd.Client.Asked.{IsIdle, told, ask_lem, get_result_lem}

-- the bytes of the request
abbrev pub stats_bytes : ℕ → Bytes
stats_bytes i = encode (record { reqid = suc i; command = stats })

module _ (i : ℕ) (ar : NastResponse) (c : Sphincter) (q : IsIdle i ar c) (md5_calc : Bytes → Bytes)
    (now timeout uptime : ℕ) (report : Report) (s : Server) where
  -- the client after the report has come
  abbrev pub reported : List Arrival → Sphincter
  reported w = told i ar c q nastok (join nastsep (report_lines report uptime)) (stats_bytes i) w

  -- The bytes that `nast_stats` sends make `process_cmd` answer with the lines of the report, in one
  -- response; where that reaches the client in one read, `nast_stats` returns 0, and
  -- `nast_get_result` returns the lines in order. The response has at most 1024 bytes and no line
  -- has the separator; the client is idle and has a number below 65535, its thread has a place in
  -- the table, and on both sides there is memory and the socket takes what it is given.
  pub nast_stats_end_to_end :
      (stale behind : Bytes) (w : List Arrival)
      → suc i < 65535
      → ArePlain nastsep (report_lines report uptime)
      → s.heap ≡ []
      → s.net ≡ []
      → length (response (suc i) nastok (report_lines report uptime)) ≤ 1024
      → c.wire ≡ got (response (suc i) nastok (report_lines report uptime)) behind ∷ w
      → (process_cmd md5_calc now timeout uptime report 2
            (stats_bytes i ++ stale)
            (length (stats_bytes i))
            s
          ≡ returns (
            some Srv.ok,
            record s {
              heap = [];
              net = [];
              sent = s.sent ++ response (suc i) nastok (report_lines report uptime);
            },
          ))
        × (nast_stats (suc i) c ≡ returns (ok, reported w))
        × ((reported w).sent ≡ c.sent ++ stats_bytes i)
        × (nast_get_result (suc i) (reported w)
            ≡ returns (some (report_lines report uptime), reported w))
  unfolding serve nast_stats
  nast_stats_end_to_end stale behind w small plain memory whole fits arrives = (
    process_cmd-serve md5_calc now timeout uptime report (record { reqid = suc i; command = stats })
        stale s _ (record { by_length = omega arith; by_number = omega (arith, small) })
        (do_stats_sent report uptime (suc i) s memory whole fits),
    ask_lem i ar c q (nastcmd ∷ naststats ∷ []) nastok (join nastsep (report_lines report uptime))
        behind w (omega arith)
        (record { by_length = omega (arith, fits); by_number = omega (arith, small) })
        (omega (arith, small)) arrives,
    refl,
    get_result_lem i ar c q _ _ nastok (stats_bytes i) w plain (omega (arith, small)),
  )
