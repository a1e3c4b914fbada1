-- ===== src/Tests/Exchange.antt =====
-- A client with two threads, and its exchange with the server of Tests/Cache.
use nastd.Prelude.{◌≡◌, refl, arith, length, List, ◌++◌, [], ◌∷◌, some, true, false}
use nastd.Prelude.Bytes.{Bytes}
use nastd.Prelude.Fields.{join}
use nastd.Prelude.Outcome.{returns}
use nastd.Ipc.{nastok}
use nastd.Server as Srv
use nastd.Server.Respond.Sent.{response}
use nastd.Server.Stats.{Report}
use nastd.Server.Command.{process_cmd}
use nastd.Client.Session.{Sphincter, got, ok}
use nastd.Client.Commands.{nast_upd, nast_get, nast_get_result}
use nastd.Client.Asked.{IsIdle}
use nastd.Client.Exchange.{after_get, lookup_bytes, nast_get_end_to_end}
use nastd.Client.Update.{update_bytes, after_upd, nast_upd_end_to_end}
use nastd.Server.{Server}
use nastd.Memdb.Cache.{get-upd_self}
use nastd.Memdb.States.{counted}
use nastd.Memdb.Get.{memdb_get}
use nastd.Tests.Cache.{
  server, digest, updated, empty, empty-IsValid, env, key, vals, update_returns,
}
use nastd.Tests.Answers.{fresh, waiting}
use nastd.Ipc.{NastOptions}
use nastd.Server.Options.{opt_bytes}
use nastd.Client.Commands.{nast_options_set, nast_options_get, nast_stats}
use nastd.Server.Options.Keeping.{keeping}
use nastd.Client.Options.{set_bytes, get_bytes, nast_options_end_to_end}
use nastd.Client.Reported.{stats_bytes, reported, nast_stats_end_to_end}

abbrev answer : Bytes
answer = 0 ∷ 6 ∷ 0 ∷ 2 ∷ nastok ∷ 118 ∷ []

-- the client, to which the answer comes in one read
abbrev pub client : Sphincter
client = record {
  responses = waiting;
  locked = false;
  heap = [];
  net = [];
  sent = [];
  wire = got answer [] ∷ [];
}

idle : IsIdle 1 fresh client
idle = record {
  there = refl;
  placed = omega arith;
  kept = λ e. cc;
  unlocked = refl;
  whole = refl;
  memory = refl;
}

abbrev report : Report
report = record { mysqldb = []; cdb = []; memdb = []; uptime = λ d h m x. []; version = [] }

cached :
    memdb_get digest env key updated [] ≡ returns ((true, some vals), counted digest updated, [])
cached =
    get-upd_self digest env env key vals empty [] empty-IsValid (λ e. cc) (omega arith)
      update_returns

abbrev asked : Bytes
asked = lookup_bytes 1 fresh client idle key

abbrev after : Sphincter
after = after_get 1 fresh client idle key vals []

nast_get_end_to_end_example :
    (process_cmd digest 100 60 5 report 2 (asked ++ []) (length asked) server
      ≡ returns (
        some Srv.ok,
        record server { memdb = counted digest updated; sent = response 2 nastok vals },
      ))
    × (nast_get 2 key client ≡ returns (ok, after))
    × (after.sent ≡ asked)
    × (nast_get_result 2 after ≡ returns (some vals, after))
unfolding join
nast_get_end_to_end_example =
    nast_get_end_to_end 1 fresh client idle digest 100 60 5 report server key (118 ∷ []) [] [] [] []
      (omega arith) (omega arith) ((omega arith, tt), tt) refl refl refl refl (omega arith) cached
      refl

-- the client, to which the answer to an update comes
abbrev updater : Sphincter
updater = record client { wire = got (response 2 nastok []) [] ∷ [] }

idle_updater : IsIdle 1 fresh updater
idle_updater = record {
  there = refl;
  placed = omega arith;
  kept = λ e. cc;
  unlocked = refl;
  whole = refl;
  memory = refl;
}

abbrev empty_server : Server
empty_server = record server { memdb = empty }

abbrev update : Bytes
update = update_bytes 1 fresh updater idle_updater key vals

abbrev told_so : Sphincter
told_so = after_upd 1 fresh updater idle_updater key vals []

nast_upd_end_to_end_example :
    (process_cmd digest 100 60 5 report 2 (update ++ []) (length update) empty_server
      ≡ returns (some Srv.ok, record server { memdb = updated; sent = response 2 nastok [] }))
    × (nast_upd 2 key vals updater ≡ returns (ok, told_so))
    × (told_so.sent ≡ update)
    × (memdb_get digest env key updated []
        ≡ returns ((true, some vals), counted digest updated, []))
unfolding join
nast_upd_end_to_end_example =
    nast_upd_end_to_end 1 fresh updater idle_updater digest 100 60 5 report empty_server env key
      (118 ∷ []) [] [] [] [] (omega arith) (omega arith) (omega arith)
      (omega arith, (omega arith, (omega arith, (omega arith, tt)))) ((omega arith, tt), tt) tt
      empty-IsValid refl refl (omega arith) update_returns (omega arith) refl

-- the client, to which the answers to the setting and the reading of its options come
abbrev options : NastOptions
options = record (server.cops.opts) { use_localdb = false; fail_once = true }

abbrev chooser : Sphincter
chooser = record client {
  wire = got (response 2 nastok []) [] ∷ got (response 2 nastok (opt_bytes options ∷ [])) [] ∷ [];
}

idle_chooser : IsIdle 1 fresh chooser
idle_chooser = record {
  there = refl;
  placed = omega arith;
  kept = λ e. cc;
  unlocked = refl;
  whole = refl;
  memory = refl;
}

nast_options_end_to_end_example :
    (t : Sphincter) × (u : Sphincter) × (process_cmd digest 100 60 5 report 2
        (set_bytes 1 options ++ [])
        18
        server
      ≡ returns (some Srv.ok, keeping options (response 2 nastok []) server))
    × (process_cmd digest 100 60 5 report 2
          (get_bytes 1 ++ [])
          6
          (keeping options (response 2 nastok []) server)
        ≡ returns (
          some Srv.ok,
          keeping options
              (response 2 nastok [] ++ response 2 nastok (opt_bytes options ∷ []))
              server,
        ))
    × (nast_options_set 2 options chooser ≡ returns (ok, t))
    × (t.sent ≡ set_bytes 1 options)
    × (nast_options_get 2 0 server.cops.opts t ≡ returns ((ok, options), u))
    × (u.sent ≡ t.sent ++ get_bytes 1)
unfolding join
nast_options_end_to_end_example =
    nast_options_end_to_end digest 100 60 5 report 1 server refl refl refl fresh chooser
      idle_chooser options server.cops.opts 0 [] [] [] [] [] (omega arith) refl

-- the client, to which a report comes
abbrev lines : List Bytes
lines = [] ∷ [] ∷ [] ∷ []

abbrev asker : Sphincter
asker = record client { wire = got (response 2 nastok lines) [] ∷ [] }

idle_asker : IsIdle 1 fresh asker
idle_asker = record {
  there = refl;
  placed = omega arith;
  kept = λ e. cc;
  unlocked = refl;
  whole = refl;
  memory = refl;
}

abbrev with_report : Sphincter
with_report = reported 1 fresh asker idle_asker digest 100 60 5 report server []

nast_stats_end_to_end_example :
    (process_cmd digest 100 60 5 report 2 (stats_bytes 1 ++ []) 6 server
      ≡ returns (some Srv.ok, record server { sent = response 2 nastok lines }))
    × (nast_stats 2 asker ≡ returns (ok, with_report))
    × (with_report.sent ≡ stats_bytes 1)
    × (nast_get_result 2 with_report ≡ returns (some lines, with_report))
unfolding join
nast_stats_end_to_end_example =
    nast_stats_end_to_end 1 fresh asker idle_asker digest 100 60 5 report server [] [] []
      (omega arith) (tt, (tt, (tt, tt))) refl refl (omega arith) refl
