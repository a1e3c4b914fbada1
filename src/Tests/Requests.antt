-- ===== src/Tests/Requests.antt =====
-- Requests and answers of server/nastdio.c.
use nastd.Prelude.{◌+◌, ◌≤◌, ◌≡◌, refl, arith, [], ◌∷◌, ◌++◌, none, some, true, false, length}
use nastd.Prelude.Fields.{join}
use nastd.Prelude.Outcome.{returns}
use nastd.Array.{Array, array_new, array_add, va_array_add, string_new}
use nastd.Thread.{rw_mutex_new}
use nastd.Memdb.{fresh_db}
use nastd.Ipc.{NastOptions, nastok, nastcmd, nastdel, nastsep}
use nastd.Socket.{write_loop, wrote, again}
use nastd.Server.{Server, ok}
use nastd.Server.Respond.{arr_send_response, fill_items, write_all}
use nastd.Server.Respond.Sent.{response, arr_send_response_sent}
use nastd.Server.Update.{build_array, build_items}
use nastd.Server.Stats.{Report}
use nastd.Fqm.{is_full}
use nastd.Server.Command.{process_cmd}
use nastd.Server.Command.Frames.{
  Call, opt_set, die, encode_all, serve_all, process_cmd-serve_all, zero_length_spins,
}

abbrev options : NastOptions
options = record {
  use_qcache = false;
  use_localdb = true;
  fallthrough_async = false;
  always_fallthrough = true;
  fail_once = true;
  no_fallthrough = false;
}

abbrev server : Server
server = record {
  memdb = fresh_db rw_mutex_new;
  cdb = record {
    memcdb = none;
    cdb_mtime = 0;
    db_key = [];
    db_dbn = [];
    db_tbl = [];
    db_fields = [];
    db_sep = 58;
    db_fieldcount = 1;
    sec_c = 0;
    cdb_lk = none;
  };
  fqm = record { queue = []; maxitems = 4; nitems = 0 };
  cops = record { sock = 7; opts = options; opt_lk = rw_mutex_new };
  heap = [];
  usable = λ n. n + 8;
  net = [];
  sent = [];
}

-- the socket takes two bytes, is interrupted, and then takes the rest
abbrev slow : Server
slow = record server { net = wrote 2 ∷ again ∷ [] }

abbrev items : Array
items = (97 ∷ []) ∷ (98 ∷ []) ∷ []

abbrev answered : Server
answered = record server { sent = 0 ∷ 8 ∷ 0 ∷ 9 ∷ nastok ∷ 97 ∷ nastsep ∷ 98 ∷ [] }

sends : arr_send_response 9 nastok items slow ≡ returns (ok, answered)
unfolding arr_send_response fill_items write_loop write_all
sends = refl

arr_send_response_sent_example :
    (answered.sent ≡ slow.sent ++ response 9 nastok items)
    × (length (response 9 nastok items) ≤ 1024)
arr_send_response_sent_example = arr_send_response_sent 9 nastok items slow answered sends

builds : (build_array (join nastsep items) []).0 ≡ some items
unfolding build_array build_items join array_new array_add va_array_add string_new
builds = refl

merges : (build_array (nastsep ∷ 97 ∷ []) []).0 ≡ some ((nastsep ∷ 97 ∷ []) ∷ [])
unfolding build_array build_items array_new array_add va_array_add string_new
merges = refl

abbrev report : Report
report = record {
  mysqldb = [];
  cdb = [];
  memdb = [];
  uptime = λ d h m s. d ∷ h ∷ m ∷ s ∷ [];
  version = 49 ∷ [];
}

abbrev first : Call
first = record { reqid = 1; command = opt_set ((1, 0) ∷ []) }

abbrev last : Call
last = record { reqid = 2; command = die }

process_cmd-serve_all_example :
    process_cmd
      (λ key. key)
      100
      60
      5
      report
      3
      (encode_all (first ∷ last ∷ []) ++ 0 ∷ [])
      (length (encode_all (first ∷ last ∷ [])))
      server
    ≡ serve_all (λ key. key) 100 60 5 report (first ∷ last ∷ []) server
process_cmd-serve_all_example =
    process_cmd-serve_all (λ key. key) 100 60 5 report first (last ∷ []) (0 ∷ []) server
      (
        record { by_length = omega arith; by_number = omega arith },
        (record { by_length = omega arith; by_number = omega arith }, tt),
      )

zero_length_spins_example :
    process_cmd (λ key. key) 100 60 5 report 1000 (0 ∷ 0 ∷ 0 ∷ 1 ∷ nastcmd ∷ nastdel ∷ []) 6 server
    ≡ returns (none, server)
zero_length_spins_example =
    zero_length_spins (λ key. key) 100 60 5 report 1000 6 0 1 [] server (omega arith)

room : is_full (server.fqm) ≡ false
unfolding is_full
room = refl
