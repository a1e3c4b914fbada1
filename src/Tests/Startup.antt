-- ===== src/Tests/Startup.antt =====
-- The daemon of server/nastd.c starts, with a database file that says only the name of its key and of
-- its two values, and serves.
use nastd.Prelude.{
  ℕ, zero, suc, ◌/◌, ◌%◌, ◌≡◌, refl, arith, true, List, [], ◌∷◌, ◌++◌, none, some, if◌then◌else◌,
  ◌==◌,
}
use nastd.Prelude.Bytes.{Bytes}
use nastd.Prelude.Outcome.{returns, blocked}
use nastd.Prelude.Run.{Allows}
use nastd.Thread.{rw_mutex_new, rw_mutex_write_lock, rw_mutex_unlock}
use nastd.Memdb.{fresh_db}
use nastd.Cdb.{Cdb}
use nastd.Cdb.Find.{
  cdb_hash, cdb_bread, compare_bytes, round, match_loop, match, read_pair, try_record, try_slot,
  probe_loop, cdb_find,
}
use nastd.Cdb.Load.{
  codes, mapped, cdb_new, load_file, cdb_lock, load_fields, install, build_fields, name_fields,
  count_fields, field_name, past_field, read_header, read_meta, read_sep,
}
use nastd.Mysqldb.{mysqldb_new, add_cols, strncat}
use nastd.Fqm.System.{noalloc}
use nastd.Fqm.Delete.{Turn}
use nastd.Daemon.{Event, Config, Host, Daemon, gives, child, accepts, refused, waits}
use nastd.Daemon.Init.{read_options, runs, main}
use nastd.Daemon.Ends.{EndsWell, main-EndsWell}
use nastd.Daemon.Begins.{initial, ten_idle, Grants, begun, main-runs}
use nastd.Daemon.Loop.{Round, FdSet, selected, select_failed, control_loop, control_round}
use nastd.Daemon.Served.{
  served, calm, ArePolled, rounds_of, control_loop-Serves, select_failed_waits,
}

zeros : ℕ → Bytes → Bytes
zeros zero rest = rest
zeros (suc n) rest = 0 ∷ zeros n rest

abbrev word : ℕ → Bytes
word n = n % 256 ∷ n / 256 % 256 ∷ n / 65536 % 256 ∷ n / 16777216 % 256 ∷ []

abbrev two_words : ℕ → ℕ → Bytes
two_words a b = word a ++ word b

-- The tables of `_VALUES_` and `_KEY_`, of one slot each, their slots, and the two records.
file_bytes : Bytes
unfolding zeros
file_bytes = zeros 1256 (
    two_words 1944 1
    ++ zeros 672 (
        two_words 1952 1
        ++ (two_words 1581706397 1960
            ++ (two_words 237002738 1979
                ++ (two_words 8 3
                    ++ (codes "_VALUES_"
                        ++ (codes "a:b" ++ (two_words 5 1 ++ (codes "_KEY_" ++ codes "k")))))))))

abbrev unloaded : Cdb
unloaded = record {
  memcdb = none;
  cdb_mtime = 0;
  db_key = [];
  db_dbn = [];
  db_tbl = [];
  db_fields = [];
  db_sep = 0;
  db_fieldcount = 0;
  sec_c = 0;
  cdb_lk = none;
}

abbrev loaded : Cdb
loaded = record {
  memcdb = some file_bytes;
  cdb_mtime = 7;
  db_key = codes "k";
  db_dbn = codes "nast";
  db_tbl = codes "t";
  db_fields = codes "a" ∷ codes "b" ∷ [];
  db_sep = 58;
  db_fieldcount = 2;
  sec_c = 0;
  cdb_lk = some rw_mutex_new;
}

loads :
    cdb_new (codes "nast") (codes "t") (mapped file_bytes 7) unloaded []
    ≡ returns (true, loaded, [])
unfolding file_bytes cdb_new load_file cdb_lock load_fields install build_fields name_fields
    count_fields field_name past_field read_header read_meta read_sep rw_mutex_write_lock
    rw_mutex_unlock cdb_find cdb_hash read_pair cdb_bread probe_loop try_slot try_record match
    match_loop round compare_bytes
loads = refl

abbrev config : Config
config = record { nast_dir = codes "/db"; nast_sock = codes "/tmp/nast.sock"; tcp_port = 8888 }

abbrev host : Host
host = record {
  decimal = λ n. 48 ∷ [];
  error_text = codes "?";
  pthread_self = 0;
  sun_path_size = 108;
  char_signed = true;
  default_dir = codes "/etc";
  getopt = (100, codes "/db") ∷ [];
  config_init = λ dir. some config;
  file = mapped file_bytes 7;
  dbname = codes "nast";
  dbtbl = codes "t";
  fork = child;
  unix_socket = gives 3;
  unix_bind = gives tt;
  inet_socket = gives 4;
  inet_bind = gives tt;
  time = 1000;
}

grants : Grants host config 3 4
unfolding read_options
grants = record {
  dir = codes "/db";
  options = refl;
  configuration = refl;
  forks = refl;
  path_fits = omega arith;
  unix_made = refl;
  unix_named = refl;
  inet_made = refl;
  inet_named = refl;
}

columns :
    mysqldb_new (codes "a" ∷ codes "b" ∷ []) ≡ returns (record { cols = codes "a,b"; sec_c = 0 })
unfolding mysqldb_new add_cols strncat
columns = refl

-- the daemon when it comes to its loop
abbrev running : Daemon
running = record (initial loaded []) {
  mysqldb = some (record { cols = codes "a,b"; sec_c = 0 });
  memdb = some (fresh_db rw_mutex_new);
  fqm = some ten_idle;
  start_time = 1000;
  trace = begun host config 3 4 grants (codes "/sbin/nastd");
}

main-runs_example :
    main host (codes "/sbin/nastd") (initial unloaded []) ≡ returns (runs 3 4, running)
main-runs_example =
    main-runs host config 3 4 grants unloaded loaded (record { cols = codes "a,b"; sec_c = 0 }) []
      loads columns (codes "/sbin/nastd")

abbrev all_die : Turn
all_die =
    noalloc ∷ noalloc ∷ noalloc ∷ noalloc ∷ noalloc ∷ noalloc ∷ noalloc ∷ noalloc ∷ noalloc
    ∷ noalloc ∷ []

main-EndsWell_example :
    Allows
      (EndsWell host [] all_die [] tt)
      (main host (codes "/sbin/nastd") (initial unloaded (all_die ∷ [])))
main-EndsWell_example =
    main-EndsWell host [] all_die [] tt (codes "/sbin/nastd") (initial unloaded (all_die ∷ [])) refl
      refl

-- one comes to the inet socket, and then one to each
abbrev first : Round
first = record {
  select = λ nfds set. selected (4 ∷ []);
  accept = λ sock. if sock == 4 then accepts 5 else waits;
}

abbrev second : Round
second = record {
  select = λ nfds set. selected set;
  accept = λ sock. if sock == 4 then accepts 6 else refused (codes "?");
}

abbrev rounds : List (Round × FdSet)
rounds = (first, 4 ∷ []) ∷ (second, 3 ∷ 4 ∷ []) ∷ []

polled : ArePolled 3 4 rounds
polled = (
  record { polled = refl; inet_comes = λ e. λ w. cc; unix_comes = λ e. cc },
  (record { polled = refl; inet_comes = λ e. λ w. cc; unix_comes = λ e. λ w. cc }, tt),
)

control_loop-Serves_example :
    (tr : List Event) × (control_loop host 3 4 (rounds_of rounds) (calm running running.trace)
      ≡ returns (tt, calm running tr))
    × (served tr ≡ served running.trace ++ 5 ∷ 6 ∷ [])
control_loop-Serves_example = control_loop-Serves host running 3 4 rounds running.trace polled

abbrev interrupted : Round
interrupted = record {
  select = λ nfds set. select_failed (codes "?") set;
  accept = λ sock. if sock == 4 then waits else accepts 5;
}

select_failed_waits_example : control_round host 3 4 interrupted running ≡ blocked
select_failed_waits_example = select_failed_waits host 3 4 interrupted (codes "?") running refl refl
