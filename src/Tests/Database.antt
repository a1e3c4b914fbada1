-- ===== src/Tests/Database.antt =====
-- A thread of the queue and its database: one row for the key "b", and none for others.
use nastd.Prelude.{
  ◌≡◌, refl, arith, if◌then◌else◌, ltb, List, [], ◌∷◌, ◌++◌, none, some, true, false, inr,
}
use nastd.Prelude.Bytes.{Bytes, same_bytes}
use nastd.Prelude.Fields.{join}
use nastd.Prelude.Outcome.{returns, fault}
use nastd.Memdb.{lookup}
use nastd.Memdb.Entries.{find_entry}
use nastd.Memdb.Get.{memdb_get}
use nastd.Memdb.States.{counted, dropped}
use nastd.Cdb.Load.{codes}
use nastd.Mysqldb.{
  released, free_block, mysqldb_get, connect_first, read_result, mysqldb_connect_close,
  mysqldb_connect_new, Database, connected, query_failed, rows, mysqldb_new, add_cols, strncat,
  select_text,
}
use nastd.Mysqldb.Laws.{mysqldb_new_lem}
use nastd.Fqm.{Request, Fqm, is_full, enqueue, dequeue}
use nastd.Ipc.{nastok}
use nastd.Server.{Server, ok}
use nastd.Server.Respond.Sent.{response}
use nastd.Server.Fallthrough.{Popper, do_fallthrough}
use nastd.Server.Fallthrough.Answered.{
  session, told, asked, do_fallthrough_found, do_fallthrough_missing,
}
use nastd.Server.Lookup.{do_get}
use nastd.Server.Fallthrough.Missed.{get_falls_through}
use nastd.Cdb.{Cdb}
use nastd.Cdb.Find.{cdb_hash, cdb_bread, read_pair, cdb_find}
use nastd.Cdb.Query.{cdb_get, get_fields, unlocked, release_lock}
use nastd.Thread.{rw_mutex_read_lock, rw_mutex_unlock}
use nastd.Tests.Files.{served as file_served}
use nastd.Tests.Cache.{digest, env, later_env, empty, empty-IsValid, server}

abbrev wanted : Bytes
wanted = codes "SELECT v FROM t WHERE k='b'"

abbrev database : Database
database = record {
  connect = connected;
  query = λ text. rows 1 (if same_bytes text wanted then (some (118 ∷ []) ∷ []) ∷ [] else []);
  mysql_close = λ block. released;
}

abbrev broken : Database
broken = record database { query = λ text. query_failed }

abbrev popper : Popper
popper = record {
  server = record server {
    memdb = empty;
    cdb = record (server.cdb) {
      db_key = codes "k";
      db_tbl = codes "t";
      db_fields = codes "v" ∷ [];
    };
  };
  db = record { cols = codes "v"; sec_c = 0 };
  arg = false;
}

cols : mysqldb_new (codes "v" ∷ codes "w" ∷ []) ≡ returns (record { cols = codes "v,w"; sec_c = 0 })
unfolding mysqldb_new add_cols strncat
cols = refl

mysqldb_new_lem_example :
    mysqldb_new (codes "v" ∷ codes "w" ∷ []) ≡ returns (record { cols = codes "v,w"; sec_c = 0 })
unfolding join
mysqldb_new_lem_example = mysqldb_new_lem (codes "v" ∷ codes "w" ∷ [])

abbrev request : Bytes → Request
request key = record { req = key; sock = 7; reqid = 9 }

nothing : (key : Bytes) → lookup digest empty key ≡ none
unfolding lookup find_entry
nothing key = refl

row_there :
    database.query (select_text popper.db.cols popper.server.cdb (98 ∷ []))
    ≡ rows 1 ((some (118 ∷ []) ∷ []) ∷ [])
unfolding select_text same_bytes
row_there = refl

row_missing : database.query (select_text popper.db.cols popper.server.cdb (99 ∷ [])) ≡ rows 1 []
unfolding select_text same_bytes
row_missing = refl

abbrev answer : List Bytes → Bytes → Server
answer aa key = told digest 100 60 database (request key) popper refl refl (inr refl) aa

abbrev after : List Bytes → Bytes → Popper
after aa key =
    asked digest 100 60 database (request key) popper refl refl (inr refl) (answer aa key)

do_fallthrough_found_example :
    (do_fallthrough digest 100 60 database (request (98 ∷ [])) popper
      ≡ returns (ok, after ((118 ∷ []) ∷ []) (98 ∷ [])))
    × ((answer ((118 ∷ []) ∷ []) (98 ∷ [])).sent ≡ response 9 nastok ((118 ∷ []) ∷ []))
    × (memdb_get digest env (98 ∷ []) (answer ((118 ∷ []) ∷ []) (98 ∷ [])).memdb []
        ≡ returns (
          (true, some ((118 ∷ []) ∷ [])),
          counted digest (answer ((118 ∷ []) ∷ []) (98 ∷ [])).memdb,
          [],
        ))
unfolding join
do_fallthrough_found_example =
    do_fallthrough_found digest 100 60 database (request (98 ∷ [])) popper refl refl (inr refl) env
      1 ((118 ∷ []) ∷ []) [] [] row_there refl (omega arith) ((omega arith, tt), tt) (λ e. cc)
      (omega arith) empty-IsValid (nothing _) (omega arith)

do_fallthrough_missing_example :
    (do_fallthrough digest 100 60 database (request (99 ∷ [])) popper
      ≡ returns (ok, after [] (99 ∷ [])))
    × ((answer [] (99 ∷ [])).sent ≡ response 9 nastok [])
    × (memdb_get digest later_env (99 ∷ []) (answer [] (99 ∷ [])).memdb [] ≡ (
        if ltb 200 160
        then returns ((true, some []), counted digest (answer [] (99 ∷ [])).memdb, [])
        else returns ((false, some []), dropped digest (answer [] (99 ∷ [])).memdb (99 ∷ []), [])))
do_fallthrough_missing_example =
    do_fallthrough_missing digest 100 60 database (request (99 ∷ [])) popper refl refl (inr refl)
      later_env 1 row_missing empty-IsValid (nothing _)

-- the handle is released twice
refused_twice : mysqldb_get broken popper.server.cdb (98 ∷ []) [] (session popper) ≡ fault
unfolding mysqldb_get connect_first read_result mysqldb_connect_close free_block mysqldb_connect_new
refused_twice = refl

-- a server with a database file that has one key, another one
abbrev cdb : Cdb
cdb = record file_served {
  db_key = codes "k";
  db_tbl = codes "t";
  db_fields = codes "v" ∷ [];
  db_fieldcount = 1;
}

abbrev whole_server : Server
whole_server = record server { memdb = empty; cdb = cdb }

not_in_file : cdb_get (98 ∷ []) [] cdb [] ≡ returns ((false, some []), cdb, [])
unfolding cdb_get get_fields unlocked release_lock rw_mutex_read_lock rw_mutex_unlock cdb_find
    cdb_hash read_pair cdb_bread
not_in_file = refl

row_for_key :
    database.query (select_text (codes "v") cdb (98 ∷ [])) ≡ rows 1 ((some (118 ∷ []) ∷ []) ∷ [])
unfolding select_text same_bytes
row_for_key = refl

abbrev asked_for : Request
asked_for = request (98 ∷ [])

room : is_full whole_server.fqm ≡ false
unfolding is_full
room = refl

get_falls_through_example :
    (rest : Fqm) × (p : Popper) × (t : Server) × (do_get digest 100 60 9 (98 ∷ []) whole_server
      ≡ returns (
        ok,
        record whole_server { fqm = record { queue = asked_for ∷ []; maxitems = 4; nitems = 1 } },
      ))
    × (dequeue (record { queue = asked_for ∷ []; maxitems = 4; nitems = 1 })
        ≡ some (asked_for, rest))
    × (do_fallthrough digest 100 60 database asked_for (record {
      server = record whole_server { fqm = rest };
      db = record { cols = codes "v"; sec_c = 0 };
      arg = false;
    })
        ≡ returns (ok, p))
    × (do_get digest 200 60 10 (98 ∷ []) p.server ≡ returns (ok, t))
    × (t.sent ≡ response 9 nastok ((118 ∷ []) ∷ []) ++ response 10 nastok ((118 ∷ []) ∷ []))
    × (t.fqm ≡ rest)
unfolding join enqueue
get_falls_through_example =
    get_falls_through digest 100 60 9 10 200 (98 ∷ []) whole_server cdb
      (record { cols = codes "v"; sec_c = 0 }) false database 1 ((118 ∷ []) ∷ []) [] [] refl refl
      refl refl refl refl room refl empty-IsValid (nothing _) refl not_in_file (omega arith)
      (inr refl) row_for_key refl (omega arith) ((omega arith, tt), tt) (λ e. cc) (omega arith)
      (omega arith)
