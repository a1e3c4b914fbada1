-- ===== src/Server/Fallthrough/Answered.antt =====
-- What a request of the queue comes to: a row is sent and remembered, and so is its absence.
use nastd.Prelude.{
  ltb, if◌then◌else◌, ℕ, ◌+◌, ◌≤◌, ◌≡◌, ◌≢◌, refl, arith, true, false, List, [], ◌∷◌, ◌++◌, none,
  some, map, length,
}
use nastd.Prelude.Bytes.{Bytes}
use nastd.Prelude.Fields.{join, ArePlain}
use nastd.Prelude.Outcome.{returns, fault}
use nastd.Prelude.Run.{◌>>=◌}
use nastd.Array.{Array, array_new}
use nastd.Memdb.{Env, lookup}
use nastd.Memdb.Entries.{held}
use nastd.Memdb.Add.{memdb_add, build_entry}
use nastd.Memdb.Get.{memdb_get}
use nastd.Memdb.States.{inserted, dropped, counted}
use nastd.Memdb.Invariant.{IsValid}
use nastd.Memdb.Cache.{get-add_absent}
use nastd.Memdb.Forward.{memdb_add_new, memdb_add_absent}
use nastd.Cdb.{c_string}
use nastd.Mysqldb.{live, released, Row, query_failed, rows, Database, Session, select_text}
use nastd.Mysqldb.Laws.{IsReachable, mysqldb_get_found, mysqldb_get_missing, mysqldb_get_refused}
use nastd.Fqm.{Request}
use nastd.Ipc.{nastok}
use nastd.Server.{Server, ok}
use nastd.Server.Respond.Sent.{response, arr_send_response_fits}
use nastd.Server.Lookup.{env_of}
use nastd.Server.Fallthrough.{Popper, on_server, fetch, remember, answer_found, do_fallthrough}

-- the state of a query of the thread
abbrev pub session : Popper → Session
session p = record { db = p.db; arg = p.arg; heap = p.server.heap }

module _ (md5_calc : Bytes → Bytes) (now timeout : ℕ) where
  -- the state after `aa` has been sent and remembered under `key`
  abbrev pub served : ℕ → Bytes → Array → Server → Server
  served reqid key aa s = record s {
    memdb = inserted md5_calc s.memdb key (build_entry (env_of now timeout s) key aa (held aa));
    heap = [];
    net = [];
    sent = s.sent ++ response reqid nastok aa;
  }

  answer_found_lem :
      (req : Request) (aa : Array) (p : Popper)
      → length (response req.reqid nastok aa) ≤ 1024
      → p.server.heap ≡ []
      → p.server.net ≡ []
      → memdb_add md5_calc (env_of now timeout p.server) (c_string req.req) aa p.server.memdb []
        ≡ returns (
          true,
          inserted md5_calc p.server.memdb
              (c_string req.req)
              (build_entry (env_of now timeout p.server) (c_string req.req) aa (held aa)),
          [],
        )
      → answer_found md5_calc now timeout req aa p
        ≡ returns (ok, record p { server = served req.reqid (c_string req.req) aa p.server })
  unfolding answer_found remember
  answer_found_lem req aa p fits memory whole adds =
      rw (arr_send_response_fits req.reqid nastok aa p.server fits whole, ◌>>=◌, on_server)
        (rw memory (rw (adds, ◌>>=◌, on_server) refl))

  module _ (database : Database) (req : Request) (p : Popper) (memory : p.server.heap ≡ [])
      (whole : p.server.net ≡ []) (reachable : IsReachable database (session p)) where
    -- the thread after its query
    abbrev pub asked : Server → Popper
    asked s = record p { server = s; db = record (p.db) { sec_c = p.db.sec_c + 1 }; arg = true }

    -- the server after the answer
    abbrev pub told : Array → Server
    told aa = served req.reqid (c_string req.req) aa p.server

    -- A request whose key the database has, for a key that is not in the cache: the row's strings are
    -- sent to the request's client under its number and stored under the key, and a later lookup of the key, at a
    -- time when the database file is no newer, finds them in the cache. There is memory, the socket takes what it
    -- is given, the thread has a connection or gets one, the cache is valid; the row has a string
    -- without a NUL for each field, one at least, and their response has at most 1024 bytes.
    pub do_fallthrough_found :
        (env' : Env) (n : ℕ) (vals : List Bytes) (more : Row) (others : List Row)
        → database.query (select_text p.db.cols p.server.cdb req.req)
          ≡ rows n ((map some vals ++ more) ∷ others)
        → p.server.cdb.db_fieldcount ≡ length vals
        → length vals ≤ n
        → ArePlain 0 vals
        → vals ≢ []
        → length (response req.reqid nastok vals) ≤ 1024
        → IsValid p.server.memdb
        → lookup md5_calc p.server.memdb (c_string req.req) ≡ none
        → env'.cdb_mtime ≤ now
        → (do_fallthrough md5_calc now timeout database req p ≡ returns (ok, asked (told vals)))
          × ((told vals).sent ≡ p.server.sent ++ response req.reqid nastok vals)
          × (memdb_get md5_calc env' (c_string req.req) (told vals).memdb []
              ≡ returns ((true, some vals), counted md5_calc (told vals).memdb, []))
    unfolding do_fallthrough fetch array_new
    do_fallthrough_found env' n vals more others e count enough plain some_vals fits valid nothing
          fresh =
        let stored =
          memdb_add_absent md5_calc (env_of now timeout p.server) env' (c_string req.req) vals
            p.server.memdb valid nothing some_vals fresh in
        (
          rw (memory, do_fallthrough)
              (rw
                (
                  mysqldb_get_found database p.server.cdb req.req (record (session p) { heap = [] })
                      n vals more others reachable e count enough plain refl,
                  ◌>>=◌,
                  fetch,
                )
                (answer_found_lem req vals (asked (record (p.server) { heap = [] })) fits refl whole
                  stored.0)),
          refl,
          stored.1,
        )

    -- A request whose key the database does not have, for a key that is not in the cache: an answer with no values is
    -- sent, and the absence is remembered: a later lookup of the key in the cache finds no values
    -- before the configured time has passed, and from then on nothing, so that the database is asked
    -- again. There is memory, the socket takes what it is given, the thread has a connection or gets
    -- one, and the cache is valid.
    pub do_fallthrough_missing :
        (env' : Env) (n : ℕ)
        → database.query (select_text p.db.cols p.server.cdb req.req) ≡ rows n []
        → IsValid p.server.memdb
        → lookup md5_calc p.server.memdb (c_string req.req) ≡ none
        → (do_fallthrough md5_calc now timeout database req p ≡ returns (ok, asked (told [])))
          × ((told []).sent ≡ p.server.sent ++ response req.reqid nastok [])
          × (memdb_get md5_calc env' (c_string req.req) (told []).memdb [] ≡ (
              if ltb env'.now (now + timeout)
              then returns ((true, some []), counted md5_calc (told []).memdb, [])
              else returns
                  ((false, some []), dropped md5_calc (told []).memdb (c_string req.req), [])))
    unfolding do_fallthrough fetch array_new join
    do_fallthrough_missing env' n e valid nothing =
        let env = env_of now timeout p.server in
        let stored =
          memdb_add_new md5_calc env (c_string req.req) [] p.server.memdb valid nothing in
        (
          rw (memory, do_fallthrough)
              (rw
                (
                  mysqldb_get_missing database p.server.cdb req.req
                      (record (session p) { heap = [] }) n reachable e,
                  ◌>>=◌,
                  fetch,
                )
                (answer_found_lem req [] (asked (record (p.server) { heap = [] })) (omega arith)
                  refl whole stored)),
          refl,
          (get-add_absent md5_calc env env' (c_string req.req) p.server.memdb [] valid nothing
              stored).0,
        )

  -- A query that the database refuses, where `mysql_close` releases the handle as the library
  -- documents: the handle is released a second time, instead of the answer with no values that the
  -- code means to send. There is memory, and the thread has a connection or gets one.
  do_fallthrough_refused :
      (database : Database) (req : Request) (p : Popper)
      → p.server.heap ≡ []
      → IsReachable database (session p)
      → database.query (select_text p.db.cols p.server.cdb req.req) ≡ query_failed
      → database.mysql_close live ≡ released
      → do_fallthrough md5_calc now timeout database req p ≡ fault
  unfolding do_fallthrough fetch array_new
  do_fallthrough_refused database req p memory reachable e releases =
      rw (memory, do_fallthrough)
        (rw
          (
            mysqldb_get_refused database p.server.cdb req.req [] (record (session p) { heap = [] })
                reachable e releases,
            ◌>>=◌,
            fetch,
          )
          refl)
