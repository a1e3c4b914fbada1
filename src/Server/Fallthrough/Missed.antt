-- ===== src/Server/Fallthrough/Missed.antt =====
-- A key's way through the whole server: neither the cache nor the file has it, a thread of the queue
-- takes it to the database, and the next lookup finds it in the cache.
use nastd.Prelude.{
  ℕ, ◌≤◌, ◌≡◌, ◌≢◌, refl, ◌∙◌, ap, sym, arith, ◌+◌, ◌-◌, Bool, true, false, List, [], ◌∷◌, ◌++◌,
  none, some, map, length,
}
use nastd.Prelude.Bytes.{Bytes}
use nastd.Prelude.Fields.{ArePlain}
use nastd.Prelude.Outcome.{returns}
use nastd.Array.{array_new}
use nastd.Memdb.{lookup}
use nastd.Memdb.Get.{memdb_get}
use nastd.Memdb.States.{got, counted}
use nastd.Memdb.Steps.{memdb_get_lem}
use nastd.Memdb.Invariant.{IsValid}
use nastd.Cdb.{Cdb, c_string}
use nastd.Cdb.Query.{cdb_get}
use nastd.Mysqldb.{Row, rows, Mysqldb, Database, select_text}
use nastd.Mysqldb.Laws.{IsReachable}
use nastd.Fqm.{Request, req_new, fqm_push, is_full, enqueue, dequeue, Fqm}
use nastd.Ipc.{nastok}
use nastd.Server.{Server, ok}
use nastd.Server.Respond.Sent.{response}
use nastd.Server.Lookup.{env_of, ask_memdb, ask_cdb, after_memdb, after_cdb, queue_request, do_get}
use nastd.Server.Lookup.Routes.{do_get_cached}
use nastd.Server.Fallthrough.{Popper, do_fallthrough}
use nastd.Server.Fallthrough.Answered.{asked, told, do_fallthrough_found}

module _ (md5_calc : Bytes → Bytes) (now timeout : ℕ) where
  -- A lookup that the cache and the file miss goes to the queue.
  do_get_missed :
      (reqid : ℕ) (key : Bytes) (s : Server) {cdb : Cdb}
      → s.heap ≡ []
      → s.cops.opts.use_qcache ≡ true
      → s.cops.opts.use_localdb ≡ true
      → s.cops.opts.always_fallthrough ≡ false
      → s.cops.opts.no_fallthrough ≡ false
      → is_full s.fqm ≡ false
      → memdb_get md5_calc (env_of now timeout s) key s.memdb []
        ≡ returns ((false, some []), s.memdb, [])
      → cdb_get key [] s.cdb [] ≡ returns ((false, some []), cdb, [])
      → do_get md5_calc now timeout reqid key s
        ≡ returns (
          ok,
          record s {
            cdb = cdb;
            heap = [];
            fqm = enqueue (record { req = key; sock = s.cops.sock; reqid = reqid }) s.fqm;
          },
        )
  unfolding do_get array_new ask_memdb ask_cdb after_memdb after_cdb queue_request fqm_push req_new
  do_get_missed reqid key s {cdb} memory cached local asked allowed room m c =
      ground (arith, memory, cached, local, asked, allowed, room, m, c)

  module _ (reqid reqid' later : ℕ) (key : Bytes) (s : Server) (cdb : Cdb) (db : Mysqldb)
      (arg : Bool) (database : Database) where
    abbrev pub request : Request
    request = record { req = key; sock = s.cops.sock; reqid = reqid }

    -- the thread that has taken the request, and left the queue `rest`
    abbrev pub popper : Fqm → Popper
    popper rest = record {
      server = record s { cdb = cdb; heap = []; fqm = rest };
      db = db;
      arg = arg;
    }

    -- The first lookup of a key that neither the cache nor the file has puts a request into the empty
    -- queue and sends nothing; the thread that takes the request sends the row that the database has
    -- for the key, under the number of that lookup, and returns 0; a later lookup is answered from
    -- the cache with the same values, and leaves the queue alone. What has been sent in all are the
    -- two responses. The options are the default in what a lookup reads of them, there is memory, the
    -- socket takes what it is given, the thread has a connection or gets one, the cache is valid, the
    -- key has no NUL, the file is no newer than the request; the row has a string without a NUL for each field, one at
    -- least, and their responses have at most 1024 bytes.
    pub get_falls_through :
        (n : ℕ) (vals : List Bytes) (more : Row) (others : List Row)
        → s.heap ≡ []
        → s.net ≡ []
        → s.cops.opts.use_qcache ≡ true
        → s.cops.opts.use_localdb ≡ true
        → s.cops.opts.always_fallthrough ≡ false
        → s.cops.opts.no_fallthrough ≡ false
        → is_full s.fqm ≡ false
        → s.fqm.queue ≡ []
        → IsValid s.memdb
        → lookup md5_calc s.memdb key ≡ none
        → c_string key ≡ key
        → cdb_get key [] s.cdb [] ≡ returns ((false, some []), cdb, [])
        → cdb.cdb_mtime ≤ now
        → IsReachable database (record { db = db; arg = arg; heap = [] })
        → database.query (select_text db.cols cdb key) ≡ rows n ((map some vals ++ more) ∷ others)
        → cdb.db_fieldcount ≡ length vals
        → length vals ≤ n
        → ArePlain 0 vals
        → vals ≢ []
        → length (response reqid nastok vals) ≤ 1024
        → length (response reqid' nastok vals) ≤ 1024
        → (rest : Fqm) × (p : Popper) × (t : Server) × (do_get md5_calc now timeout reqid key s
            ≡ returns (ok, record s { cdb = cdb; heap = []; fqm = enqueue request s.fqm }))
          × (dequeue (enqueue request s.fqm) ≡ some (request, rest))
          × (do_fallthrough md5_calc now timeout database request (popper rest) ≡ returns (ok, p))
          × (do_get md5_calc later timeout reqid' key p.server ≡ returns (ok, t))
          × (t.sent ≡ (s.sent ++ response reqid nastok vals) ++ response reqid' nastok vals)
          × (t.fqm ≡ rest)
    unfolding enqueue dequeue got
    get_falls_through n vals more others memory whole cached local asked_ allowed room empty valid
          absent plain c fresh reach e count enough nuls some_vals fits fits' =
        let rest : Fqm = record (s.fqm) { queue = []; nitems = s.fqm.nitems + 1 - 1 } in
        let after : Server =
          told md5_calc now timeout database request (popper rest) refl whole reach vals in
        let found =
          do_fallthrough_found md5_calc now timeout database request (popper rest) refl whole reach
            (env_of later timeout after) n vals more others e count enough nuls some_vals fits valid
            (ap (lookup md5_calc s.memdb) plain ∙ absent) fresh in
        (
          rest,
          asked md5_calc now timeout database request (popper rest) refl whole reach after,
          record after {
            memdb = counted md5_calc after.memdb;
            heap = [];
            net = [];
            sent = after.sent ++ response reqid' nastok vals;
          },
          do_get_missed reqid key s memory cached local asked_ allowed room
              (memdb_get_lem md5_calc s.memdb valid.free (env_of now timeout s) key []
                ∙ ap (got md5_calc s.memdb (env_of now timeout s) key []) absent)
              c,
          taken,
          found.0,
          do_get_cached md5_calc later timeout reqid' key vals after refl refl cached asked_ fits' (
              ap (λ k. memdb_get md5_calc (env_of later timeout after) k after.memdb []) (sym plain)
              ∙ found.2),
          ap (λ l. l ++ response reqid' nastok vals) found.1,
          refl,
        )
      where
        taken :
            dequeue (enqueue request s.fqm)
            ≡ some (request, record (s.fqm) { queue = []; nitems = s.fqm.nitems + 1 - 1 })
        taken = ground (arith, empty)
