-- ===== src/Server/Lookup/Routes.antt =====
-- How a lookup is answered: from the cache alone where it can be.
use nastd.Prelude.{arith, ℕ, ◌≤◌, ◌≡◌, true, false, [], ◌++◌, some, length}
use nastd.Prelude.Bytes.{Bytes}
use nastd.Fqm.{fqm_push, req_new, is_full, enqueue}
use nastd.Server.Lookup.{after_cdb, queue_request}
use nastd.Prelude.Outcome.{returns}
use nastd.Array.{Array, array_new}
use nastd.Memdb.{Memdb}
use nastd.Memdb.Get.{memdb_get}
use nastd.Ipc.{nastok}
use nastd.Server.{Server, ok, ◌>>=◌}
use nastd.Server.Respond.Sent.{response, arr_send_response_fits}
use nastd.Server.Lookup.{env_of, ask_memdb, after_memdb, do_get}

module _ (md5_calc : Bytes → Bytes) (now timeout : ℕ) where
  -- With the cache in use and no forced fallthrough, a key that the cache answers with `aa` is
  -- answered with exactly those values, when the response has at most 1024 bytes, there is memory
  -- and the socket takes it; the database file and the queue are left alone.
  pub do_get_cached :
      (reqid : ℕ) (key : Bytes) (aa : Array) (s : Server) {db : Memdb}
      → s.heap ≡ []
      → s.net ≡ []
      → s.cops.opts.use_qcache ≡ true
      → s.cops.opts.always_fallthrough ≡ false
      → length (response reqid nastok aa) ≤ 1024
      → memdb_get md5_calc (env_of now timeout s) key s.memdb [] ≡ returns ((true, some aa), db, [])
      → do_get md5_calc now timeout reqid key s
        ≡ returns (
          ok,
          record s { memdb = db; heap = []; net = []; sent = s.sent ++ response reqid nastok aa },
        )
  unfolding do_get array_new ask_memdb after_memdb
  do_get_cached reqid key aa s {db} memory free used asked fits e =
      rw (memory, do_get)
        (rw used (
          rw asked (
            rw (e, ◌>>=◌, ask_memdb)
              (arr_send_response_fits reqid nastok aa
                (record s {
                  memdb = db;
                  heap = [];
                  cops = record (s.cops) {
                    opts = record (s.cops.opts) { use_qcache = true; always_fallthrough = false };
                  };
                })
                fits free))))

  -- With fallthrough always asked for, and allowed, a key goes to the queue's end with the number of
  -- its request, where there is room in the queue and memory; nothing is sent, and neither the cache
  -- nor the database file is asked.
  pub do_get_forced :
      (reqid : ℕ) (key : Bytes) (s : Server)
      → s.heap ≡ []
      → s.cops.opts.always_fallthrough ≡ true
      → s.cops.opts.no_fallthrough ≡ false
      → is_full s.fqm ≡ false
      → do_get md5_calc now timeout reqid key s
        ≡ returns (
          ok,
          record s {
            heap = [];
            fqm = enqueue (record { req = key; sock = s.cops.sock; reqid = reqid }) s.fqm;
          },
        )
  unfolding do_get array_new after_memdb after_cdb queue_request fqm_push req_new
  do_get_forced reqid key s memory asked allowed room = ground (arith, memory, asked, allowed, room)
