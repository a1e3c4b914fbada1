-- ===== src/Server/Lookup.antt =====
-- server/nastdio.c: `do_get`, which asks the cache, then the database file, and then leaves the key
-- to the threads of the fallthrough queue.
pub mod Routes
use nastd.Prelude.{
  ℕ, ◌+◌, ◌==◌, if◌then◌else◌, Bool, true, false, not, ◌&&◌, List, [], ◌∷◌, ◌++◌, Option, none,
  some,
}
use nastd.Prelude.Bytes.{Bytes}
use nastd.Prelude.Outcome.{Outcome, returns, blocked, fault}
use nastd.Array.{Array, array_new}
use nastd.Memdb.{Env}
use nastd.Memdb.Get.{memdb_get}
use nastd.Cdb.Load.{codes}
use nastd.Cdb.Query.{cdb_get}
use nastd.Fqm.{Request, req_new, fqm_push}
use nastd.Ipc.{NastOptions, nastok, nasterr}
use nastd.Server.{ClientOpts, Server, Rc, ok, err, Act, ◌>>=◌, ◌>>◌, pure, alloc}
use nastd.Server.Respond.{arr_send_response, send_response}

-- What a lookup gives: the values; nothing, with the caller's array still empty; or `lost` where
-- memory ran out while the array was filled.
pub data Looked : Type 0 where
  hit : Array → Looked
  miss : Looked
  lost : Looked

abbrev looked : Bool × Option Array → Looked
looked (true, some aa) = hit aa
looked (false, some []) = miss
looked _ = lost

-- what the cache reads of the clock, the configuration and cdb.c
abbrev pub env_of : ℕ → ℕ → Server → Env
env_of now timeout s = record {
  now = now;
  cdb_mtime = s.cdb.cdb_mtime;
  db_fieldcount = s.cdb.db_fieldcount;
  null_cache_timeout = timeout;
}

unfoldable pub failed : ℕ → Bytes → Act Rc
failed reqid message = send_response reqid nasterr (message ∷ []) >> pure err

-- from `req_new` on, with `do_fallthrough` as the handler
unfoldable pub queue_request : ℕ → Bytes → Act Rc
queue_request reqid buffer s =
    (alloc (req_new s.cops.sock reqid buffer) >>= λ made. elim made [
      | none ↦ failed reqid (codes "Couldn't build FQM req")
      | some req ↦ λ t.
          let (accepted, queue) = fqm_push req t.fqm in
          if accepted
          then returns (ok, record t { fqm = queue })
          else failed reqid (codes "Couldn't add req to FQM") t
    ])
      s

module _ (md5_calc : Bytes → Bytes) (now timeout : ℕ) where
  unfoldable pub ask_memdb : Bytes → Act Looked
  ask_memdb key s = elim (memdb_get md5_calc (env_of now timeout s) key s.memdb s.heap) [
    | returns (r, db, h) ↦ returns (looked r, record s { memdb = db; heap = h })
    | blocked ↦ blocked
    | fault ↦ fault
  ]

  unfoldable pub ask_cdb : Bytes → Act Looked
  ask_cdb key s = elim (cdb_get key [] s.cdb s.heap) [
    | returns (r, db, h) ↦ returns (looked r, record s { cdb = db; heap = h })
    | blocked ↦ blocked
    | fault ↦ fault
  ]

  -- from the test of `fallthrough_flag` on
  unfoldable pub after_cdb : ℕ → Bytes → NastOptions → Looked → Act Rc
  after_cdb reqid buffer o (hit aa) = arr_send_response reqid nastok aa
  after_cdb reqid buffer o miss =
      if not o.no_fallthrough then queue_request reqid buffer else arr_send_response reqid nastok []
  after_cdb reqid buffer o lost = λ s. fault

  -- from the test for the database file on
  unfoldable pub after_memdb : ℕ → Bytes → NastOptions → Looked → Act Rc
  after_memdb reqid buffer o (hit aa) = arr_send_response reqid nastok aa
  after_memdb reqid buffer o miss =
      if not o.always_fallthrough && o.use_localdb
      then (ask_cdb buffer >>= after_cdb reqid buffer o)
      else after_cdb reqid buffer o miss
  after_memdb reqid buffer o lost = λ s. fault

  -- A half-filled array is used on after a lookup that ran out of memory; such a run is `fault`.
  unfoldable pub do_get : ℕ → Bytes → Act Rc
  do_get reqid buffer s =
      (alloc array_new >>= λ block. elim block [
        | none ↦ failed reqid (codes "Couldn't allocate return buffer")
        | some _ ↦
            let o = s.cops.opts in
            if o.use_qcache && not o.always_fallthrough
            then (ask_memdb buffer >>= after_memdb reqid buffer o)
            else after_memdb reqid buffer o miss
      ])
        s
