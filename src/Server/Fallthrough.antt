-- ===== src/Server/Fallthrough.antt =====
-- server/nastdio.c: `do_fallthrough`, which a thread of the queue runs on a request that neither the
-- cache nor the database file has answered.
pub mod Answered
pub mod Missed
use nastd.Prelude.{ℕ, ◌+◌, if◌then◌else◌, Bool, true, false, [], ◌∷◌, Option, none, some}
use nastd.Prelude.Bytes.{Bytes}
use nastd.Prelude.Int.{ℤ, pos, negsuc}
use nastd.Prelude.Outcome.{Outcome, returns, blocked, fault}
use nastd.Prelude.Run.{Run, ◌>>=◌, ◌>>◌, pure}
use nastd.Array.{Array, array_new}
use nastd.Memdb.Add.{memdb_add}
use nastd.Cdb.{c_string}
use nastd.Cdb.Load.{codes}
use nastd.Mysqldb.{Database, Mysqldb, mysqldb_get}
use nastd.Fqm.{Request}
use nastd.Ipc.{nastok, nasterr}
use nastd.Server.{Server, Rc, ok, err, bye, Act, alloc}
use nastd.Server.Respond.{arr_send_response, send_response}
use nastd.Server.Lookup.{env_of}

-- What a thread of the queue reads and changes: `server` has the request's socket, and `arg` says
-- that the thread has a connection to the database.
pub record Popper : Type 0 where
  pub server : Server
  pub db : Mysqldb
  pub arg : Bool

abbrev pub Serve {ℓ} : Type ℓ → Type ℓ
Serve = Run Popper

abbrev pub on_server {ℓ} : {A : Type ℓ} → Act A → Serve A
on_server m p = elim (m p.server) [
  | returns (a, s) ↦ returns (a, record p { server = s })
  | blocked ↦ blocked
  | fault ↦ fault
]

unfoldable pub fetch : Database → Bytes → Serve (ℤ × Array)
fetch database key p =
    elim (mysqldb_get database p.server.cdb key []
      (record { db = p.db; arg = p.arg; heap = p.server.heap })) [
        | returns (r, s) ↦
            returns
              (r, record { server = record (p.server) { heap = s.heap }; db = s.db; arg = s.arg })
        | blocked ↦ blocked
        | fault ↦ fault
      ]

module _ (md5_calc : Bytes → Bytes) (now timeout : ℕ) where
  -- the call of `memdb_add`, its result unread
  unfoldable pub remember : Bytes → Array → Act (Unit {0})
  remember key aa s = elim (memdb_add md5_calc (env_of now timeout s) key aa s.memdb s.heap) [
    | returns (rc, db, h) ↦ returns (tt, record s { memdb = db; heap = h })
    | blocked ↦ blocked
    | fault ↦ fault
  ]

  -- from the answer to the client on
  unfoldable pub answer_found : Request → Array → Serve Rc
  answer_found req aa = on_server (arr_send_response req.reqid nastok aa) >>= λ rc. elim rc [
    | err ↦ pure err
    | _ ↦ on_server (remember (c_string req.req) aa) >> pure ok
  ]

  unfoldable pub do_fallthrough : Database → Request → Serve Rc
  do_fallthrough database req = on_server (alloc array_new) >>= λ block. elim block [
    | none ↦
        on_server (send_response req.reqid nasterr (codes "Couldn't allocate return buffer" ∷ []))
        >> pure err
    | some _ ↦ fetch database req.req >>= λ r. elim r.0 [
      | pos rc ↦ answer_found req r.1
      | negsuc rc ↦ on_server (send_response req.reqid nastok []) >> pure err
    ]
  ]
