-- ===== src/Daemon/Init.antt =====
-- server/nastd.c: `init_daemon` and `main` up to its control loop.
use nastd.Prelude.{ℕ, ◌==◌, if◌then◌else◌, Bool, List, [], ◌∷◌, Option, none, some, drop}
use nastd.Prelude.Bytes.{Bytes}
use nastd.Prelude.Outcome.{returns, blocked, fault}
use nastd.Prelude.Run.{◌>>=◌, ◌>>◌, pure}
use nastd.Log.{log_open}
use nastd.Memdb.{memdb_new}
use nastd.Cdb.Load.{codes, cdb_new}
use nastd.Mysqldb.{mysqldb_new}
use nastd.Fqm.Pool.{Tids}
use nastd.Fqm.Start.{fqm_new}
use nastd.Periodic.{periodic_new}
use nastd.Daemon.{
  Config, Forked, child, parent, not_forked, Host, Main, log_opened, sigpipe_blocked, new_session,
  closed, note, started, complain, make_u_csock, make_i_csock,
}

-- the string from its last `c` on
unfoldable pub strrchr : ℕ → Bytes → Option Bytes
strrchr c [] = none
strrchr c (x ∷ s) = elim (strrchr c s) [
  | some p ↦ some p
  | none ↦ if x == c then some (x ∷ s) else none
]

abbrev pub slash : ℕ
slash = b'/'

unfoldable pub base_name : Bytes → Bytes
unfolding strrchr
base_name argv0 = elim (strrchr slash argv0) [ none ↦ argv0 | some p ↦ drop 1 p ]

-- The loop over `getopt`, whose result is put into a `char`: the directory, or `none` for the `exit(1)`
-- of `usage`. The -1 at the end is no -1 any more where `char` is unsigned.
unfoldable pub read_options : Bool → Bytes → List (ℕ × Bytes) → Option Bytes
read_options char_signed dir [] = if char_signed then some dir else none
read_options char_signed dir ((ch, optarg) ∷ more) =
    let rest = read_options char_signed optarg more in if ch == b'd' then rest else none

-- `init_daemon`: it returns 0, it returns -1, or the parent has called `exit(0)`.
pub data Rc : Type 0 where
  ready : Rc
  not_ready : Rc
  leaves : Rc

-- `main` ends with a status, or comes to its loop with the two sockets.
pub data Status : Type 0 where
  exits : ℕ → Status
  runs : (u_csock i_csock : ℕ) → Status

-- the pool, whose NULL `main` does not test
unfoldable pub new_pool : Main (Option Tids)
new_pool s = elim (fqm_new 10 s.boot) [
  | returns (tids, b) ↦ returns (tids, record s { boot = b; fqm = tids })
  | blocked ↦ blocked
  | fault ↦ fault
]

-- `mysqldb_new`, which always returns 0
unfoldable pub name_cols : Main (Unit {0})
name_cols s = elim (mysqldb_new s.cdb.db_fields) [
  | returns db ↦ returns (tt, record s { mysqldb = some db })
  | blocked ↦ blocked
  | fault ↦ fault
]

unfoldable pub make_cache : Main Bool
make_cache s = elim (memdb_new s.memdb s.boot.heap) [
  | returns (made, db, h) ↦
      returns (made, record s { memdb = db; boot = record (s.boot) { heap = h } })
  | blocked ↦ blocked
  | fault ↦ fault
]

module _ (host : Host) where
  unfoldable pub load_cdb : Main Bool
  load_cdb s = elim (cdb_new host.dbname host.dbtbl host.file s.cdb s.boot.heap) [
    | returns (loaded, db, h) ↦
        returns (loaded, record s { cdb = db; boot = record (s.boot) { heap = h } })
    | blocked ↦ blocked
    | fault ↦ fault
  ]

  -- `setsid` in the child, which closes its standard input and output
  unfoldable pub forked : Forked → Main Rc
  unfolding note complain
  forked child = note new_session >> note (closed 0) >> note (closed 1) >> pure ready
  forked parent = pure leaves
  forked (not_forked e) =
      complain host (codes "Couldn't fork into daemon: %s.") (e ∷ []) >> pure not_ready

  unfoldable pub daemonise : Main Rc
  unfolding note forked
  daemonise = note sigpipe_blocked >> forked host.fork

  unfoldable pub init_daemon : Bytes → Main Rc
  unfolding note
  init_daemon progname = note (log_opened (log_open progname)) >> load_cdb >>= λ loaded.
      if loaded
      then (name_cols >> make_cache >>= λ made. if made then daemonise else pure not_ready)
      else pure not_ready

  unfoldable pub start_work : ℕ → ℕ → Main Status
  unfolding complain
  start_work u_csock i_csock = new_pool >> started periodic_new >>= λ made.
      if made
      then (λ s. returns (runs u_csock i_csock, record s { start_time = host.time }))
      else complain host (codes "Couldn't start periodic thread. Exiting.") [] >> pure (exits 1)

  unfoldable pub with_inet : ℕ → Option ℕ → Main Status
  with_inet u_csock none = pure (exits 1)
  with_inet u_csock (some i_csock) = start_work u_csock i_csock

  unfoldable pub with_unix : Config → Option ℕ → Main Status
  with_unix config none = pure (exits 1)
  with_unix config (some u_csock) = make_i_csock host config.tcp_port >>= with_inet u_csock

  unfoldable pub behind_init : Config → Rc → Main Status
  unfolding complain
  behind_init config ready = make_u_csock host config.nast_sock >>= with_unix config
  behind_init config leaves = pure (exits 0)
  behind_init config not_ready =
      complain host (codes "Couldn't initialise nastd. Exiting.") [] >> pure (exits 1)

  unfoldable pub configured : Bytes → Option Config → Main Status
  configured argv0 none = pure (exits 1)
  configured argv0 (some config) = init_daemon (base_name argv0) >>= behind_init config

  unfoldable pub main : Bytes → Main Status
  main argv0 = elim (read_options host.char_signed host.default_dir host.getopt) [
    | none ↦ pure (exits 1)
    | some nast_dir ↦ configured argv0 (host.config_init nast_dir)
  ]
