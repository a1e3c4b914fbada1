-- ===== src/Daemon.antt =====
-- server/nastd.c: the start of the daemon and its control loop. The calls of the operating system are
-- parameters: what they give stands in `Host` and `Round`, and those that change it are recorded, in
-- order, in the daemon's `trace`. This file has the sockets and the accepting of a client.
pub mod Init
pub mod Ready
pub mod Told
pub mod Ends
pub mod Begins
pub mod Served
pub mod Loop
use nastd.Prelude.{
  ℕ, ltb, if◌then◌else◌, Bool, true, false, List, [], ◌∷◌, ◌++◌, Option, none, some, length,
}
use nastd.Prelude.Bytes.{Bytes}
use nastd.Prelude.Outcome.{Outcome, returns, blocked, fault}
use nastd.Prelude.Run.{Run, ◌>>=◌, ◌>>◌, pure, crash}
use nastd.Log.{Entry, Opened, log_err, log_info}
use nastd.Ipc.{htons}
use nastd.Memdb.{Memdb}
use nastd.Cdb.{Cdb}
use nastd.Cdb.Load.{File, codes}
use nastd.Mysqldb.{Mysqldb}
use nastd.Fqm.Pool.{Tids}
use nastd.Fqm.Start.{Boot, Start, block, make, thread_new}

-- a call of the system: the text that `strerror` has for its error, or what it gives
pub data Answer {ℓ} (A : Type ℓ) : Type ℓ where
  failed : Bytes → Answer A
  gives : A → Answer A

-- What `accept` does: with nobody there it waits.
pub data Accepted : Type 0 where
  refused : Bytes → Accepted
  accepts : ℕ → Accepted
  waits : Accepted

-- `sockaddr_un` by its `sun_path`, and `sockaddr_in` by the bytes of its `sin_port`
pub data Address : Type 0 where
  unix : Bytes → Address
  inet : Bytes → Address

-- the calls that change something outside the process, or make a thread of it
pub data Event : Type 0 where
  log_opened : Opened → Event
  logged : Entry → Event
  sigpipe_blocked : Event
  new_session : Event
  closed : ℕ → Event
  unlinked : Bytes → Event
  bound : ℕ → Address → Event
  listens : ℕ → ℕ → Event
  serves : ℕ → Event
  slept : ℕ → Event

-- the configuration, as far as nastd.c reads it
pub record Config : Type 0 where
  pub nast_dir : Bytes
  pub nast_sock : Bytes
  pub tcp_port : ℕ

pub data Forked : Type 0 where
  child : Forked
  parent : Forked
  not_forked : Bytes → Forked

-- What the calls give during the start. `config_init` of libconfig reads the directory of the
-- configuration; `error_text` is what `strerror` has for an allocation or a
-- thread that cannot be had, `sun_path_size` is the size of the array in `sockaddr_un`, and `getopt` has what that
-- function returns with `optarg` before it returns -1.
pub record Host : Type 0 where
  pub decimal : ℕ → Bytes
  pub error_text : Bytes
  pub pthread_self : ℕ
  pub sun_path_size : ℕ
  pub char_signed : Bool
  pub default_dir : Bytes
  pub getopt : List (ℕ × Bytes)
  pub config_init : Bytes → Option Config
  pub file : File
  pub dbname : Bytes
  pub dbtbl : Bytes
  pub fork : Forked
  pub unix_socket : Answer ℕ
  pub unix_bind : Answer (Unit {0})
  pub inet_socket : Answer ℕ
  pub inet_bind : Answer (Unit {0})
  pub time : ℕ

-- The state of the process: what its files hold in static variables, the allocator with the thread
-- library, the pool, and what has been done.
pub record Daemon : Type 0 where
  pub cdb : Cdb
  pub mysqldb : Option Mysqldb
  pub memdb : Option Memdb
  pub boot : Boot
  pub fqm : Option Tids
  pub start_time : ℕ
  pub trace : List Event

abbrev pub Main {ℓ} : Type ℓ → Type ℓ
Main = Run Daemon

unfoldable pub note : Event → Main (Unit {0})
note e s = returns (tt, record s { trace = s.trace ++ e ∷ [] })

-- a call that allocates or makes threads
abbrev pub started {ℓ} : {A : Type ℓ} → Start A → Main A
started m s = elim (m s.boot) [
  | returns (a, b) ↦ returns (a, record s { boot = b })
  | blocked ↦ blocked
  | fault ↦ fault
]

-- `rw_mutex_new`: a mutex and two conditions
unfoldable pub rw_mutex_make : Start Bool
rw_mutex_make = make >>= λ lock.
    if lock then (make >>= λ readers. if readers then make else pure false) else pure false

module _ (host : Host) where
  unfoldable pub complain : Bytes → List Bytes → Main (Unit {0})
  unfolding note log_err
  complain fmt args = note (logged (log_err host.decimal host.pthread_self fmt args))

  -- `listen` with a backlog of 10, its result unread
  unfoldable pub listening : ℕ → Address → Main (Option ℕ)
  unfolding note
  listening sock address = note (bound sock address) >> note (listens sock 10) >> pure (some sock)

  unfoldable pub bind_unix : ℕ → Bytes → Answer (Unit {0}) → Main (Option ℕ)
  unfolding complain listening
  bind_unix sock nast_sock (failed e) =
      complain (codes "Couldn't bind to unix socket: %s.") (e ∷ []) >> pure none
  bind_unix sock nast_sock (gives _) = listening sock (unix nast_sock)

  -- With a path that fills the array `strncpy` leaves no NUL in it, and `unlink` reads on behind it.
  unfoldable pub name_unix : Bytes → Answer ℕ → Main (Option ℕ)
  unfolding complain note bind_unix
  name_unix nast_sock (failed e) =
      complain (codes "Couldn't create unix socket: %s.") (e ∷ []) >> pure none
  name_unix nast_sock (gives sock) =
      if ltb (length nast_sock) host.sun_path_size
      then note (unlinked nast_sock) >> bind_unix sock nast_sock host.unix_bind
      else crash

  unfoldable pub make_u_csock : Bytes → Main (Option ℕ)
  unfolding name_unix
  make_u_csock nast_sock = name_unix nast_sock host.unix_socket

  unfoldable pub bind_inet : ℕ → ℕ → Answer (Unit {0}) → Main (Option ℕ)
  unfolding complain listening
  bind_inet sock tcp_port (failed e) =
      complain (codes "Couldn't bind to inet socket: %s.") (e ∷ []) >> pure none
  bind_inet sock tcp_port (gives _) = listening sock (inet (htons tcp_port))

  unfoldable pub name_inet : ℕ → Answer ℕ → Main (Option ℕ)
  unfolding complain bind_inet
  name_inet tcp_port (failed e) =
      complain (codes "Couldn't create inet socket: %S.") (e ∷ []) >> pure none
  name_inet tcp_port (gives sock) = bind_inet sock tcp_port host.inet_bind

  unfoldable pub make_i_csock : ℕ → Main (Option ℕ)
  unfolding name_inet
  make_i_csock tcp_port = name_inet tcp_port host.inet_socket

  -- The `return -1` of `io_new` behind its first block: `free_cops` closes the socket.
  unfoldable pub give_up_client : Bytes → ℕ → Main Bool
  unfolding complain note
  give_up_client fmt s = complain fmt (host.error_text ∷ []) >> note (closed s) >> pure false

  -- `io_new` with the thread that it makes. The flag is `rc == 0`; where there is no first block the
  -- socket stays open.
  unfoldable pub open_client : ℕ → Main Bool
  unfolding complain give_up_client note log_info rw_mutex_make
  open_client s =
      note (logged (log_info host.decimal host.pthread_self (codes "Connection opened.") []))
      >> started block
      >>= λ cops.
          if cops
          then (started block >>= λ opts.
              if opts
              then (started block >>= λ opt_lk.
                  if opt_lk
                  then (started rw_mutex_make >>= λ made.
                      if made
                      then (started block >>= λ tid.
                          if tid
                          then (started thread_new >>= λ runs.
                              if runs
                              then note (serves s) >> pure true
                              else give_up_client
                                  (codes "Couldn't start initial looper thread: %s.") s)
                          else give_up_client (codes "Couldn't allocate initial client thread: %s.")
                              s)
                      else give_up_client (codes "Couldn't initialise client options mutex: %s.") s)
                  else give_up_client (codes "Couldn't allocate client options mutex: %s.") s)
              else give_up_client (codes "Couldn't allocate client options structure: %s.") s)
          else complain (codes "Couldn't allocate client option structure: %s.")
              (host.error_text ∷ [])
            >> pure false

  -- The flag is `rc == 0`; what `io_new` returns is not read.
  unfoldable pub do_client_connect : Accepted → Main Bool
  unfolding complain open_client
  do_client_connect (refused e) =
      complain (codes "Couldn't accept new connection: %s.") (e ∷ []) >> pure false
  do_client_connect (accepts s) = open_client s >> pure true
  do_client_connect waits = λ s. blocked
