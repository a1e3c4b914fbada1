-- ===== src/Daemon/Begins.antt =====
-- server/nastd.c: `main` comes to its loop where nothing is refused.
use nastd.Prelude.{
  ℕ, ◌<◌, ◌≡◌, refl, ◌∙◌, ap, Bool, true, List, [], ◌∷◌, ◌++◌, none, some, if◌then◌else◌, length,
  ltb-true,
}
use nastd.Prelude.Bytes.{Bytes}
use nastd.Prelude.Outcome.{returns}
use nastd.Prelude.Run.{◌>>◌, crash, >>=-returns}
use nastd.Ipc.{htons}
use nastd.Log.{log_open}
use nastd.Thread.{rw_mutex_new, rw_mutex_write_lock, rw_mutex_unlock}
use nastd.Memdb.{fresh_db, make_lock, memdb_new}
use nastd.Cdb.{Cdb}
use nastd.Cdb.Load.{cdb_new}
use nastd.Mysqldb.{Mysqldb, mysqldb_new}
use nastd.Fqm.System.{idle}
use nastd.Fqm.Pool.{Tids}
use nastd.Fqm.Delete.{Turn}
use nastd.Fqm.Start.{cond_new, thread_new, fqm_thr_new, start_threads, new_cond, fqm_new}
use nastd.Periodic.{periodic_new}
use nastd.Daemon.{
  gives, Event, log_opened, sigpipe_blocked, new_session, closed, unlinked, bound, listens, unix,
  inet, Config, child, Host, Daemon, note, listening, bind_unix, name_unix, bind_inet, name_inet,
  make_u_csock, make_i_csock,
}
use nastd.Daemon.Init.{
  base_name, read_options, ready, runs, new_pool, load_cdb, name_cols, make_cache, forked,
  daemonise, init_daemon, start_work, with_inet, with_unix, behind_init, configured, main,
}

-- the static variables before `main`, with memory and threads at hand
abbrev pub initial : Cdb → List Turn → Daemon
initial db turns = record {
  cdb = db;
  mysqldb = none;
  memdb = none;
  boot = record { heap = []; makes = []; turns = turns };
  fqm = none;
  start_time = 0;
  trace = [];
}

abbrev pub ten_idle : Tids
ten_idle =
    some idle
    ∷ some idle
    ∷ some idle
    ∷ some idle
    ∷ some idle
    ∷ some idle
    ∷ some idle
    ∷ some idle
    ∷ some idle
    ∷ some idle
    ∷ []

-- The system and the configuration refuse nothing.
pub record Grants (host : Host) (config : Config) (u i : ℕ) : Type 0 where
  pub dir : Bytes
  pub options : read_options host.char_signed host.default_dir host.getopt ≡ some dir
  pub configuration : host.config_init dir ≡ some config
  pub forks : host.fork ≡ child
  pub path_fits : length config.nast_sock < host.sun_path_size
  pub unix_made : host.unix_socket ≡ gives u
  pub unix_named : host.unix_bind ≡ gives tt
  pub inet_made : host.inet_socket ≡ gives i
  pub inet_named : host.inet_bind ≡ gives tt

module _ (host : Host) (config : Config) (u i : ℕ) (grants : Grants host config u i) where
  -- what `main` has done when it comes to its loop
  abbrev pub begun : Bytes → List Event
  begun argv0 =
      log_opened (log_open (base_name argv0))
      ∷ sigpipe_blocked
      ∷ new_session
      ∷ closed 0
      ∷ closed 1
      ∷ unlinked config.nast_sock
      ∷ bound u (unix config.nast_sock)
      ∷ listens u 10
      ∷ bound i (inet (htons config.tcp_port))
      ∷ listens i 10
      ∷ []

  unix_returns :
      (s : Daemon)
      → make_u_csock host config.nast_sock s
        ≡ returns (
          some u,
          record s {
            trace =
                ((s.trace ++ unlinked config.nast_sock ∷ [])
                  ++ bound u (unix config.nast_sock) ∷ [])
                ++ listens u 10 ∷ [];
          },
        )
  unfolding make_u_csock name_unix bind_unix listening note
  unix_returns s =
      let named = record s { trace = s.trace ++ unlinked config.nast_sock ∷ [] } in
      ap (λ a. name_unix host config.nast_sock a s) grants.unix_made
      ∙ ap
          (λ (b : Bool).
            (if b
                then note (unlinked config.nast_sock)
                  >> bind_unix host u config.nast_sock host.unix_bind
                else crash)
              s)
          (ltb-true grants.path_fits)
      ∙ ap (λ a. bind_unix host u config.nast_sock a named) grants.unix_named

  inet_returns :
      (s : Daemon)
      → make_i_csock host config.tcp_port s
        ≡ returns (
          some i,
          record s {
            trace = (s.trace ++ bound i (inet (htons config.tcp_port)) ∷ []) ++ listens i 10 ∷ [];
          },
        )
  unfolding make_i_csock name_inet bind_inet listening note
  inet_returns s =
      ap (λ a. name_inet host config.tcp_port a s) grants.inet_made
      ∙ ap (λ a. bind_inet host i config.tcp_port a s) grants.inet_named

  module _ (db₀ db : Cdb) (cols : Mysqldb) (turns : List Turn)
      (loads : cdb_new host.dbname host.dbtbl host.file db₀ [] ≡ returns (true, db, []))
      (names : mysqldb_new db.db_fields ≡ returns cols) where
    abbrev with_trace : List Event → Daemon
    with_trace tr = record (initial db turns) {
      mysqldb = some cols;
      memdb = some (fresh_db rw_mutex_new);
      trace = tr;
    }

    init_daemon-returns :
        (progname : Bytes)
        → init_daemon host progname (initial db₀ turns)
          ≡ returns (
            ready,
            with_trace (
                log_opened (log_open progname)
                ∷ sigpipe_blocked
                ∷ new_session
                ∷ closed 0
                ∷ closed 1
                ∷ []),
          )
    unfolding init_daemon load_cdb name_cols make_cache daemonise forked note memdb_new make_lock
        fresh_db rw_mutex_write_lock rw_mutex_unlock
    init_daemon-returns progname =
        >>=-returns (load_cdb host) _ s₁ {a = true} {t = s₂} (rw (loads, load_cdb) refl)
        ∙ >>=-returns (name_cols >> make_cache) _ s₂ (
            >>=-returns name_cols (λ v. make_cache) s₂ {a = tt}
              {t = record s₂ { mysqldb = some cols }} (rw (names, name_cols) refl))
        ∙ ap
            (λ f.
              forked host f (with_trace (log_opened (log_open progname) ∷ sigpipe_blocked ∷ [])))
            grants.forks
      where
        s₁ : Daemon
        s₁ = record (initial db₀ turns) { trace = log_opened (log_open progname) ∷ [] }

        s₂ : Daemon
        s₂ = record (initial db turns) { trace = log_opened (log_open progname) ∷ [] }

    -- Where the system and the configuration refuse nothing, memory and threads are at hand,
    -- `cdb_new` returns 0 and the columns fit their buffer, `main` comes to its loop with the
    -- sockets that it was given, the file loaded, an empty cache, and ten idle threads, and has done
    -- what `begun` lists.
    pub main-runs :
        (argv0 : Bytes)
        → main host argv0 (initial db₀ turns)
          ≡ returns (
            runs u i,
            record (with_trace (begun argv0)) { fqm = some ten_idle; start_time = host.time },
          )
    unfolding main configured behind_init with_unix with_inet start_work new_pool make_u_csock
        make_i_csock name_unix name_inet bind_unix bind_inet listening note fqm_new new_cond
        cond_new start_threads fqm_thr_new thread_new periodic_new
    main-runs argv0 =
        rw (grants.options, main)
          (rw (grants.configuration, configured)
            (>>=-returns (init_daemon host (base_name argv0)) (behind_init host config)
                (initial db₀ turns) (init_daemon-returns (base_name argv0))
              ∙ >>=-returns (make_u_csock host config.nast_sock) (with_unix host config) _
                  (unix_returns _)
              ∙ >>=-returns (make_i_csock host config.tcp_port) (with_inet host u) _
                  (inet_returns _)))
