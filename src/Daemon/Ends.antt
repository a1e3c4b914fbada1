-- ===== src/Daemon/Ends.antt =====
-- server/nastd.c: what is there when `main` comes to its loop, and where it exits.
use mathlib.Core.List.{append_assoc}
use mathlib.Core.Path.{subst}
use nastd.Cdb.Load.{codes}
use nastd.Prelude.{
  ℕ, ◌≡◌, refl, ◌∙◌, sym, ap, arith, ◌⊎◌, inl, inr, Bool, true, false, List, [], ◌∷◌, ◌++◌, Option,
  none, some, if◌then◌else◌,
}
use nastd.Prelude.Bytes.{Bytes}
use nastd.Prelude.Outcome.{Outcome, returns, blocked, fault}
use nastd.Prelude.Run.{◌>>◌, pure, Allows, >>=-Allows, Allows-weaken}
use nastd.Ipc.{htons}
use nastd.Fqm.Delete.{Turn}
use nastd.Fqm.Wait.{IsLast}
use nastd.Fqm.Start.{Boot}
use nastd.Fqm.Started.{IsPool}
use nastd.Fqm.Returns.{fqm_new-Returns}
use nastd.Periodic.{periodic_new}
use nastd.Daemon.{
  unix, inet, Event, unlinked, bound, listens, Config, child, parent, Host, Daemon, note, started,
  complain, make_u_csock, make_i_csock,
}
use nastd.Daemon.Told.{Told, name_unix-Told, name_inet-Told}
use nastd.Daemon.Ready.{IsServed, IsCached, Initialised, Ready, Begun, init_daemon-Begun}
use nastd.Daemon.Init.{
  base_name, read_options, Rc, ready, not_ready, leaves, Status, exits, runs, new_pool, init_daemon,
  start_work, with_inet, with_unix, behind_init, configured, main,
}

module _ (host : Host) (before : List Turn) (last : Turn) (after : List Turn)
    (dies : IsLast 10 last) where
  abbrev Here : Daemon → Type 0
  Here = Ready host before last after dies

  -- what the system is told of the sockets, in order
  abbrev told_unix : Config → ℕ → List Event
  told_unix config u =
      unlinked config.nast_sock ∷ bound u (unix config.nast_sock) ∷ listens u 10 ∷ []

  abbrev told_inet : Config → ℕ → List Event
  told_inet config i = bound i (inet (htons config.tcp_port)) ∷ listens i 10 ∷ []

  abbrev pub listens_to : Config → ℕ → ℕ → List Event
  listens_to config u i = told_unix config u ++ told_inet config i

  -- what holds where `main` ends or comes to its loop
  pub EndsWell : Status → Daemon → Type 0
  EndsWell (exits n) t =
      (n ≡ 1) ⊎ ((n ≡ 0) × (host.fork ≡ parent) × Initialised host before last after dies t)
  EndsWell (runs u i) t =
      (dir : Bytes) × (config : Config) × (earlier : List Event) × (read_options host.char_signed
          host.default_dir host.getopt
        ≡ some dir)
      × (host.config_init dir ≡ some config)
      × (host.fork ≡ child)
      × Initialised host before last after dies t
      × IsPool 10 t.fqm
      × (t.trace ≡ earlier ++ listens_to config u i)

  -- behind the sockets
  new_pool-IsPool :
      (s : Daemon)
      → s.boot.turns ≡ before ++ last ∷ after
      → Allows
          (λ u t. (t.cdb ≡ s.cdb) × (t.memdb ≡ s.memdb) × (t.trace ≡ s.trace) × IsPool 10 t.fqm)
          (new_pool s)
  unfolding new_pool
  new_pool-IsPool s w =
      let (tids, b, e, p) = fqm_new-Returns 10 before last after dies s.boot w in
      rw (e, new_pool) (refl, refl, refl, p)

  -- what holds at the loop, of the fields that are not written behind it
  abbrev Works : ℕ → ℕ → Daemon → Type 0
  Works u i t = EndsWell (runs u i) t

  periodic-Works :
      (u i : ℕ) (s : Daemon) → Works u i s → Allows (λ made t. Works u i t) (started periodic_new s)
  unfolding EndsWell
  periodic-Works u i s q = split (periodic_new s.boot) refl
    where
      split :
          (o : Outcome (Bool × Boot))
          → periodic_new s.boot ≡ o
          → Allows (λ made t. Works u i t) (started periodic_new s)
      split (returns (made, b)) e = rw (e, started) q
      split blocked e = rw (e, started) tt
      split fault e = rw (e, started) tt

  start_work-EndsWell :
      (dir : Bytes) (config : Config) (u i : ℕ) (s : Daemon) (earlier : List Event)
      → read_options host.char_signed host.default_dir host.getopt ≡ some dir
      → host.config_init dir ≡ some config
      → host.fork ≡ child
      → Here s
      → s.trace ≡ earlier ++ listens_to config u i
      → Allows EndsWell (start_work host u i s)
  unfolding start_work complain note EndsWell Ready
  start_work-EndsWell dir config u i s earlier d c f r e =
      >>=-Allows (λ made t. Works u i t) EndsWell (new_pool >> started periodic_new) _ s
        (>>=-Allows (λ v t. Works u i t) (λ made t. Works u i t) new_pool
          (λ v. started periodic_new) s
          (Allows-weaken _ (λ v t. Works u i t) (new_pool s) (new_pool-IsPool s r.0)
            (λ v t p. (
              dir,
              config,
              earlier,
              d,
              c,
              f,
              (
                subst (IsServed host before last after dies) (sym p.0) r.1.0,
                subst (IsCached host before last after dies) (sym p.1) r.1.1,
              ),
              p.3,
              p.2 ∙ e,
            )))
          (λ v t q. periodic-Works u i t q))
        periodic_made
    where
      periodic_made :
          (made : Bool) (t : Daemon)
          → Works u i t
          → Allows EndsWell (
              (if made
                  then (λ s. returns (runs u i, record s { start_time = host.time }))
                  else complain host (codes "Couldn't start periodic thread. Exiting.") []
                    >> pure (exits 1))
                t)
      periodic_made true t q = q
      periodic_made false t q = inl refl

  with_inet-EndsWell :
      (dir : Bytes) (config : Config) (u : ℕ) (s : Daemon) (earlier : List Event)
      → read_options host.char_signed host.default_dir host.getopt ≡ some dir
      → host.config_init dir ≡ some config
      → host.fork ≡ child
      → Here s
      → s.trace ≡ earlier ++ told_unix config u
      → (i : Option ℕ) (t : Daemon) → Told s.trace (told_inet config) s i t
      → Allows EndsWell (with_inet host u i t)
  unfolding with_inet EndsWell Ready
  with_inet-EndsWell dir config u s earlier d c f r e none t q = inl refl
  with_inet-EndsWell dir config u s earlier d c f r e (some i) t q =
      start_work-EndsWell dir config u i t earlier d c f (subst Here (sym q) r) (
        ap (λ t. t.trace) q
        ∙ ap (λ tr. tr ++ told_inet config i) e
        ∙ append_assoc earlier (told_unix config u) (told_inet config i))

  with_unix-EndsWell :
      (dir : Bytes) (config : Config) (s : Daemon)
      → read_options host.char_signed host.default_dir host.getopt ≡ some dir
      → host.config_init dir ≡ some config
      → host.fork ≡ child
      → Here s
      → (u : Option ℕ) (t : Daemon) → Told s.trace (told_unix config) s u t
      → Allows EndsWell (with_unix host config u t)
  unfolding with_unix EndsWell Ready make_i_csock
  with_unix-EndsWell dir config s d c f r none t q = inl refl
  with_unix-EndsWell dir config s d c f r (some u) t q =
      >>=-Allows (Told t.trace (told_inet config) t) EndsWell (make_i_csock host config.tcp_port)
        (with_inet host u) t (name_inet-Told host config.tcp_port host.inet_socket t)
        (with_inet-EndsWell dir config u t s.trace d c f (subst Here (sym q) r)
          (ap (λ t. t.trace) q))

  behind_init-EndsWell :
      (dir : Bytes) (config : Config)
      → read_options host.char_signed host.default_dir host.getopt ≡ some dir
      → host.config_init dir ≡ some config
      → (rc : Rc) (s : Daemon) → Begun host before last after dies rc s
      → Allows EndsWell (behind_init host config rc s)
  unfolding behind_init EndsWell complain note make_u_csock
  behind_init-EndsWell dir config d c ready s (f, r) =
      >>=-Allows (Told s.trace (told_unix config) s) EndsWell (make_u_csock host config.nast_sock)
        (with_unix host config) s (name_unix-Told host config.nast_sock host.unix_socket s)
        (with_unix-EndsWell dir config s d c f r)
  behind_init-EndsWell dir config d c leaves s q = inr (refl, q.0, q.1)
  behind_init-EndsWell dir config d c not_ready s q = inl refl

  -- Where `main` is called with no cache made yet, and comes to its loop: the configuration has been
  -- read from the directory of the options, and the process is the child of the fork; the database
  -- file that is served is the one that is there, as read from its header; there is a valid cache;
  -- the pool is NULL or has ten threads, all there and idle; and the last that the system has been
  -- told is to name the two sockets, from the configuration, and to listen on them. Where it ends, it
  -- is with the status 1, or 0 in the parent, which ends only behind a file that is served and a
  -- valid cache. The threads of a pool that is given up die at some time.
  pub main-EndsWell :
      (argv0 : Bytes) (s : Daemon)
      → s.memdb ≡ none
      → s.boot.turns ≡ before ++ last ∷ after
      → Allows EndsWell (main host argv0 s)
  unfolding main configured EndsWell
  main-EndsWell argv0 s n w =
      parsed (read_options host.char_signed host.default_dir host.getopt) refl
    where
      configures :
          (dir : Bytes)
          → read_options host.char_signed host.default_dir host.getopt ≡ some dir
          → (o : Option Config) → host.config_init dir ≡ o
          → Allows EndsWell (configured host argv0 o s)
      configures dir d none c = inl refl
      configures dir d (some config) c =
          >>=-Allows (Begun host before last after dies) EndsWell
            (init_daemon host (base_name argv0)) (behind_init host config) s
            (init_daemon-Begun host before last after dies (base_name argv0) s (n, w))
            (behind_init-EndsWell dir config d c)

      parsed :
          (o : Option Bytes)
          → read_options host.char_signed host.default_dir host.getopt ≡ o
          → Allows EndsWell (main host argv0 s)
      parsed none d = rw (d, main) (inl refl)
      parsed (some dir) d = rw (d, main) (configures dir d (host.config_init dir) refl)

-- `usage` for an option that is not `d`, and where `char` is unsigned for every command line
read_options_unsigned : (dir : Bytes) (opts : List (ℕ × Bytes)) → read_options false dir opts ≡ none
unfolding read_options
read_options_unsigned dir [] = refl
read_options_unsigned dir ((ch, optarg) ∷ opts) = ground (arith, read_options_unsigned optarg opts)

-- Where `char` is unsigned the -1 of `getopt` is taken for an unknown option: whatever the command
-- line, `main` exits with the status 1 and leaves its state as it was.
pub main_unsigned :
    (host : Host) (argv0 : Bytes) (s : Daemon)
    → host.char_signed ≡ false
    → main host argv0 s ≡ returns (exits 1, s)
unfolding main
main_unsigned host argv0 s e =
    let n : read_options host.char_signed host.default_dir host.getopt ≡ none =
      ap (λ c. read_options c host.default_dir host.getopt) e
      ∙ read_options_unsigned host.default_dir host.getopt in
    rw (n, main) refl
