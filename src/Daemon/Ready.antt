-- ===== src/Daemon/Ready.antt =====
-- server/nastd.c: what `init_daemon` leaves.
use nastd.Prelude.{
  ℕ, ◌≡◌, refl, ◌∙◌, ap, arith, Bool, true, false, List, [], ◌∷◌, ◌++◌, Option, none, some,
  if◌then◌else◌,
}
use nastd.Prelude.Bytes.{Bytes}
use nastd.Prelude.Outcome.{Outcome, returns, blocked, fault}
use nastd.Prelude.Run.{◌>>=◌, ◌>>◌, pure, Allows, >>=-Allows}
use nastd.Log.{log_open}
use nastd.Memdb.{Memdb, memdb_new, make_lock, fresh_db}
use nastd.Thread.{rw_mutex_write_lock, rw_mutex_unlock}
use nastd.Memdb.Invariant.{IsValid, memdb_new-IsValid}
use nastd.Cdb.{Cdb}
use nastd.Cdb.Load.{File, unreadable, mapped, Header, read_header, cdb_new, load_file, LoadResult}
use nastd.Cdb.Reload.{IsLoaded, cdb_new-IsLoaded}
use nastd.Mysqldb.{Mysqldb, mysqldb_new}
use nastd.Prelude.Alloc.{Heap}
use nastd.Fqm.Delete.{Turn}
use nastd.Fqm.Wait.{IsLast}
use nastd.Fqm.Start.{Boot}
use nastd.Daemon.{log_opened, Forked, child, parent, not_forked, Host, Daemon, note, complain}
use nastd.Daemon.Init.{
  Rc, ready, not_ready, leaves, load_cdb, name_cols, make_cache, forked, daemonise, init_daemon,
}

cdb_new_unreadable :
    (dbname dbtbl : Bytes) (db : Cdb) (h : Heap) {db' : Cdb} {h' : Heap}
    → cdb_new dbname dbtbl unreadable db h ≡ returns (true, db', h')
    → ⊥
unfolding cdb_new load_file
cdb_new_unreadable dbname dbtbl db h e = ground arith

memdb_new-ne-none :
    (old : Option Memdb) (h : Heap) {h' : Heap}
    → old ≡ none
    → memdb_new old h ≡ returns (true, none, h')
    → ⊥
unfolding memdb_new make_lock fresh_db rw_mutex_write_lock rw_mutex_unlock
memdb_new-ne-none old h n e = ground arith

module _ (host : Host) (before : List Turn) (last : Turn) (after : List Turn)
    (dies : IsLast 10 last) where
  -- the database file that is there is the one that is served
  unfoldable pub IsServed : Cdb → Type 0
  IsServed db =
      (file : Bytes) × (mtime : ℕ) × (hd : Header) × (host.file ≡ mapped file mtime)
      × (read_header host.dbname host.dbtbl file ≡ returns (some hd))
      × IsLoaded file mtime hd db

  -- there is a cache, and it is valid
  unfoldable pub IsCached : Option Memdb → Type 0
  IsCached none = ⊥
  IsCached (some db) = IsValid db

  abbrev pub Awake : Boot → Type 0
  Awake b = b.turns ≡ before ++ last ∷ after

  abbrev pub Initialised : Daemon → Type 0
  Initialised t = IsServed t.cdb × IsCached t.memdb

  cdb_new-IsServed :
      (fl : File) (db : Cdb) (h : Heap) {db' : Cdb} {h' : Heap}
      → host.file ≡ fl
      → cdb_new host.dbname host.dbtbl fl db h ≡ returns (true, db', h')
      → IsServed db'
  unfolding IsServed
  cdb_new-IsServed unreadable db h there e =
      absurd (cdb_new_unreadable host.dbname host.dbtbl db h e)
  cdb_new-IsServed (mapped file mtime) db h there e =
      let (hd, read, loaded) = cdb_new-IsLoaded host.dbname host.dbtbl file mtime db h e in
      (file, mtime, hd, there, read, loaded)

  memdb_new-IsCached :
      (old : Option Memdb) (h : Heap) {db : Option Memdb} {h' : Heap}
      → old ≡ none
      → memdb_new old h ≡ returns (true, db, h')
      → IsCached db
  unfolding IsCached
  memdb_new-IsCached old h {db = none} n e = absurd (memdb_new-ne-none old h n e)
  memdb_new-IsCached old h {db = some db} n e = memdb_new-IsValid old h (rw n tt) e

  -- before the cache is made
  abbrev pub Fresh : Daemon → Type 0
  Fresh t = (t.memdb ≡ none) × Awake t.boot

  load_cdb-IsServed :
      (s : Daemon)
      → Fresh s
      → Allows (λ loaded t. Fresh t × (loaded ≡ true → IsServed t.cdb)) (load_cdb host s)
  unfolding load_cdb
  load_cdb-IsServed s (n, w) =
      split (cdb_new host.dbname host.dbtbl host.file s.cdb s.boot.heap) refl
    where
      split :
          (r : LoadResult)
          → cdb_new host.dbname host.dbtbl host.file s.cdb s.boot.heap ≡ r
          → Allows (λ loaded t. Fresh t × (loaded ≡ true → IsServed t.cdb)) (load_cdb host s)
      split (returns (loaded, db, h)) e =
          rw (e, load_cdb)
            (
              (n, w),
              λ yes_.
                  cdb_new-IsServed host.file s.cdb s.boot.heap {db' = db} {h' = h} refl
                    (e ∙ ap (λ b. returns (b, db, h)) yes_),
            )
      split blocked e = rw (e, load_cdb) tt
      split fault e = rw (e, load_cdb) tt

  name_cols-Fresh :
      (s : Daemon)
      → Fresh s × IsServed s.cdb
      → Allows (λ u t. Fresh t × IsServed t.cdb) (name_cols s)
  unfolding name_cols
  name_cols-Fresh s p = split (mysqldb_new s.cdb.db_fields) refl
    where
      split :
          (r : Outcome Mysqldb)
          → mysqldb_new s.cdb.db_fields ≡ r
          → Allows (λ u t. Fresh t × IsServed t.cdb) (name_cols s)
      split (returns db) e = rw (e, name_cols) p
      split blocked e = rw (e, name_cols) tt
      split fault e = rw (e, name_cols) tt

  make_cache-IsCached :
      (s : Daemon)
      → Fresh s × IsServed s.cdb
      → Allows
          (λ made t. Awake t.boot × IsServed t.cdb × (made ≡ true → IsCached t.memdb))
          (make_cache s)
  unfolding make_cache
  make_cache-IsCached s ((n, w), f) = split (memdb_new s.memdb s.boot.heap) refl
    where
      fresh :
          {db : Option Memdb} {h : Heap} (e : memdb_new s.memdb s.boot.heap ≡ returns (true, db, h))
          → IsCached db
      fresh {db} {h} e = memdb_new-IsCached s.memdb s.boot.heap n e

      split :
          (r : Outcome (Bool × Option Memdb × Heap))
          → memdb_new s.memdb s.boot.heap ≡ r
          → Allows
              (λ made t. Awake t.boot × IsServed t.cdb × (made ≡ true → IsCached t.memdb))
              (make_cache s)
      split (returns (made, db, h)) e =
          rw (e, make_cache)
            (w, f, λ yes_. fresh {db = db} {h = h} (e ∙ ap (λ b. returns (b, db, h)) yes_))
      split blocked e = rw (e, make_cache) tt
      split fault e = rw (e, make_cache) tt

  -- before the sockets
  unfoldable pub Ready : Daemon → Type 0
  Ready t = Awake t.boot × Initialised t

  abbrev pub Begun : Rc → Daemon → Type 0
  Begun ready t = (host.fork ≡ child) × Ready t
  Begun leaves t = (host.fork ≡ parent) × Initialised t
  Begun not_ready t = Unit

  forked-Begun :
      (f : Forked) (s : Daemon) → host.fork ≡ f → Ready s → Allows Begun (forked host f s)
  unfolding forked note complain Ready
  forked-Begun child s e p = (e, p)
  forked-Begun parent s e p = (e, p.1)
  forked-Begun (not_forked x) s e p = tt

  daemonise-Begun : (s : Daemon) → Ready s → Allows Begun (daemonise host s)
  unfolding daemonise note Ready
  daemonise-Begun s p = forked-Begun host.fork _ refl p

  pub init_daemon-Begun :
      (progname : Bytes) (s : Daemon) → Fresh s → Allows Begun (init_daemon host progname s)
  unfolding init_daemon note Ready
  init_daemon-Begun progname s p =
      >>=-Allows (λ loaded t. Fresh t × (loaded ≡ true → IsServed t.cdb)) Begun (load_cdb host) _
        (record s { trace = s.trace ++ log_opened (log_open progname) ∷ [] })
        (load_cdb-IsServed _ p) (λ loaded t q. loaded_then loaded t q)
    where
      made_then :
          (made : Bool) (t : Daemon)
          → Awake t.boot × IsServed t.cdb × (made ≡ true → IsCached t.memdb)
          → Allows Begun ((if made then daemonise host else pure not_ready) t)
      made_then true t (w, f, c) = daemonise-Begun t (w, (f, c refl))
      made_then false t q = tt

      loaded_then :
          (loaded : Bool) (t : Daemon)
          → Fresh t × (loaded ≡ true → IsServed t.cdb)
          → Allows Begun (
              (if loaded
                  then (name_cols >> make_cache >>= λ made.
                      if made then daemonise host else pure not_ready)
                  else pure not_ready)
                t)
      loaded_then true t (fr, f) =
          >>=-Allows (λ made t. Awake t.boot × IsServed t.cdb × (made ≡ true → IsCached t.memdb))
            Begun (name_cols >> make_cache)
            (λ made. if made then daemonise host else pure not_ready) t
            (>>=-Allows (λ u t. Fresh t × IsServed t.cdb)
              (λ made t. Awake t.boot × IsServed t.cdb × (made ≡ true → IsCached t.memdb)) name_cols
              (λ u. make_cache) t (name_cols-Fresh t (fr, f refl))
              (λ u t q. make_cache-IsCached t q))
            made_then
      loaded_then false t q = tt
