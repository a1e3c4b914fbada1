-- ===== src/Memdb/Steps.antt =====
-- What each operation returns when the lock is free, with the final state written out.
use nastd.Prelude.{
  ◌+◌, ◌≡◌, refl, arith, if◌then◌else◌, Bool, true, false, Option, inl, inr, none, some, length,
  Bool-cases, ==_iff, ◌==◌,
}
use nastd.Prelude.Bytes.{Bytes}
use nastd.Prelude.Int.{pos, negsuc}
use nastd.Prelude.Alloc.{Heap, malloc}
use nastd.Array.{Array, array_new}
use nastd.Array.Laws.{array_dup_lem}
use nastd.Thread.{RwMutex, rw_mutex_new, rw_mutex_read_lock, rw_mutex_write_lock, rw_mutex_unlock}
use nastd.Memdb.Entries.{Entry, held, add_chain}
use nastd.Memdb.Add.{new_entry, build_entry, insert, add_built, memdb_add}
use nastd.Memdb.Get.{memdb_get, get_found}
use nastd.Memdb.Upd.{memdb_upd, upd_found, rewrite}
use nastd.Prelude.Outcome.{Outcome, returns, blocked, fault}
use nastd.Memdb.{Memdb, Env, unlock, hashkey, lookup}
use nastd.Memdb.States.{vals_left, renewed, inserted, overwritten, after_upd, got}

-- An entry that is built is the one that the arguments describe.
pub new_entry_lem :
    (env : Env) (key : Bytes) (vals : Array) (h : Heap) {ent : Entry} {h' : Heap}
    → new_entry env key vals h ≡ returns (some ent, h')
    → ent ≡ build_entry env key vals (held vals)
unfolding new_entry
new_entry_lem env key vals h e =
    ground (arith, array_dup_lem vals (array_new (malloc (malloc h).1).1).1)

-- a lock with one reader
abbrev pub one_reader : RwMutex
one_reader = record { state = pos 1; blocked_writers = 0 }

module _ (md5_calc : Bytes → Bytes) (db : Memdb) (free : db.memdb_lk ≡ rw_mutex_new) where
  pub insert_lem :
      (key : Bytes) (ent : Entry) (h : Heap)
      → insert md5_calc key ent db h ≡ (
          if (add_chain key ent (db.table (hashkey md5_calc key))).spoilt
          then fault
          else returns (true, inserted md5_calc db key ent, h))
  unfolding insert rw_mutex_write_lock rw_mutex_unlock
  insert_lem key ent h = ground arith

  add_built_lem :
      (key : Bytes) (ent : Entry) (made : Outcome (Option Entry × Heap))
      → ((e : Entry) (h : Heap) → made ≡ returns (some e, h) → e ≡ ent)
      → (done : Bool) {db' : Memdb} {h' : Heap}
      → add_built md5_calc key db made ≡ returns (done, db', h')
      → db' ≡ (if done then inserted md5_calc db key ent else db)
  unfolding add_built
  add_built_lem key ent (returns (none, h)) is_ent done e = ground arith
  add_built_lem key ent (returns (some made, h)) is_ent done e =
      ground (arith, is_ent made h refl, insert_lem key made h)
  add_built_lem key ent blocked is_ent done e = cc
  add_built_lem key ent fault is_ent done e = cc

  -- An addition that returns success has built its entry and inserted md5_calc db it, and one that returns -1
  -- has changed nothing.
  pub memdb_add_lem :
      (env : Env) (key : Bytes) (vals : Array) (h : Heap) (done : Bool) {db' : Memdb} {h' : Heap}
      → memdb_add md5_calc env key vals db h ≡ returns (done, db', h')
      → db' ≡ (if done then inserted md5_calc db key (build_entry env key vals (held vals)) else db)
  unfolding memdb_add
  memdb_add_lem env key vals h done e =
      add_built_lem key (build_entry env key vals (held vals)) (new_entry env key vals h)
        (λ ent h₁ q. new_entry_lem env key vals h q) done e

  rewrite_lem :
      (env : Env) (key : Bytes) (vals : Array) (p : Entry) (h : Heap) (done : Bool) {lk : RwMutex}
      {db' : Memdb} {h' : Heap}
      → rw_mutex_write_lock db.memdb_lk ≡ some lk
      → rewrite md5_calc env key vals p (record db { memdb_lk = lk }) h ≡ returns (done, db', h')
      → db' ≡ (
          if done
          then record (overwritten md5_calc db key (renewed env p (held vals))) {
            upd_sec = db.upd_sec + 1;
          }
          else overwritten md5_calc db key (renewed env p (vals_left vals h)))
  unfolding rewrite rw_mutex_write_lock rw_mutex_unlock vals_left
  rewrite_lem env key vals p h done l e = ground (arith, array_dup_lem vals (array_new h).1)

  pub read_free : rw_mutex_read_lock db.memdb_lk ≡ some one_reader
  unfolding rw_mutex_read_lock
  read_free = ground arith

  pub relocked : unlock (record db { memdb_lk = one_reader }) ≡ db
  unfolding rw_mutex_unlock
  relocked = ground arith

  one_writer : RwMutex
  one_writer = record { state = negsuc 0; blocked_writers = 0 }

  write_free : rw_mutex_write_lock db.memdb_lk ≡ some one_writer
  unfolding rw_mutex_write_lock one_writer
  write_free = ground arith

  upd_found_lem :
      (env : Env) (key : Bytes) (vals : Array) (h : Heap) (found : Option Entry) (done : Bool)
      {db' : Memdb} {h' : Heap}
      → length vals ≡ env.db_fieldcount
      → upd_found md5_calc env key vals db h found ≡ returns (done, db', h')
      → db' ≡ after_upd md5_calc db env key vals h done found
  unfolding upd_found after_upd
  upd_found_lem env key vals h none done n e = memdb_add_lem env key vals h done e
  upd_found_lem env key vals h (some p) done n e =
      ground (arith, rewrite_lem env key vals p h done write_free (rw (write_free, upd_found) at e))

  pub upd_free :
      (env : Env) (key : Bytes) (vals : Array) (h : Heap)
      → memdb_upd md5_calc env key vals db h ≡ (
          if length vals == env.db_fieldcount
          then upd_found md5_calc env key vals db h (lookup md5_calc db key)
          else returns (false, db, h))
  unfolding memdb_upd
  upd_free env key vals h = rw read_free (rw relocked)

  refused_upd :
      (env : Env) (key : Bytes) (vals : Array) (h : Heap) (found : Option Entry)
      → (length vals == env.db_fieldcount) ≡ false
      → after_upd md5_calc db env key vals h false found ≡ db
  unfolding after_upd
  refused_upd env key vals h none n = refl
  refused_upd env key vals h (some p) n = ground arith

  -- An update of a key that is not there is an addition; any other writes the entry in place.
  pub memdb_upd_lem :
      (env : Env) (key : Bytes) (vals : Array) (h : Heap) (done : Bool) {db' : Memdb} {h' : Heap}
      → memdb_upd md5_calc env key vals db h ≡ returns (done, db', h')
      → db' ≡ after_upd md5_calc db env key vals h done (lookup md5_calc db key)
  memdb_upd_lem env key vals h done e = elim (Bool-cases (length vals == env.db_fieldcount)) [
    | inl n ↦
        upd_found_lem env key vals h (lookup md5_calc db key) done ((==_iff _ _).0 n)
          (rw (upd_free env key vals h, n) at e)
    | inr n ↦
        ground (arith, upd_free env key vals h, refused_upd env key vals h (lookup md5_calc db key))
  ]

  get_found_lem :
      (env : Env) (key : Bytes) (h : Heap) (found : Option Entry)
      → get_found md5_calc env key (record db { memdb_lk = one_reader }) h found
        ≡ got md5_calc db env key h found
  unfolding got get_found rw_mutex_unlock
  get_found_lem env key h none = ground arith
  get_found_lem env key h (some p) = ground arith

  pub memdb_get_lem :
      (env : Env) (key : Bytes) (h : Heap)
      → memdb_get md5_calc env key db h ≡ got md5_calc db env key h (lookup md5_calc db key)
  unfolding memdb_get lookup
  memdb_get_lem env key h = rw (read_free, memdb_get) (get_found_lem env key h _)
