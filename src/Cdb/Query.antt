-- ===== src/Cdb/Query.antt =====
-- server/cdb.c: `cdb_get`, which splits a record into fields, and `cdb_periodic`.
use nastd.Prelude.{
  ℕ, ◌+◌, ltb, ◌==◌, if◌then◌else◌, Bool, true, false, [], ◌∷◌, ◌++◌, Option, none, some, length,
  take,
}
use nastd.Prelude.Bytes.{Bytes}
use nastd.Prelude.Alloc.{Heap, Alloc, ◌>>=◌}
use nastd.Prelude.Outcome.{Outcome, returns, blocked, fault}
use nastd.Array.{Array, array_add}
use nastd.Thread.{RwMutex, rw_mutex_read_lock, rw_mutex_unlock}
use nastd.Cdb.{Cdb}
use nastd.Cdb.Find.{Found, found, missing, failed, faulted, cdb_find}
use nastd.Cdb.Load.{File, LoadResult, cdb_new}

-- The loop of `cdb_get`: `start` is the data from `s_p` to `e_p`, the last argument what is left up
-- to `data+dlen`.
unfoldable pub add_fields : ℕ → Array → Bytes → Bytes → Alloc Array
add_fields sep aa start [] = array_add aa start
add_fields sep aa start (c ∷ left) =
    let longer = add_fields sep aa (start ++ c ∷ []) left in
    if c == sep then (array_add aa start >>= λ aa'. add_fields sep aa' [] left) else longer

-- The flag is `rc == 0`; the array is `none` where memory ran out while it grew.
abbrev pub GetResult : Type 0
GetResult = Outcome ((Bool × Option Array) × Cdb × Heap)

unfoldable pub release_lock : Cdb → RwMutex → Cdb
release_lock db lk = elim (rw_mutex_unlock lk) [
  | none ↦ record db { cdb_lk = some lk }
  | some (_, lk') ↦ record db { cdb_lk = some lk' }
]

-- with the result of the search
unfoldable pub get_fields : Found → Array → Cdb → Heap → GetResult
get_fields missing aa db h = returns ((false, some aa), db, h)
get_fields failed aa db h = returns ((false, some aa), db, h)
get_fields faulted aa db h = fault
get_fields (found ptr dlen) aa db h =
    let (fields, h') = add_fields db.db_sep aa [] (take dlen ptr) h in
    if ltb (length ptr) dlen then fault else elim fields [
      | none ↦ returns ((false, none), record db { sec_c = db.sec_c + 1 }, h')
      | some aa' ↦ returns ((true, some aa'), record db { sec_c = db.sec_c + 1 }, h')
    ]

unfoldable pub unlocked : RwMutex → GetResult → GetResult
unlocked lk (returns (r, db, h)) = returns (r, release_lock db lk, h)
unlocked lk blocked = blocked
unlocked lk fault = fault

-- NULL is searched as an empty file.
abbrev pub served_bytes : Option Bytes → Bytes
served_bytes none = []
served_bytes (some file) = file

-- Before `cdb_new` has succeeded there is no file, and no lock: the calls on NULL return EINVAL.
unfoldable pub cdb_get : Bytes → Array → Cdb → Heap → GetResult
unfolding unlocked
cdb_get key aa db h =
    let searched = get_fields (cdb_find (served_bytes db.memcdb) key) aa db h in
    elim db.cdb_lk [
      | none ↦ searched
      | some lock ↦ elim (rw_mutex_read_lock lock) [
        | none ↦ blocked
        | some lk ↦ unlocked lk searched
      ]
    ]

-- What `stat` says of the file: an error, or its size and time stamp.
pub data Stat : Type 0 where
  unknown : Stat
  stat : (size mtime : ℕ) → Stat

-- The result of `cdb_new` is not read.
unfoldable pub cdb_periodic : Bytes → Bytes → Stat → File → Cdb → Heap → LoadResult
cdb_periodic dbname dbtbl unknown file db h = returns (true, db, h)
cdb_periodic dbname dbtbl (stat size mtime) file db h =
    if size == 0
    then returns (true, db, h)
    else if ltb db.cdb_mtime mtime
    then cdb_new dbname dbtbl file db h
    else returns (true, db, h)
