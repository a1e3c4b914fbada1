-- ===== src/Memdb/Get.antt =====
-- server/memdb.c: `memdb_get`.
use nastd.Prelude.{◌+◌, ltb, leb, if◌then◌else◌, Bool, true, false, [], Option, none, some}
use nastd.Prelude.Bytes.{Bytes}
use nastd.Prelude.Alloc.{Heap}
use nastd.Prelude.Total.{update}
use nastd.Array.{Array, array_dup}
use nastd.Thread.{rw_mutex_read_lock}
use nastd.Memdb.Entries.{null, invalid, held, c_del, c_expire, Entry, is_invalid, drop_entry}
use nastd.Prelude.Outcome.{Outcome, returns, blocked, fault}
use nastd.Memdb.{Memdb, Env, unlock, hashkey, lookup}

-- what `memdb_get` does with the entry that it found
pub data Answer : Type 0 where
  tombstone : Answer
  outdated : Answer
  hit : Answer

unfoldable pub answer : Env → Entry → Answer
answer env p = elim p.type [
  | c_del ↦ tombstone
  | c_expire ↦ elim p.typeval [
    | none ↦ hit
    | some expire ↦ if leb expire env.now then outdated else hit
  ]
  | _ ↦ if ltb p.upd_time env.cdb_mtime then outdated else hit
]

-- The flag is `rc == 0`, the array what `vals` holds then; the callers pass an empty one.
abbrev pub GetResult : Type 0
GetResult = Outcome ((Bool × Option Array) × Memdb × Heap)

module _ (md5_calc : Bytes → Bytes) where
  -- `memdb_get` from the end of the walk on, under the read lock
  unfoldable pub get_found : Env → Bytes → Memdb → Heap → Option Entry → GetResult
  get_found env key db h none = returns ((false, some []), unlock db, h)
  get_found env key db h (some p) = elim (answer env p) [
    | tombstone ↦ returns ((true, some []), record (unlock db) { query_sec = db.query_sec + 1 }, h)
    | outdated ↦
        if is_invalid p.vals
        then fault
        else returns (
          (false, some []),
          unlock (record db {
            table =
                update db.table (hashkey md5_calc key)
                  (drop_entry key (db.table (hashkey md5_calc key)));
          }),
          h,
        )
    | hit ↦ elim p.vals [
      | null ↦ fault
      | invalid ↦ fault
      | held vals ↦
          let (copy, h') = array_dup vals h in
          if copy.0
          then returns ((true, copy.1), record (unlock db) { query_sec = db.query_sec + 1 }, h')
          else returns ((false, copy.1), unlock db, h')
    ]
  ]

  unfoldable pub memdb_get : Env → Bytes → Memdb → Heap → GetResult
  memdb_get env key db h = elim (rw_mutex_read_lock db.memdb_lk) [
    | none ↦ blocked
    | some lk ↦
        let locked : Memdb = record db { memdb_lk = lk } in
        get_found env key locked h (lookup md5_calc locked key)
  ]
