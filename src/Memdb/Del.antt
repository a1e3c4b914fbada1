-- ===== src/Memdb/Del.antt =====
-- server/memdb.c: `memdb_del`.
use nastd.Prelude.{ℕ, zero, suc, ◌+◌, true, false, Option, none, some}
use nastd.Prelude.Bytes.{Bytes}
use nastd.Prelude.Alloc.{Heap}
use nastd.Prelude.Total.{update}
use nastd.Array.{Array, array_new}
use nastd.Thread.{rw_mutex_read_lock, rw_mutex_write_lock}
use nastd.Memdb.Entries.{release, c_del, Entry, put_entry}
use nastd.Prelude.Outcome.{returns, blocked, fault}
use nastd.Memdb.{Memdb, Env, Result, unlock, hashkey, lookup}
use nastd.Memdb.Add.{memdb_add}

module _ (md5_calc : Bytes → Bytes) where
  -- the rest of `memdb_del` on the entry `p`
  mark_deleted : Bytes → Entry → Memdb → Heap → Result
  mark_deleted key p db h = elim (release p.vals) [
    | none ↦ fault
    | some v ↦
        let gone : Entry = record p { type = c_del; typeval = none; vals = v } in
        returns (
          true,
          unlock (record db {
            table =
                update db.table (hashkey md5_calc key)
                  (put_entry key gone (db.table (hashkey md5_calc key)));
            del_sec = db.del_sec + 1;
          }),
          h,
        )
  ]

  -- on an entry that is there, under the read lock
  unfoldable pub del_present : Bytes → Entry → Memdb → Heap → Result
  unfolding mark_deleted
  del_present key p db h = elim (rw_mutex_write_lock db.memdb_lk) [
    | none ↦ blocked
    | some lk ↦ mark_deleted key p (record db { memdb_lk = lk }) h
  ]

  -- after the addition of an entry, where `again` is the call of `memdb_del` by itself
  unfoldable pub del_added : (Memdb → Heap → Result) → Result → Result
  del_added again (returns (true, db, h)) = again db h
  del_added again (returns (false, db, h)) = returns (false, db, h)
  del_added again blocked = blocked
  del_added again fault = fault

  -- with no entry under the key, from the new empty array on
  unfoldable pub del_absent :
      (Memdb → Heap → Result) → Env → Bytes → Memdb → Option Array × Heap → Result
  del_absent again env key db (none, h) = returns (false, db, h)
  del_absent again env key db (some aa, h) = del_added again (memdb_add md5_calc env key aa db h)

  -- Under the read lock for the walk, then the write lock. The call of itself, after the entry has
  -- been added, finds it; `tries` counts the calls.
  unfoldable pub memdb_del_loop : ℕ → Env → Bytes → Memdb → Heap → Result
  memdb_del_loop zero env key db h = fault
  memdb_del_loop (suc tries) env key db h = elim (rw_mutex_read_lock db.memdb_lk) [
    | none ↦ blocked
    | some lk ↦
        let locked : Memdb = record db { memdb_lk = lk } in
        elim (lookup md5_calc locked key) [
          | none ↦ del_absent (memdb_del_loop tries env key) env key (unlock locked) (array_new h)
          | some p ↦ del_present key p locked h
        ]
  ]

  unfoldable pub memdb_del : Env → Bytes → Memdb → Heap → Result
  memdb_del = memdb_del_loop 2
