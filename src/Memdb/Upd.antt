-- ===== src/Memdb/Upd.antt =====
-- server/memdb.c: `memdb_upd`.
use nastd.Prelude.{◌+◌, ◌==◌, if◌then◌else◌, true, false, Option, none, some, length}
use nastd.Prelude.Bytes.{Bytes}
use nastd.Prelude.Alloc.{Heap}
use nastd.Prelude.Total.{update}
use nastd.Array.{Array, array_new, array_dup}
use nastd.Thread.{rw_mutex_read_lock, rw_mutex_write_lock}
use nastd.Memdb.Entries.{Vals, null, release, from_copy, c_upd, Entry, put_entry}
use nastd.Prelude.Outcome.{returns, blocked, fault}
use nastd.Memdb.{Memdb, Env, Result, unlock, hashkey, lookup}
use nastd.Memdb.Add.{memdb_add}

module _ (md5_calc : Bytes → Bytes) where
  -- the rest of `memdb_upd` under the write lock, on the entry `p`
  unfoldable pub rewrite : Env → Bytes → Array → Entry → Memdb → Heap → Result
  rewrite env key vals p locked h = elim (release p.vals) [
    | none ↦ fault
    | some _ ↦
        let write = λ (v : Vals). update locked.table (hashkey md5_calc key) (
          put_entry key (record p { type = c_upd; typeval = none; upd_time = env.now; vals = v })
            (locked.table (hashkey md5_calc key))) in
        let (aa, h₁) = array_new h in
        elim aa [
          | none ↦ returns (false, unlock (record locked { table = write null }), h₁)
          | some _ ↦
              let (copy, h₂) = array_dup vals h₁ in
              let copied = write (from_copy copy.1) in
              if copy.0
              then returns (
                true,
                unlock (record locked { table = copied; upd_sec = locked.upd_sec + 1 }),
                h₂,
              )
              else returns (false, unlock (record locked { table = copied }), h₂)
        ]
  ]

  -- `memdb_upd` from the end of the walk on
  unfoldable pub upd_found : Env → Bytes → Array → Memdb → Heap → Option Entry → Result
  upd_found env key vals db h none = memdb_add md5_calc env key vals db h
  upd_found env key vals db h (some p) = elim (rw_mutex_write_lock db.memdb_lk) [
    | none ↦ blocked
    | some lk ↦ rewrite env key vals p (record db { memdb_lk = lk }) h
  ]

  -- The entry is looked up under the read lock and written under the write lock. Without memory
  -- for the copy the entry keeps what was copied.
  unfoldable pub memdb_upd : Env → Bytes → Array → Memdb → Heap → Result
  memdb_upd env key vals db h =
      if length vals == env.db_fieldcount
      then (elim (rw_mutex_read_lock db.memdb_lk) [
        | none ↦ blocked
        | some lk ↦
            let seen : Memdb = unlock (record db { memdb_lk = lk }) in
            upd_found env key vals seen h (lookup md5_calc seen key)
      ])
      else returns (false, db, h)
