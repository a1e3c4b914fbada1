-- ===== src/Memdb/States.antt =====
-- The states that the operations of memdb.c leave, in terms of the state before.
use nastd.Prelude.{◌+◌, if◌then◌else◌, Bool, true, false, [], Option, none, some, length, ◌==◌}
use nastd.Prelude.Bytes.{Bytes}
use nastd.Prelude.Alloc.{Heap}
use nastd.Prelude.Total.{update}
use nastd.Array.{Array, array_new, array_dup}
use nastd.Memdb.Entries.{
  Entry, Vals, null, invalid, held, from_copy, is_invalid, drop_entry, put_entry, add_chain, c_upd,
}
use nastd.Memdb.Add.{build_entry}
use nastd.Memdb.Get.{GetResult, tombstone, outdated, hit, answer}
use nastd.Prelude.Outcome.{returns, fault}
use nastd.Memdb.{Memdb, Env, hashkey}

-- the values of an entry whose update ran out of memory
unfoldable pub vals_left : Array → Heap → Vals
vals_left vals h = elim (array_new h).0 [
  | none ↦ null
  | some _ ↦ from_copy (array_dup vals (array_new h).1).0.1
]

-- the entry that `memdb_upd` leaves
abbrev pub renewed : Env → Entry → Vals → Entry
renewed env p v = record p { type = c_upd; typeval = none; upd_time = env.now; vals = v }

module _ (md5_calc : Bytes → Bytes) (db : Memdb) where
  -- the state after `key` has been given the entry `ent`
  abbrev pub inserted : Bytes → Entry → Memdb
  inserted key ent = record db {
    table =
        update db.table (hashkey md5_calc key)
          (add_chain key ent (db.table (hashkey md5_calc key))).chain;
    memdbsize = db.memdbsize + (add_chain key ent (db.table (hashkey md5_calc key))).grown;
    add_sec = db.add_sec + 1;
  }

  -- the state after a write of `ent` over the entry under `key`
  abbrev pub overwritten : Bytes → Entry → Memdb
  overwritten key ent = record db {
    table =
        update db.table (hashkey md5_calc key)
          (put_entry key ent (db.table (hashkey md5_calc key)));
  }

  unfoldable pub after_upd : Env → Bytes → Array → Heap → Bool → Option Entry → Memdb
  after_upd env key vals h done none =
      if done then inserted key (build_entry env key vals (held vals)) else db
  after_upd env key vals h done (some p) =
      if done
      then record (overwritten key (renewed env p (held vals))) { upd_sec = db.upd_sec + 1 }
      else if length vals == env.db_fieldcount
      then overwritten key (renewed env p (vals_left vals h))
      else db

  -- the state after the entry under `key` has been deleted
  abbrev pub dropped : Bytes → Memdb
  dropped key = record db {
    table =
        update db.table (hashkey md5_calc key) (drop_entry key (db.table (hashkey md5_calc key)));
  }

  abbrev pub counted : Memdb
  counted = record db { query_sec = db.query_sec + 1 }

  -- Every branch of `memdb_get`, by what is found and how old it is.
  unfoldable pub got : Env → Bytes → Heap → Option Entry → GetResult
  got env key h none = returns ((false, some []), db, h)
  got env key h (some p) = elim (answer env p) [
    | tombstone ↦ returns ((true, some []), counted, h)
    | outdated ↦ if is_invalid p.vals then fault else returns ((false, some []), dropped key, h)
    | hit ↦ elim p.vals [
      | null ↦ fault
      | invalid ↦ fault
      | held vals ↦
          let (copy, h') = array_dup vals h in
          if copy.0
          then returns ((true, copy.1), counted, h')
          else returns ((false, copy.1), db, h')
    ]
  ]
