-- ===== src/Memdb/Add.antt =====
-- server/memdb.c: `memdb_add` and `ent_delete` on a new entry.
use nastd.Prelude.{◌+◌, ◌==◌, if◌then◌else◌, true, false, Option, none, some, length}
use nastd.Prelude.Bytes.{Bytes}
use nastd.Prelude.Alloc.{Heap, malloc}
use nastd.Prelude.Total.{update}
use nastd.Array.{Array, array_new, array_dup}
use nastd.Thread.{rw_mutex_write_lock}
use nastd.Memdb.Entries.{Vals, release, from_copy, c_upd, c_expire, Entry, add_chain}
use nastd.Prelude.Outcome.{Outcome, returns, blocked, fault}
use nastd.Memdb.{Memdb, Env, Result, unlock, hashkey}

unfoldable pub build_entry : Env → Bytes → Array → Vals → Entry
build_entry env key vals copied = record {
  key = key;
  vals = copied;
  upd_time = env.now;
  type = if length vals == 0 then c_expire else c_upd;
  typeval = if length vals == 0 then some (env.now + env.null_cache_timeout) else none;
}

-- `ent_delete` on a new entry: the array is released
discard : Vals → Heap → Outcome (Option Entry × Heap)
unfolding release
discard vals h = elim (release vals) [ none ↦ fault | some _ ↦ returns (none, h) ]

-- The time stamps of a new entry. The block for an expiry time is written without a test.
stamp_entry : Env → Bytes → Array → Vals → Heap → Outcome (Option Entry × Heap)
unfolding build_entry discard
stamp_entry env key vals copied h =
    let (stamp, h₁) = malloc h in
    let (expiry, h₂) = malloc h₁ in
    let ent = build_entry env key vals copied in
    elim stamp [
      | none ↦ discard copied h₁
      | some _ ↦
          if length vals == 0
          then (elim expiry [ none ↦ fault | some _ ↦ returns (some ent, h₂) ])
          else returns (some ent, h₁)
    ]

-- The entry that `memdb_add` builds before it takes the lock. Where the key cannot be allocated
-- `ent_delete` reads `vals` before it is set.
unfoldable pub new_entry : Env → Bytes → Array → Heap → Outcome (Option Entry × Heap)
unfolding discard stamp_entry
new_entry env key vals h =
    let (block, h₁) = malloc h in
    let (name, h₂) = malloc h₁ in
    let (aa, h₃) = array_new h₂ in
    let (copy, h₄) = array_dup vals h₃ in
    elim block [
      | none ↦ returns (none, h₁)
      | some _ ↦ elim name [
        | none ↦ fault
        | some _ ↦ elim aa [
          | none ↦ returns (none, h₃)
          | some _ ↦
              if copy.0
              then stamp_entry env key vals (from_copy copy.1) h₄
              else discard (from_copy copy.1) h₄
        ]
      ]
    ]

module _ (md5_calc : Bytes → Bytes) where
  -- `memdb_add`, once its entry is built
  unfoldable pub insert : Bytes → Entry → Memdb → Heap → Result
  insert key ent db h = elim (rw_mutex_write_lock db.memdb_lk) [
    | none ↦ blocked
    | some lk ↦
        let added = add_chain key ent (db.table (hashkey md5_calc key)) in
        if added.spoilt
        then fault
        else returns (
          true,
          unlock (record db {
            table = update db.table (hashkey md5_calc key) added.chain;
            memdbsize = db.memdbsize + added.grown;
            add_sec = db.add_sec + 1;
            memdb_lk = lk;
          }),
          h,
        )
  ]

  -- `memdb_add` from the entry on, if there is one
  unfoldable pub add_built : Bytes → Memdb → Outcome (Option Entry × Heap) → Result
  add_built key db (returns (none, h)) = returns (false, db, h)
  add_built key db (returns (some ent, h)) = insert key ent db h
  add_built key db blocked = blocked
  add_built key db fault = fault

  unfoldable pub memdb_add : Env → Bytes → Array → Memdb → Heap → Result
  memdb_add env key vals db h = add_built key db (new_entry env key vals h)
