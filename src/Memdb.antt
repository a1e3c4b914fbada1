-- ===== src/Memdb.antt =====
-- server/memdb.c: the in-memory cache, a table of 1024 chains of entries under a read-write lock.
-- A call that cannot return, since it waits for a lock that it holds itself, is `blocked`; a read
-- through a pointer that is NULL or dangling is `fault`. The bytes of the MD5 digest come from the
-- parameter `md5_calc`, and `time` returns one value, `env.now`, during a call.
pub mod Entries
pub mod Add
pub mod Del
pub mod Get
pub mod Upd
pub mod Chains
pub mod States
pub mod Steps
pub mod Lookup
pub mod Invariant
pub mod Cache
pub mod Deadlock
pub mod Abstract
pub mod Forward
pub mod Refine
use nastd.Prelude.{
  ℕ, zero, suc, ◌+◌, ◌*◌, ◌%◌, ◌^◌, ltb, leb, ◌==◌, if◌then◌else◌, Bool, true, false, List, [], ◌∷◌,
  Option, none, some, length, ◌≡◌, get_elem?,
}
use nastd.Prelude.Bytes.{Bytes, same_bytes}
use nastd.Prelude.Alloc.{Heap, Alloc, ◌>>=◌, ◌>>◌, pure, malloc}
use nastd.Prelude.Outcome.{Outcome, returns, blocked, fault}
use nastd.Prelude.Total.{update}
use nastd.Array.{Array, array_new, array_dup}
use nastd.Thread.{RwMutex, rw_mutex_new, rw_mutex_read_lock, rw_mutex_write_lock, rw_mutex_unlock}
use nastd.Memdb.Entries.{
  CacheType, Vals, null, invalid, held, release, from_copy, c_del, c_upd, c_tryval, c_expire, Entry,
  Chain, is_invalid, find_entry, add_chain, drop_entry, put_entry,
}

abbrev pub hashsize : ℕ
hashsize = 1024

-- The static variables of the file, less the rates.
pub record Memdb : Type 0 where
  pub table : ℕ → Chain
  pub memdbsize : ℕ
  pub query_sec : ℕ
  pub add_sec : ℕ
  pub del_sec : ℕ
  pub upd_sec : ℕ
  pub memdb_lk : RwMutex

-- What the functions read of the clock and of other files: `cdb_mtime` and `db_fieldcount` of
-- cdb.c, and the configured `null_cache_timeout`.
pub record Env : Type 0 where
  pub now : ℕ
  pub cdb_mtime : ℕ
  pub db_fieldcount : ℕ
  pub null_cache_timeout : ℕ

-- the flag is `rc == 0`
abbrev pub Result : Type 0
Result = Outcome (Bool × Memdb × Heap)

-- `rw_mutex_unlock`, its result unread
abbrev pub unlock : Memdb → Memdb
unlock db = elim (rw_mutex_unlock db.memdb_lk) [
  | none ↦ db
  | some (w, lk) ↦ record db { memdb_lk = lk }
]

unfoldable pub make_lock : Option Memdb → Alloc RwMutex
make_lock none = do malloc; pure rw_mutex_new
make_lock (some db) = pure db.memdb_lk

unfoldable pub fresh_db : RwMutex → Memdb
fresh_db lk = record {
  table = λ _. [];
  memdbsize = 0;
  query_sec = 0;
  add_sec = 0;
  del_sec = 0;
  upd_sec = 0;
  memdb_lk = lk;
}

-- A new table and cleared counters. The old table's memory is released. The lock is made at the
-- first call.
unfoldable pub memdb_new : Option Memdb → Heap → Outcome (Bool × Option Memdb × Heap)
unfolding make_lock fresh_db rw_mutex_write_lock rw_mutex_unlock
memdb_new old h =
    let (lk, h₁) = make_lock old h in
    elim lk [
      | none ↦ returns (false, old, h₁)
      | some lock ↦
          let (room, h₂) = malloc h₁ in
          elim room [
            | none ↦ returns (false, old, h₂)
            | some _ ↦ elim (rw_mutex_write_lock lock) [
              | none ↦ blocked
              | some locked ↦ returns (true, some (unlock (fresh_db locked)), h₂)
            ]
          ]
    ]

-- the first four bytes of the digest as a little-endian `unsigned int`
abbrev word_of : Bytes → ℕ
word_of (a ∷ b ∷ c ∷ d ∷ rest) = a + b * 256 + c * 256 ^ 2 + d * 256 ^ 3
word_of _ = 0

module _ (md5_calc : Bytes → Bytes) where
  unfoldable pub hashkey : Bytes → ℕ
  hashkey key = word_of (md5_calc key) % hashsize

  -- the first entry under `key`, by the walk of `memdb_get`, `memdb_del` and `memdb_upd`
  unfoldable pub lookup : Memdb → Bytes → Option Entry
  lookup db key = find_entry key (db.table (hashkey key))
