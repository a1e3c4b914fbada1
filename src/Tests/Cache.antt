-- ===== src/Tests/Cache.antt =====
-- A cache of server/memdb.c with a key of four bytes, whose digest is taken to be the key itself.
use nastd.Prelude.{◌≡◌, refl, arith, ◌+◌, [], ◌∷◌, none, some, true, false, if◌then◌else◌}
use nastd.Prelude.Bytes.{Bytes, same_bytes}
use nastd.Prelude.Outcome.{returns}
use nastd.Array.{Array, string_new, array_new, array_dup}
use nastd.Thread.{rw_mutex_new, rw_mutex_read_lock, rw_mutex_write_lock, rw_mutex_unlock}
use nastd.Memdb.{Memdb, Env, Result, memdb_new, hashkey, lookup, fresh_db, make_lock}
use nastd.Memdb.Entries.{Entry, held, c_upd, add_chain, find_entry, release}
use nastd.Memdb.Add.{memdb_add, build_entry, new_entry, add_built, insert}
use nastd.Memdb.Del.{memdb_del, memdb_del_loop, del_absent}
use nastd.Memdb.Get.{memdb_get}
use nastd.Memdb.Upd.{memdb_upd, upd_found}
use nastd.Memdb.States.{dropped}
use nastd.Memdb.Invariant.{IsValid, entries, memdb_new-IsValid, memdb_upd-IsValid}
use nastd.Memdb.Cache.{get_outdated}
use nastd.Server.{Server}
use nastd.Memdb.Deadlock.{NeverDeletes, memdb_del-NeverDeletes}

abbrev pub digest : Bytes → Bytes
digest key = key

abbrev pub env : Env
env = record { now = 100; cdb_mtime = 50; db_fieldcount = 1; null_cache_timeout = 60 }

-- after the CDB file has been replaced
abbrev pub later_env : Env
later_env = record { now = 200; cdb_mtime = 150; db_fieldcount = 1; null_cache_timeout = 60 }

abbrev pub key : Bytes
key = 97 ∷ 0 ∷ 0 ∷ 0 ∷ []

abbrev pub vals : Array
vals = (118 ∷ []) ∷ []

abbrev pub empty : Memdb
empty = record {
  table = λ _. [];
  memdbsize = 0;
  query_sec = 0;
  add_sec = 0;
  del_sec = 0;
  upd_sec = 0;
  memdb_lk = rw_mutex_new;
}

pub empty-IsValid : IsValid empty
unfolding memdb_new make_lock fresh_db rw_mutex_write_lock rw_mutex_unlock
empty-IsValid = memdb_new-IsValid none [] tt refl

-- the state after a call that returned
abbrev state_of : Result → Memdb
state_of (returns (done, db, h)) = db
state_of _ = empty

abbrev pub updated : Memdb
updated = state_of (memdb_upd digest env key vals empty [])

pub update_returns : memdb_upd digest env key vals empty [] ≡ returns (true, updated, [])
unfolding memdb_upd upd_found hashkey lookup find_entry memdb_add new_entry add_built insert
    build_entry array_new array_dup add_chain string_new rw_mutex_read_lock rw_mutex_write_lock
    rw_mutex_unlock release
update_returns = refl

abbrev absent : Memdb
absent = state_of (memdb_add digest env key [] empty [])

addition_returns : memdb_add digest env key [] empty [] ≡ returns (true, absent, [])
unfolding hashkey lookup find_entry memdb_add new_entry add_built insert build_entry array_new
    array_dup add_chain string_new rw_mutex_read_lock rw_mutex_write_lock rw_mutex_unlock release
addition_returns = refl

nothing_there : lookup digest empty key ≡ none
unfolding lookup find_entry
nothing_there = refl

memdb_upd-IsValid_example : IsValid updated
memdb_upd-IsValid_example =
    memdb_upd-IsValid digest env key vals empty [] true update_returns empty-IsValid

abbrev entry : Entry
entry = record { key = key; vals = held vals; upd_time = 100; type = c_upd; typeval = none }

there : lookup digest updated key ≡ some entry
unfolding memdb_upd upd_found hashkey lookup find_entry memdb_add new_entry add_built insert
    build_entry array_new array_dup add_chain string_new rw_mutex_read_lock rw_mutex_write_lock
    rw_mutex_unlock release same_bytes
there = refl

added_again : Memdb
added_again = state_of (memdb_add digest env key ((119 ∷ []) ∷ []) updated [])

again_returns :
    memdb_add digest env key ((119 ∷ []) ∷ []) updated [] ≡ returns (true, added_again, [])
unfolding memdb_upd upd_found hashkey lookup find_entry memdb_add new_entry add_built insert
    build_entry array_new array_dup add_chain string_new rw_mutex_read_lock rw_mutex_write_lock
    rw_mutex_unlock release same_bytes added_again
again_returns = refl

updated-IsValid : IsValid updated
updated-IsValid = memdb_upd-IsValid digest env key vals empty [] true update_returns empty-IsValid

get_outdated_example :
    (memdb_get digest later_env key updated []
      ≡ returns ((false, some []), dropped digest updated key, []))
    × (lookup digest (dropped digest updated key) key
        ≡ (if same_bytes key key then none else lookup digest updated key))
    × (entries (dropped digest updated key).table + 1 ≡ entries updated.table)
    × ((dropped digest updated key).memdbsize ≡ updated.memdbsize)
get_outdated_example =
    get_outdated digest later_env key key updated [] entry updated-IsValid there refl refl
      (omega arith)

-- the cache is empty, and there is no memory
no_memory : memdb_del digest env key empty (false ∷ []) ≡ returns (false, empty, [])
unfolding memdb_del memdb_del_loop del_absent array_new lookup find_entry rw_mutex_read_lock
    rw_mutex_unlock
no_memory = refl

memdb_del-NeverDeletes_example :
    NeverDeletes digest env key empty
      (false ∷ [])
      (lookup digest empty key)
      (memdb_del digest env key empty (false ∷ []))
memdb_del-NeverDeletes_example =
    memdb_del-NeverDeletes digest env key empty (false ∷ []) empty-IsValid

-- a connection to a server with this cache and no database file
abbrev pub server : Server
server = record {
  memdb = updated;
  cdb = record {
    memcdb = none;
    cdb_mtime = 50;
    db_key = [];
    db_dbn = [];
    db_tbl = [];
    db_fields = [];
    db_sep = 58;
    db_fieldcount = 1;
    sec_c = 0;
    cdb_lk = none;
  };
  fqm = record { queue = []; maxitems = 4; nitems = 0 };
  cops = record {
    sock = 7;
    opts = record {
      use_qcache = true;
      use_localdb = true;
      fallthrough_async = false;
      always_fallthrough = false;
      fail_once = false;
      no_fallthrough = false;
    };
    opt_lk = rw_mutex_new;
  };
  heap = [];
  usable = λ n. n + 8;
  net = [];
  sent = [];
}
