-- ===== src/Memdb/Abstract.antt =====
-- What a client of server/memdb.c may rely on, with no table, lock or memory: a map from keys to
-- items, and the answer to each call.
use nastd.Prelude.{
  ℕ, ◌+◌, ◌==◌, ltb, leb, if◌then◌else◌, Bool, true, false, List, [], ◌∷◌, Option, none, some,
  length,
}
use nastd.Prelude.Bytes.{Bytes, same_bytes}
use nastd.Prelude.Outcome.{Outcome, returns, blocked, fault}
use nastd.Array.{Array}
use nastd.Memdb.{Memdb, Env}
use nastd.Memdb.Entries.{Entry, held, c_upd, c_expire}
use nastd.Memdb.Add.{memdb_add}
use nastd.Memdb.Get.{memdb_get}
use nastd.Memdb.Upd.{memdb_upd}

-- Values with the time they were stored at, or the knowledge that there are none, with that time
-- and the time it lasts to.
pub data Item : Type 0 where
  live : Array → ℕ → Item
  absent : ℕ → ℕ → Item

abbrev pub Items : Type 0
Items = Bytes → Option Item

abbrev pub put : Bytes → Option Item → Items → Items
put key item m k = if same_bytes key k then item else m k

-- a call of the cache, with the time and the settings that it reads
pub data Request : Type 0 where
  add : Env → Bytes → Array → Request
  upd : Env → Bytes → Array → Request
  get : Env → Bytes → Request

-- `rc == 0`, and for a lookup what `vals` holds
pub data Reply : Type 0 where
  done : Bool → Reply
  found : Bool → Option Array → Reply

abbrev pub new_item : Env → Array → Item
new_item env vals =
    if length vals == 0
    then absent env.now (env.now + env.null_cache_timeout)
    else live vals env.now

-- the item under a key after an addition, and after an update
abbrev pub added : Env → Array → Option Item → Item
added env vals none = new_item env vals
added env vals (some (live v t)) = live v t
added env vals (some (absent s u)) = new_item env vals

abbrev pub updated : Env → Array → Option Item → Item
updated env vals none = new_item env vals
updated env vals (some _) = live vals env.now

-- what a lookup finds, and whether it stays
abbrev pub seen : Env → Option Item → Reply × Bool
seen env none = (found false (some []), true)
seen env (some (live v t)) =
    if ltb t env.cdb_mtime then (found false (some []), false) else (found true (some v), true)
seen env (some (absent s u)) =
    if leb u env.now then (found false (some []), false) else (found true (some []), true)

unfoldable pub answers : Request → Items → Reply × Items
answers (add env key vals) m = (done true, put key (some (added env vals (m key))) m)
answers (upd env key vals) m =
    if length vals == env.db_fieldcount
    then (done true, put key (some (updated env vals (m key))) m)
    else (done false, m)
answers (get env key) m =
    let (reply, stays) = seen env (m key) in (reply, if stays then m else put key none m)

unfoldable pub answer_all : List Request → Items → List Reply × Items
unfolding answers
answer_all [] m = ([], m)
answer_all (r ∷ rs) m =
    let first = answers r m in let rest = answer_all rs first.1 in (first.0 ∷ rest.0, rest.1)

-- the same calls of the code, with memory at hand
module _ (md5_calc : Bytes → Bytes) where
  abbrev pub call : Request → Memdb → Outcome (Reply × Memdb)
  call (add env key vals) db = elim (memdb_add md5_calc env key vals db []) [
    | returns (rc, db', h) ↦ returns (done rc, db')
    | blocked ↦ blocked
    | fault ↦ fault
  ]
  call (upd env key vals) db = elim (memdb_upd md5_calc env key vals db []) [
    | returns (rc, db', h) ↦ returns (done rc, db')
    | blocked ↦ blocked
    | fault ↦ fault
  ]
  call (get env key) db = elim (memdb_get md5_calc env key db []) [
    | returns ((rc, vals), db', h) ↦ returns (found rc vals, db')
    | blocked ↦ blocked
    | fault ↦ fault
  ]

  -- Calls one after the other; the first that does not return ends the sequence.
  unfoldable pub call_all : List Request → Memdb → Outcome (List Reply × Memdb)
  call_all [] db = returns ([], db)
  call_all (r ∷ rs) db = elim (call r db) [
    | returns (reply, db') ↦ elim (call_all rs db') [
      | returns (replies, db'') ↦ returns (reply ∷ replies, db'')
      | blocked ↦ blocked
      | fault ↦ fault
    ]
    | blocked ↦ blocked
    | fault ↦ fault
  ]

-- the entry of the code for an item
abbrev pub entry_of : Bytes → Item → Entry
entry_of key (live v t) = record {
  key = key;
  vals = held v;
  upd_time = t;
  type = c_upd;
  typeval = none;
}
entry_of key (absent s u) = record {
  key = key;
  vals = held [];
  upd_time = s;
  type = c_expire;
  typeval = some u;
}

abbrev pub stored : Bytes → Option Item → Option Entry
stored key none = none
stored key (some i) = some (entry_of key i)
