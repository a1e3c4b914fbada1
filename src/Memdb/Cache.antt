-- ===== src/Memdb/Cache.antt =====
-- What a client of the cache sees: updates are read back, absent keys are remembered for a time,
-- and entries older than the CDB file are dropped.
use nastd.Prelude.{
  ◌+◌, ◌≤◌, ◌<◌, ◌≡◌, ◌≢◌, refl, ◌∙◌, arith, if◌then◌else◌, Bool, true, false, [], ◌∷◌, Option,
  none, some, ◌==◌, length, Bool-cases, inl, inr, ltb,
}
use nastd.Prelude.Bytes.{Bytes, same_bytes, same_bytes_refl, same_bytes_iff}
use nastd.Prelude.Alloc.{Heap}
use nastd.Array.{Array}
use nastd.Array.Laws.{array_dup_nil}
use nastd.Prelude.Outcome.{returns}
use nastd.Memdb.{Memdb, Env, hashkey, lookup}
use nastd.Memdb.Entries.{Entry, Vals, held, is_invalid, c_upd}
use nastd.Memdb.Chains.{find_entry_key, add_chain-grown}
use nastd.Memdb.Add.{memdb_add, build_entry}
use nastd.Memdb.Get.{memdb_get, answer}
use nastd.Memdb.Upd.{memdb_upd}
use nastd.Memdb.States.{vals_left, renewed, after_upd, dropped, counted, got}
use nastd.Memdb.Steps.{memdb_add_lem, memdb_upd_lem, memdb_get_lem}
use nastd.Memdb.Lookup.{lookup-inserted, lookup-overwritten, lookup-dropped}
use nastd.Memdb.Invariant.{IsValid, entries, entries-dropped, memdb_add-IsValid, memdb_upd-IsValid}

-- an entry as an update at `env.now` leaves it
pub record IsUpdated (env : Env) (vals : Array) (p : Entry) : Type 0 where
  vals_held : p.vals ≡ held vals
  is_upd : p.type ≡ c_upd
  stamped : p.upd_time ≡ env.now

pub got_updated :
    (md5_calc : Bytes → Bytes) (db : Memdb) (env env' : Env) (key : Bytes) (vals : Array)
    (p : Entry)
    → IsUpdated env vals p
    → env'.cdb_mtime ≤ env.now
    → got md5_calc db env' key [] (some p) ≡ returns ((true, some vals), counted md5_calc db, [])
unfolding got answer
got_updated md5_calc db env env' key vals p u fresh = ground (arith, array_dup_nil vals)

pub built_key :
    (env : Env) (key : Bytes) (vals : Array) (v : Vals) → (build_entry env key vals v).key ≡ key
unfolding build_entry
built_key env key vals v = refl

pub built-IsUpdated :
    (env : Env) (key : Bytes) (vals : Array)
    → vals ≢ []
    → IsUpdated env vals (build_entry env key vals (held vals))
unfolding build_entry
built-IsUpdated env key [] ne = absurd (ne refl)
built-IsUpdated env key (v ∷ vals) ne = record {
  vals_held = refl;
  is_upd = ground arith;
  stamped = refl;
}

-- `memdb_get` on a remembered absence
got_null :
    (md5_calc : Bytes → Bytes) (db : Memdb) (env env' : Env) (key : Bytes)
    → got md5_calc db env' key [] (some (build_entry env key [] (held []))) ≡ (
        if ltb env'.now (env.now + env.null_cache_timeout)
        then returns ((true, some []), counted md5_calc db, [])
        else returns ((false, some []), dropped md5_calc db key, []))
unfolding got answer build_entry
got_null md5_calc db env env' key = ground (arith, array_dup_nil [])

module _ (md5_calc : Bytes → Bytes) where
  -- the entry under `key` after an update that returned 0
  upd_entry : Env → Array → Option Entry → Bytes → Entry
  upd_entry env vals none key = build_entry env key vals (held vals)
  upd_entry env vals (some p) key = renewed env p (held vals)

  upd_entry-IsUpdated :
      (env : Env) (vals : Array) (found : Option Entry) (key : Bytes)
      → vals ≢ []
      → IsUpdated env vals (upd_entry env vals found key)
  unfolding upd_entry
  upd_entry-IsUpdated env vals none key ne = built-IsUpdated env key vals ne
  upd_entry-IsUpdated env vals (some p) key ne = record {
    vals_held = refl;
    is_upd = refl;
    stamped = refl;
  }

  stored_key :
      (env : Env) (key : Bytes) (db : Memdb) (p : Entry)
      → lookup md5_calc db key ≡ some p
      → p.key ≡ key
  unfolding lookup
  stored_key env key db p e = find_entry_key key _ p e

  lookup-after_upd :
      (env : Env) (key k : Bytes) (vals : Array) (db : Memdb) (h : Heap) (found : Option Entry)
      → lookup md5_calc db key ≡ found
      → lookup md5_calc (after_upd md5_calc db env key vals h true found) k
        ≡ (if same_bytes key k then some (upd_entry env vals found key) else lookup md5_calc db k)
  unfolding after_upd upd_entry lookup build_entry
  lookup-after_upd env key k vals db h none e =
      lookup-inserted md5_calc db key k (build_entry env key vals (held vals)) refl ∙ rw e
  lookup-after_upd env key k vals db h (some p) e =
      lookup-overwritten md5_calc db key k (renewed env p (held vals)) (find_entry_key key _ p e)
      ∙ rw e

  -- In a valid cache, after an update of `key` to at least one value has returned 0, and as long as
  -- the CDB file is no newer than that update, a `memdb_get` of `key` with memory at hand returns 0
  -- and those values, and changes only the counter of queries.
  pub get-upd_self :
      (env env' : Env) (key : Bytes) (vals : Array) (db : Memdb) (h : Heap) {db' : Memdb}
      {h' : Heap}
      → IsValid db
      → vals ≢ []
      → env'.cdb_mtime ≤ env.now
      → memdb_upd md5_calc env key vals db h ≡ returns (true, db', h')
      → memdb_get md5_calc env' key db' [] ≡ returns ((true, some vals), counted md5_calc db', [])
  get-upd_self env env' key vals db h {db'} v ne fresh e =
      memdb_get_lem md5_calc db' (memdb_upd-IsValid md5_calc env key vals db h true e v).free env'
        key []
      ∙ rw here (
          got_updated md5_calc db' env env' key vals
            (upd_entry env vals (lookup md5_calc db key) key)
            (upd_entry-IsUpdated env vals _ key ne) fresh)
    where
      here : lookup md5_calc db' key ≡ some (upd_entry env vals (lookup md5_calc db key) key)
      here =
          rw (memdb_upd_lem md5_calc db v.free env key vals h true e)
            (lookup-after_upd env key key vals db h _ refl ∙ rw (same_bytes_refl key))

  lookup-after_upd_ne :
      (env : Env) (key k : Bytes) (vals : Array) (db : Memdb) (h : Heap) (done : Bool)
      (found : Option Entry)
      → lookup md5_calc db key ≡ found
      → same_bytes key k ≡ false
      → lookup md5_calc (after_upd md5_calc db env key vals h done found) k ≡ lookup md5_calc db k
  unfolding after_upd
  lookup-after_upd_ne env key k vals db h true found e ne =
      lookup-after_upd env key k vals db h found e ∙ rw ne
  lookup-after_upd_ne env key k vals db h false none e ne = refl
  lookup-after_upd_ne env key k vals db h false (some p) e ne =
      elim (Bool-cases (length vals == env.db_fieldcount)) [
        | inl n ↦ rw n (
            lookup-overwritten md5_calc db key k (renewed env p (vals_left vals h))
              (stored_key env key db p e)
            ∙ rw ne)
        | inr n ↦ rw n
      ]

  -- In a valid cache an update of one key, whether it returns 0 or -1, leaves what is stored under
  -- every other key.
  pub lookup-upd_ne :
      (env : Env) (key k : Bytes) (vals : Array) (db : Memdb) (h : Heap) (done : Bool) {db' : Memdb}
      {h' : Heap}
      → IsValid db
      → same_bytes key k ≡ false
      → memdb_upd md5_calc env key vals db h ≡ returns (done, db', h')
      → lookup md5_calc db' k ≡ lookup md5_calc db k
  lookup-upd_ne env key k vals db h done v ne e =
      rw (memdb_upd_lem md5_calc db v.free env key vals h done e)
        (lookup-after_upd_ne env key k vals db h done _ refl ne)

  -- In a valid cache, an addition that returns 0 under a key with a live entry (of type C_UPD)
  -- leaves what is stored under every key, and the size; it adds one to the counter of additions.
  pub add_keeps_live :
      (env : Env) (key k : Bytes) (vals : Array) (db : Memdb) (h : Heap) (p : Entry) {db' : Memdb}
      {h' : Heap}
      → IsValid db
      → lookup md5_calc db key ≡ some p
      → p.type ≡ c_upd
      → memdb_add md5_calc env key vals db h ≡ returns (true, db', h')
      → (lookup md5_calc db' k ≡ lookup md5_calc db k)
        × (db'.memdbsize ≡ db.memdbsize)
        × (db'.add_sec ≡ db.add_sec + 1)
  unfolding build_entry lookup
  add_keeps_live env key k vals db h p v e live q =
      rw (memdb_add_lem md5_calc db v.free env key vals h true q) (
        rw (lookup-inserted md5_calc db key k (build_entry env key vals (held vals)) refl)
            (ground (arith, same_bytes_iff key k)),
        ground (
          arith,
          add_chain-grown key (build_entry env key vals (held vals))
              (db.table (hashkey md5_calc key)) p e,
        ),
        refl,
      )

  -- In a valid cache with nothing under `key`, after an addition of no values has returned 0, a
  -- `memdb_get` of `key` returns 0 and no values before the configured time has passed; from then on
  -- it returns -1 and deletes the entry.
  pub get-add_absent :
      (env env' : Env) (key : Bytes) (db : Memdb) (h : Heap) {db' : Memdb} {h' : Heap}
      → IsValid db
      → lookup md5_calc db key ≡ none
      → memdb_add md5_calc env key [] db h ≡ returns (true, db', h')
      → (memdb_get md5_calc env' key db' [] ≡ (
          if ltb env'.now (env.now + env.null_cache_timeout)
          then returns ((true, some []), counted md5_calc db', [])
          else returns ((false, some []), dropped md5_calc db' key, [])))
        × (lookup md5_calc (dropped md5_calc db' key) key ≡ none)
  get-add_absent env env' key db h {db'} v absent e = (
    memdb_get_lem md5_calc db' valid.free env' key []
        ∙ rw here (got_null md5_calc db' env env' key),
    lookup-dropped md5_calc db' key key (valid.distinct _) ∙ rw (same_bytes_refl key),
  )
    where
      valid : IsValid db'
      valid = memdb_add-IsValid md5_calc env key [] db h true e v

      here : lookup md5_calc db' key ≡ some (build_entry env key [] (held []))
      here = rw (memdb_add_lem md5_calc db v.free env key [] h true e) (
          lookup-inserted md5_calc db key key (build_entry env key [] (held []))
            (built_key env key [] (held []))
          ∙ rw (same_bytes_refl key) (rw absent))

  -- In a valid cache a `memdb_get` that finds a live entry older than the CDB file returns -1 with no
  -- values and deletes the entry and no other; `memdbsize` still counts it.
  pub get_outdated :
      (env : Env) (key k : Bytes) (db : Memdb) (h : Heap) (p : Entry)
      → IsValid db
      → lookup md5_calc db key ≡ some p
      → p.type ≡ c_upd
      → is_invalid p.vals ≡ false
      → p.upd_time < env.cdb_mtime
      → (memdb_get md5_calc env key db h ≡ returns ((false, some []), dropped md5_calc db key, h))
        × (lookup md5_calc (dropped md5_calc db key) k
            ≡ (if same_bytes key k then none else lookup md5_calc db k))
        × (entries (dropped md5_calc db key).table + 1 ≡ entries db.table)
        × ((dropped md5_calc db key).memdbsize ≡ db.memdbsize)
  unfolding got answer
  get_outdated env key k db h p v e live sound old = (
    memdb_get_lem md5_calc db v.free env key h ∙ rw e (ground arith),
    lookup-dropped md5_calc db key k (v.distinct _),
    entries-dropped md5_calc db key p e,
    refl,
  )
