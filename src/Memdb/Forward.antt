-- ===== src/Memdb/Forward.antt =====
-- server/memdb.c: with memory at hand, additions and updates of a cache that holds items return.
use nastd.Prelude.{
  ◌≡◌, ◌≢◌, ◌≤◌, refl, ◌∙◌, arith, if◌then◌else◌, ◌==◌, Bool, true, false, [], ◌∷◌, Option, none,
  some, length,
}
use nastd.Prelude.Bytes.{Bytes, same_bytes, same_bytes_refl}
use nastd.Prelude.Outcome.{returns}
use nastd.Array.{Array, array_new}
use nastd.Array.Laws.{array_dup_nil}
use nastd.Thread.{rw_mutex_write_lock, rw_mutex_unlock}
use nastd.Memdb.{Memdb, Env, hashkey, lookup}
use nastd.Memdb.Entries.{
  Entry, Chain, held, release, is_invalid, replaceable, find_entry, add_chain,
}
use nastd.Memdb.Chains.{kept}
use nastd.Memdb.Lookup.{lookup-inserted, lookup-overwritten}
use nastd.Memdb.Add.{memdb_add, new_entry, build_entry, add_built}
use nastd.Memdb.Get.{memdb_get}
use nastd.Memdb.Cache.{got_updated, built_key, built-IsUpdated}
use nastd.Memdb.Upd.{memdb_upd, upd_found, rewrite}
use nastd.Memdb.States.{counted, renewed, after_upd, inserted}
use nastd.Memdb.Steps.{memdb_get_lem, insert_lem, upd_free}
use nastd.Memdb.Invariant.{IsValid}
use nastd.Memdb.Abstract.{Item, live, absent, Items, added, updated, entry_of, stored}

-- an entry over which an addition must not go
spoils : Option Entry → Bool
spoils none = false
spoils (some p) = if replaceable p.type then is_invalid p.vals else false

add_chain-spoilt :
    (key : Bytes) (ent : Entry) (c : Chain)
    → (add_chain key ent c).spoilt ≡ spoils (find_entry key c)
unfolding add_chain find_entry spoils
add_chain-spoilt key ent [] = refl
add_chain-spoilt key ent (p ∷ next) = ground (arith, add_chain-spoilt key ent next)

spoils-stored : (key : Bytes) (i : Option Item) → spoils (stored key i) ≡ false
unfolding spoils
spoils-stored key none = refl
spoils-stored key (some (live v t)) = refl
spoils-stored key (some (absent s u)) = refl

new_entry_nil :
    (env : Env) (key : Bytes) (vals : Array)
    → new_entry env key vals [] ≡ returns (some (build_entry env key vals (held vals)), [])
unfolding new_entry array_new
new_entry_nil env key vals = ground (arith, array_dup_nil vals)

-- The table holds the items, and the lock is free.
pub record Holds (md5_calc : Bytes → Bytes) (db : Memdb) (m : Items) : Type 0 where
  pub valid : IsValid db
  pub same : (k : Bytes) → lookup md5_calc db k ≡ stored k (m k)

module _ (md5_calc : Bytes → Bytes) where
  memdb_add_unspoilt :
      (env : Env) (key : Bytes) (vals : Array) (db : Memdb)
      → IsValid db
      → spoils (lookup md5_calc db key) ≡ false
      → memdb_add md5_calc env key vals db []
        ≡ returns (true, inserted md5_calc db key (build_entry env key vals (held vals)), [])
  unfolding memdb_add add_built lookup
  memdb_add_unspoilt env key vals db v sound =
      let ent = build_entry env key vals (held vals) in
      rw (new_entry_nil env key vals, add_built)
        (insert_lem md5_calc db v.free key ent []
          ∙ rw (add_chain-spoilt key ent (db.table (hashkey md5_calc key)), sound))

  pub memdb_add_nil :
      (env : Env) (key : Bytes) (vals : Array) (db : Memdb) (m : Items)
      → Holds md5_calc db m
      → memdb_add md5_calc env key vals db []
        ≡ returns (true, inserted md5_calc db key (build_entry env key vals (held vals)), [])
  memdb_add_nil env key vals db m h =
      memdb_add_unspoilt env key vals db h.valid (rw (h.same key) (spoils-stored key (m key)))

  pub memdb_add_new :
      (env : Env) (key : Bytes) (vals : Array) (db : Memdb)
      → IsValid db
      → lookup md5_calc db key ≡ none
      → memdb_add md5_calc env key vals db []
        ≡ returns (true, inserted md5_calc db key (build_entry env key vals (held vals)), [])
  unfolding spoils
  memdb_add_new env key vals db v nothing = memdb_add_unspoilt env key vals db v (rw nothing refl)

  -- Values under a key that was not there are stored, and are what a lookup then finds.
  pub memdb_add_absent :
      (env env' : Env) (key : Bytes) (vals : Array) (db : Memdb)
      → IsValid db
      → lookup md5_calc db key ≡ none
      → vals ≢ []
      → env'.cdb_mtime ≤ env.now
      → let db' = inserted md5_calc db key (build_entry env key vals (held vals)) in
        (memdb_add md5_calc env key vals db [] ≡ returns (true, db', []))
        × (memdb_get md5_calc env' key db' []
            ≡ returns ((true, some vals), counted md5_calc db', []))
  memdb_add_absent env env' key vals db v nothing some_vals fresh =
      let ent = build_entry env key vals (held vals) in
      let returned = memdb_add_new env key vals db v nothing in
      let db' = inserted md5_calc db key ent in
      let here : lookup md5_calc db' key ≡ some ent =
        lookup-inserted md5_calc db key key ent (built_key env key vals (held vals))
        ∙ rw (same_bytes_refl key) (rw nothing refl) in
      (
        returned,
        memdb_get_lem md5_calc db' v.free env' key []
            ∙ rw here (
                got_updated md5_calc db' env env' key vals ent
                  (built-IsUpdated env key vals some_vals) fresh),
      )

  upd_some :
      (env : Env) (key : Bytes) (vals v : Array) (p : Entry) (db : Memdb)
      → IsValid db
      → p.vals ≡ held v
      → upd_found md5_calc env key vals db [] (some p)
        ≡ returns (true, after_upd md5_calc db env key vals [] true (some p), [])
  unfolding upd_found rewrite release after_upd rw_mutex_write_lock rw_mutex_unlock array_new
  upd_some env key vals v p db valid e = rw (valid.free, e, array_dup_nil vals)

  upd_found_nil :
      (env : Env) (key : Bytes) (vals : Array) (db : Memdb) (m : Items) (i : Option Item)
      → Holds md5_calc db m
      → upd_found md5_calc env key vals db [] (stored key i)
        ≡ returns (true, after_upd md5_calc db env key vals [] true (stored key i), [])
  unfolding upd_found after_upd
  upd_found_nil env key vals db m none h = memdb_add_nil env key vals db m h
  upd_found_nil env key vals db m (some (live v t)) h =
      upd_some env key vals v (entry_of key (live v t)) db h.valid refl
  upd_found_nil env key vals db m (some (absent s u)) h =
      upd_some env key vals [] (entry_of key (absent s u)) db h.valid refl

  pub memdb_upd_nil :
      (env : Env) (key : Bytes) (vals : Array) (db : Memdb) (m : Items)
      → Holds md5_calc db m
      → (length vals == env.db_fieldcount) ≡ true
      → memdb_upd md5_calc env key vals db []
        ≡ returns (true, after_upd md5_calc db env key vals [] true (stored key (m key)), [])
  memdb_upd_nil env key vals db m h n =
      upd_free md5_calc db h.valid.free env key vals []
      ∙ rw (n, h.same key) (upd_found_nil env key vals db m (m key) h)

  -- what stands under a key after an addition
  pub kept_stored :
      (env : Env) (key : Bytes) (vals : Array) (i : Option Item)
      → some (kept (build_entry env key vals (held vals)) (stored key i))
        ≡ stored key (some (added env vals i))
  unfolding build_entry
  kept_stored env key [] none = ground arith
  kept_stored env key (v ∷ vals) none = ground arith
  kept_stored env key vals (some (live v t)) = refl
  kept_stored env key [] (some (absent s u)) = ground arith
  kept_stored env key (v ∷ vals) (some (absent s u)) = ground arith

  -- what stands under a key after an update
  pub lookup-updated :
      (env : Env) (key k : Bytes) (vals : Array) (db : Memdb) (i : Option Item)
      → lookup md5_calc db key ≡ stored key i
      → lookup md5_calc (after_upd md5_calc db env key vals [] true (stored key i)) k ≡ (
          if same_bytes key k then stored key (some (updated env vals i)) else lookup md5_calc db k)
  unfolding after_upd lookup build_entry
  lookup-updated env key k vals db none e =
      lookup-inserted md5_calc db key k (build_entry env key vals (held vals)) refl
      ∙ rw (e, kept_stored env key vals none)
  lookup-updated env key k vals db (some (live v t)) e =
      lookup-overwritten md5_calc db key k (renewed env (entry_of key (live v t)) (held vals)) refl
      ∙ rw e
  lookup-updated env key k vals db (some (absent s u)) e =
      lookup-overwritten md5_calc db key k (renewed env (entry_of key (absent s u)) (held vals))
        refl
      ∙ rw e
