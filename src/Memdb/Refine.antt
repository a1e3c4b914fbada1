-- ===== src/Memdb/Refine.antt =====
-- server/memdb.c does what Memdb/Abstract says, for any sequence of calls.
use nastd.Prelude.{
  ◌≡◌, refl, ◌∙◌, if◌then◌else◌, ◌==◌, true, false, List, [], ◌∷◌, Option, none, some, length,
  Bool-cases, inl, inr, ltb, leb,
}
use nastd.Prelude.Bytes.{Bytes, same_bytes, same_bytes_iff}
use nastd.Prelude.Alloc.{Heap}
use nastd.Prelude.Outcome.{returns}
use nastd.Array.{Array}
use nastd.Array.Laws.{array_dup_nil}
use nastd.Thread.{rw_mutex_new}
use nastd.Memdb.{Memdb, Env, lookup, fresh_db, memdb_new}
use nastd.Memdb.Entries.{held, find_entry}
use nastd.Memdb.Add.{build_entry}
use nastd.Memdb.Get.{answer}
use nastd.Memdb.States.{after_upd, dropped, counted, got, inserted}
use nastd.Memdb.Steps.{upd_free, memdb_get_lem}
use nastd.Memdb.Lookup.{lookup-inserted, lookup-dropped}
use nastd.Memdb.Invariant.{
  IsUnlocked, fresh_lem, memdb_new-IsValid, memdb_add-IsValid, memdb_upd-IsValid, memdb_get-IsValid,
}
use nastd.Memdb.Abstract.{
  Item, live, absent, Items, put, Request, add, upd, get, done, found, added, updated, seen,
  answers, answer_all, call, call_all, stored,
}
use nastd.Memdb.Forward.{Holds, kept_stored, lookup-updated, memdb_add_nil, memdb_upd_nil}

module _ (md5_calc : Bytes → Bytes) where
  put_lem :
      (db : Memdb) (db' : Memdb) (key : Bytes) (item : Option Item) (m : Items)
      → Holds md5_calc db m
      → ((k : Bytes)
          → lookup md5_calc db' k
            ≡ (if same_bytes key k then stored key item else lookup md5_calc db k))
      → (k : Bytes) → lookup md5_calc db' k ≡ stored k (put key item m k)
  put_lem db db' key item m h step k = elim (Bool-cases (same_bytes key k)) [
    | inl e ↦ step k ∙ rw e (rw ((same_bytes_iff key k).0 e) refl)
    | inr e ↦ step k ∙ rw e (h.same k)
  ]

  add_lem :
      (env : Env) (key : Bytes) (vals : Array) (db : Memdb) (m : Items)
      → Holds md5_calc db m
      → (db' : Memdb) × (call md5_calc (add env key vals) db ≡ returns (done true, db'))
        × Holds md5_calc db' (put key (some (added env vals (m key))) m)
  unfolding build_entry
  add_lem env key vals db m h =
      let ent = build_entry env key vals (held vals) in
      (
        inserted md5_calc db key ent,
        rw (memdb_add_nil md5_calc env key vals db m h, call),
        record {
          valid =
              memdb_add-IsValid md5_calc env key vals db [] true
                (memdb_add_nil md5_calc env key vals db m h) h.valid;
          same =
              put_lem db (inserted md5_calc db key ent) key (some (added env vals (m key))) m h
                (λ k.
                  lookup-inserted md5_calc db key k ent refl
                  ∙ rw (h.same key, kept_stored md5_calc env key vals (m key)));
        },
      )

  upd_lem :
      (env : Env) (key : Bytes) (vals : Array) (db : Memdb) (m : Items)
      → Holds md5_calc db m
      → (length vals == env.db_fieldcount) ≡ true
      → (db' : Memdb) × (call md5_calc (upd env key vals) db ≡ returns (done true, db'))
        × Holds md5_calc db' (put key (some (updated env vals (m key))) m)
  upd_lem env key vals db m h n =
      let db' = after_upd md5_calc db env key vals [] true (stored key (m key)) in
      let returned = memdb_upd_nil md5_calc env key vals db m h n in
      (
        db',
        rw (returned, call),
        record {
          valid = memdb_upd-IsValid md5_calc env key vals db [] true returned h.valid;
          same =
              put_lem db db' key (some (updated env vals (m key))) m h
                (λ k. lookup-updated md5_calc env key k vals db (m key) (h.same key));
        },
      )

  -- a lookup that returns, and the state it leaves
  Looks : Env → Bytes → Memdb → Items → Option Item → Type 0
  Looks env key db m i =
      (db' : Memdb) × (call md5_calc (get env key) db ≡ returns ((seen env i).0, db'))
      × Holds md5_calc db' (if (seen env i).1 then m else put key none m)

  counts :
      (env : Env) (key : Bytes) (v : Array) (db : Memdb) (m : Items)
      → Holds md5_calc db m
      → got md5_calc db env key [] (lookup md5_calc db key)
        ≡ returns ((true, some v), counted md5_calc db, [])
      → (call md5_calc (get env key) db ≡ returns (found true (some v), counted md5_calc db))
        × Holds md5_calc (counted md5_calc db) m
  unfolding lookup
  counts env key v db m h e =
      let returned = memdb_get_lem md5_calc db h.valid.free env key [] ∙ e in
      (
        rw (returned, call),
        record {
          valid = memdb_get-IsValid md5_calc env key db [] returned h.valid;
          same = λ k. h.same k;
        },
      )

  drops :
      (env : Env) (key : Bytes) (db : Memdb) (m : Items)
      → Holds md5_calc db m
      → got md5_calc db env key [] (lookup md5_calc db key)
        ≡ returns ((false, some []), dropped md5_calc db key, [])
      → (call md5_calc (get env key) db ≡ returns (found false (some []), dropped md5_calc db key))
        × Holds md5_calc (dropped md5_calc db key) (put key none m)
  drops env key db m h e =
      let returned = memdb_get_lem md5_calc db h.valid.free env key [] ∙ e in
      (
        rw (returned, call),
        record {
          valid = memdb_get-IsValid md5_calc env key db [] returned h.valid;
          same =
              put_lem db (dropped md5_calc db key) key none m h
                (λ k. lookup-dropped md5_calc db key k (h.valid.distinct _));
        },
      )

  looks :
      (env : Env) (key : Bytes) (db : Memdb) (m : Items) (i : Option Item)
      → Holds md5_calc db m
      → lookup md5_calc db key ≡ stored key i
      → Looks env key db m i
  unfolding Looks got answer
  looks env key db m none h e =
      (db, rw (memdb_get_lem md5_calc db h.valid.free env key [], call) (rw (e, got) refl), h)
  looks env key db m (some (live v t)) h e = elim (Bool-cases (ltb t env.cdb_mtime)) [
    | inl old ↦
        let r = drops env key db m h (rw e (rw (old, got))) in
        rw old (dropped md5_calc db key, r.0, r.1)
    | inr new ↦
        let r = counts env key v db m h (rw e (rw (new, got, array_dup_nil v))) in
        rw new (counted md5_calc db, r.0, r.1)
  ]
  looks env key db m (some (absent s u)) h e = elim (Bool-cases (leb u env.now)) [
    | inl old ↦
        let r = drops env key db m h (rw e (rw (old, got))) in
        rw old (dropped md5_calc db key, r.0, r.1)
    | inr new ↦
        let r = counts env key [] db m h (rw e (rw (new, got, array_dup_nil []))) in
        rw new (counted md5_calc db, r.0, r.1)
  ]

  -- One call answers as the map does, and what it leaves holds what the map then has.
  call_lem :
      (r : Request) (db : Memdb) (m : Items)
      → Holds md5_calc db m
      → (db' : Memdb) × (call md5_calc r db ≡ returns ((answers r m).0, db'))
        × Holds md5_calc db' (answers r m).1
  unfolding answers Looks
  call_lem (add env key vals) db m h = add_lem env key vals db m h
  call_lem (get env key) db m h = looks env key db m (m key) h (h.same key)
  call_lem (upd env key vals) db m h = elim (Bool-cases (length vals == env.db_fieldcount)) [
    | inl n ↦ rw n (upd_lem env key vals db m h n)
    | inr n ↦ rw n (db, rw (upd_free md5_calc db h.valid.free env key vals [], call) (rw n refl), h)
  ]

  pub call_all_lem :
      (rs : List Request) (db : Memdb) (m : Items)
      → Holds md5_calc db m
      → (db' : Memdb) × (call_all md5_calc rs db ≡ returns ((answer_all rs m).0, db'))
        × Holds md5_calc db' (answer_all rs m).1
  unfolding call_all answer_all
  call_all_lem [] db m h = (db, refl, h)
  call_all_lem (r ∷ rs) db m h =
      let (db₁, e₁, h₁) = call_lem r db m h in
      let (db₂, e₂, h₂) = call_all_lem rs db₁ (answers r m).1 h₁ in
      (db₂, rw (e₁, call_all) (rw (e₂, call_all)), h₂)

  lookup-fresh : (k : Bytes) → lookup md5_calc (fresh_db rw_mutex_new) k ≡ none
  unfolding lookup find_entry fresh_db
  lookup-fresh k = refl

  -- Any sequence of additions, updates and lookups on a new cache, each with its own time and
  -- settings and with memory at hand, returns: no call blocks or leaves its memory. It gives the
  -- answers that the map from keys to items gives, which starts with nothing; in the end the table
  -- holds under every key what the map has there, the lock is free, and no chain has two entries
  -- under one key. `memdb_new` is the first, or finds the lock of the old cache free, and returns 0.
  pub cache_refines :
      (old : Option Memdb) (h : Heap) (rs : List Request) {db : Memdb} {h' : Heap}
      → IsUnlocked old
      → memdb_new old h ≡ returns (true, some db, h')
      → (db' : Memdb) × (call_all md5_calc rs db ≡ returns ((answer_all rs (λ _. none)).0, db'))
        × Holds md5_calc db' (answer_all rs (λ _. none)).1
  cache_refines old h rs {db} u e =
      call_all_lem rs db (λ _. none)
        (record {
          valid = memdb_new-IsValid old h u e;
          same = λ k. rw (fresh_lem old h u e) (lookup-fresh k);
        })
