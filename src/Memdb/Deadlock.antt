-- ===== src/Memdb/Deadlock.antt =====
-- `memdb_del` asks for the write lock while it holds the read lock.
use nastd.Prelude.{
  ℕ, suc, ◌≡◌, refl, true, false, Option, none, some, Option-cases, ◌⊎◌, [], ◌∷◌, ap, inl, inr,
}
use nastd.Prelude.Bytes.{Bytes, same_bytes_refl}
use nastd.Prelude.Alloc.{Heap}
use nastd.Array.{Array, array_new}
use nastd.Thread.{rw_mutex_new, rw_mutex_write_lock}
use nastd.Prelude.Outcome.{returns, blocked, fault}
use nastd.Memdb.{Memdb, Env, Result, lookup}
use nastd.Memdb.Entries.{Entry, held}
use nastd.Memdb.Add.{memdb_add, build_entry}
use nastd.Memdb.Del.{memdb_del, memdb_del_loop, del_absent, del_added, del_present}
use nastd.Memdb.States.{inserted}
use nastd.Memdb.Steps.{read_free, relocked, memdb_add_lem}
use nastd.Memdb.Lookup.{lookup-inserted}
use nastd.Memdb.Invariant.{IsValid}
use nastd.Memdb.Forward.{memdb_add_new}

module _ (md5_calc : Bytes → Bytes) where
  -- one call, by what the walk finds
  del_step : ℕ → Env → Bytes → Memdb → Heap → Option Entry → Result
  del_step tries env key db h none =
      del_absent md5_calc (memdb_del_loop md5_calc tries env key) env key db (array_new h)
  del_step tries env key db h (some p) = blocked

  del_step_lem :
      (tries : ℕ) (env : Env) (key : Bytes) (db : Memdb) (h : Heap) (found : Option Entry)
      → db.memdb_lk ≡ rw_mutex_new
      → lookup md5_calc db key ≡ found
      → memdb_del_loop md5_calc (suc tries) env key db h ≡ del_step tries env key db h found
  unfolding memdb_del_loop lookup del_step del_present rw_mutex_write_lock
  del_step_lem tries env key db h none free e =
      rw (read_free md5_calc db free, memdb_del_loop) (rw e (rw (relocked md5_calc db free)))
  del_step_lem tries env key db h (some p) free e =
      rw (read_free md5_calc db free, memdb_del_loop) (rw e)

  del_found :
      (tries : ℕ) (env : Env) (key : Bytes) (db : Memdb) (h : Heap) (p : Entry)
      → db.memdb_lk ≡ rw_mutex_new
      → lookup md5_calc db key ≡ some p
      → memdb_del_loop md5_calc (suc tries) env key db h ≡ blocked
  unfolding del_step
  del_found tries env key db h p free e = del_step_lem tries env key db h (some p) free e

  added_is_there :
      (key : Bytes) (ent : Entry) (db : Memdb)
      → ent.key ≡ key
      → lookup md5_calc db key ≡ none
      → lookup md5_calc (inserted md5_calc db key ent) key ≡ some ent
  added_is_there key ent db e absent =
      rw (lookup-inserted md5_calc db key key ent e) (rw (same_bytes_refl key) (rw absent))

  added_then_blocked :
      (env : Env) (key : Bytes) (aa : Array) (db : Memdb) (h : Heap)
      → db.memdb_lk ≡ rw_mutex_new
      → lookup md5_calc db key ≡ none
      → memdb_del_loop md5_calc 1 env key
          (inserted md5_calc db key (build_entry env key aa (held aa)))
          h
        ≡ blocked
  unfolding build_entry
  added_then_blocked env key aa db h free absent =
      let ent = build_entry env key aa (held aa) in
      del_found 0 env key (inserted md5_calc db key ent) h ent free
        (added_is_there key ent db refl absent)

  -- what `memdb_del` comes to under a key that is not in the cache, where the allocator may refuse
  abbrev pub Undeleted : Env → Bytes → Memdb → Heap → Result → Type 0
  Undeleted env key db h o =
      (o ≡ blocked)
      ⊎ ((h' : Heap) × (o ≡ returns (false, db, h')))
      ⊎ ((o ≡ fault)
          × ((aa : Array) × (h₁ : Heap) × (array_new h ≡ (some aa, h₁))
              × (memdb_add md5_calc env key aa db h₁ ≡ fault)))

  -- by what the walk finds, and whether the allocator may refuse
  abbrev pub NeverDeletes : Env → Bytes → Memdb → Heap → Option Entry → Result → Type 0
  NeverDeletes env key db h (some p) o = o ≡ blocked
  NeverDeletes env key db [] none o = o ≡ blocked
  NeverDeletes env key db (b ∷ h) none o = Undeleted env key db (b ∷ h) o

  del_added-Undeleted :
      (env : Env) (key : Bytes) (aa : Array) (db : Memdb) (h h₁ : Heap)
      → db.memdb_lk ≡ rw_mutex_new
      → lookup md5_calc db key ≡ none
      → array_new h ≡ (some aa, h₁)
      → Undeleted env key db h (
          del_added md5_calc
            (memdb_del_loop md5_calc 1 env key)
            (memdb_add md5_calc env key aa db h₁))
  unfolding del_added
  del_added-Undeleted env key aa db h h₁ free absent new =
      split (memdb_add md5_calc env key aa db h₁) refl
    where
      split :
          (r : Result)
          → memdb_add md5_calc env key aa db h₁ ≡ r
          → Undeleted env key db h (del_added md5_calc (memdb_del_loop md5_calc 1 env key) r)
      split (returns (true, db₁, h₂)) m =
          let now = memdb_add_lem md5_calc db free env key aa h₁ true m in
          inl (rw now (added_then_blocked env key aa db h₂ free absent))
      split (returns (false, db₁, h₂)) m = inr (
          inl (
            h₂,
            ap (λ d. returns (false, d, h₂)) (memdb_add_lem md5_calc db free env key aa h₁ false m),
          ))
      split blocked m = inl refl
      split fault m = inr (inr (refl, (aa, h₁, new, m)))

  absent-Undeleted :
      (env : Env) (key : Bytes) (db : Memdb) (h : Heap)
      → db.memdb_lk ≡ rw_mutex_new
      → lookup md5_calc db key ≡ none
      → Undeleted env key db h
          (del_absent md5_calc (memdb_del_loop md5_calc 1 env key) env key db (array_new h))
  unfolding del_absent
  absent-Undeleted env key db h free absent = split (array_new h) refl
    where
      split :
          (r : Option Array × Heap)
          → array_new h ≡ r
          → Undeleted env key db h
              (del_absent md5_calc (memdb_del_loop md5_calc 1 env key) env key db r)
      split (none, h₁) e = inr (inl (h₁, refl))
      split (some aa, h₁) e = del_added-Undeleted env key aa db h h₁ free absent e

  -- From a free lock `memdb_del` of a key that is in the cache never returns: it waits for its own
  -- read lock.
  memdb_del_blocked :
      (env : Env) (key : Bytes) (db : Memdb) (h : Heap) (p : Entry)
      → db.memdb_lk ≡ rw_mutex_new
      → lookup md5_calc db key ≡ some p
      → memdb_del md5_calc env key db h ≡ blocked
  unfolding memdb_del
  memdb_del_blocked env key db h p free found = del_found 1 env key db h p free found

  -- In a valid cache `memdb_del` deletes nothing and never returns 0. A key that is there makes it
  -- wait for its own read lock for ever, and so does one that is not where there is memory. Where the
  -- allocator may refuse and the key is not there, it waits so too, or returns -1 and leaves the cache as it
  -- was, or `memdb_add` of the empty entry has touched memory that it may not.
  pub memdb_del-NeverDeletes :
      (env : Env) (key : Bytes) (db : Memdb) (h : Heap)
      → IsValid db
      → NeverDeletes env key db h (lookup md5_calc db key) (memdb_del md5_calc env key db h)
  unfolding memdb_del del_step del_absent del_added array_new
  memdb_del-NeverDeletes env key db h valid = elim (Option-cases (lookup md5_calc db key)) [
    | inl absent ↦ rw absent (by_heap h absent)
    | inr (p, found) ↦ rw found (del_found 1 env key db h p valid.free found)
  ]
    where
      by_heap :
          (h : Heap)
          → lookup md5_calc db key ≡ none
          → NeverDeletes env key db h none (memdb_del_loop md5_calc 2 env key db h)
      by_heap [] absent = rw (del_step_lem 1 env key db [] none valid.free absent) (
          rw (memdb_add_new md5_calc env key [] db valid absent)
            (added_then_blocked env key [] db [] valid.free absent))
      by_heap (b ∷ h) absent =
          rw (del_step_lem 1 env key db (b ∷ h) none valid.free absent)
            (absent-Undeleted env key db (b ∷ h) valid.free absent)
