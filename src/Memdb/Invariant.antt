-- ===== src/Memdb/Invariant.antt =====
-- The invariant of the cache, and that every operation keeps it.
use nastd.Prelude.{
  ℕ, zero, suc, ◌+◌, ◌≤◌, ◌<◌, ◌≡◌, refl, arith, Bool, true, false, [], Option, none, some, ◌==◌,
  length, Bool-cases, ◌⊎◌, inl, inr,
}
use nastd.Prelude.Bytes.{Bytes}
use nastd.Prelude.Alloc.{Heap}
use nastd.Prelude.Total.{update, total, total-update}
use nastd.Array.{Array}
use nastd.Thread.{rw_mutex_new, rw_mutex_write_lock, rw_mutex_unlock}
use nastd.Prelude.Outcome.{returns}
use nastd.Memdb.{Memdb, Env, hashsize, hashkey, lookup, memdb_new, fresh_db, make_lock}
use nastd.Memdb.Entries.{Entry, Chain, held, add_chain, put_entry, drop_entry}
use nastd.Memdb.Chains.{
  AreDistinct, find_entry_key, length-add_chain, length-put_entry, length-drop_entry,
  length-drop_found, add_chain-AreDistinct, put_entry-AreDistinct, drop_entry-AreDistinct,
}
use nastd.Memdb.Add.{memdb_add, build_entry}
use nastd.Memdb.Get.{memdb_get}
use nastd.Memdb.Upd.{memdb_upd}
use nastd.Memdb.States.{vals_left, renewed, inserted, overwritten, after_upd, dropped, counted, got}
use nastd.Memdb.Steps.{memdb_add_lem, memdb_upd_lem, memdb_get_lem}

-- the number of entries of a table
abbrev pub entries : (ℕ → Chain) → ℕ
entries = total length hashsize

-- The lock is free, no chain has two entries under one key, and `memdbsize` is at least the number
-- of entries.
pub record IsValid (db : Memdb) : Type 0 where
  pub free : db.memdb_lk ≡ rw_mutex_new
  pub distinct : (i : ℕ) → AreDistinct (db.table i)
  pub bounded : entries db.table ≤ db.memdbsize

module _ (md5_calc : Bytes → Bytes) where
  hashkey-lt-hashsize : (key : Bytes) → hashkey md5_calc key < hashsize
  unfolding hashkey
  hashkey-lt-hashsize key = omega arith

  -- a new chain in the bucket of `key`
  rechained-IsValid :
      (db : Memdb) (key : Bytes) (c : Chain) (size : ℕ)
      → IsValid db
      → AreDistinct c
      → length c + db.memdbsize ≤ length (db.table (hashkey md5_calc key)) + size
      → IsValid (record db { table = update db.table (hashkey md5_calc key) c; memdbsize = size })
  rechained-IsValid db key c size v d fits = record {
    free = v.free;
    distinct = λ i. elim (Bool-cases (hashkey md5_calc key == i)) [
      | inl e ↦ rw e d
      | inr e ↦ rw e (v.distinct i)
    ];
    bounded = omega (
      arith,
      total-update length hashsize db.table (hashkey md5_calc key) c (hashkey-lt-hashsize key),
      v.bounded,
    );
  }

  inserted-IsValid :
      (db : Memdb) (key : Bytes) (ent : Entry)
      → ent.key ≡ key
      → IsValid db
      → IsValid (inserted md5_calc db key ent)
  inserted-IsValid db key ent e v =
      let c = db.table (hashkey md5_calc key) in
      let r =
        rechained-IsValid db key (add_chain key ent c).chain
          (db.memdbsize + (add_chain key ent c).grown) v
          (add_chain-AreDistinct key ent c e (v.distinct _))
          (omega (arith, length-add_chain key ent c)) in
      record { free = v.free; distinct = r.distinct; bounded = r.bounded }

  overwritten-IsValid :
      (db : Memdb) (key : Bytes) (ent : Entry)
      → ent.key ≡ key
      → IsValid db
      → IsValid (overwritten md5_calc db key ent)
  overwritten-IsValid db key ent e v =
      let c = db.table (hashkey md5_calc key) in
      let r =
        rechained-IsValid db key (put_entry key ent c) db.memdbsize v
          (put_entry-AreDistinct key ent c e (v.distinct _))
          (omega (arith, length-put_entry key ent c)) in
      record { free = v.free; distinct = r.distinct; bounded = r.bounded }

  dropped-IsValid : (db : Memdb) (key : Bytes) → IsValid db → IsValid (dropped md5_calc db key)
  dropped-IsValid db key v =
      let c = db.table (hashkey md5_calc key) in
      let r =
        rechained-IsValid db key (drop_entry key c) db.memdbsize v
          (drop_entry-AreDistinct key c (v.distinct _)) (omega (arith, length-drop_entry key c)) in
      record { free = v.free; distinct = r.distinct; bounded = r.bounded }

  -- A deleted entry leaves the table, and `memdbsize` still counts it.
  pub entries-dropped :
      (db : Memdb) (key : Bytes) (p : Entry)
      → lookup md5_calc db key ≡ some p
      → entries (dropped md5_calc db key).table + 1 ≡ entries db.table
  unfolding lookup
  entries-dropped db key p e =
      let c = db.table (hashkey md5_calc key) in
      omega (
        arith,
        total-update length hashsize db.table (hashkey md5_calc key) (drop_entry key c)
            (hashkey-lt-hashsize key),
        length-drop_found key c p e,
      )

  -- In a valid cache an addition that returns, 0 or -1, leaves a valid cache.
  pub memdb_add-IsValid :
      (env : Env) (key : Bytes) (vals : Array) (db : Memdb) (h : Heap) (done : Bool) {db' : Memdb}
      {h' : Heap}
      → memdb_add md5_calc env key vals db h ≡ returns (done, db', h')
      → IsValid db
      → IsValid db'
  unfolding build_entry
  memdb_add-IsValid env key vals db h true e v =
      rw (memdb_add_lem md5_calc db v.free env key vals h true e)
        (inserted-IsValid db key (build_entry env key vals (held vals)) refl v)
  memdb_add-IsValid env key vals db h false e v =
      rw (memdb_add_lem md5_calc db v.free env key vals h false e) v

  after_upd-IsValid :
      (env : Env) (key : Bytes) (vals : Array) (db : Memdb) (h : Heap) (done : Bool)
      (found : Option Entry)
      → lookup md5_calc db key ≡ found
      → IsValid db
      → IsValid (after_upd md5_calc db env key vals h done found)
  unfolding after_upd build_entry lookup
  after_upd-IsValid env key vals db h true none f v =
      inserted-IsValid db key (build_entry env key vals (held vals)) refl v
  after_upd-IsValid env key vals db h false none f v = v
  after_upd-IsValid env key vals db h true (some p) f v =
      let r = overwritten-IsValid db key (renewed env p (held vals)) (find_entry_key key _ p f) v in
      record { free = r.free; distinct = r.distinct; bounded = r.bounded }
  after_upd-IsValid env key vals db h false (some p) f v =
      elim (Bool-cases (length vals == env.db_fieldcount)) [
        | inl n ↦ rw n (
            overwritten-IsValid db key (renewed env p (vals_left vals h)) (find_entry_key key _ p f)
              v)
        | inr n ↦ rw n v
      ]

  -- In a valid cache an update that returns, 0 or -1, leaves a valid cache.
  pub memdb_upd-IsValid :
      (env : Env) (key : Bytes) (vals : Array) (db : Memdb) (h : Heap) (done : Bool) {db' : Memdb}
      {h' : Heap}
      → memdb_upd md5_calc env key vals db h ≡ returns (done, db', h')
      → IsValid db
      → IsValid db'
  memdb_upd-IsValid env key vals db h done e v =
      rw (memdb_upd_lem md5_calc db v.free env key vals h done e)
        (after_upd-IsValid env key vals db h done _ refl v)

  -- the three states that `memdb_get` may leave
  got_state :
      (env : Env) (key : Bytes) (db : Memdb) (h : Heap) (found : Option Entry)
      {r : Bool × Option Array} {db' : Memdb} {h' : Heap}
      → got md5_calc db env key h found ≡ returns (r, db', h')
      → (db' ≡ db) ⊎ (db' ≡ counted md5_calc db) ⊎ (db' ≡ dropped md5_calc db key)
  unfolding got
  got_state env key db h none e = ground arith
  got_state env key db h (some p) e = ground arith

  -- In a valid cache a lookup that returns, whatever it finds or deletes, leaves a valid cache.
  pub memdb_get-IsValid :
      (env : Env) (key : Bytes) (db : Memdb) (h : Heap) {r : Bool × Option Array} {db' : Memdb}
      {h' : Heap}
      → memdb_get md5_calc env key db h ≡ returns (r, db', h')
      → IsValid db
      → IsValid db'
  memdb_get-IsValid env key db h e v =
      elim (got_state env key db h _ (rw (memdb_get_lem md5_calc db v.free env key h) at e)) [
        | inl q ↦ rw q v
        | inr (inl q) ↦ rw q (record { free = v.free; distinct = v.distinct; bounded = v.bounded })
        | inr (inr q) ↦ rw q (dropped-IsValid db key v)
      ]

total-nil : (n : ℕ) → total length n (λ i. let c : Chain = [] in c) ≡ 0
unfolding total
total-nil zero = refl
total-nil (suc n) = omega (arith, total-nil n)

-- the lock of the old cache, if there is one, is free
abbrev pub IsUnlocked : Option Memdb → Type 0
IsUnlocked none = Unit
IsUnlocked (some db) = db.memdb_lk ≡ rw_mutex_new

pub fresh_lem :
    (old : Option Memdb) (h : Heap) {db : Memdb} {h' : Heap}
    → IsUnlocked old
    → memdb_new old h ≡ returns (true, some db, h')
    → db ≡ fresh_db rw_mutex_new
unfolding memdb_new make_lock fresh_db rw_mutex_write_lock rw_mutex_unlock
fresh_lem none h u e = ground arith
fresh_lem (some old) h u e = ground arith

fresh-IsValid : IsValid (fresh_db rw_mutex_new)
unfolding fresh_db
fresh-IsValid = record {
  free = refl;
  distinct = λ i. tt;
  bounded = omega (arith, total-nil hashsize);
}

-- From a free lock, or at the first call, a `memdb_new` that returns 0 makes a valid cache.
pub memdb_new-IsValid :
    (old : Option Memdb) (h : Heap) {db : Memdb} {h' : Heap}
    → IsUnlocked old
    → memdb_new old h ≡ returns (true, some db, h')
    → IsValid db
memdb_new-IsValid old h u e = rw (fresh_lem old h u e) fresh-IsValid
