-- ===== src/Cdb/Queried.antt =====
-- server/cdb.c: what a query of the loaded file returns.
use nastd.Prelude.{
  ℕ, ◌^◌, ◌<◌, ◌≤◌, ◌≡◌, refl, sym, ap, ◌∙◌, arith, Bool-cases, Option-cases, inl, inr, ◌==◌, Bool,
  true, [], ◌∷◌, ◌++◌, Option, some, length, take,
}
use mathlib.Core.List.{append_assoc}
use nastd.Prelude.Bytes.{Bytes}
use nastd.Prelude.Fields.{split, split_from}
use nastd.Prelude.Alloc.{Heap, >>=-eq-some}
use nastd.Prelude.Outcome.{returns, blocked, fault}
use nastd.Array.{Array, array_add}
use nastd.Array.Laws.{array_add_lem}
use nastd.Thread.{RwMutex, rw_mutex_read_lock}
use nastd.Cdb.{Cdb}
use nastd.Cdb.Find.{Found, found, missing, failed, faulted, cdb_find}
use nastd.Cdb.Sound.{IsRecord, cdb_find_sound}
use nastd.Cdb.Query.{add_fields, GetResult, get_fields, served_bytes, cdb_get, unlocked}

-- The loop of `cdb_get` adds the fields of the data, in order.
add_fields_lem :
    (sep : ℕ) (aa : Array) (start left : Bytes) (h : Heap) {a : Array}
    → (add_fields sep aa start left h).0 ≡ some a
    → a ≡ aa ++ split_from sep start left
unfolding add_fields split_from
add_fields_lem sep aa start [] h e = array_add_lem aa start h e
add_fields_lem sep aa start (c ∷ left) h {a} e = elim (Bool-cases (c == sep)) [
  | inl same ↦
      let (aa', p, q) =
        >>=-eq-some (array_add aa start) (λ aa'. add_fields sep aa' [] left) h
          (rw (same, add_fields) at e) in
      let first : aa' ≡ aa ++ start ∷ [] = array_add_lem aa start h p in
      rw (same, split_from)
        (add_fields_lem sep aa' [] left _ q
          ∙ rw first (append_assoc aa (start ∷ []) (split_from sep [] left)))
  | inr differs ↦
      rw (differs, split_from)
        (add_fields_lem sep aa (start ++ c ∷ []) left h (rw (differs, add_fields) at e))
]

-- what `get_fields` finds when it succeeds
get_fields_found :
    (r : Found) (aa : Array) (db : Cdb) (h : Heap) {aa' : Array} {db' : Cdb} {h' : Heap}
    → get_fields r aa db h ≡ returns ((true, some aa'), db', h')
    → (ret : Bytes) × (retlen : ℕ) × (r ≡ found ret retlen)
      × (retlen ≤ length ret)
      × (aa' ≡ aa ++ split db.db_sep (take retlen ret))
unfolding get_fields split
get_fields_found missing aa db h e = absurd (cc)
get_fields_found failed aa db h e = absurd (cc)
get_fields_found faulted aa db h e = absurd (cc)
get_fields_found (found ret retlen) aa db h {aa'} e = (
  ret,
  retlen,
  refl,
  ground arith,
  add_fields_lem db.db_sep aa [] (take retlen ret) h (ground arith),
)

unlocked_lem :
    (lk : RwMutex) (r : GetResult) {x : Bool × Option Array} {db' : Cdb} {h' : Heap}
    → unlocked lk r ≡ returns (x, db', h')
    → (db₁ : Cdb) × (r ≡ returns (x, db₁, h'))
unfolding unlocked
unlocked_lem lk (returns (x, db₁, h₁)) e = (db₁, ground arith)
unlocked_lem lk blocked e = absurd (cc)
unlocked_lem lk fault e = absurd (cc)

-- the search under the read lock
get_locked :
    (file key : Bytes) (aa : Array) (db : Cdb) (h : Heap) {x : Bool × Option Array} {db' : Cdb}
    {h' : Heap}
    → db.memcdb ≡ some file
    → cdb_get key aa db h ≡ returns (x, db', h')
    → (db₁ : Cdb) × (get_fields (cdb_find file key) aa db h ≡ returns (x, db₁, h'))
unfolding cdb_get
get_locked file key aa db h {db' = db'} m e =
    let same : served_bytes db.memcdb ≡ file = ap served_bytes m in
    elim (Option-cases db.cdb_lk) [
      | inl n ↦ (db', rw (sym same) (rw (n, cdb_get) at e))
      | inr (lock, n) ↦ elim (Option-cases (rw_mutex_read_lock lock)) [
        | inl b ↦ absurd (cc (rw (n, b, cdb_get) at e))
        | inr (lk, b) ↦
            let (db₁, q) =
              unlocked_lem lk (get_fields (cdb_find (served_bytes db.memcdb) key) aa db h)
                (rw (n, b, cdb_get) at e) in
            (db₁, rw (sym same) q)
      ]
    ]

-- A `cdb_get` that returns 0 for a key shorter than 2 ^ 32 bytes has added to the array, in order,
-- the fields of the data of a record that the file holds under that key.
pub cdb_get_sound :
    (key : Bytes) (aa : Array) (db : Cdb) (h : Heap) (file : Bytes) {aa' : Array} {db' : Cdb}
    {h' : Heap}
    → length key < 2 ^ 32
    → db.memcdb ≡ some file
    → cdb_get key aa db h ≡ returns ((true, some aa'), db', h')
    → (ret : Bytes) × (retlen : ℕ) × (at : ℕ) × IsRecord file key ret retlen at
      × (retlen ≤ length ret)
      × (aa' ≡ aa ++ split db.db_sep (take retlen ret))
cdb_get_sound key aa db h file small m e =
    let (db₁, q) = get_locked file key aa db h m e in
    let (ret, retlen, f, fits, same) = get_fields_found (cdb_find file key) aa db h q in
    let (at, r) = cdb_find_sound file key small f in (ret, retlen, at, r, fits, same)
