-- ===== src/Cdb/Reload.antt =====
-- server/cdb.c: what a load leaves.
use nastd.Prelude.{
  ℕ, zero, suc, ◌+◌, ◌≡◌, ◌≢◌, refl, sym, ◌∙◌, ap, arith, Bool-cases, Option-cases, inl, inr, ◌==◌,
  true, false, List, [], ◌∷◌, ◌++◌, none, some, length,
}
use mathlib.Core.List.{append_assoc, append-nil}
use nastd.Prelude.Bytes.{Bytes}
use nastd.Prelude.Fields.{split, split_from}
use nastd.Prelude.Alloc.{Heap, Alloc, ◌>>=◌, pure, malloc, >>=-eq-some}
use nastd.Prelude.Outcome.{returns, blocked, fault}
use nastd.Thread.{RwMutex}
use nastd.Cdb.{Cdb}
use nastd.Cdb.Load.{
  File, mapped, cdb_new, count_fields, field_name, past_field, name_fields, build_fields, load_file,
  load_fields, install, Header, read_header, cdb_lock, Step, unreadable,
}

-- `split_from` puts what has been passed in front of the first field.
cons_head : Bytes → List Bytes → List Bytes
cons_head start [] = []
cons_head start (x ∷ xs) = (start ++ x) ∷ xs

cons_head-append :
    (x y : Bytes) (xs : List Bytes) → cons_head x (cons_head y xs) ≡ cons_head (x ++ y) xs
unfolding cons_head
cons_head-append x y [] = refl
cons_head-append x y (z ∷ xs) = rw append_assoc

split_from-cons :
    (sep : ℕ) (start s : Bytes) → split_from sep start s ≡ cons_head start (split_from sep [] s)
unfolding split_from cons_head
split_from-cons sep start [] = rw append-nil
split_from-cons sep start (c ∷ s) = ground (
  arith,
  append-nil start,
  split_from-cons sep (start ++ c ∷ []) s,
  split_from-cons sep (c ∷ []) s,
  cons_head-append start (c ∷ []) (split_from sep [] s),
)

-- the fields of the source's two loops
named : ℕ → ℕ → Bytes → List Bytes
named sep zero s = []
named sep (suc n) s = field_name sep s ∷ named sep n (past_field sep s)

name_fields_lem :
    (sep n : ℕ) (s : Bytes) (h : Heap) {names : List Bytes}
    → (name_fields sep n s h).0 ≡ some names
    → names ≡ named sep n s
unfolding name_fields named
name_fields_lem sep zero s h e = ground arith
name_fields_lem sep (suc n) s h {names} e =
    let tail = name_fields sep n (past_field sep s) in
    let add : List Bytes → Alloc (List Bytes) = λ rest. pure (field_name sep s ∷ rest) in
    let (_, _, q) = >>=-eq-some malloc (λ _. tail >>= add) h e in
    let (rest, r, p) = >>=-eq-some tail add (malloc h).1 q in
    let ih : rest ≡ named sep n (past_field sep s) =
      name_fields_lem sep n (past_field sep s) (malloc h).1 r in
    ground arith

count_fields-ne-zero : (sep : ℕ) (s : Bytes) → count_fields sep s ≢ 0
unfolding count_fields
count_fields-ne-zero sep [] e = omega arith
count_fields-ne-zero sep (c ∷ s) e = ground (arith, count_fields-ne-zero sep s)

named-cons :
    (sep c n : ℕ) (s : Bytes)
    → (c == sep) ≡ false
    → n ≢ 0
    → named sep n (c ∷ s) ≡ cons_head (c ∷ []) (named sep n s)
unfolding named cons_head field_name past_field
named-cons sep c zero s ne pos = absurd (pos refl)
named-cons sep c (suc n) s ne pos = rw ne

split-named : (sep : ℕ) (s : Bytes) → split sep s ≡ named sep (count_fields sep s) s
unfolding split split_from named count_fields field_name past_field
split-named sep [] = refl
split-named sep (c ∷ s) = elim (Bool-cases (c == sep)) [
  | inl same ↦
      let one : 1 + count_fields sep s ≡ suc (count_fields sep s) = omega arith in
      rw same (rw one (rw same (ap (◌∷◌ []) (split-named sep s))))
  | inr differs ↦
      let none_here : 0 + count_fields sep s ≡ count_fields sep s = omega arith in
      rw differs (
        rw none_here (
          split_from-cons sep (c ∷ []) s
          ∙ ap (cons_head (c ∷ [])) (split-named sep s)
          ∙ sym (named-cons sep c (count_fields sep s) s differs (count_fields-ne-zero sep s))))
]

length-named : (sep n : ℕ) (s : Bytes) → length (named sep n s) ≡ n
unfolding named
length-named sep zero s = refl
length-named sep (suc n) s = ap suc (length-named sep n (past_field sep s))

build_fields_lem :
    (hd : Header) (h : Heap) {names : List Bytes}
    → (build_fields hd h).0 ≡ some names
    → names ≡ split hd.newsep hd.names
unfolding build_fields
build_fields_lem hd h {names} e =
    let (_, _, q) =
      >>=-eq-some malloc (λ _. name_fields hd.newsep (count_fields hd.newsep hd.names) hd.names) h
        e in
    name_fields_lem hd.newsep (count_fields hd.newsep hd.names) hd.names (malloc h).1 q
    ∙ sym (split-named hd.newsep hd.names)

length-split : (sep : ℕ) (s : Bytes) → length (split sep s) ≡ count_fields sep s
length-split sep s = rw (split-named sep s) (length-named sep (count_fields sep s) s)

-- What is served is one and the same.
pub record Serves (old new : Cdb) : Type 0 where
  pub contents : new.memcdb ≡ old.memcdb
  pub stamp : new.cdb_mtime ≡ old.cdb_mtime
  pub fields : new.db_fields ≡ old.db_fields
  pub count : new.db_fieldcount ≡ old.db_fieldcount
  pub sep : new.db_sep ≡ old.db_sep
  pub key : new.db_key ≡ old.db_key
  pub dbn : new.db_dbn ≡ old.db_dbn
  pub tbl : new.db_tbl ≡ old.db_tbl

install_not_failed :
    (file : Bytes) (mtime : ℕ) (hd : Header) (names : List Bytes) (lock : RwMutex) (db : Cdb)
    (h : Heap) {db' : Cdb} {h' : Heap}
    → install file mtime hd names lock db h ≡ returns (false, db', h')
    → ⊥
unfolding install
install_not_failed file mtime hd names lock db h e = ground arith

load_fields_failed :
    (file : Bytes) (mtime : ℕ) (s : Step Header) (lock : RwMutex) (db : Cdb) (h : Heap) {db' : Cdb}
    {h' : Heap}
    → load_fields file mtime s lock db h ≡ returns (false, db', h')
    → db' ≡ db
unfolding load_fields
load_fields_failed file mtime (returns (some hd)) lock db h {db'} {h'} e =
    elim (Option-cases (build_fields hd h).0) [
      | inl n ↦ ground arith
      | inr (names, n) ↦ absurd (
          install_not_failed file mtime hd names lock db (build_fields hd h).1 {db' = db'} {h' = h'}
            (ground arith))
    ]
load_fields_failed file mtime (returns none) lock db h e = ground arith
load_fields_failed file mtime blocked lock db h e = cc
load_fields_failed file mtime fault lock db h e = cc

load_file_failed :
    (dbname dbtbl : Bytes) (fl : File) (lock : RwMutex) (db : Cdb) (h : Heap) {db' : Cdb}
    {h' : Heap}
    → load_file dbname dbtbl fl lock db h ≡ returns (false, db', h')
    → db' ≡ db
unfolding load_file
load_file_failed dbname dbtbl unreadable lock db h e = ground arith
load_file_failed dbname dbtbl (mapped file mtime) lock db h e =
    load_fields_failed file mtime (read_header dbname dbtbl file) lock db h e

-- A `cdb_new` that returns -1, for whatever reason, leaves the file that is served, its time stamp
-- and all that was read from it.
pub cdb_new_failed :
    (dbname dbtbl : Bytes) (fl : File) (db : Cdb) (h : Heap) {db' : Cdb} {h' : Heap}
    → cdb_new dbname dbtbl fl db h ≡ returns (false, db', h')
    → Serves db db'
unfolding cdb_new
cdb_new_failed dbname dbtbl fl db h {db'} {h'} e = elim (Option-cases (cdb_lock db.cdb_lk h).0) [
  | inl n ↦ ground arith
  | inr (lock, n) ↦
      let q : db' ≡ record db { sec_c = 0; cdb_lk = some lock } =
        load_file_failed dbname dbtbl fl lock (record db { sec_c = 0; cdb_lk = some lock })
          (cdb_lock db.cdb_lk h).1 {h' = h'} (ground arith) in
      ground arith
]

-- what a `cdb_new` of the bytes `file` has installed, by what they say of themselves
pub record IsLoaded (file : Bytes) (mtime : ℕ) (hd : Header) (db : Cdb) : Type 0 where
  pub contents : db.memcdb ≡ some file
  pub stamp : db.cdb_mtime ≡ mtime
  pub sep : db.db_sep ≡ hd.newsep
  pub fields : db.db_fields ≡ split hd.newsep hd.names
  pub count : db.db_fieldcount ≡ length db.db_fields

load_fields-IsLoaded :
    (file : Bytes) (mtime : ℕ) (s : Step Header) (lock : RwMutex) (db : Cdb) (h : Heap) {db' : Cdb}
    {h' : Heap}
    → load_fields file mtime s lock db h ≡ returns (true, db', h')
    → (hd : Header) × (s ≡ returns (some hd)) × IsLoaded file mtime hd db'
unfolding load_fields install
load_fields-IsLoaded file mtime (returns (some hd)) lock db h {db'} e =
    elim (Option-cases (build_fields hd h).0) [
      | inl n ↦ absurd (ground arith)
      | inr (names, n) ↦ (
        hd,
        refl,
        ground (arith, build_fields_lem hd h {names = names} n, length-split hd.newsep hd.names),
      )
    ]
load_fields-IsLoaded file mtime (returns none) lock db h e = absurd (cc)
load_fields-IsLoaded file mtime blocked lock db h e = absurd (cc)
load_fields-IsLoaded file mtime fault lock db h e = absurd (cc)

-- A `cdb_new` that returns 0 has installed the file and its time stamp; the field names are the
-- value of `_VALUES_` split at the delimiter, and `db_fieldcount` is their number.
pub cdb_new-IsLoaded :
    (dbname dbtbl file : Bytes) (mtime : ℕ) (db : Cdb) (h : Heap) {db' : Cdb} {h' : Heap}
    → cdb_new dbname dbtbl (mapped file mtime) db h ≡ returns (true, db', h')
    → (hd : Header) × (read_header dbname dbtbl file ≡ returns (some hd))
      × IsLoaded file mtime hd db'
unfolding cdb_new load_file
cdb_new-IsLoaded dbname dbtbl file mtime db h {db'} {h'} e =
    elim (Option-cases (cdb_lock db.cdb_lk h).0) [
      | inl n ↦ absurd (ground arith)
      | inr (lock, n) ↦
          load_fields-IsLoaded file mtime (read_header dbname dbtbl file) lock
            (record db { sec_c = 0; cdb_lk = some lock }) (cdb_lock db.cdb_lk h).1 {h' = h'}
            (ground arith)
    ]
