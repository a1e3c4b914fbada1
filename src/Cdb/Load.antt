-- ===== src/Cdb/Load.antt =====
-- server/cdb.c: `cdb_new`, which maps the file, reads what it says of itself, and installs it.
use Prim.Native.Char.{code}
use Prim.Native.String.{String}
use nastd.Prelude.{
  ℕ, zero, suc, ◌+◌, ltb, leb, ◌==◌, if◌then◌else◌, Bool, true, false, List, [], ◌∷◌, Option, none,
  some, length, take, ◌||◌,
}
use nastd.Prelude.Bytes.{Bytes}
use nastd.Prelude.Alloc.{Heap, Alloc, ◌>>=◌, ◌>>◌, pure, malloc}
use nastd.Prelude.Outcome.{Outcome, returns, blocked, fault}
use nastd.Thread.{RwMutex, rw_mutex_new, rw_mutex_write_lock, rw_mutex_unlock}
use nastd.Cdb.{Cdb, c_string}
use nastd.Cdb.Find.{found, missing, failed, faulted, cdb_find}

-- What `open`, `fstat` and `mmap` give: an error of one of them, or the bytes and the time stamp.
pub data File : Type 0 where
  unreadable : File
  mapped : (contents : Bytes) (mtime : ℕ) → File

-- the bytes of an ASCII literal
abbrev pub codes : String → Bytes
codes String.[] = []
codes (String.◌∷◌ c s) = code c ∷ codes s

-- the size of the buffers that values are copied to
abbrev pub buffer_size : ℕ
buffer_size = 1024

-- A value that the file holds about itself. `overrun` is a copy that reads past the file or writes
-- past the buffer, the NUL behind the copy included.
pub data Meta : Type 0 where
  absent : Meta
  too_long : Meta
  overrun : Meta
  value : Bytes → Meta

-- The lookup of `cdb_findbykey` and the copy. `limit` is the first length that is refused.
unfoldable pub read_meta : Bytes → Bytes → ℕ → Meta
read_meta file key limit = elim (cdb_find file key) [
  | missing ↦ absent
  | failed ↦ absent
  | faulted ↦ overrun
  | found p i ↦
      if leb limit i
      then too_long
      else if leb buffer_size i || ltb (length p) i
      then overrun
      else value (take i p)
]

-- `newsep = *p`, or the default
unfoldable pub read_sep : Bytes → Option ℕ
read_sep file = elim (cdb_find file (codes "_DELIM_")) [
  | found [] i ↦ none
  | found (c ∷ p) i ↦ some c
  | faulted ↦ none
  | _ ↦ some b':'
]

-- the first loop over `cdbfields_s`
unfoldable pub count_fields : ℕ → Bytes → ℕ
count_fields newsep [] = 1
count_fields newsep (c ∷ s) = (if c == newsep then 1 else 0) + count_fields newsep s

-- from `s_p` to `e_p`, and from behind `e_p`
unfoldable pub field_name : ℕ → Bytes → Bytes
field_name newsep [] = []
field_name newsep (c ∷ s) = if c == newsep then [] else c ∷ field_name newsep s

unfoldable pub past_field : ℕ → Bytes → Bytes
past_field newsep [] = []
past_field newsep (c ∷ s) = if c == newsep then s else past_field newsep s

-- the second loop, with a block for each name
unfoldable pub name_fields : ℕ → ℕ → Bytes → Alloc (List Bytes)
name_fields newsep zero s_p = pure []
name_fields newsep (suc n) s_p = do
  malloc
  rest ← name_fields newsep n (past_field newsep s_p)
  pure (field_name newsep s_p ∷ rest)

-- What the file says of itself, once all has been read.
pub record Header : Type 0 where
  pub newkey : Bytes
  pub newdbn : Bytes
  pub newtbl : Bytes
  pub newsep : ℕ
  pub names : Bytes

-- `none` is a return of -1
abbrev pub Step : Type 0 → Type 0
Step A = Outcome (Option A)

infixl 5 ◌>>=ₛ◌
abbrev pub ◌>>=ₛ◌ : {A B : Type 0} → Step A → (A → Step B) → Step B
returns none >>=ₛ f = returns none
returns (some a) >>=ₛ f = f a
blocked >>=ₛ f = blocked
fault >>=ₛ f = fault

-- a value that must be there, and one with a default
abbrev required : Meta → Step Bytes
required (value v) = returns (some v)
required overrun = fault
required _ = returns none

abbrev defaulted : Bytes → Meta → Step Bytes
defaulted d (value v) = returns (some v)
defaulted d overrun = fault
defaulted d too_long = returns none
defaulted d absent = returns (some d)

abbrev separator : Option ℕ → Step ℕ
separator none = fault
separator (some c) = returns (some c)

-- In the order of the source; `dbname` and `dbtbl` are DBNAME and DBTBL of the build.
unfoldable pub read_header : Bytes → Bytes → Bytes → Step Header
read_header dbname dbtbl file =
    required (read_meta file (codes "_KEY_") (buffer_size + 1)) >>=ₛ λ newkey.
    defaulted dbname (read_meta file (codes "_DB_") (buffer_size + 1)) >>=ₛ λ newdbn.
    defaulted dbtbl (read_meta file (codes "_TABLE_") (buffer_size + 1)) >>=ₛ λ newtbl.
    separator (read_sep file) >>=ₛ λ newsep.
    required (read_meta file (codes "_VALUES_") buffer_size) >>=ₛ λ names. returns (
      some (record {
        newkey = newkey;
        newdbn = newdbn;
        newtbl = newtbl;
        newsep = newsep;
        names = c_string names;
      }))

-- the block for the array of fields, and the names
unfoldable pub build_fields : Header → Alloc (List Bytes)
build_fields hd = do malloc; name_fields hd.newsep (count_fields hd.newsep hd.names) hd.names

-- The lock of the first call.
unfoldable pub cdb_lock : Option RwMutex → Alloc RwMutex
cdb_lock none = do malloc; pure rw_mutex_new
cdb_lock (some lk) = pure lk

abbrev pub LoadResult : Type 0
LoadResult = Outcome (Bool × Cdb × Heap)

-- under the write lock
unfoldable pub install : Bytes → ℕ → Header → List Bytes → RwMutex → Cdb → Heap → LoadResult
install file mtime hd newfields lock db h = elim (rw_mutex_write_lock lock) [
  | none ↦ blocked
  | some lk ↦ returns (
    true,
    record {
      memcdb = some file;
      cdb_mtime = mtime;
      db_key = hd.newkey;
      db_dbn = hd.newdbn;
      db_tbl = hd.newtbl;
      db_fields = newfields;
      db_sep = hd.newsep;
      db_fieldcount = count_fields hd.newsep hd.names;
      sec_c = db.sec_c;
      cdb_lk = elim (rw_mutex_unlock lk) [ none ↦ some lk | some (_, lk') ↦ some lk' ];
    },
    h,
  )
]

-- from the header on
unfoldable pub load_fields : Bytes → ℕ → Step Header → RwMutex → Cdb → Heap → LoadResult
load_fields file mtime (returns (some hd)) lock db h =
    let (fields, h') = build_fields hd h in
    elim fields [
      | none ↦ returns (false, db, h')
      | some newfields ↦ install file mtime hd newfields lock db h'
    ]
load_fields file mtime (returns none) lock db h = returns (false, db, h)
load_fields file mtime blocked lock db h = blocked
load_fields file mtime fault lock db h = fault

-- from the file on
unfoldable pub load_file : Bytes → Bytes → File → RwMutex → Cdb → Heap → LoadResult
load_file dbname dbtbl unreadable lock db h = returns (false, db, h)
load_file dbname dbtbl (mapped file mtime) lock db h =
    load_fields file mtime (read_header dbname dbtbl file) lock db h

-- `sec_c` is cleared and the lock made, whatever follows.
unfoldable pub cdb_new : Bytes → Bytes → File → Cdb → Heap → LoadResult
cdb_new dbname dbtbl file db h =
    let (lk, h') = cdb_lock db.cdb_lk h in
    elim lk [
      | none ↦ returns (false, record db { sec_c = 0 }, h')
      | some lock ↦
          load_file dbname dbtbl file lock (record db { sec_c = 0; cdb_lk = some lock }) h'
    ]
