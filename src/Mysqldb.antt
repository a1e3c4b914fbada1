-- ===== src/Mysqldb.antt =====
-- server/mysqldb.c: the queries to the MySQL database. libmysqlclient is a parameter, what its calls
-- give during one call of this file's functions. Of a handle only whether there is one is kept.
pub mod Laws
use nastd.Prelude.{
  ℕ, zero, suc, ◌+◌, ◌==◌, ltb, if◌then◌else◌, Bool, true, false, List, [], ◌∷◌, ◌++◌, Option, none,
  some, length, take,
}
use nastd.Prelude.Bytes.{Bytes}
use nastd.Prelude.Int.{ℤ, pos, negsuc}
use nastd.Prelude.Alloc.{Heap, Alloc}
use nastd.Prelude.Outcome.{Outcome, returns, blocked, fault}
use nastd.Prelude.Run.{Run, ◌>>=◌, ◌>>◌, pure, crash}
use nastd.Array.{Array, array_add}
use nastd.Cdb.{Cdb, c_string}
use nastd.Cdb.Load.{codes}

-- `mysql_init` and `mysql_real_connect`
pub data Connected : Type 0 where
  no_handle : Connected
  refused : Connected
  connected : Connected

-- a row: NULL, or the bytes of each column
abbrev pub Row : Type 0
Row = List (Option Bytes)

-- An error of `mysql_query`, NULL of `mysql_use_result`, or the number of columns and the rows.
pub data Queried : Type 0 where
  query_failed : Queried
  no_result : Queried
  rows : ℕ → List Row → Queried

-- the block of a handle: allocated, or released
pub data Block : Type 0 where
  live : Block
  released : Block

-- `mysql_close` is what that call leaves of the block of the handle.
pub record Database : Type 0 where
  pub connect : Connected
  pub query : Bytes → Queried
  pub mysql_close : Block → Block

-- the static variables of the file, less the rates
pub record Mysqldb : Type 0 where
  pub cols : Bytes
  pub sec_c : ℕ

-- `arg` says that the thread's `arg` is not NULL.
pub record Session : Type 0 where
  pub db : Mysqldb
  pub arg : Bool
  pub heap : Heap

abbrev pub Ask {ℓ} : Type ℓ → Type ℓ
Ask = Run Session

abbrev pub cols_size : ℕ
cols_size = 512

-- `strncat` with the size of the whole buffer; a byte or the NUL behind its end is `fault`.
unfoldable pub strncat : Bytes → Bytes → Outcome Bytes
strncat cols s =
    if ltb (length cols + length (take cols_size s)) cols_size
    then returns (cols ++ take cols_size s)
    else fault

abbrev pub comma : ℕ
comma = 44

-- the loop over the fields
unfoldable pub add_cols : Bytes → List Bytes → Outcome Bytes
add_cols cols [] = returns cols
add_cols cols (f ∷ []) = strncat cols f
add_cols cols (f ∷ g ∷ fields) = elim (strncat cols f) [
  | returns c ↦ elim (strncat c (comma ∷ [])) [
    | returns c' ↦ add_cols c' (g ∷ fields)
    | blocked ↦ blocked
    | fault ↦ fault
  ]
  | blocked ↦ blocked
  | fault ↦ fault
]

unfoldable pub mysqldb_new : List Bytes → Outcome Mysqldb
mysqldb_new db_fields = elim (add_cols [] db_fields) [
  | returns c ↦ returns (record { cols = c; sec_c = 0 })
  | blocked ↦ blocked
  | fault ↦ fault
]

-- `DBSELECT` of Makefiles/config, cut at the size of the buffer
unfoldable pub select_text : Bytes → Cdb → Bytes → Bytes
select_text cols cdb key = take 1023 (
    codes "SELECT "
    ++ (cols
        ++ (codes " FROM "
            ++ (cdb.db_tbl
                ++ (codes " WHERE "
                    ++ (cdb.db_key ++ (codes "='" ++ (c_string key ++ codes "'"))))))))

abbrev allocate {ℓ} : {A : Type ℓ} → Alloc A → Ask (Option A)
allocate m s = let (o, h) = m s.heap in returns (o, record s { heap = h })

abbrev set_arg : Bool → Ask (Unit {0})
set_arg there s = returns (tt, record s { arg = there })

abbrev count_query : Ask (Unit {0})
count_query s = returns (tt, record s { db = record (s.db) { sec_c = s.db.sec_c + 1 } })

-- the loop over the columns; `strlen` of NULL is `fault`
unfoldable pub add_row : ℕ → Row → Array → Ask (Option Array)
add_row zero row aa = pure (some aa)
add_row (suc n) [] aa = crash
add_row (suc n) (none ∷ row) aa = crash
add_row (suc n) (some v ∷ row) aa = allocate (array_add aa (c_string v)) >>= λ added. elim added [
  | none ↦ pure none
  | some longer ↦ add_row n row longer
]

-- `free`
unfoldable pub free_block : Block → Ask (Unit {0})
free_block live = pure tt
free_block released = crash

module _ (database : Database) where
  -- `mysql_close`, and then `free` of the handle, which has a live block where it is not NULL
  unfoldable pub mysqldb_connect_close : Bool → Ask (Unit {0})
  mysqldb_connect_close dbh = if dbh then free_block (database.mysql_close live) else pure tt

  -- The flag is that the handle is not NULL.
  unfoldable pub mysqldb_connect_new : Ask Bool
  mysqldb_connect_new = elim database.connect [
    | no_handle ↦ pure false
    | refused ↦ mysqldb_connect_close true >> pure false
    | connected ↦ pure true
  ]

  unfoldable pub connect_first : Ask Bool
  connect_first s =
      if s.arg
      then returns (true, s)
      else (mysqldb_connect_new >>= λ made. set_arg made >> pure made) s

  -- What the function returns, and the array, from the result of the query on. Fewer columns than
  -- fields are a 0 with the array as it was; a string that cannot be copied leaves -1.
  unfoldable pub read_result : ℕ → Array → Queried → Ask (ℤ × Array)
  read_result db_fieldcount aa query_failed =
      mysqldb_connect_close true >> set_arg false >> pure (negsuc 0, aa)
  read_result db_fieldcount aa no_result = crash
  read_result db_fieldcount aa (rows num_fields []) = count_query >> pure (pos 1, aa)
  read_result db_fieldcount aa (rows num_fields (row ∷ more)) =
      if ltb num_fields db_fieldcount
      then pure (pos 0, aa)
      else (add_row db_fieldcount row aa >>= λ filled. elim filled [
        | none ↦ pure (negsuc 0, aa)
        | some all ↦ count_query >> pure (pos 0, all)
      ])

  unfoldable pub mysqldb_get : Cdb → Bytes → Array → Ask (ℤ × Array)
  mysqldb_get cdb key aa s =
      (connect_first >>= λ there.
      if there
      then read_result cdb.db_fieldcount aa (database.query (select_text s.db.cols cdb key))
      else pure (negsuc 0, aa))
        s
