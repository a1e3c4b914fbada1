-- ===== src/Mysqldb/Laws.antt =====
-- The columns of server/mysqldb.c, and what a query brings back.
use nastd.Prelude.{
  ℕ, ◌+◌, ◌≤◌, ◌<◌, ◌≡◌, refl, ◌∙◌, arith, ltb, ltb-false, ltb-true, if◌then◌else◌, true, false,
  List, [], ◌∷◌, ◌++◌, some, map, length, length-append, length-take, take_all, take, Bool-cases,
  ◌⊎◌, inl, inr,
}
use mathlib.Core.List.{append_assoc, append-nil}
use nastd.Prelude.Bytes.{Bytes}
use nastd.Prelude.Fields.{join, IsPlain, ArePlain}
use nastd.Prelude.Int.{pos}
use nastd.Prelude.Outcome.{returns, fault}
use nastd.Prelude.Run.{◌>>=◌}
use nastd.Array.{Array}
use nastd.Array.Laws.{array_add_nil}
use nastd.Cdb.{Cdb, c_string}
use nastd.Mysqldb.{
  live, released, free_block, connected, Row, Queried, query_failed, rows, Database, Session,
  cols_size, strncat, comma, add_cols, mysqldb_new, select_text, add_row, mysqldb_connect_close,
  mysqldb_connect_new, connect_first, read_result, mysqldb_get,
}

-- a string of more than 512 bytes is too long wherever it goes
strncat_long :
    (cols s : Bytes)
    → cols_size < length s
    → strncat cols s
      ≡ (if ltb (length cols + length s) cols_size then returns (cols ++ s) else fault)
unfolding strncat
strncat_long cols s h =
    let cut : ltb (length cols + length (take cols_size s)) cols_size ≡ false =
      ltb-false (omega (arith, length-take cols_size s)) in
    let whole : ltb (length cols + length s) cols_size ≡ false = ltb-false (omega (arith, h)) in
    rw (cut, strncat) (rw whole refl)

strncat_lem :
    (cols s : Bytes)
    → strncat cols s
      ≡ (if ltb (length cols + length s) cols_size then returns (cols ++ s) else fault)
unfolding strncat
strncat_lem cols s = elim (Bool-cases (ltb cols_size (length s))) [
  | inl e ↦ strncat_long cols s (ground arith)
  | inr e ↦ rw (take_all cols_size s (ground arith)) refl
]

add_cols_lem :
    (cols : Bytes) (fields : List Bytes)
    → length cols < cols_size
    → add_cols cols fields ≡ (
        if ltb (length cols + length (join comma fields)) cols_size
        then returns (cols ++ join comma fields)
        else fault)
unfolding add_cols join
add_cols_lem cols [] h = rw append-nil (ground arith)
add_cols_lem cols (f ∷ []) h = strncat_lem cols f
add_cols_lem cols (f ∷ g ∷ fields) h = ground (
  arith,
  strncat_lem cols f,
  strncat_lem (cols ++ f) (comma ∷ []),
  add_cols_lem ((cols ++ f) ++ comma ∷ []) (g ∷ fields),
  length-append cols f,
  length-append (cols ++ f) (comma ∷ []),
  length-append f (comma ∷ join comma (g ∷ fields)),
  append_assoc (cols ++ f) (comma ∷ []) (join comma (g ∷ fields)),
  append_assoc cols f (comma ∷ join comma (g ∷ fields)),
)

-- The columns of a query are the fields joined by commas, where that has at most 511 bytes; where it
-- has more, bytes are written behind the buffer.
pub mysqldb_new_lem :
    (fields : List Bytes)
    → mysqldb_new fields ≡ (
        if ltb (length (join comma fields)) cols_size
        then returns (record { cols = join comma fields; sec_c = 0 })
        else fault)
unfolding mysqldb_new
mysqldb_new_lem fields = ground (arith, add_cols_lem [] fields (omega arith))

c_string_plain : (v : Bytes) → IsPlain 0 v → c_string v ≡ v
c_string_plain [] p = refl
c_string_plain (c ∷ v) p = ground (arith, c_string_plain v p.1)

-- A row whose first columns are strings without a NUL is appended.
add_row_lem :
    (vals : List Bytes) (more : Row) (aa : Array) (s : Session)
    → ArePlain 0 vals
    → s.heap ≡ []
    → add_row (length vals) (map some vals ++ more) aa s ≡ returns (some (aa ++ vals), s)
unfolding add_row
add_row_lem [] more aa s p memory = rw append-nil refl
add_row_lem (v ∷ vals) more aa s p memory = rw (c_string_plain v p.0) (
    rw memory (
      rw (array_add_nil aa v, ◌>>=◌)
        (add_row_lem vals more (aa ++ v ∷ []) (record s { heap = [] }) p.1 refl
          ∙ rw (append_assoc aa (v ∷ []) vals) refl)))

module _ (database : Database) where
  -- the thread has a connection, or gets one
  abbrev pub IsReachable : Session → Type 0
  IsReachable s = (s.arg ≡ true) ⊎ (database.connect ≡ connected)

  connect_first_lem :
      (s : Session)
      → IsReachable s
      → connect_first database s ≡ returns (true, record s { arg = true })
  unfolding connect_first mysqldb_connect_new
  connect_first_lem s (inl there) = rw (there, connect_first) refl
  connect_first_lem s (inr reached) = elim (Bool-cases s.arg) [
    | inl there ↦ rw (there, connect_first) refl
    | inr new ↦ rw (new, connect_first) (rw (reached, ◌>>=◌) refl)
  ]

  -- the call is what it makes of the query's result
  mysqldb_get_reads :
      (cdb : Cdb) (key : Bytes) (aa : Array) (s : Session) {q : Queried}
      → IsReachable s
      → database.query (select_text s.db.cols cdb key) ≡ q
      → mysqldb_get database cdb key aa s
        ≡ read_result database cdb.db_fieldcount aa q (record s { arg = true })
  unfolding mysqldb_get
  mysqldb_get_reads cdb key aa s r e = rw (connect_first_lem s r, ◌>>=◌) (rw e refl)

  pub mysqldb_get_found :
      (cdb : Cdb) (key : Bytes) (s : Session) (n : ℕ) (vals : List Bytes) (more : Row)
      (others : List Row)
      → IsReachable s
      → database.query (select_text s.db.cols cdb key) ≡ rows n ((map some vals ++ more) ∷ others)
      → cdb.db_fieldcount ≡ length vals
      → length vals ≤ n
      → ArePlain 0 vals
      → s.heap ≡ []
      → mysqldb_get database cdb key [] s
        ≡ returns
            ((pos 0, vals), record s { arg = true; db = record (s.db) { sec_c = s.db.sec_c + 1 } })
  unfolding read_result
  mysqldb_get_found cdb key s n vals more others r e count enough p memory =
      mysqldb_get_reads cdb key [] s r e
      ∙ rw count (
          rw (ltb-false enough, read_result)
            (rw (add_row_lem vals more [] (record s { arg = true }) p memory, ◌>>=◌) refl))

  -- no row, or a row with too few columns
  pub mysqldb_get_missing :
      (cdb : Cdb) (key : Bytes) (s : Session) (n : ℕ)
      → IsReachable s
      → database.query (select_text s.db.cols cdb key) ≡ rows n []
      → mysqldb_get database cdb key [] s
        ≡ returns
            ((pos 1, []), record s { arg = true; db = record (s.db) { sec_c = s.db.sec_c + 1 } })
  unfolding read_result
  mysqldb_get_missing cdb key s n r e = mysqldb_get_reads cdb key [] s r e

  pub mysqldb_get_short :
      (cdb : Cdb) (key : Bytes) (s : Session) (n : ℕ) (row : Row) (others : List Row)
      → IsReachable s
      → database.query (select_text s.db.cols cdb key) ≡ rows n (row ∷ others)
      → n < cdb.db_fieldcount
      → mysqldb_get database cdb key [] s ≡ returns ((pos 0, []), record s { arg = true })
  unfolding read_result
  mysqldb_get_short cdb key s n row others r e few =
      mysqldb_get_reads cdb key [] s r e ∙ rw (ltb-true few, read_result) refl

  -- A query that the database refuses, on a connection that is there or can be made, releases the
  -- handle twice where `mysql_close` releases it too.
  pub mysqldb_get_refused :
      (cdb : Cdb) (key : Bytes) (aa : Array) (s : Session)
      → IsReachable s
      → database.query (select_text s.db.cols cdb key) ≡ query_failed
      → database.mysql_close live ≡ released
      → mysqldb_get database cdb key aa s ≡ fault
  unfolding read_result mysqldb_connect_close free_block
  mysqldb_get_refused cdb key aa s r e releases =
      mysqldb_get_reads cdb key aa s r e ∙ rw (releases, ◌>>=◌) refl
