-- ===== src/Cdb.antt =====
-- server/cdb.c and its parts: the constant database file, mapped into memory and read in place.
-- The children read the file (Find, with its proofs in Match and Sound), load it (Load), and answer
-- queries from it (Query).
pub mod Find
pub mod Match
pub mod Sound
pub mod Load
pub mod Query
pub mod Reload
pub mod Queried
use nastd.Prelude.{ℕ, Option, List, ◌==◌, if◌then◌else◌, [], ◌∷◌}
use nastd.Prelude.Bytes.{Bytes}
use nastd.Thread.{RwMutex}

-- The variables of the file, less the rates. `memcdb` with `cdb_len` is the list of the mapped
-- bytes, the buffers `db_key`, `db_dbn` and `db_tbl` are the bytes copied into them, and `db_fields`
-- is the list of the names.
pub record Cdb : Type 0 where
  pub memcdb : Option Bytes
  pub cdb_mtime : ℕ
  pub db_key : Bytes
  pub db_dbn : Bytes
  pub db_tbl : Bytes
  pub db_fields : List Bytes
  pub db_sep : ℕ
  pub db_fieldcount : ℕ
  pub sec_c : ℕ
  pub cdb_lk : Option RwMutex

-- a C string, up to its first NUL
abbrev pub c_string : Bytes → Bytes
c_string [] = []
c_string (c ∷ s) = if c == 0 then [] else c ∷ c_string s
