-- ===== src/Tests/Files.antt =====
-- A database file of 27 bytes, read by server/cdb_find.c and server/cdb.c. Its one key is the byte
-- 165, whose hash selects the first table.
use nastd.Prelude.{ℕ, ◌≤◌, ◌≡◌, ◌≢◌, refl, arith, [], ◌∷◌, ◌++◌, some, true, false, length, take}
use nastd.Prelude.Bytes.{Bytes}
use nastd.Prelude.Fields.{split}
use nastd.Prelude.Outcome.{returns}
use nastd.Array.{array_add, va_array_add, string_new}
use nastd.Thread.{rw_mutex_new, rw_mutex_read_lock, rw_mutex_unlock}
use nastd.Cdb.{Cdb}
use nastd.Cdb.Find.{
  cdb_hash, cdb_bread, compare_bytes, round, match_loop, match, found, failed, read_pair,
  try_record, try_slot, probe_loop, cdb_find,
}
use nastd.Cdb.Sound.{IsRecord, cdb_find_sound, cdb_find_misses_long, cdb_find_complete}
use nastd.Cdb.Load.{unreadable, cdb_new, load_file, cdb_lock}
use nastd.Cdb.Query.{cdb_get, get_fields, add_fields, unlocked, release_lock}
use nastd.Cdb.Queried.{cdb_get_sound}
use nastd.Cdb.Reload.{Serves, cdb_new_failed}

abbrev pub key : Bytes
key = 165 ∷ []

-- `a:b`
abbrev data_bytes : Bytes
data_bytes = 97 ∷ 58 ∷ 98 ∷ []

abbrev pair_of : ℕ → ℕ → Bytes
pair_of a b = a ∷ 0 ∷ 0 ∷ 0 ∷ b ∷ 0 ∷ 0 ∷ 0 ∷ []

abbrev slot : Bytes
slot = 0 ∷ 181 ∷ 2 ∷ 0 ∷ 16 ∷ 0 ∷ 0 ∷ 0 ∷ []

abbrev record_bytes : Bytes
record_bytes = pair_of 1 3 ++ (key ++ data_bytes)

abbrev pub file : Bytes
file = pair_of 8 1 ++ (slot ++ record_bytes)

hash_of_key : cdb_hash key ≡ 177408
unfolding cdb_hash
hash_of_key = refl

finds : cdb_find file key ≡ found data_bytes 3
unfolding cdb_find cdb_hash read_pair cdb_bread probe_loop try_slot try_record match match_loop
    round compare_bytes
finds = refl

misses : cdb_find file (166 ∷ []) ≡ failed
unfolding cdb_find cdb_hash read_pair cdb_bread
misses = refl

abbrev record_there : IsRecord file key data_bytes 3 16
record_there = record {
  lengths = pair_of 1 3;
  stands = refl;
  pair = refl;
  keylen = refl;
  datalen = refl;
}

cdb_find_sound_example : (at : ℕ) × IsRecord file key data_bytes 3 at
cdb_find_sound_example = cdb_find_sound file key (omega arith) finds

cdb_find_complete_example : cdb_find file key ≡ found data_bytes 3
unfolding cdb_hash read_pair cdb_bread
cdb_find_complete_example =
    cdb_find_complete file key data_bytes 3 16 (pair_of 8 1) slot (slot ++ record_bytes)
      record_bytes (omega arith) refl (omega arith) refl refl refl (omega arith) record_there
      (omega arith)

-- a key of 33 bytes
abbrev long_key : Bytes
long_key = take 33 (file ++ file)

cdb_find_misses_long_example : cdb_find file long_key ≢ found [] 0
cdb_find_misses_long_example = cdb_find_misses_long file long_key (omega arith) (omega arith)

abbrev pub served : Cdb
served = record {
  memcdb = some file;
  cdb_mtime = 50;
  db_key = [];
  db_dbn = [];
  db_tbl = [];
  db_fields = [];
  db_sep = 58;
  db_fieldcount = 2;
  sec_c = 0;
  cdb_lk = some rw_mutex_new;
}

abbrev queried : Cdb
queried = record served { sec_c = 1 }

query : cdb_get key [] served [] ≡ returns ((true, some ((97 ∷ []) ∷ (98 ∷ []) ∷ [])), queried, [])
unfolding cdb_get get_fields add_fields array_add va_array_add string_new unlocked release_lock
    rw_mutex_read_lock rw_mutex_unlock cdb_find cdb_hash read_pair cdb_bread probe_loop try_slot
    try_record match match_loop round compare_bytes
query = refl

cdb_get_sound_example :
    (ret : Bytes) × (retlen : ℕ) × (at : ℕ) × IsRecord file key ret retlen at
    × (retlen ≤ length ret)
    × ((97 ∷ []) ∷ (98 ∷ []) ∷ [] ≡ [] ++ split 58 (take retlen ret))
cdb_get_sound_example = cdb_get_sound key [] served [] file (omega arith) refl query

reload_fails : cdb_new [] [] unreadable queried [] ≡ returns (false, served, [])
unfolding cdb_new load_file cdb_lock
reload_fails = refl

cdb_new_failed_example : Serves queried served
cdb_new_failed_example = cdb_new_failed [] [] unreadable queried [] reload_fails
