-- ===== src/Tests/Calls.antt =====
-- A sequence of calls of the cache of server/memdb.c.
use nastd.Prelude.{◌≡◌, refl, List, [], ◌∷◌, none, some, true, false}
use nastd.Prelude.Bytes.{same_bytes}
use nastd.Prelude.Outcome.{returns}
use nastd.Thread.{rw_mutex_new, rw_mutex_write_lock, rw_mutex_unlock}
use nastd.Memdb.{Memdb, fresh_db, memdb_new, make_lock}
use nastd.Memdb.Abstract.{Request, add, upd, get, done, found, answers, answer_all, call_all}
use nastd.Memdb.Forward.{Holds}
use nastd.Memdb.Refine.{cache_refines}
use nastd.Tests.Cache.{digest, env, later_env, key, vals}

-- an absence that is remembered, replaced, and read again before and after the file is newer
abbrev calls : List Request
calls =
    get env key
    ∷ add env key []
    ∷ get env key
    ∷ upd env key vals
    ∷ get env key
    ∷ get later_env key
    ∷ get later_env key
    ∷ upd env key []
    ∷ []

answers_lem :
    (answer_all calls (λ _. none)).0
    ≡ found false (some [])
      ∷ done true
      ∷ found true (some [])
      ∷ done true
      ∷ found true (some vals)
      ∷ found false (some [])
      ∷ found false (some [])
      ∷ done false
      ∷ []
unfolding answers answer_all same_bytes
answers_lem = refl

starts : memdb_new none [] ≡ returns (true, some (fresh_db rw_mutex_new), [])
unfolding memdb_new make_lock fresh_db rw_mutex_write_lock rw_mutex_unlock
starts = refl

cache_refines_example :
    (db' : Memdb) × (call_all digest calls (fresh_db rw_mutex_new)
      ≡ returns ((answer_all calls (λ _. none)).0, db'))
    × Holds digest db' (answer_all calls (λ _. none)).1
cache_refines_example = cache_refines digest none [] calls tt starts
