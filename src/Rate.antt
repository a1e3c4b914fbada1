-- ===== src/Rate.antt =====
-- The running averages of server/memdb.c, server/cdb.c and server/mysqldb.c: the `_collate`
-- functions. The arithmetic of `float` is a parameter.
use nastd.Prelude.{ℕ}
use nastd.Memdb.{Memdb}
use nastd.Cdb.{Cdb}
use nastd.Mysqldb.{Mysqldb}

-- a `float` with an `int` on its right
pub record Float : Type 1 where
  pub F : Type 0
  pub times : F → ℕ → F
  pub plus : F → ℕ → F
  pub over : F → ℕ → F

module _ (float : Float) where
  pub record Rate : Type 0 where
    pub onemin : float.F
    pub fivemin : float.F
    pub fifteenmin : float.F

  abbrev step : float.F → ℕ → ℕ → ℕ → float.F
  step avg keep sec of = float.over (float.plus (float.times avg keep) sec) of

  -- what each of the functions does to one rate
  unfoldable pub collate : Rate → ℕ → Rate
  collate r sec = record {
    onemin = step r.onemin 59 sec 60;
    fivemin = step r.fivemin 299 sec 300;
    fifteenmin = step r.fifteenmin 899 sec 900;
  }

  -- the rates of server/memdb.c
  pub record MemdbRates : Type 0 where
    pub queryrate : Rate
    pub addrate : Rate
    pub delrate : Rate
    pub updrate : Rate

  unfoldable pub memdb_collate : Memdb × MemdbRates → Memdb × MemdbRates
  memdb_collate (db, r) = (
    record db { query_sec = 0; add_sec = 0; del_sec = 0; upd_sec = 0 },
    record {
      queryrate = collate r.queryrate db.query_sec;
      addrate = collate r.addrate db.add_sec;
      delrate = collate r.delrate db.del_sec;
      updrate = collate r.updrate db.upd_sec;
    },
  )

  unfoldable pub cdb_collate : Cdb × Rate → Cdb × Rate
  cdb_collate (db, r) = (record db { sec_c = 0 }, collate r db.sec_c)

  unfoldable pub mysqldb_collate : Mysqldb × Rate → Mysqldb × Rate
  mysqldb_collate (db, r) = (record db { sec_c = 0 }, collate r db.sec_c)
