-- ===== src/Periodic.antt =====
-- server/periodic.c: the thread that looks at the database file every 30 seconds, and collates the
-- rates every second.
pub mod Looks
use nastd.Prelude.{ℕ, ◌+◌, ◌==◌, if◌then◌else◌, Bool, true, false, List, [], ◌∷◌}
use nastd.Prelude.Bytes.{Bytes}
use nastd.Prelude.Alloc.{Heap}
use nastd.Prelude.Outcome.{Outcome, returns, blocked, fault}
use nastd.Prelude.Run.{◌>>=◌, pure}
use nastd.Memdb.{Memdb}
use nastd.Cdb.{Cdb}
use nastd.Cdb.Load.{File}
use nastd.Cdb.Query.{Stat, cdb_periodic}
use nastd.Mysqldb.{Mysqldb}
use nastd.Rate.{Float, Rate, MemdbRates, memdb_collate, cdb_collate, mysqldb_collate}
use nastd.Fqm.Start.{Start, block, cond_new, thread_new}

-- `PERIODICITY`
abbrev pub periodicity : ℕ
periodicity = 30

-- what a look at the database file finds
abbrev pub Look : Type 0
Look = Stat × File

module _ (float : Float) (dbname dbtbl : Bytes) where
  -- what the thread reads and changes, with its `count`
  pub record Clock : Type 0 where
    pub count : ℕ
    pub memdb : Memdb × MemdbRates float
    pub cdb : Cdb × Rate float
    pub mysqldb : Mysqldb × Rate float
    pub heap : Heap

  unfoldable pub collate_all : Clock → Clock
  collate_all c = record c {
    memdb = memdb_collate float c.memdb;
    cdb = cdb_collate float c.cdb;
    mysqldb = mysqldb_collate float c.mysqldb;
  }

  -- the call of `cdb_periodic`, its result unread
  unfoldable pub look_at : Look → Clock → Outcome Clock
  look_at look c = elim (cdb_periodic dbname dbtbl look.0 look.1 c.cdb.0 c.heap) [
    | returns (done, db, h) ↦ returns (record c { count = 0; cdb = (db, c.cdb.1); heap = h })
    | blocked ↦ blocked
    | fault ↦ fault
  ]

  -- One round of the loop, behind the wait for a second.
  unfoldable pub round : Look → Clock → Outcome Clock
  round look c =
      if c.count + 1 == periodicity
      then (elim (look_at look (record c { count = c.count + 1 })) [
        | returns d ↦ returns (collate_all d)
        | blocked ↦ blocked
        | fault ↦ fault
      ])
      else returns (collate_all (record c { count = c.count + 1 }))

  -- The rounds of the loop; `looks` has what a look in each second would find.
  unfoldable pub periodic_looper : List Look → Clock → Outcome Clock
  periodic_looper [] c = returns c
  periodic_looper (look ∷ looks) c = elim (round look c) [
    | returns d ↦ periodic_looper looks d
    | blocked ↦ blocked
    | fault ↦ fault
  ]

-- `periodic_new` and, where a step fails, `periodic_delete`, which only releases memory
unfoldable pub periodic_new : Start Bool
periodic_new = block >>= λ per_thread.
    if per_thread
    then (block >>= λ cond.
        if cond
        then (cond_new >>= λ made.
            if made then (block >>= λ tid. if tid then thread_new else pure false) else pure false)
        else pure false)
    else pure false
