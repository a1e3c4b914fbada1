-- ===== src/Server/Stats/Texts.antt =====
-- The texts of a report: `memdb_stats` of server/memdb.c, `cdb_stats` of server/cdb.c and
-- `mysqldb_stats` of server/mysqldb.c. The conversions of `snprintf` and `strftime` are parameters.
use nastd.Prelude.{ℕ, ◌≡◌, refl, ◌∙◌, sym, List, [], ◌∷◌, ◌++◌, take}
use nastd.Prelude.Bytes.{Bytes}
use nastd.Prelude.Alloc.{Heap, Alloc, ◌>>=◌, pure}
use nastd.Array.{Array, array_add, va_array_add}
use nastd.Array.Laws.{va_array_add-cons}
use nastd.Memdb.{Memdb}
use nastd.Cdb.{Cdb}
use nastd.Cdb.Load.{codes}
use nastd.Mysqldb.{Mysqldb}
use nastd.Rate.{Float, Rate, MemdbRates}
use nastd.Server.Stats.{Report}

-- `snprintf` into a buffer of 512 bytes
abbrev pub cut : Bytes → Bytes
cut text = take 511 text

-- `fixed` is the conversion `%.2f`, `decimal` is `%d`, `two_digits` is `%02d`, and `stamp` the text of `strftime` for a time.
module _ (float : Float) (fixed : float.F → Bytes) (decimal two_digits stamp : ℕ → Bytes) where
  unfoldable pub rate_text : Bytes → Rate float → Bytes
  rate_text label r = cut (
      label
      ++ (fixed r.onemin
          ++ (codes ", " ++ (fixed r.fivemin ++ (codes ", " ++ fixed r.fifteenmin)))))

  unfoldable pub memdb_stats : Memdb × MemdbRates float → Array → Alloc Array
  unfolding rate_text
  memdb_stats (db, r) statarr =
      array_add statarr (rate_text (codes "MEMDB get: ") r.queryrate) >>= λ a.
      array_add a (rate_text (codes "MEMDB add: ") r.addrate) >>= λ b.
      array_add b (rate_text (codes "MEMDB del: ") r.delrate) >>= λ c.
      array_add c (rate_text (codes "MEMDB upd: ") r.updrate) >>= λ d.
      array_add d (cut (codes "MEMDB total entries: " ++ decimal db.memdbsize))

  unfoldable pub cdb_stats : Cdb × Rate float → Array → Alloc Array
  unfolding rate_text
  cdb_stats (db, r) statarr = array_add statarr (rate_text (codes "CDB: ") r) >>= λ a.
      array_add a (cut (codes "CDB: last updated: " ++ stamp db.cdb_mtime))

  unfoldable pub mysqldb_stats : Mysqldb × Rate float → Array → Alloc Array
  unfolding rate_text
  mysqldb_stats (db, r) statarr = array_add statarr (rate_text (codes "MySQL: ") r)

  -- the report of these texts, the uptime's and the version's
  unfoldable pub report_of :
      Memdb × MemdbRates float → Cdb × Rate float → Mysqldb × Rate float → Bytes → Report
  unfolding rate_text
  report_of (memdb, m) (cdb, c) (mysqldb, q) version = record {
    mysqldb = rate_text (codes "MySQL: ") q;
    cdb =
        rate_text (codes "CDB: ") c ∷ cut (codes "CDB: last updated: " ++ stamp cdb.cdb_mtime) ∷ [];
    memdb =
        rate_text (codes "MEMDB get: ") m.queryrate
        ∷ rate_text (codes "MEMDB add: ") m.addrate
        ∷ rate_text (codes "MEMDB del: ") m.delrate
        ∷ rate_text (codes "MEMDB upd: ") m.updrate
        ∷ cut (codes "MEMDB total entries: " ++ decimal memdb.memdbsize)
        ∷ [];
    uptime = λ day hour min sec. cut (
        codes "Uptime: "
        ++ (decimal day
            ++ (codes " day(s), "
                ++ (two_digits hour
                    ++ (codes ":" ++ (two_digits min ++ (codes ":" ++ two_digits sec)))))));
    version = cut (codes "Version: " ++ version);
  }

-- an `array_add` for each line
add_each : List Bytes → Array → Alloc Array
add_each [] aa = pure aa
add_each (s ∷ []) aa = array_add aa s
add_each (s ∷ t ∷ lines) aa = array_add aa s >>= add_each (t ∷ lines)

add_each-eq :
    (lines : List Bytes) (aa : Array) (h : Heap) → add_each lines aa h ≡ va_array_add aa lines h
unfolding add_each array_add va_array_add
add_each-eq [] aa h = refl
add_each-eq (s ∷ []) aa h = refl
add_each-eq (s ∷ t ∷ lines) aa h =
    (λ i. (array_add aa s >>= λ a h'. add_each-eq (t ∷ lines) a h' i) h)
    ∙ sym (va_array_add-cons aa s (t ∷ lines) h)

module _ (float : Float) (fixed : float.F → Bytes) (decimal two_digits stamp : ℕ → Bytes)
    (memdb : Memdb × MemdbRates float) (cdb : Cdb × Rate float) (mysqldb : Mysqldb × Rate float)
    (version : Bytes) where
  abbrev report : Report
  report = report_of float fixed decimal two_digits stamp memdb cdb mysqldb version

  -- Each of the three functions adds the lines that `do_stats` takes for it, one by one, with the same
  -- outcome where memory runs out.
  pub stats_lines :
      (aa : Array) (h : Heap)
      → (memdb_stats float fixed decimal two_digits stamp memdb aa h
          ≡ va_array_add aa report.memdb h)
        × (cdb_stats float fixed decimal two_digits stamp cdb aa h ≡ va_array_add aa report.cdb h)
        × (mysqldb_stats float fixed decimal two_digits stamp mysqldb aa h
            ≡ va_array_add aa (report.mysqldb ∷ []) h)
  unfolding memdb_stats cdb_stats mysqldb_stats report_of add_each
  stats_lines aa h = (
    add_each-eq report.memdb aa h,
    add_each-eq report.cdb aa h,
    add_each-eq (report.mysqldb ∷ []) aa h,
  )
