-- ===== src/Tests/Timer.antt =====
-- The timer of server/periodic.c, with numbers for floats.
use nastd.Prelude.{ℕ, ◌+◌, ◌*◌, ◌/◌, ◌≡◌, refl, List, [], ◌∷◌, ◌++◌, true, false}
use nastd.Prelude.Outcome.{returns}
use nastd.Cdb.Load.{unreadable}
use nastd.Cdb.Query.{unknown, stat}
use nastd.Rate.{Float, Rate, collate}
use nastd.Fqm.Start.{cond_new, thread_new}
use nastd.Periodic.{Look, Clock, periodic_looper, periodic_new}
use nastd.Periodic.Looks.{ticked, thirtieth, periodic_looper_looks}
use nastd.Tests.Cache.{empty, server}

abbrev float : Float
float = record { F = ℕ; times = ◌*◌; plus = ◌+◌; over = ◌/◌ }

abbrev idle_rate : Rate float
idle_rate = record { onemin = 0; fivemin = 0; fifteenmin = 0 }

busy_minute : collate float idle_rate 600 ≡ record { onemin = 10; fivemin = 2; fifteenmin = 0 }
unfolding collate
busy_minute = refl

abbrev clock : Clock float [] []
clock = record {
  count = 0;
  memdb = (
    empty,
    record { queryrate = idle_rate; addrate = idle_rate; delrate = idle_rate; updrate = idle_rate },
  );
  cdb = (server.cdb, idle_rate);
  mysqldb = (record { cols = []; sec_c = 7 }, idle_rate);
  heap = [];
}

abbrev nothing : Look
nothing = (unknown, unreadable)

abbrev seven : List Look
seven = nothing ∷ nothing ∷ nothing ∷ nothing ∷ nothing ∷ nothing ∷ nothing ∷ []

abbrev early : List Look
early = seven ++ seven ++ seven ++ seven

periodic_looper_looks_example :
    (periodic_looper float [] [] (nothing ∷ early ++ (stat 5 90, unreadable) ∷ []) clock
      ≡ thirtieth float [] [] (stat 5 90, unreadable) (ticked float [] [] 29 clock))
    × ((ticked float [] [] 29 clock).cdb.0 ≡ record (server.cdb) { sec_c = 0 })
    × ((ticked float [] [] 29 clock).heap ≡ [])
periodic_looper_looks_example =
    periodic_looper_looks float [] [] nothing early (stat 5 90, unreadable) clock refl refl

starts :
    periodic_new (record { heap = []; makes = []; turns = [] })
    ≡ returns (true, record { heap = []; makes = []; turns = [] })
unfolding periodic_new cond_new thread_new
starts = refl

no_thread :
    periodic_new (record { heap = []; makes = true ∷ true ∷ false ∷ []; turns = [] })
    ≡ returns (false, record { heap = []; makes = []; turns = [] })
unfolding periodic_new cond_new thread_new
no_thread = refl
