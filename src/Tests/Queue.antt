-- ===== src/Tests/Queue.antt =====
-- Requests through the queue of server/fqm.c.
use nastd.Prelude.{◌<◌, ◌≤◌, ◌≡◌, refl, arith, [], ◌∷◌, none, some, false, if◌then◌else◌}
use nastd.Prelude.Total.{update}
use nastd.Fqm.{Request, Fqm, fqm_push, is_full, enqueue}
use nastd.Fqm.System.{
  System, test, push, init, Reach, start, later, away, passed, idle, busy, noalloc,
}
use nastd.Fqm.Order.{IsOrdered, Reach-IsOrdered, fqm_push_bounded, push_race, Steps}
use nastd.Fqm.Pool.{Tids}

abbrev first : Request
first = record { req = 107 ∷ []; sock = 5; reqid = 1 }

abbrev second : Request
second = record { req = 108 ∷ []; sock = 6; reqid = 2 }

abbrev one_waits : Fqm
one_waits = record { queue = first ∷ []; maxitems = 1; nitems = 1 }

abbrev pushed_once : System
pushed_once = record {
  fqm = one_waits;
  worker = (init 1).worker;
  pusher = update (update (init 1).pusher 0 (passed first)) 0 away;
  dieflag = (init 1).dieflag;
  pushed = first ∷ [];
  popped = [];
}

pushed_once-Reach : Reach 1 pushed_once
unfolding is_full enqueue
pushed_once-Reach = later (later start (test 0 first refl refl)) (push 0 first refl)

Reach-IsOrdered_example : IsOrdered 1 pushed_once
Reach-IsOrdered_example = Reach-IsOrdered pushed_once-Reach

fqm_push_bounded_example :
    ((fqm_push second one_waits).1.nitems ≤ 1)
    × ((fqm_push second one_waits).1.queue
        ≡ (if (fqm_push second one_waits).0 then first ∷ second ∷ [] else first ∷ []))
    × (((fqm_push second one_waits).0 ≡ false) → one_waits.nitems ≡ one_waits.maxitems)
fqm_push_bounded_example = fqm_push_bounded second one_waits (omega arith)

push_race_example : (t : System) × Steps (init 1) t × (t.fqm.maxitems < t.fqm.nitems)
push_race_example = push_race 0 1 first second start (omega arith) refl refl refl

abbrev pool : Tids
pool = some idle ∷ some noalloc ∷ none ∷ some busy ∷ []
