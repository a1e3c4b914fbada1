-- ===== src/Fqm/System.antt =====
-- Client threads that push requests and workers that pop them, interleaved in any order. What runs
-- under the queue's mutex is one step; a worker that sleeps on the condition may wake at any time.
use nastd.Prelude.{ℕ, ◌≡◌, Bool, true, false, if◌then◌else◌, List, [], ◌∷◌, ◌++◌, none, some}
use nastd.Prelude.Total.{update}
use nastd.Fqm.{Request, Fqm, is_full, enqueue, dequeue}

-- `status`: IDLE from `fqm_pop` on, BUSY once a request has been taken
pub data Status : Type 0 where
  idle : Status
  busy : Status
  noalloc : Status

-- Where a worker stands in `fqm_popper` and `fqm_pop`. One that is told to die keeps the status that
-- `fqm_pop` has left.
pub data Worker : Type 0 where
  ready : Worker
  asleep : Worker
  serving : Request → Worker
  dying : Status → Worker
  dead : Worker

abbrev pub status_of : Worker → Status
status_of ready = idle
status_of asleep = idle
status_of (serving r) = busy
status_of (dying s) = s
status_of dead = noalloc

-- A client in `fqm_push`, behind the test.
pub data Pusher : Type 0 where
  away : Pusher
  passed : Request → Pusher

-- `pushed` and `popped` are the requests that have gone in and out so far, oldest first.
pub record System : Type 0 where
  pub fqm : Fqm
  pub worker : ℕ → Worker
  pub pusher : ℕ → Pusher
  pub dieflag : ℕ → Bool
  pub pushed : List Request
  pub popped : List Request

-- after `fqm_pop` has returned a request, or NULL
abbrev pub took : Bool → Request → Worker
took die r = if die then dying busy else serving r

abbrev pub took_none : Bool → Worker
took_none die = if die then dying idle else ready

pub data Step (s : System) : System → Type 0 where
  test :
      (j : ℕ) (r : Request)
      → s.pusher j ≡ away
      → is_full s.fqm ≡ false
      → Step s (record s { pusher = update s.pusher j (passed r) })
  refuse : (j : ℕ) → s.pusher j ≡ away → is_full s.fqm ≡ true → Step s s
  push :
      (j : ℕ) (r : Request)
      → s.pusher j ≡ passed r
      → Step s (record s {
        fqm = enqueue r s.fqm;
        pusher = update s.pusher j away;
        pushed = s.pushed ++ r ∷ [];
      })
  pop :
      (i : ℕ) (r : Request) (q : Fqm)
      → s.worker i ≡ ready
      → dequeue s.fqm ≡ some (r, q)
      → Step s (record s {
        fqm = q;
        worker = update s.worker i (took (s.dieflag i) r);
        popped = s.popped ++ r ∷ [];
      })
  wait :
      (i : ℕ)
      → s.worker i ≡ ready
      → dequeue s.fqm ≡ none
      → Step s (record s { worker = update s.worker i asleep })
  wake :
      (i : ℕ) (r : Request) (q : Fqm)
      → s.worker i ≡ asleep
      → dequeue s.fqm ≡ some (r, q)
      → Step s (record s {
        fqm = q;
        worker = update s.worker i (took (s.dieflag i) r);
        popped = s.popped ++ r ∷ [];
      })
  wake_none :
      (i : ℕ)
      → s.worker i ≡ asleep
      → dequeue s.fqm ≡ none
      → Step s (record s { worker = update s.worker i (took_none (s.dieflag i)) })
  served :
      (i : ℕ) (r : Request)
      → s.worker i ≡ serving r
      → Step s (record s { worker = update s.worker i ready })
  die :
      (i : ℕ) (st : Status)
      → s.worker i ≡ dying st
      → Step s (record s { worker = update s.worker i dead })
  kill : (i : ℕ) → Step s (record s { dieflag = update s.dieflag i true })

abbrev pub init : ℕ → System
init maxitems = record {
  fqm = record { queue = []; maxitems = maxitems; nitems = 0 };
  worker = λ _. ready;
  pusher = λ _. away;
  dieflag = λ _. false;
  pushed = [];
  popped = [];
}

pub data Reach (maxitems : ℕ) : System → Type 0 where
  start : Reach maxitems (init maxitems)
  later : {s t : System} → Reach maxitems s → Step s t → Reach maxitems t
