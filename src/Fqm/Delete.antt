-- ===== src/Fqm/Delete.antt =====
-- server/fqm.c: `verify_idle_threads` and `fqm_delete`, with what the threads of the pool do
-- meanwhile.
use nastd.Prelude.{
  ℕ, ◌+◌, ltb, if◌then◌else◌, Bool, true, false, List, [], ◌∷◌, Option, none, some, length,
}
use nastd.Prelude.Outcome.{Outcome, returns, blocked, fault}
use nastd.Fqm.System.{Status, noalloc}
use nastd.Fqm.Pool.{Tids, busy_thread, fqm_thr_wait}

-- What the threads do while the caller sleeps: the status that each comes to. A thread that has died
-- or has been released stays so.
abbrev pub Turn : Type 0
Turn = List Status

unfoldable pub take_turn : Turn → Tids → Tids
take_turn turn [] = []
take_turn [] (t ∷ tids) = t ∷ tids
take_turn (s ∷ turn) (none ∷ tids) = none ∷ take_turn turn tids
take_turn (s ∷ turn) (some noalloc ∷ tids) = some noalloc ∷ take_turn turn tids
take_turn (s ∷ turn) (some _ ∷ tids) = some s ∷ take_turn turn tids

-- how a loop goes on after a pass that found a busy thread, or none
abbrev pub after_pass {ℓ} : {A : Type ℓ} → Outcome Bool → Outcome A → Outcome A → Outcome A
after_pass (returns true) idle_now later = later
after_pass (returns false) idle_now later = idle_now
after_pass blocked idle_now later = blocked
after_pass fault idle_now later = fault

-- The turns are those of the next calls of `sleep` and `cond_wait`; past their end the threads do
-- nothing, and a caller that waits for them is `blocked`.
unfoldable pub verify_idle_threads : List Turn → Tids → Outcome (Tids × List Turn)
verify_idle_threads [] tids = after_pass (busy_thread tids) (returns (tids, [])) blocked
verify_idle_threads (turn ∷ turns) tids =
    let later = verify_idle_threads turns (take_turn turn tids) in
    after_pass (busy_thread tids) (returns (tids, turn ∷ turns)) later

-- The loop that waits for the threads to die, from `i` on: the last `i`, and the threads.
unfoldable pub wait_all : ℕ → List Turn → ℕ → Tids → Outcome (ℕ × Tids)
wait_all maxitems [] i tids =
    let r = fqm_thr_wait tids in
    if ltb i maxitems
    then (if ltb (i + r.deadthreads) maxitems then blocked else returns (i + r.deadthreads, r.tids))
    else returns (i, tids)
wait_all maxitems (turn ∷ turns) i tids =
    let r = fqm_thr_wait tids in
    let later = wait_all maxitems turns (i + r.deadthreads) (take_turn turn r.tids) in
    if ltb i maxitems
    then (if ltb (i + r.deadthreads) maxitems then later else returns (i + r.deadthreads, r.tids))
    else returns (i, tids)

-- `tids` of `struct _fqm_t` up to `maxitems`, or NULL. The threads are told to quit by their
-- `dieflag`, and what they make of it is the turns. The result is `i` and the threads at the end.
unfoldable pub fqm_delete : List Turn → Option Tids → Outcome (ℕ × Tids)
fqm_delete turns none = returns (0, [])
fqm_delete turns (some tids) = elim (verify_idle_threads turns tids) [
  | returns (seen, later) ↦ wait_all (length seen) later 0 seen
  | blocked ↦ blocked
  | fault ↦ fault
]
