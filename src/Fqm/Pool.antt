-- ===== src/Fqm/Pool.antt =====
-- server/fqm.c: the pool's threads at shutdown, `verify_idle_threads` and `fqm_thr_wait`.
use nastd.Prelude.{
  ℕ, ◌+◌, ◌≡◌, refl, arith, Bool, true, false, List, [], ◌∷◌, Option, none, some, length, ◌||◌,
}
use nastd.Prelude.Outcome.{Outcome, returns, blocked, fault}
use nastd.Fqm.System.{Status, idle, busy, noalloc}

-- `tids`: the status of each thread, or NULL where it has been released
abbrev pub Tids : Type 0
Tids = List (Option Status)

abbrev is_busy : Status → Bool
is_busy busy = true
is_busy _ = false

-- one pass of the loop of `verify_idle_threads`; a thread that is NULL is read as well
unfoldable pub busy_thread : Tids → Outcome Bool
busy_thread [] = returns false
busy_thread (none ∷ tids) = fault
busy_thread (some s ∷ tids) = elim (busy_thread tids) [
  | returns b ↦ returns (is_busy s || b)
  | blocked ↦ blocked
  | fault ↦ fault
]

pub record Reaped : Type 0 where
  pub deadthreads : ℕ
  pub tids : Tids

-- `fqm_thr_wait`: the threads that have died are released
unfoldable pub fqm_thr_wait : Tids → Reaped
fqm_thr_wait [] = record { deadthreads = 0; tids = [] }
fqm_thr_wait (some noalloc ∷ tids) =
    let rest = fqm_thr_wait tids in
    record { deadthreads = rest.deadthreads + 1; tids = none ∷ rest.tids }
fqm_thr_wait (t ∷ tids) =
    let rest = fqm_thr_wait tids in record { deadthreads = rest.deadthreads; tids = t ∷ rest.tids }

-- the threads that are still there
abbrev pub threads : Tids → ℕ
threads [] = 0
threads (none ∷ tids) = threads tids
threads (some s ∷ tids) = threads tids + 1

-- no thread that is still there has died
abbrev pub NoneDead : Tids → Type 0
NoneDead [] = Unit
NoneDead (none ∷ tids) = NoneDead tids
NoneDead (some noalloc ∷ tids) = ⊥
NoneDead (some _ ∷ tids) = NoneDead tids

-- Each thread that dies is counted once: what `fqm_thr_wait` returns and the threads left make up
-- the threads before, and none of those left has died; the table keeps its
-- length.
pub fqm_thr_wait_lem :
    (tids : Tids)
    → ((fqm_thr_wait tids).deadthreads + threads (fqm_thr_wait tids).tids ≡ threads tids)
      × NoneDead (fqm_thr_wait tids).tids
      × (length (fqm_thr_wait tids).tids ≡ length tids)
unfolding fqm_thr_wait
fqm_thr_wait_lem [] = (refl, tt, refl)
fqm_thr_wait_lem (none ∷ tids) = let (a, b, c) = fqm_thr_wait_lem tids in (a, b, omega arith)
fqm_thr_wait_lem (some idle ∷ tids) =
    let (a, b, c) = fqm_thr_wait_lem tids in (omega arith, b, omega arith)
fqm_thr_wait_lem (some busy ∷ tids) =
    let (a, b, c) = fqm_thr_wait_lem tids in (omega arith, b, omega arith)
fqm_thr_wait_lem (some noalloc ∷ tids) =
    let (a, b, c) = fqm_thr_wait_lem tids in (omega arith, b, omega arith)
