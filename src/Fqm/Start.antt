-- ===== src/Fqm/Start.antt =====
-- server/fqm.c: `fqm_thr_new` and `fqm_new`, which starts the threads of the pool, and `cond_new` and
-- `thread_new` of server/thread.c.
use nastd.Prelude.{
  ℕ, zero, suc, if◌then◌else◌, Bool, true, false, List, [], ◌∷◌, ◌++◌, Option, none, some,
}
use nastd.Prelude.Alloc.{Heap, malloc}
use nastd.Prelude.Outcome.{returns, blocked, fault}
use nastd.Prelude.Run.{Run, ◌>>=◌, pure}
use nastd.Fqm.System.{Status, idle}
use nastd.Fqm.Pool.{Tids}
use nastd.Fqm.Delete.{Turn, fqm_delete}

-- The allocator, whether the next `pthread_` calls that make something succeed (past the end they
-- do), and what the threads do while the caller sleeps.
pub record Boot : Type 0 where
  pub heap : Heap
  pub makes : List Bool
  pub turns : List Turn

abbrev pub Start {ℓ} : Type ℓ → Type ℓ
Start = Run Boot

abbrev pub block : Start Bool
block s =
    let (o, h) = malloc s.heap in
    returns ((elim o [ none ↦ false | some _ ↦ true ]), record s { heap = h })

abbrev pub make : Start Bool
make s = elim s.makes [
  | [] ↦ returns (true, s)
  | m ∷ makes ↦ returns (m, record s { makes = makes })
]

-- the condition and its lock
unfoldable pub cond_new : Start Bool
cond_new = make >>= λ rc. if rc then make else pure false

unfoldable pub thread_new : Start Bool
thread_new = make

-- a thread that is started, with the status that it has then
unfoldable pub fqm_thr_new : Start (Option Status)
fqm_thr_new = block >>= λ tmp.
    if tmp
    then (block >>= λ tid.
        if tid
        then (thread_new >>= λ started. if started then pure (some idle) else pure none)
        else pure none)
    else pure none

-- `fqm_delete` on what there is so far, and the NULL that `fqm_new` returns
unfoldable pub give_up : Option Tids → Start (Option Tids)
give_up tids s = elim (fqm_delete s.turns tids) [
  | returns _ ↦ returns (none, record s { turns = [] })
  | blocked ↦ blocked
  | fault ↦ fault
]

-- the loop that starts the threads; `tids` has those that are there, whose number is `maxitems`
unfoldable pub start_threads : ℕ → Tids → Start (Option Tids)
start_threads zero tids = pure (some tids)
start_threads (suc n) tids = fqm_thr_new >>= λ thread. elim thread [
  | none ↦ give_up (some tids)
  | some s ↦ start_threads n (tids ++ some s ∷ [])
]

-- a condition in a block of its own
unfoldable pub new_cond : Start (Option Tids) → Start (Option Tids)
new_cond next = block >>= λ cond.
    if cond then (cond_new >>= λ made. if made then next else give_up none) else give_up none

-- The pool of `maxitems` threads, or NULL.
unfoldable pub fqm_new : ℕ → Start (Option Tids)
fqm_new maxitems = block >>= λ tmp.
    if tmp
    then new_cond
        (new_cond (block >>= λ tids. if tids then start_threads maxitems [] else give_up none))
    else pure none
