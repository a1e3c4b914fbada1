-- ===== src/Tests/Pool.antt =====
-- The pool of server/fqm.c as it is made and deleted.
use nastd.Prelude.{◌≡◌, refl, List, ◌++◌, [], ◌∷◌, none, some, true, false}
use nastd.Prelude.Outcome.{returns, blocked}
use nastd.Fqm.System.{idle, busy, noalloc}
use nastd.Fqm.Pool.{Tids, busy_thread, fqm_thr_wait}
use nastd.Fqm.Delete.{Turn, take_turn, verify_idle_threads, wait_all, fqm_delete}
use nastd.Fqm.Wait.{Ends}
use nastd.Fqm.Shutdown.{fqm_delete-Ends}
use nastd.Fqm.Start.{
  Boot, cond_new, thread_new, fqm_thr_new, give_up, start_threads, new_cond, fqm_new,
}
use nastd.Fqm.Started.{Settles, fqm_new-Settles}

-- one thread serves a request while the pool is deleted, and one dies before the other
abbrev tids : Tids
tids = some idle ∷ some busy ∷ []

abbrev first : List Turn
first = (idle ∷ busy ∷ []) ∷ (noalloc ∷ idle ∷ []) ∷ []

abbrev last : Turn
last = noalloc ∷ noalloc ∷ []

deleted : fqm_delete (first ++ last ∷ []) (some tids) ≡ returns (2, none ∷ none ∷ [])
unfolding fqm_delete verify_idle_threads wait_all take_turn busy_thread fqm_thr_wait
deleted = refl

fqm_delete-Ends_example : Ends 2 (fqm_delete (first ++ last ∷ []) (some tids))
fqm_delete-Ends_example = fqm_delete-Ends first [] last tids tt tt

-- The second thread cannot be started: four calls make the conditions, and the fifth a thread.
abbrev boot : Boot
boot = record {
  heap = [];
  makes = true ∷ true ∷ true ∷ true ∷ true ∷ false ∷ [];
  turns = first ++ last ∷ [];
}

not_made : fqm_new 2 boot ≡ returns (none, record boot { makes = []; turns = [] })
unfolding fqm_new new_cond cond_new start_threads fqm_thr_new thread_new give_up fqm_delete
    verify_idle_threads wait_all take_turn busy_thread fqm_thr_wait
not_made = refl

made :
    fqm_new 2 (record boot { makes = [] })
    ≡ returns (some (some idle ∷ some idle ∷ []), record boot { makes = [] })
unfolding fqm_new new_cond cond_new start_threads fqm_thr_new thread_new
made = refl

-- the same, where the first thread never dies
abbrev stuck : Boot
stuck = record boot { turns = [] }

hangs : fqm_new 2 stuck ≡ blocked
unfolding fqm_new new_cond cond_new start_threads fqm_thr_new thread_new give_up fqm_delete
    verify_idle_threads wait_all take_turn busy_thread fqm_thr_wait
hangs = refl

fqm_new-Settles_example : Settles [] 2 (fqm_new 2 stuck)
fqm_new-Settles_example = fqm_new-Settles 2 stuck
