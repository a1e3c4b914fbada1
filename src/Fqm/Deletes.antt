-- ===== src/Fqm/Deletes.antt =====
-- server/fqm.c: how `fqm_delete` can come out.
use nastd.Prelude.{ℕ, ◌+◌, ◌≡◌, refl, ltb, ◌⊎◌, inl, inr, Bool-cases, List, [], ◌∷◌, some, length}
use nastd.Prelude.Outcome.{returns, blocked}
use nastd.Fqm.Pool.{Tids, fqm_thr_wait}
use nastd.Fqm.Delete.{Turn, take_turn, after_pass, verify_idle_threads, wait_all, fqm_delete}
use nastd.Fqm.Shutdown.{AllThere, busy_thread_there, take_turn-AllThere}

-- `fqm_delete` of threads that are all there touches only memory that it may.
-- It returns, or waits for ever.
verify_returns :
    (turns : List Turn) (tids : Tids)
    → AllThere tids
    → ((seen : Tids) × (later : List Turn) × (verify_idle_threads turns tids
          ≡ returns (seen, later)))
      ⊎ (verify_idle_threads turns tids ≡ blocked)
unfolding verify_idle_threads
verify_returns [] tids a = elim (busy_thread_there tids a) [
  | inl e ↦ inr (rw (e, after_pass) refl)
  | inr e ↦ inl (tids, [], rw (e, after_pass) refl)
]
verify_returns (turn ∷ turns) tids a = elim (busy_thread_there tids a) [
  | inl e ↦
      rw (e, after_pass)
        (verify_returns turns (take_turn turn tids) (take_turn-AllThere turn tids a))
  | inr e ↦ inl (tids, turn ∷ turns, rw (e, after_pass) refl)
]

wait_all_returns :
    (maxitems : ℕ) (turns : List Turn) (i : ℕ) (tids : Tids)
    → ((r : ℕ × Tids) × (wait_all maxitems turns i tids ≡ returns r))
      ⊎ (wait_all maxitems turns i tids ≡ blocked)
unfolding wait_all
wait_all_returns maxitems [] i tids = elim (Bool-cases (ltb i maxitems)) [
  | inl e ↦ elim (Bool-cases (ltb (i + (fqm_thr_wait tids).deadthreads) maxitems)) [
    | inl f ↦ inr (rw (e, wait_all) (rw (f, wait_all) refl))
    | inr f ↦ inl (
      (i + (fqm_thr_wait tids).deadthreads, (fqm_thr_wait tids).tids),
      rw (e, wait_all) (rw (f, wait_all) refl),
    )
  ]
  | inr e ↦ inl ((i, tids), rw (e, wait_all) refl)
]
wait_all_returns maxitems (turn ∷ turns) i tids = elim (Bool-cases (ltb i maxitems)) [
  | inl e ↦ elim (Bool-cases (ltb (i + (fqm_thr_wait tids).deadthreads) maxitems)) [
    | inl f ↦
        rw (e, wait_all)
          (rw (f, wait_all)
            (wait_all_returns maxitems turns (i + (fqm_thr_wait tids).deadthreads)
              (take_turn turn (fqm_thr_wait tids).tids)))
    | inr f ↦ inl (
      (i + (fqm_thr_wait tids).deadthreads, (fqm_thr_wait tids).tids),
      rw (e, wait_all) (rw (f, wait_all) refl),
    )
  ]
  | inr e ↦ inl ((i, tids), rw (e, wait_all) refl)
]

pub fqm_delete-cases :
    (turns : List Turn) (tids : Tids)
    → AllThere tids
    → ((r : ℕ × Tids) × (fqm_delete turns (some tids) ≡ returns r))
      ⊎ (fqm_delete turns (some tids) ≡ blocked)
unfolding fqm_delete
fqm_delete-cases turns tids a = elim (verify_returns turns tids a) [
  | inl (seen, later, e) ↦ rw (e, fqm_delete) (wait_all_returns (length seen) later 0 seen)
  | inr e ↦ inr (rw (e, fqm_delete) refl)
]
