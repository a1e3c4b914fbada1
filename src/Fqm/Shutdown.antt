-- ===== src/Fqm/Shutdown.antt =====
-- server/fqm.c: `fqm_delete` ends, and every thread is released once.
use nastd.Prelude.{
  ℕ, ◌≡◌, refl, sym, arith, true, false, List, [], ◌∷◌, ◌++◌, none, some, length, ◌∙◌, ◌⊎◌, inl,
  inr,
}
use nastd.Prelude.Outcome.{Outcome, returns}
use nastd.Fqm.System.{idle, busy, noalloc}
use nastd.Fqm.Pool.{Tids, busy_thread, threads}
use nastd.Fqm.Delete.{Turn, take_turn, after_pass, verify_idle_threads, fqm_delete}
use nastd.Fqm.Wait.{IsLast, AllDead, take_last, take_turn_kept, Ends, wait_dead, wait_all-Ends}

-- no thread is NULL
abbrev pub AllThere : Tids → Type 0
AllThere [] = Unit
AllThere (none ∷ tids) = ⊥
AllThere (some s ∷ tids) = AllThere tids

threads_there : (tids : Tids) → AllThere tids → threads tids ≡ length tids
threads_there [] a = refl
threads_there (none ∷ tids) a = absurd a
threads_there (some s ∷ tids) a = omega (arith, threads_there tids a)

pub take_turn-AllThere :
    (turn : Turn) (tids : Tids) → AllThere tids → AllThere (take_turn turn tids)
unfolding take_turn
take_turn-AllThere turn [] a = tt
take_turn-AllThere [] (t ∷ tids) a = a
take_turn-AllThere (s ∷ turn) (none ∷ tids) a = absurd a
take_turn-AllThere (s ∷ turn) (some noalloc ∷ tids) a = take_turn-AllThere turn tids a
take_turn-AllThere (s ∷ turn) (some idle ∷ tids) a = take_turn-AllThere turn tids a
take_turn-AllThere (s ∷ turn) (some busy ∷ tids) a = take_turn-AllThere turn tids a

pub busy_thread_there :
    (tids : Tids)
    → AllThere tids
    → (busy_thread tids ≡ returns true) ⊎ (busy_thread tids ≡ returns false)
unfolding busy_thread
busy_thread_there [] a = inr refl
busy_thread_there (none ∷ tids) a = absurd a
busy_thread_there (some idle ∷ tids) a = ground (arith, busy_thread_there tids a)
busy_thread_there (some busy ∷ tids) a = ground (arith, busy_thread_there tids a)
busy_thread_there (some noalloc ∷ tids) a = ground (arith, busy_thread_there tids a)

busy_thread_dead : (tids : Tids) → AllThere tids → AllDead tids → busy_thread tids ≡ returns false
unfolding busy_thread
busy_thread_dead [] a d = refl
busy_thread_dead (none ∷ tids) a d = absurd a
busy_thread_dead (some idle ∷ tids) a d = absurd d
busy_thread_dead (some busy ∷ tids) a d = absurd d
busy_thread_dead (some noalloc ∷ tids) a d = rw (busy_thread_dead tids a d) refl

module _ (last : Turn) (after : List Turn) where
  -- `verify_idle_threads` has returned: all threads are there, and they are dead, or the last turn is
  -- still to come.
  Quiet : ℕ → Outcome (Tids × List Turn) → Type 0
  Quiet n o =
      (seen : Tids) × (rest : List Turn) × (o ≡ returns (seen, rest))
      × AllThere seen
      × (length seen ≡ n)
      × (AllDead seen ⊎ ((before : List Turn) × (rest ≡ before ++ last ∷ after)))

  verify_dead :
      (turns : List Turn) (tids : Tids)
      → AllThere tids
      → AllDead tids
      → verify_idle_threads turns tids ≡ returns (tids, turns)
  unfolding verify_idle_threads
  verify_dead [] tids a d = rw (busy_thread_dead tids a d, after_pass) refl
  verify_dead (turn ∷ turns) tids a d = rw (busy_thread_dead tids a d, after_pass) refl

  verify_ends :
      (before : List Turn) (tids : Tids)
      → AllThere tids
      → IsLast (length tids) last
      → Quiet (length tids) (verify_idle_threads (before ++ last ∷ after) tids)
  unfolding verify_idle_threads Quiet
  verify_ends [] tids a dies = elim (busy_thread_there tids a) [
    | inl e ↦
        let (kept, long) = take_turn_kept last tids in
        let all = take_turn-AllThere last tids a in
        (
          take_turn last tids,
          after,
          rw (e, after_pass)
              (verify_dead after (take_turn last tids) all (take_last last tids dies)),
          all,
          long,
          inl (take_last last tids dies),
        )
    | inr e ↦ (tids, last ∷ after, rw (e, after_pass) refl, a, refl, inr ([], refl))
  ]
  verify_ends (turn ∷ before) tids a dies = elim (busy_thread_there tids a) [
    | inl e ↦
        let (kept, long) = take_turn_kept turn tids in
        let (seen, rest, f, b, n, next) =
          verify_ends before (take_turn turn tids) (take_turn-AllThere turn tids a)
            (rw long dies) in
        (seen, rest, rw (e, after_pass) f, b, n ∙ long, next)
    | inr e ↦ (
      tids,
      turn ∷ (before ++ last ∷ after),
      rw (e, after_pass) refl,
      a,
      refl,
      inr (turn ∷ before, refl),
    )
  ]

-- From threads that are all there, and where a later turn is the last of all of them:
-- `fqm_delete` returns, and has released each thread once: `i` is the number of threads, and none is
-- left.
pub fqm_delete-Ends :
    (before after : List Turn) (last : Turn) (tids : Tids)
    → AllThere tids
    → IsLast (length tids) last
    → Ends (length tids) (fqm_delete (before ++ last ∷ after) (some tids))
unfolding fqm_delete Quiet
fqm_delete-Ends before after last tids there dies =
    let (seen, rest, e, a, n, next) = verify_ends last after before tids there dies in
    rw (e, fqm_delete)
      (elim next [
        | inl dead ↦
            rw (sym n)
              (wait_dead (length seen) rest 0 seen (omega (arith, threads_there seen a)) dead)
        | inr (sooner, f) ↦ rw f (
            rw (sym n) (
              wait_all-Ends (length seen) sooner last after 0 seen
                (omega (arith, threads_there seen a)) (rw n dies)))
      ])
