-- ===== src/Fqm/Wait.antt =====
-- server/fqm.c: the loop of `fqm_delete` that waits for the threads to die.
use nastd.Prelude.{
  ℕ, zero, suc, ◌+◌, ◌≤◌, ◌≡◌, refl, arith, ltb, if◌then◌else◌, List, [], ◌∷◌, ◌++◌, none, some,
  length, ◌<◌, ap, ◌∙◌, Bool-cases, inl, inr,
}
use nastd.Prelude.Outcome.{Outcome, returns, blocked}
use nastd.Fqm.System.{idle, busy, noalloc}
use nastd.Fqm.Pool.{Tids, fqm_thr_wait, fqm_thr_wait_lem, threads}
use nastd.Fqm.Delete.{Turn, take_turn, wait_all}

-- the first `n` threads die in this turn, if they have not before
abbrev pub IsLast : ℕ → Turn → Type 0
IsLast zero turn = Unit
IsLast (suc n) [] = ⊥
IsLast (suc n) (noalloc ∷ turn) = IsLast n turn
IsLast (suc n) (_ ∷ turn) = ⊥

abbrev pub AllDead : Tids → Type 0
AllDead [] = Unit
AllDead (none ∷ tids) = AllDead tids
AllDead (some noalloc ∷ tids) = AllDead tids
AllDead (some _ ∷ tids) = ⊥

pub take_last :
    (turn : Turn) (tids : Tids) → IsLast (length tids) turn → AllDead (take_turn turn tids)
unfolding take_turn
take_last turn [] l = tt
take_last [] (t ∷ tids) l = absurd l
take_last (noalloc ∷ turn) (none ∷ tids) l = take_last turn tids l
take_last (noalloc ∷ turn) (some noalloc ∷ tids) l = take_last turn tids l
take_last (noalloc ∷ turn) (some idle ∷ tids) l = take_last turn tids l
take_last (noalloc ∷ turn) (some busy ∷ tids) l = take_last turn tids l
take_last (idle ∷ turn) (t ∷ tids) l = absurd l
take_last (busy ∷ turn) (t ∷ tids) l = absurd l

-- A turn keeps the threads that are there.
pub take_turn_kept :
    (turn : Turn) (tids : Tids)
    → (threads (take_turn turn tids) ≡ threads tids) × (length (take_turn turn tids) ≡ length tids)
unfolding take_turn
take_turn_kept turn [] = (refl, refl)
take_turn_kept [] (t ∷ tids) = (refl, refl)
take_turn_kept (s ∷ turn) (none ∷ tids) = let (a, b) = take_turn_kept turn tids in (a, omega arith)
take_turn_kept (s ∷ turn) (some noalloc ∷ tids) =
    let (a, b) = take_turn_kept turn tids in (omega arith, omega arith)
take_turn_kept (s ∷ turn) (some idle ∷ tids) =
    let (a, b) = take_turn_kept turn tids in (ground arith, omega arith)
take_turn_kept (s ∷ turn) (some busy ∷ tids) =
    let (a, b) = take_turn_kept turn tids in (ground arith, omega arith)

reap_all : (tids : Tids) → AllDead tids → (fqm_thr_wait tids).deadthreads ≡ threads tids
unfolding fqm_thr_wait
reap_all [] a = refl
reap_all (none ∷ tids) a = reap_all tids a
reap_all (some noalloc ∷ tids) a = omega (arith, reap_all tids a)
reap_all (some idle ∷ tids) a = absurd a
reap_all (some busy ∷ tids) a = absurd a

module _ (maxitems : ℕ) where
  -- the loop has ended, and every thread has been released
  abbrev pub Ends : Outcome (ℕ × Tids) → Type 0
  Ends o = (t : Tids) × (o ≡ returns (maxitems, t)) × (threads t ≡ 0)

  -- one round of the loop, before what comes `later`
  round-Ends :
      (i : ℕ) (tids : Tids) (later : Outcome (ℕ × Tids))
      → i + threads tids ≡ maxitems
      → (i + (fqm_thr_wait tids).deadthreads < maxitems → Ends later)
      → Ends (
          if ltb i maxitems
          then (if ltb (i + (fqm_thr_wait tids).deadthreads) maxitems
              then later
              else returns (i + (fqm_thr_wait tids).deadthreads, (fqm_thr_wait tids).tids))
          else returns (i, tids))
  round-Ends i tids later sum ends =
      let d = (fqm_thr_wait tids).deadthreads in
      let counted = (fqm_thr_wait_lem tids).0 in
      elim (Bool-cases (ltb i maxitems)) [
        | inr e ↦
            let last : i ≡ maxitems = ground arith in
            rw e (tids, ap (λ n. returns (n, tids)) last, omega arith)
        | inl e ↦ elim (Bool-cases (ltb (i + d) maxitems)) [
          | inl f ↦ rw (e, f) (ends (ground arith))
          | inr f ↦
              let enough : maxitems ≤ i + d = ground arith in
              rw (e, f)
                (
                  (fqm_thr_wait tids).tids,
                  ap (λ n. returns (n, (fqm_thr_wait tids).tids)) (omega (arith, counted, enough)),
                  omega (arith, counted, enough),
                )
        ]
      ]

  -- With every thread dead one round is enough.
  pub wait_dead :
      (turns : List Turn) (i : ℕ) (tids : Tids)
      → i + threads tids ≡ maxitems
      → AllDead tids
      → Ends (wait_all maxitems turns i tids)
  unfolding wait_all
  wait_dead [] i tids sum dead =
      round-Ends i tids blocked sum (λ more. absurd (omega (arith, more, reap_all tids dead)))
  wait_dead (turn ∷ turns) i tids sum dead =
      round-Ends i tids _ sum (λ more. absurd (omega (arith, more, reap_all tids dead)))

  pub wait_all-Ends :
      (before : List Turn) (last : Turn) (after : List Turn) (i : ℕ) (tids : Tids)
      → i + threads tids ≡ maxitems
      → IsLast (length tids) last
      → Ends (wait_all maxitems (before ++ last ∷ after) i tids)
  unfolding wait_all
  wait_all-Ends [] last after i tids sum dies =
      let r = fqm_thr_wait tids in
      let (counted, none_dead, same) = fqm_thr_wait_lem tids in
      let (kept, long) = take_turn_kept last r.tids in
      round-Ends i tids (wait_all maxitems after (i + r.deadthreads) (take_turn last r.tids)) sum
        (λ more.
          wait_dead after (i + r.deadthreads) (take_turn last r.tids)
            (omega (arith, sum, counted, kept)) (take_last last r.tids (rw same dies)))
  wait_all-Ends (turn ∷ before) last after i tids sum dies =
      let r = fqm_thr_wait tids in
      let (counted, none_dead, same) = fqm_thr_wait_lem tids in
      let (kept, long) = take_turn_kept turn r.tids in
      round-Ends i tids
        (wait_all maxitems (before ++ last ∷ after) (i + r.deadthreads) (take_turn turn r.tids)) sum
        (λ more.
          wait_all-Ends before last after (i + r.deadthreads) (take_turn turn r.tids)
            (omega (arith, sum, counted, kept)) (rw (long ∙ same) dies))
