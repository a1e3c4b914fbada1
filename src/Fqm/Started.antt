-- ===== src/Fqm/Started.antt =====
-- server/fqm.c: what `fqm_new` comes to, whatever fails.
use nastd.Prelude.{
  ℕ, zero, suc, ◌+◌, ◌<◌, ◌≡◌, refl, arith, ◌⊎◌, inl, inr, length-append, if◌then◌else◌, Bool, true,
  false, List, [], ◌∷◌, ◌++◌, Option, none, some, length,
}
use nastd.Prelude.Outcome.{Outcome, returns, blocked, fault}
use nastd.Prelude.Run.{◌>>=◌, pure, Yields, >>=-Yields}
use nastd.Fqm.System.{Status, idle, busy, noalloc}
use nastd.Fqm.Pool.{Tids, busy_thread}
use nastd.Fqm.Delete.{Turn, verify_idle_threads, wait_all, fqm_delete}
use nastd.Fqm.Deletes.{fqm_delete-cases}
use nastd.Fqm.Shutdown.{AllThere}
use nastd.Fqm.Start.{
  Boot, Start, block, make, cond_new, thread_new, fqm_thr_new, give_up, start_threads, new_cond,
  fqm_new,
}

-- every thread is there and idle
abbrev pub AllIdle : Tids → Type 0
AllIdle [] = Unit
AllIdle (some idle ∷ tids) = AllIdle tids
AllIdle (_ ∷ tids) = ⊥

pub AllIdle-AllThere : (tids : Tids) → AllIdle tids → AllThere tids
AllIdle-AllThere [] a = tt
AllIdle-AllThere (some idle ∷ tids) a = AllIdle-AllThere tids a
AllIdle-AllThere (some busy ∷ tids) a = absurd a
AllIdle-AllThere (some noalloc ∷ tids) a = absurd a
AllIdle-AllThere (none ∷ tids) a = absurd a

append-AllIdle : (tids : Tids) → AllIdle tids → AllIdle (tids ++ some idle ∷ [])
append-AllIdle [] a = tt
append-AllIdle (some idle ∷ tids) a = append-AllIdle tids a
append-AllIdle (some busy ∷ tids) a = absurd a
append-AllIdle (some noalloc ∷ tids) a = absurd a
append-AllIdle (none ∷ tids) a = absurd a

-- NULL, or a pool of so many threads, all idle
abbrev pub IsPool : ℕ → Option Tids → Type 0
IsPool maxitems none = Unit
IsPool maxitems (some tids) = AllIdle tids × (length tids ≡ maxitems)

-- It returns NULL or a whole pool. Otherwise it has started some of the threads, one at least and not
-- all, and waits for ever in `fqm_delete` for these to die. It touches only memory that it may.
abbrev pub Settles : List Turn → ℕ → Outcome (Option Tids × Boot) → Type 0
Settles turns maxitems (returns (tids, t)) = IsPool maxitems tids
Settles turns maxitems blocked =
    (tids : Tids) × AllIdle tids
    × (0 < length tids)
    × (length tids < maxitems)
    × (fqm_delete turns (some tids) ≡ blocked)
Settles turns maxitems fault = ⊥

fqm_delete-nil : (turns : List Turn) → fqm_delete turns (some []) ≡ returns (0, [])
unfolding fqm_delete verify_idle_threads wait_all busy_thread
fqm_delete-nil [] = refl
fqm_delete-nil (turn ∷ turns) = refl

module _ (maxitems : ℕ) (turns : List Turn) where
  abbrev Settled : Outcome (Option Tids × Boot) → Type 0
  Settled = Settles turns maxitems

  -- the state of a caller that has not slept
  abbrev IsAwake : Boot → Type 0
  IsAwake s = s.turns ≡ turns

  -- what follows a call that returns
  then_Settles :
      {A : Type 0} (P : A → Boot → Type 0) (m : Start A) (f : A → Start (Option Tids)) (s : Boot)
      → Yields P (m s)
      → ((a : A) (t : Boot) → P a t → Settled (f a t))
      → Settled ((m >>= f) s)
  then_Settles P m f s (a, t, e, p) k = rw (e, ◌>>=◌) (k a t p)

  give_up-none : (s : Boot) → Settled (give_up none s)
  unfolding give_up fqm_delete
  give_up-none s = tt

  give_up-some :
      (tids : Tids) (s : Boot)
      → IsAwake s
      → AllIdle tids
      → length tids < maxitems
      → Settled (give_up (some tids) s)
  unfolding give_up
  give_up-some [] s w a h = rw (fqm_delete-nil s.turns, give_up) tt
  give_up-some (x ∷ tids) s w a h =
      elim (fqm_delete-cases turns (x ∷ tids) (AllIdle-AllThere (x ∷ tids) a)) [
        | inl (r, e) ↦ rw (w, give_up) (rw (e, give_up) tt)
        | inr e ↦ rw (w, give_up) (rw (e, give_up) (x ∷ tids, a, omega arith, h, e))
      ]

  makes : (s : Boot) → IsAwake s → Yields (λ b t. IsAwake t) (make s)
  makes s w = split s.makes refl
    where
      split : (m : List Bool) → s.makes ≡ m → Yields (λ b t. IsAwake t) (make s)
      split [] e = (true, s, ground (arith, e), w)
      split (m ∷ more) e = (m, record s { makes = more }, rw (e, make) refl, w)

  module _ {A : Type 0} (Q : A → Boot → Type 0) (m n : Start A) (s : Boot) (w : IsAwake s)
      (yes_ : (t : Boot) → IsAwake t → Yields Q (m t))
      (no_ : (t : Boot) → IsAwake t → Yields Q (n t)) where
    -- both branches of a test
    if_then : (b : Bool) (t : Boot) → IsAwake t → Yields Q ((if b then m else n) t)
    if_then true t v = yes_ t v
    if_then false t v = no_ t v

    -- the test of a call that does not sleep
    block_then : Yields Q ((block >>= λ b. if b then m else n) s)
    block_then =
        >>=-Yields (λ b t. IsAwake t) Q block (λ b. if b then m else n) s (_, _, refl, w) if_then

    make_then : Yields Q ((make >>= λ b. if b then m else n) s)
    make_then = >>=-Yields (λ b t. IsAwake t) Q make (λ b. if b then m else n) s (makes s w) if_then

  -- what `fqm_thr_new` may return
  IsThread : Option Status → Boot → Type 0
  IsThread o t = IsAwake t × ((o ≡ none) ⊎ (o ≡ some idle))

  IsThread-starts : (s : Boot) → IsAwake s → Yields IsThread (fqm_thr_new s)
  unfolding fqm_thr_new thread_new IsThread
  IsThread-starts s w =
      let fails = λ (t : Boot) (v : IsAwake t).
        let r : Yields IsThread (pure none t) = (none, t, refl, (v, inl refl)) in r in
      let starts = λ (t : Boot) (v : IsAwake t).
        let r : Yields IsThread (pure (some idle) t) = (some idle, t, refl, (v, inr refl)) in r in
      let started = make >>= λ started. if started then pure (some idle) else pure none in
      block_then IsThread (block >>= λ tid. if tid then started else pure none) (pure none) s w
        (λ t v.
          block_then IsThread started (pure none) t v
            (λ t v. make_then IsThread (pure (some idle)) (pure none) t v starts fails) fails)
        fails

  -- both branches of a test
  branch :
      (m n : Start (Option Tids))
      → ((t : Boot) → IsAwake t → Settled (m t))
      → ((t : Boot) → IsAwake t → Settled (n t))
      → (b : Bool) (t : Boot) → IsAwake t
      → Settled ((if b then m else n) t)
  branch m n yes_ no_ true t w = yes_ t w
  branch m n yes_ no_ false t w = no_ t w

  block_Settles :
      (m n : Start (Option Tids)) (s : Boot)
      → IsAwake s
      → ((t : Boot) → IsAwake t → Settled (m t))
      → ((t : Boot) → IsAwake t → Settled (n t))
      → Settled ((block >>= λ b. if b then m else n) s)
  block_Settles m n s w yes_ no_ =
      then_Settles (λ b t. IsAwake t) block (λ b. if b then m else n) s (_, _, refl, w)
        (branch m n yes_ no_)

  threads_start :
      (n : ℕ) (tids : Tids) (s : Boot)
      → IsAwake s
      → AllIdle tids
      → length tids + n ≡ maxitems
      → Settled (start_threads n tids s)
  unfolding start_threads IsThread
  threads_start zero tids s w a h = (a, omega arith)
  threads_start (suc n) tids s w a h =
      then_Settles IsThread fqm_thr_new _ s (IsThread-starts s w) (λ o t p. elim p.1 [
        | inl e ↦ rw e (give_up-some tids t p.0 a (omega (arith, h)))
        | inr e ↦ rw e (
            threads_start n (tids ++ some idle ∷ []) t p.0 (append-AllIdle tids a)
              (rw (length-append tids (some idle ∷ [])) (omega arith)))
      ])

  cond_made : (s : Boot) → IsAwake s → Yields (λ b t. IsAwake t) (cond_new s)
  unfolding cond_new
  cond_made s w =
      make_then (λ b t. IsAwake t) make (pure false) s w (λ t v. makes t v)
        (λ t v. (false, t, refl, v))

  cond_then :
      (next : Start (Option Tids)) (s : Boot)
      → IsAwake s
      → ((t : Boot) → IsAwake t → Settled (next t))
      → Settled (new_cond next s)
  unfolding new_cond
  cond_then next s w k =
      block_Settles (cond_new >>= λ made. if made then next else give_up none) (give_up none) s w
        (λ t v.
          then_Settles (λ b t. IsAwake t) cond_new (λ made. if made then next else give_up none) t
            (cond_made t v) (branch next (give_up none) k (λ t v. give_up-none t)))
        (λ t v. give_up-none t)

-- Whatever the allocator and the thread library refuse, `fqm_new` touches only memory that it may.
-- It returns NULL, or a pool whose threads are all there, idle, and as many as were asked for; or a
-- thread that is not the first could not be started, and `fqm_delete` waits for ever for those that
-- had been.
pub fqm_new-Settles : (maxitems : ℕ) (s : Boot) → Settles s.turns maxitems (fqm_new maxitems s)
unfolding fqm_new
fqm_new-Settles maxitems s =
    let turns = s.turns in
    let none_ = λ (t : Boot) (v : t.turns ≡ turns). give_up-none maxitems turns t in
    let threads = block >>= λ tids. if tids then start_threads maxitems [] else give_up none in
    block_Settles maxitems turns (new_cond (new_cond threads)) (pure none) s refl
      (λ t v. cond_then maxitems turns (new_cond threads) t v (λ t v.
        cond_then maxitems turns threads t v (λ t v.
          block_Settles maxitems turns (start_threads maxitems []) (give_up none) t v
            (λ t v. threads_start maxitems turns maxitems [] t v tt (omega arith)) none_)))
      (λ t v. tt)
