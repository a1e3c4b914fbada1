-- ===== src/Thread/Released.antt =====
-- The mutex of the lock is free again when a function of the lock returns, and the lock is as it was
-- where the function says that it failed.
use nastd.Prelude.{
  ℕ, zero, suc, ltb, ◌==◌, ◌≡◌, ◌≢◌, refl, arith, Bool, true, false, List, map, some, if◌then◌else◌,
  ◌⊎◌, inl, inr, Bool-cases,
}
use nastd.Prelude.Int.{ℤ, pos, negsuc}
use nastd.Prelude.Outcome.{Outcome, returns, blocked, fault}
use nastd.Prelude.Run.{◌>>=◌, pure}
use nastd.Thread as Atomic
use nastd.Thread.{RwMutex, Wakeup, nobody, one_writer, all_readers, is_nonzero, after_wait}
use nastd.Thread.Posix.{
  Posix, Call, tell, leave, mutex_lock, mutex_unlock, rw_mutex_read_lock, rw_mutex_write_lock,
  unlock_held, rw_mutex_unlock,
}
use nastd.Thread.Errors.{
  nonzero, doing-any, Leaves, Ends-Ended, read_waits-Leaves, write_waits-Leaves,
}

-- It returns without the mutex. Either it failed and left the lock, or it did what the atomic step
-- does, and told the sleepers what that says unless the call that tells them failed.
abbrev pub Unlocks : RwMutex → Outcome (ℕ × Posix) → Type 0
Unlocks l (returns (rc, t)) =
    (t.held ≡ false)
    × (((rc ≢ 0) × (t.lock ≡ l))
        ⊎ ((w : Wakeup) × (Atomic.rw_mutex_unlock l ≡ some (w, t.lock)) × (rc ≡ 0 → t.told ≡ w)))
Unlocks l blocked = ⊥
Unlocks l fault = ⊥

-- a function that first takes the mutex
locked-any :
    (P : Outcome (ℕ × Posix) → Type 0) (body : Call ℕ) (s : Posix)
    → s.held ≡ false
    → ((cs : List ℕ) → P (body (record s { held = true; codes = cs })))
    → ((rc : ℕ) (t : Posix) → t.held ≡ false → t.lock ≡ s.lock → rc ≢ 0 → P (returns (rc, t)))
    → (null : Bool)
    → P ((if null then pure 22 else (mutex_lock >>= λ rc. if rc == 0 then body else pure rc)) s)
unfolding mutex_lock
locked-any P body s free run failed true = failed 22 s free refl (λ e. omega (arith, e))
locked-any P body s free run failed false =
    rw (free, ◌>>=◌)
      (doing-any P (λ t. record t { held = true }) _ s run
        (λ rc cs ne. rw (nonzero rc ne) (failed rc (record s { codes = cs }) free refl ne)))

told-Unlocks :
    (w : Wakeup) (l : RwMutex) (s : Posix)
    → Atomic.rw_mutex_unlock l ≡ some (w, s.lock)
    → Unlocks l ((tell w >>= leave) s)
unfolding mutex_unlock
told-Unlocks w l s e =
    doing-any (Unlocks l) (λ t. record t { told = w }) leave s (λ cs. (refl, inr (w, e, λ q. refl)))
      (λ rc cs ne. (refl, inr (w, e, λ q. absurd (ne q))))

unlock_held-Unlocks : (s : Posix) → s.told ≡ nobody → Unlocks s.lock (unlock_held s)
unfolding unlock_held mutex_unlock Atomic.rw_mutex_unlock
unlock_held-Unlocks s quiet = split s.lock.state s.lock.blocked_writers
  where
    at : ℤ → ℕ → RwMutex
    at i b = record { state = i; blocked_writers = b }

    split : (i : ℤ) (b : ℕ) → Unlocks (at i b) (unlock_held (record s { lock = at i b }))
    split (pos zero) b = (refl, inl ((λ q. omega (arith, q)), refl))
    split (pos (suc zero)) b = elim (Bool-cases (ltb 0 b)) [
      | inl waits ↦ rw waits (
          told-Unlocks one_writer (at (pos 1) b) (record s { lock = at (pos 0) b }) (rw waits refl))
      | inr none_waits ↦ rw none_waits (refl, inr (nobody, rw none_waits refl, λ q. quiet))
    ]
    split (pos (suc (suc n))) b =
        rw (nonzero (suc n) (λ q. omega (arith, q))) (refl, inr (nobody, refl, λ q. quiet))
    split (negsuc n) b = elim (Bool-cases (ltb 0 b)) [
      | inl waits ↦ rw waits (
          told-Unlocks one_writer (at (negsuc n) b) (record s { lock = at (pos 0) b })
            (rw waits refl))
      | inr none_waits ↦ rw none_waits (
          told-Unlocks all_readers (at (negsuc n) b) (record s { lock = at (pos 0) b })
            (rw none_waits refl))
    ]

-- Whatever the calls of POSIX threads return and whatever the lock is each time that the thread
-- wakes, a function of the lock that returns has released its mutex. `rw_mutex_read_lock` and
-- `rw_mutex_write_lock` return 0 where they went on, as the atomic step does, from the first lock
-- that lets them, and otherwise an error, with the lock as they found it last; they sleep for ever
-- only where every lock makes them wait. A writer that wakes counts itself out of the writers that
-- wait. `rw_mutex_unlock` returns, with an error and the lock as it was, or with the lock as the
-- atomic step leaves it, and where it then returns 0 it told the sleepers what that step says. The
-- caller does not hold the mutex, and has told nobody yet.
pub rw_mutex-Leaves :
    (null : Bool) (wakes : List RwMutex) (s : Posix)
    → s.held ≡ false
    → s.told ≡ nobody
    → Leaves Atomic.rw_mutex_read_lock s.lock wakes (rw_mutex_read_lock null wakes s)
      × Leaves Atomic.rw_mutex_write_lock s.lock
          (map after_wait wakes)
          (rw_mutex_write_lock null wakes s)
      × Unlocks s.lock (rw_mutex_unlock null s)
unfolding rw_mutex_read_lock rw_mutex_write_lock rw_mutex_unlock
rw_mutex-Leaves null wakes s free quiet = (
  locked-any (Leaves Atomic.rw_mutex_read_lock s.lock wakes) _ s free
      (λ cs. read_waits-Leaves wakes (record s { held = true; codes = cs }))
      (λ rc t out same ne.
        (out, Ends-Ended Atomic.rw_mutex_read_lock s.lock wakes rc t.lock (inr (ne, same))))
      null,
  locked-any (Leaves Atomic.rw_mutex_write_lock s.lock (map after_wait wakes)) _ s free
      (λ cs. write_waits-Leaves wakes (record s { held = true; codes = cs }))
      (λ rc t out same ne. (
        out,
        Ends-Ended Atomic.rw_mutex_write_lock s.lock (map after_wait wakes) rc t.lock
            (inr (ne, same)),
      ))
      null,
  locked-any (Unlocks s.lock) _ s free
      (λ cs. unlock_held-Unlocks (record s { held = true; codes = cs }) quiet)
      (λ rc t out same ne. (out, inl (ne, same))) null,
)
