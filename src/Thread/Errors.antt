-- ===== src/Thread/Errors.antt =====
-- What the functions of the lock do whatever the calls of POSIX threads return.
use nastd.Prelude.{
  ℕ, zero, suc, ◌==◌, ◌≡◌, ◌≢◌, refl, ap, arith, true, false, List, [], ◌∷◌, Option, none, some,
  ◌⊎◌, inl, inr, Bool-cases, map,
}
use nastd.Prelude.Outcome.{Outcome, returns, blocked, fault}
use nastd.Prelude.Run.{◌>>=◌, Yields}
use nastd.Thread as Atomic
use nastd.Thread.{RwMutex, Wakeup, nobody, is_negative, is_nonzero, before_wait, after_wait}
use nastd.Thread.Posix.{
  Posix, Call, doing, mutex_new, mutex_delete, mutex_unlock, rw_mutex_new, pthread_cond_wait,
  must_wait, read_round, read_waits, write_round, write_waits,
}

pub nonzero : (rc : ℕ) → rc ≢ 0 → (rc == 0) ≡ false
nonzero rc ne = ground (arith, ne)

-- whatever the next call returns
pub doing-any :
    (P : Outcome (ℕ × Posix) → Type 0) (f : Posix → Posix) (k : ℕ → Call ℕ) (s : Posix)
    → ((cs : List ℕ) → P (k 0 (f (record s { codes = cs }))))
    → ((rc : ℕ) (cs : List ℕ) → rc ≢ 0 → P (k rc (record s { codes = cs })))
    → P ((doing f >>= k) s)
doing-any P f k s done failed = split s.codes refl
  where
    split : (cs : List ℕ) → s.codes ≡ cs → P ((doing f >>= k) s)
    split [] e = rw e (done [])
    split (zero ∷ cs) e = rw e (done cs)
    split (suc rc ∷ cs) e =
        let ne : (suc rc == 0) ≡ false = ground arith in
        rw e (rw (ne, ◌>>=◌) (failed (suc rc) cs (λ q. omega arith)))

-- nothing of the lock is made
abbrev pub IsBare : Posix → Type 0
IsBare s = (s.mutex ≡ false) × (s.read_sig ≡ false) × (s.write_sig ≡ false)

abbrev pub IsMade : Posix → Type 0
IsMade s =
    (s.mutex ≡ true) × (s.read_sig ≡ true) × (s.write_sig ≡ true) × (s.lock ≡ Atomic.rw_mutex_new)

-- `rw_mutex_new` returns 0 with the mutex and both condition variables made and the lock free, or what the
-- call that failed returned, and then it has destroyed all that it made.
pub rw_mutex_new-IsMade :
    (s : Posix)
    → IsBare s
    → Yields (λ rc t. ((rc ≡ 0) × IsMade t) ⊎ ((rc ≢ 0) × IsBare t)) (rw_mutex_new s)
unfolding rw_mutex_new mutex_new mutex_delete
rw_mutex_new-IsMade s b =
    let P : Outcome (ℕ × Posix) → Type 0 =
      Yields (λ rc t. ((rc ≡ 0) × IsMade t) ⊎ ((rc ≢ 0) × IsBare t)) in
    doing-any P (λ t. record t { mutex = true }) _ s
      (λ cs.
        doing-any P (λ t. record t { read_sig = true }) _ (record s { mutex = true; codes = cs })
          (λ ds.
            doing-any P (λ t. record t { write_sig = true }) _
              (record s { mutex = true; read_sig = true; codes = ds })
              (λ es. (0, _, refl, inl (refl, (refl, refl, refl, refl))))
              (λ rc es ne. rw (nonzero rc ne) (rc, _, refl, inr (ne, (refl, refl, b.2)))))
          (λ rc ds ne. rw (nonzero rc ne) (rc, _, refl, inr (ne, (refl, b.1, b.2)))))
      (λ rc cs ne. rw (nonzero rc ne) (rc, _, refl, inr (ne, b)))

-- How a call ends at a lock: it goes on as `op` says, or a call failed and it leaves the lock as it is.
abbrev pub Ends : (RwMutex → Option RwMutex) → RwMutex → ℕ → RwMutex → Type 0
Ends op l rc t = ((rc ≡ 0) × (op l ≡ some t)) ⊎ ((rc ≢ 0) × (t ≡ l))

-- The call found the lock `l` and, each time that it woke, the next of the others.
abbrev pub Ended : (RwMutex → Option RwMutex) → RwMutex → List RwMutex → ℕ → RwMutex → Type 0
Ended op l [] rc t = Ends op l rc t
Ended op l (w ∷ ws) rc t = Ends op l rc t ⊎ ((op l ≡ none) × Ended op w ws rc t)

-- all of the locks make it wait
abbrev pub AllWait : (RwMutex → Option RwMutex) → RwMutex → List RwMutex → Type 0
AllWait op l [] = op l ≡ none
AllWait op l (w ∷ ws) = (op l ≡ none) × AllWait op w ws

-- It returns without the mutex, and has ended so, or sleeps for ever behind the last of the locks.
abbrev pub Leaves :
    (RwMutex → Option RwMutex) → RwMutex → List RwMutex → Outcome (ℕ × Posix) → Type 0
Leaves op l ws (returns (rc, t)) = (t.held ≡ false) × Ended op l ws rc t.lock
Leaves op l ws blocked = AllWait op l ws
Leaves op l ws fault = ⊥

pub Ends-Ended :
    (op : RwMutex → Option RwMutex) (l : RwMutex) (ws : List RwMutex) (rc : ℕ) (t : RwMutex)
    → Ends op l rc t
    → Ended op l ws rc t
Ends-Ended op l [] rc t e = e
Ends-Ended op l (w ∷ ws) rc t e = inl e

Leaves-woken :
    (op : RwMutex → Option RwMutex) (l w : RwMutex) (ws : List RwMutex) (o : Outcome (ℕ × Posix))
    → op l ≡ none
    → Leaves op w ws o
    → Leaves op l (w ∷ ws) o
Leaves-woken op l w ws (returns (rc, t)) e (h, q) = (h, inr (e, q))
Leaves-woken op l w ws blocked e h = (e, h)
Leaves-woken op l w ws fault e h = h

wakes-any :
    (P : Outcome (ℕ × Posix) → Type 0) (w : RwMutex) (k : ℕ → Call ℕ) (s : Posix)
    → ((cs : List ℕ) → P (k 0 (record s { lock = w; codes = cs })))
    → ((rc : ℕ) (cs : List ℕ) → rc ≢ 0 → P (k rc (record s { codes = cs })))
    → P ((pthread_cond_wait (some w) >>= k) s)
unfolding pthread_cond_wait
wakes-any P w k s woke failed = split s.codes refl
  where
    split : (cs : List ℕ) → s.codes ≡ cs → P ((pthread_cond_wait (some w) >>= k) s)
    split [] e = rw e (woke [])
    split (zero ∷ cs) e = rw e (woke cs)
    split (suc rc ∷ cs) e =
        let ne : (suc rc == 0) ≡ false = ground arith in
        rw e (rw (ne, ◌>>=◌) (failed (suc rc) cs (λ q. omega arith)))

sleeps-any :
    (P : Outcome (ℕ × Posix) → Type 0) (k : ℕ → Call ℕ) (s : Posix)
    → P blocked
    → ((rc : ℕ) (cs : List ℕ) → rc ≢ 0 → P (k rc (record s { codes = cs })))
    → P ((pthread_cond_wait none >>= k) s)
unfolding pthread_cond_wait
sleeps-any P k s sleep failed = split s.codes refl
  where
    split : (cs : List ℕ) → s.codes ≡ cs → P ((pthread_cond_wait none >>= k) s)
    split [] e = rw e sleep
    split (zero ∷ cs) e = rw e sleep
    split (suc rc ∷ cs) e =
        let ne : (suc rc == 0) ≡ false = ground arith in
        rw e (rw (ne, ◌>>=◌) (failed (suc rc) cs (λ q. omega arith)))

pub read_waits-Leaves :
    (wakes : List RwMutex) (s : Posix)
    → Leaves Atomic.rw_mutex_read_lock s.lock wakes (read_waits wakes s)
unfolding read_waits read_round mutex_unlock Atomic.rw_mutex_read_lock
read_waits-Leaves [] s = elim (Bool-cases (must_wait s.lock)) [
  | inr free ↦ rw (free, read_round) (refl, inl (refl, rw free refl))
  | inl waits ↦
      rw (waits, read_round)
        (sleeps-any (Leaves Atomic.rw_mutex_read_lock s.lock []) _ s (rw waits refl)
          (λ rc cs ne. rw (nonzero rc ne) (refl, inr (ne, refl))))
]
read_waits-Leaves (w ∷ ws) s = elim (Bool-cases (must_wait s.lock)) [
  | inr free ↦ rw (free, read_round) (refl, inl (inl (refl, rw free refl)))
  | inl waits ↦
      rw (waits, read_round)
        (wakes-any (Leaves Atomic.rw_mutex_read_lock s.lock (w ∷ ws)) w _ s
          (λ cs.
            Leaves-woken Atomic.rw_mutex_read_lock s.lock w ws _ (rw waits refl)
              (read_waits-Leaves ws (record s { lock = w; codes = cs })))
          (λ rc cs ne. rw (nonzero rc ne) (refl, inl (inr (ne, refl)))))
]

pub write_waits-Leaves :
    (wakes : List RwMutex) (s : Posix)
    → Leaves Atomic.rw_mutex_write_lock s.lock (map after_wait wakes) (write_waits wakes s)
unfolding write_waits write_round mutex_unlock Atomic.rw_mutex_write_lock
write_waits-Leaves [] s = elim (Bool-cases (is_nonzero s.lock.state)) [
  | inr free ↦ rw (free, write_round) (refl, inl (refl, rw free refl))
  | inl waits ↦
      let sleeping : Posix = record s { lock = before_wait s.lock } in
      rw (waits, write_round)
        (sleeps-any (Leaves Atomic.rw_mutex_write_lock s.lock []) _ sleeping (rw waits refl)
          (λ rc cs ne.
            rw (nonzero rc ne)
              (refl, inr (ne, ap (λ n. record s.lock { blocked_writers = n }) (omega arith)))))
]
write_waits-Leaves (w ∷ ws) s = elim (Bool-cases (is_nonzero s.lock.state)) [
  | inr free ↦ rw (free, write_round) (refl, inl (inl (refl, rw free refl)))
  | inl waits ↦
      let sleeping : Posix = record s { lock = before_wait s.lock } in
      let seen : List RwMutex = map after_wait ws in
      rw (waits, write_round)
        (wakes-any (Leaves Atomic.rw_mutex_write_lock s.lock (after_wait w ∷ seen)) w _ sleeping
          (λ cs.
            Leaves-woken Atomic.rw_mutex_write_lock s.lock (after_wait w) seen _ (rw waits refl)
              (write_waits-Leaves ws (record s { lock = after_wait w; codes = cs })))
          (λ rc cs ne.
            rw (nonzero rc ne) (
              refl,
              inl (inr (ne, ap (λ n. record s.lock { blocked_writers = n }) (omega arith))),
            )))
]
