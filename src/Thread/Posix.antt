-- ===== src/Thread/Posix.antt =====
-- server/thread.c: the whole functions of the lock, with the calls of POSIX threads that they make and
-- what they do when one of these fails. `pthread_mutex_unlock` on a mutex that the caller holds returns
-- 0, and `pthread_cond_wait` changes nothing when it fails.
use nastd.Prelude.{
  ℕ, zero, suc, ltb, ◌==◌, Bool, true, false, ◌||◌, List, [], ◌∷◌, Option, none, some,
  if◌then◌else◌,
}
use nastd.Prelude.Int.{pos, negsuc, incr}
use nastd.Prelude.Outcome.{returns, blocked}
use nastd.Prelude.Run.{Run, ◌>>=◌, ◌>>◌, pure}
use nastd.Thread as Atomic
use nastd.Thread.{
  RwMutex, Wakeup, nobody, one_writer, all_readers, is_negative, is_nonzero, before_wait,
  after_wait,
}

-- A lock with its mutex and its two condition variables, as one thread has it: which of them are made,
-- whether the thread holds the mutex, what it told the sleepers, and what the coming calls that can
-- fail return (0 past the end).
pub record Posix : Type 0 where
  pub lock : RwMutex
  pub mutex : Bool
  pub read_sig : Bool
  pub write_sig : Bool
  pub held : Bool
  pub told : Wakeup
  pub codes : List ℕ

abbrev pub Call {ℓ} : Type ℓ → Type ℓ
Call A = Run Posix A

abbrev pub einval : ℕ
einval = 22

abbrev pub code : Call ℕ
code s = elim s.codes [
  | [] ↦ returns (0, s)
  | rc ∷ codes ↦ returns (rc, record s { codes = codes })
]

-- a call that does `f` where it returns 0
abbrev pub doing : (Posix → Posix) → Call ℕ
doing f = code >>= λ rc. if rc == 0 then (λ s. returns (0, f s)) else pure rc

abbrev pub always : (Posix → Posix) → Call ℕ
always f s = returns (0, f s)

unfoldable pub mutex_new : Call ℕ
mutex_new = doing (λ s. record s { mutex = true })

unfoldable pub mutex_delete : Call ℕ
mutex_delete = always (λ s. record s { mutex = false })

-- the default mutex does not let in its holder again
unfoldable pub mutex_lock : Call ℕ
mutex_lock s = if s.held then blocked else doing (λ t. record t { held = true }) s

unfoldable pub mutex_unlock : Call ℕ
mutex_unlock = always (λ s. record s { held = false })

unfoldable pub rw_mutex_new : Call ℕ
rw_mutex_new = mutex_new >>= λ made.
    if made == 0
    then (doing (λ s. record s { read_sig = true }) >>= λ read.
        if read == 0
        then (doing (λ s. record s { write_sig = true }) >>= λ write.
            if write == 0
            then always (λ s. record s { lock = Atomic.rw_mutex_new })
            else mutex_delete >> always (λ s. record s { read_sig = false }) >> pure write)
        else mutex_delete >> pure read)
    else pure made

-- the lock as it is once the call returns, or `none` where nobody wakes the thread
unfoldable pub pthread_cond_wait : Option RwMutex → Call ℕ
pthread_cond_wait woken = code >>= λ rc. λ s.
    if rc == 0
    then elim woken [ none ↦ blocked | some lock ↦ returns (0, record s { lock = lock }) ]
    else returns (rc, s)

abbrev pub set_lock : (RwMutex → RwMutex) → Call ℕ
set_lock f = always (λ s. record s { lock = f s.lock })

abbrev pub leave : ℕ → Call ℕ
leave rc = mutex_unlock >> pure rc

abbrev pub must_wait : RwMutex → Bool
must_wait lock = ltb 0 lock.blocked_writers || is_negative lock.state

-- a round of the `while`, or what follows it
unfoldable pub read_round : Option RwMutex → Call ℕ → Call ℕ
read_round woken again s =
    if must_wait s.lock
    then (pthread_cond_wait woken >>= λ rc. if rc == 0 then again else leave rc) s
    else (set_lock (λ lock. record lock { state = incr lock.state }) >> leave 0) s

-- The locks are what the thread finds each time that it wakes.
unfoldable pub read_waits : List RwMutex → Call ℕ
read_waits [] = read_round none (pure 0)
read_waits (lock ∷ wakes) = read_round (some lock) (read_waits wakes)

unfoldable pub rw_mutex_read_lock : (null : Bool) → List RwMutex → Call ℕ
rw_mutex_read_lock null wakes =
    if null
    then pure einval
    else (mutex_lock >>= λ rc. if rc == 0 then read_waits wakes else pure rc)

unfoldable pub write_round : Option RwMutex → Call ℕ → Call ℕ
write_round woken again s =
    if is_nonzero s.lock.state
    then (set_lock before_wait >> pthread_cond_wait woken >>= λ rc.
          set_lock after_wait >> (if rc == 0 then again else leave rc))
        s
    else (set_lock (λ lock. record lock { state = negsuc 0 }) >> leave 0) s

unfoldable pub write_waits : List RwMutex → Call ℕ
write_waits [] = write_round none (pure 0)
write_waits (lock ∷ wakes) = write_round (some lock) (write_waits wakes)

unfoldable pub rw_mutex_write_lock : (null : Bool) → List RwMutex → Call ℕ
rw_mutex_write_lock null wakes =
    if null
    then pure einval
    else (mutex_lock >>= λ rc. if rc == 0 then write_waits wakes else pure rc)

-- `pthread_cond_signal` and `pthread_cond_broadcast`
abbrev pub tell : Wakeup → Call ℕ
tell w = doing (λ s. record s { told = w })

unfoldable pub unlock_held : Call ℕ
unlock_held s = elim s.lock.state [
  | pos zero ↦ leave einval s
  | pos (suc n) ↦
      (set_lock (λ lock. record lock { state = pos n })
          >> (if n == 0
              then (if ltb 0 s.lock.blocked_writers then tell one_writer else pure 0)
              else pure 0)
          >>= leave)
        s
  | negsuc n ↦
      (set_lock (λ lock. record lock { state = pos 0 })
          >> (if ltb 0 s.lock.blocked_writers then tell one_writer else tell all_readers)
          >>= leave)
        s
]

unfoldable pub rw_mutex_unlock : (null : Bool) → Call ℕ
rw_mutex_unlock null =
    if null then pure einval else (mutex_lock >>= λ rc. if rc == 0 then unlock_held else pure rc)
