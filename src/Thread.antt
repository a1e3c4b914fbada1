-- ===== src/Thread.antt =====
-- server/thread.c and server/thread.h: the read-write lock. Each function body runs between
-- `mutex_lock` and `mutex_unlock`, so it is one atomic step; the POSIX calls on a valid lock return 0
-- (Thread/Posix has what the functions do where one fails).
-- A call that would sleep in `pthread_cond_wait` is `none`, and is tried again when it is woken.
pub mod System
pub mod Invariant
pub mod Safety
pub mod Posix
pub mod Errors
pub mod Released
use nastd.Prelude.{
  ℕ, zero, suc, ◌+◌, ◌-◌, ltb, Bool, true, false, ◌||◌, Option, none, some, if◌then◌else◌,
}
use nastd.Prelude.Int.{ℤ, pos, negsuc, incr, decr}

-- `struct _rwlock` less its POSIX mutex and condition variables: `state` is the number of readers,
-- or -1 under a writer
pub record RwMutex : Type 0 where
  pub state : ℤ
  pub blocked_writers : ℕ

abbrev pub rw_mutex_new : RwMutex
rw_mutex_new = record { state = pos 0; blocked_writers = 0 }

abbrev pub is_negative : ℤ → Bool
is_negative (pos n) = false
is_negative (negsuc n) = true

abbrev pub is_nonzero : ℤ → Bool
is_nonzero (pos zero) = false
is_nonzero (pos (suc n)) = true
is_nonzero (negsuc n) = true

-- the test of the `while`, and what follows the loop
unfoldable pub rw_mutex_read_lock : RwMutex → Option RwMutex
rw_mutex_read_lock lock =
    if ltb 0 lock.blocked_writers || is_negative lock.state
    then none
    else some (record lock { state = incr lock.state })

unfoldable pub rw_mutex_write_lock : RwMutex → Option RwMutex
rw_mutex_write_lock lock =
    if is_nonzero lock.state then none else some (record lock { state = negsuc 0 })

-- around `pthread_cond_wait` in `rw_mutex_write_lock`
abbrev pub before_wait : RwMutex → RwMutex
before_wait lock = record lock { blocked_writers = lock.blocked_writers + 1 }

abbrev pub after_wait : RwMutex → RwMutex
after_wait lock = record lock { blocked_writers = lock.blocked_writers - 1 }

-- what `rw_mutex_unlock` tells the sleepers
pub data Wakeup : Type 0 where
  nobody : Wakeup
  one_writer : Wakeup
  all_readers : Wakeup

-- `none` is EINVAL
unfoldable pub rw_mutex_unlock : RwMutex → Option (Wakeup × RwMutex)
rw_mutex_unlock lock = elim lock.state [
  | pos zero ↦ none
  | pos (suc n) ↦ some (
    (if is_nonzero (pos n)
        then nobody
        else if ltb 0 lock.blocked_writers
        then one_writer
        else nobody),
    record lock { state = pos n },
  )
  | negsuc n ↦ some (
    (if ltb 0 lock.blocked_writers then one_writer else all_readers),
    record lock { state = pos 0 },
  )
]
