-- ===== src/Tests/Locks.antt =====
-- Two and three threads at the lock of server/thread.c.
use nastd.Prelude.{◌≡◌, refl, arith, ◌+◌, some, [], ◌∷◌, map, true, false}
use nastd.Prelude.Int.{pos, negsuc}
use nastd.Prelude.Total.{update}
use nastd.Prelude.Outcome.{returns}
use nastd.Thread.{RwMutex, nobody, after_wait, rw_mutex_read_lock, rw_mutex_write_lock}
use nastd.Thread.Posix as Calls
use nastd.Thread.Errors.{Leaves}
use nastd.Thread.Released.{Unlocks, rw_mutex-Leaves}
use nastd.Thread.System.{
  Pc, reading, write_sleep, writing, upgrading, System, Step, pick, read, read_wait, write,
  write_wait, upgrade_wait, init, Reach, start, later,
}
use nastd.Thread.Invariant.{reads, writes, Inv, Reach-Inv}
use nastd.Thread.Safety.{writer_excludes, upgrading_starves}

two_readers :
    rw_mutex_read_lock (record { state = pos 1; blocked_writers = 0 })
    ≡ some (record { state = pos 2; blocked_writers = 0 })
unfolding rw_mutex_read_lock
two_readers = refl

abbrev written : System
written = record {
  lock = record { state = negsuc 0; blocked_writers = 0 };
  pc = update init.pc 0 writing;
}

written-Reach : Reach 2 written
unfolding rw_mutex_write_lock
written-Reach = later start (pick 0 (omega arith) (write refl))

-- one thread writes, and the second starts to wait
abbrev contended : System
contended = record {
  lock = record { state = negsuc 0; blocked_writers = 1 };
  pc = update written.pc 1 write_sleep;
}

contended-Reach : Reach 2 contended
unfolding rw_mutex_write_lock
contended-Reach = later written-Reach (pick 1 (omega arith) (write_wait refl))

-- one thread reads, and then wants to write
abbrev read_first : System
read_first = record {
  lock = record { state = pos 1; blocked_writers = 0 };
  pc = update init.pc 0 reading;
}

abbrev stuck : System
stuck = record {
  lock = record { state = pos 1; blocked_writers = 1 };
  pc = update read_first.pc 0 upgrading;
}

stuck-Reach : Reach 2 stuck
unfolding rw_mutex_read_lock rw_mutex_write_lock
stuck-Reach =
    later (later start (pick 0 (omega arith) (read refl)))
      (pick 0 (omega arith) (upgrade_wait refl))

-- another thread tries to read
abbrev after_try : System
after_try = record { lock = stuck.lock; pc = update stuck.pc 1 Pc.read_sleep }

try_read : Step 2 stuck after_try
unfolding rw_mutex_read_lock
try_read = pick 1 (omega arith) (read_wait refl)

writer_excludes_example : (reads (contended.pc 1) ≡ 0) × (writes (contended.pc 1) ≡ 0)
writer_excludes_example =
    writer_excludes contended-Reach 0 1 (omega arith) (omega arith) (omega arith) refl

upgrading_starves_example : reads (after_try.pc 1) + writes (after_try.pc 1) ≡ 0
upgrading_starves_example = upgrading_starves stuck-Reach try_read 0 (omega arith) refl 1 refl

Reach-Inv_example : Inv 2 contended.lock contended.pc
Reach-Inv_example = Reach-Inv contended-Reach

-- a thread that finds a reader, and wakes to a free lock; its second wait would fail
abbrev read_by_one : RwMutex
read_by_one = record { state = pos 1; blocked_writers = 0 }

abbrev woken : RwMutex
woken = record { state = pos 0; blocked_writers = 1 }

abbrev caller : Calls.Posix
caller = record {
  lock = read_by_one;
  mutex = true;
  read_sig = true;
  write_sig = true;
  held = false;
  told = nobody;
  codes = 0 ∷ 0 ∷ 12 ∷ [];
}

writes_after :
    Calls.rw_mutex_write_lock false (woken ∷ []) caller
    ≡ returns (
      0,
      record caller { lock = record { state = negsuc 0; blocked_writers = 0 }; codes = 12 ∷ [] },
    )
unfolding Calls.rw_mutex_write_lock Calls.mutex_lock Calls.write_waits Calls.write_round
    Calls.pthread_cond_wait Calls.mutex_unlock
writes_after = refl

-- the wait fails
gives_up :
    Calls.rw_mutex_write_lock false (woken ∷ []) (record caller { codes = 0 ∷ 12 ∷ [] })
    ≡ returns (12, record caller { codes = [] })
unfolding Calls.rw_mutex_write_lock Calls.mutex_lock Calls.write_waits Calls.write_round
    Calls.pthread_cond_wait Calls.mutex_unlock
gives_up = refl

rw_mutex-Leaves_example :
    Leaves rw_mutex_read_lock read_by_one
      (woken ∷ [])
      (Calls.rw_mutex_read_lock false (woken ∷ []) caller)
    × Leaves rw_mutex_write_lock read_by_one
        (map after_wait (woken ∷ []))
        (Calls.rw_mutex_write_lock false (woken ∷ []) caller)
    × Unlocks read_by_one (Calls.rw_mutex_unlock false caller)
rw_mutex-Leaves_example = rw_mutex-Leaves false (woken ∷ []) caller refl refl
