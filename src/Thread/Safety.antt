-- ===== src/Thread/Safety.antt =====
-- What the lock guarantees in every reachable state, and what it cannot do.
use nastd.Prelude.{ℕ, ◌+◌, ◌≤◌, ◌<◌, ◌≡◌, ◌≢◌, refl, arith, none, some}
use nastd.Prelude.Total.{update, total, total-update, le-total}
use nastd.Thread.{RwMutex, rw_mutex_read_lock, rw_mutex_write_lock, after_wait}
use nastd.Thread.System.{
  Pc, idle, write_sleep, writing, upgrading, Move, read, read_wake, write, write_wake, upgrade_wake,
  System, Step, pick, Reach,
}
use nastd.Thread.Invariant.{readers, reads, writes, sleeps, Reach-Inv}

-- two different threads weigh no more together than all
pair-le-total :
    (w : Pc → ℕ)
    → w idle ≡ 0
    → (n : ℕ) (pc : ℕ → Pc) (i j : ℕ) → i < n
    → j < n
    → i ≢ j
    → w (pc i) + w (pc j) ≤ total w n pc
pair-le-total w h n pc i j hi hj ne =
    ground (arith, total-update w n pc i idle hi, le-total w n (update pc i idle) j hj)

-- In every reachable state of any number of threads, a thread that holds the lock for writing is the
-- only holder: no other thread reads or writes.
pub writer_excludes :
    {n : ℕ} {s : System}
    → Reach n s
    → (i j : ℕ) → i < n
    → j < n
    → i ≢ j
    → s.pc i ≡ writing
    → (reads (s.pc j) ≡ 0) × (writes (s.pc j) ≡ 0)
writer_excludes {n} {s} r i j hi hj ne w =
    let inv = Reach-Inv r in
    ground (
      arith,
      inv,
      pair-le-total writes refl n s.pc i j hi hj ne,
      le-total writes n s.pc i hi,
      le-total reads n s.pc j hj,
    )

-- some thread reads and some thread sleeps to write
record IsHeld (l : RwMutex) : Type 0 where
  has_reader : 1 ≤ readers l.state
  has_sleeper : 1 ≤ l.blocked_writers

upgrading-IsHeld :
    {n : ℕ} {s : System} → Reach n s → (i : ℕ) → i < n → s.pc i ≡ upgrading → IsHeld s.lock
upgrading-IsHeld {n} {s} r i hi e =
    let inv = Reach-Inv r in
    record {
      has_reader = ground (arith, inv, le-total reads n s.pc i hi);
      has_sleeper = ground (arith, inv, le-total sleeps n s.pc i hi);
    }

-- a lock that is read is not given to a sleeper that wants to write
not_woken : {l l' : RwMutex} → IsHeld l → rw_mutex_write_lock (after_wait l) ≡ some l' → ⊥
unfolding rw_mutex_write_lock
not_woken h e = ground arith

not_written : {l l' : RwMutex} → IsHeld l → rw_mutex_write_lock l ≡ some l' → ⊥
unfolding rw_mutex_write_lock
not_written h e = ground arith

not_read : {l l' : RwMutex} → IsHeld l → rw_mutex_read_lock l ≡ some l' → ⊥
unfolding rw_mutex_read_lock
not_read h e = ground arith

Move-sticks :
    {l l' : RwMutex} {p p' : Pc} → Move l p l' p' → IsHeld l → p ≡ upgrading → p' ≡ upgrading
Move-sticks (upgrade_wake e) h q = absurd (not_woken h e)
Move-sticks mv h q = cc

Move-grants_nothing :
    {l l' : RwMutex} {p p' : Pc}
    → Move l p l' p'
    → IsHeld l
    → reads p + writes p ≡ 0
    → reads p' + writes p' ≡ 0
Move-grants_nothing (read e) h q = absurd (not_read h e)
Move-grants_nothing (read_wake e) h q = absurd (not_read h e)
Move-grants_nothing (write e) h q = absurd (not_written h e)
Move-grants_nothing (write_wake e) h q = absurd (not_woken h e)
Move-grants_nothing mv h q = omega arith

-- A thread that waits to write while it holds a read lock waits for ever: from a reachable state no
-- step of any thread moves it on.
pub upgrading_sticks :
    {n : ℕ} {s t : System}
    → Reach n s
    → Step n s t
    → (i : ℕ) → i < n
    → s.pc i ≡ upgrading
    → t.pc i ≡ upgrading
upgrading_sticks r (pick j lt mv) i hi e =
    ground (arith, Move-sticks mv (upgrading-IsHeld r i hi e))

-- While a thread waits to write and holds a read lock, no step from a reachable state gives the lock
-- to a thread that does not hold it.
pub upgrading_starves :
    {n : ℕ} {s t : System}
    → Reach n s
    → Step n s t
    → (i : ℕ) → i < n
    → s.pc i ≡ upgrading
    → (j : ℕ) → reads (s.pc j) + writes (s.pc j) ≡ 0
    → reads (t.pc j) + writes (t.pc j) ≡ 0
upgrading_starves r (pick k lt mv) i hi e j none_held =
    ground (arith, Move-grants_nothing mv (upgrading-IsHeld r i hi e))

-- In every reachable state in which a thread that holds nothing waits to write, a new reader waits.
pub writers_first :
    {n : ℕ} {s : System}
    → Reach n s
    → (i : ℕ) → i < n
    → s.pc i ≡ write_sleep
    → rw_mutex_read_lock s.lock ≡ none
unfolding rw_mutex_read_lock
writers_first {n} {s} r i hi e =
    let inv = Reach-Inv r in ground (arith, inv, le-total sleeps n s.pc i hi)
