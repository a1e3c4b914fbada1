-- ===== src/Thread/Invariant.antt =====
-- The lock's state counts its holders and its sleeping writers, in every reachable state.
use nastd.Prelude.{ℕ, zero, suc, ◌+◌, ◌≤◌, ◌<◌, ◌≡◌, refl, arith}
use nastd.Prelude.Int.{ℤ, pos, negsuc}
use nastd.Prelude.Total.{total, total-update, le-total}
use nastd.Thread.{RwMutex, rw_mutex_read_lock, rw_mutex_write_lock, rw_mutex_unlock}
use nastd.Thread.System.{
  Pc, idle, reading, write_sleep, writing, upgrading, upgraded, Move, read, read_wait, read_wake,
  write, write_wait, write_wake, upgrade, upgrade_wait, upgrade_wake, unlock_read, unlock_write,
  System, Step, pick, init, Reach, start, later,
}

abbrev pub reads : Pc → ℕ
reads reading = 1
reads upgrading = 1
reads upgraded = 1
reads _ = 0

abbrev pub writes : Pc → ℕ
writes writing = 1
writes upgraded = 1
writes _ = 0

abbrev pub sleeps : Pc → ℕ
sleeps write_sleep = 1
sleeps upgrading = 1
sleeps _ = 0

abbrev pub readers : ℤ → ℕ
readers (pos n) = n
readers (negsuc n) = 0

abbrev pub writers : ℤ → ℕ
writers (pos n) = 0
writers (negsuc n) = suc n

-- the threads below `n` against the fields of the lock
pub record Inv (n : ℕ) (l : RwMutex) (pc : ℕ → Pc) : Type 0 where
  pub counted_readers : total reads n pc ≡ readers l.state
  pub counted_writers : total writes n pc ≡ writers l.state
  pub counted_sleepers : total sleeps n pc ≡ l.blocked_writers
  pub one_writer_at_most : total writes n pc ≤ 1

-- What a move of one thread does to the three counts, on the lock alone.
pub record Change (l : RwMutex) (p : Pc) (l' : RwMutex) (p' : Pc) : Type 0 where
  pub by_readers : readers l'.state + reads p ≡ readers l.state + reads p'
  pub by_writers : writers l'.state + writes p ≡ writers l.state + writes p'
  pub by_sleepers : l'.blocked_writers + sleeps p ≡ l.blocked_writers + sleeps p'
  pub single : writers l'.state ≤ 1

-- the holders' own counts, which a move may use
pub record Own (l : RwMutex) (p : Pc) : Type 0 where
  pub own_read : reads p ≤ readers l.state
  pub own_write : writes p ≤ writers l.state
  pub own_sleep : sleeps p ≤ l.blocked_writers
  pub lone : writers l.state ≤ 1

pub Move-Change : {l l' : RwMutex} {p p' : Pc} → Move l p l' p' → Own l p → Change l p l' p'
unfolding rw_mutex_read_lock rw_mutex_write_lock rw_mutex_unlock
Move-Change (read e) o = ground arith
Move-Change (read_wait e) o = ground arith
Move-Change (read_wake e) o = ground arith
Move-Change (write e) o = ground arith
Move-Change (write_wait e) o = ground arith
Move-Change (write_wake e) o = ground arith
Move-Change (upgrade e) o = ground arith
Move-Change (upgrade_wait e) o = ground arith
Move-Change (upgrade_wake e) o = ground arith
Move-Change (unlock_read e) o = ground arith
Move-Change (unlock_write e) o = ground arith

own : {n : ℕ} {l : RwMutex} {pc : ℕ → Pc} (i : ℕ) → i < n → Inv n l pc → Own l (pc i)
own {n} {pc} i lt inv = record {
  own_read = omega (arith, le-total reads n pc i lt, inv.counted_readers);
  own_write = omega (arith, le-total writes n pc i lt, inv.counted_writers);
  own_sleep = omega (arith, le-total sleeps n pc i lt, inv.counted_sleepers);
  lone = omega (arith, inv.counted_writers, inv.one_writer_at_most);
}

pub Step-Inv : {n : ℕ} {s t : System} → Step n s t → Inv n s.lock s.pc → Inv n t.lock t.pc
Step-Inv {n} {s} (pick i {l = l} {p = p} lt mv) inv = record {
  counted_readers =
      omega (arith, total-update reads n s.pc i p lt, c.by_readers, inv.counted_readers);
  counted_writers =
      omega (arith, total-update writes n s.pc i p lt, c.by_writers, inv.counted_writers);
  counted_sleepers =
      omega (arith, total-update sleeps n s.pc i p lt, c.by_sleepers, inv.counted_sleepers);
  one_writer_at_most =
      omega (arith, total-update writes n s.pc i p lt, c.by_writers, c.single, inv.counted_writers);
}
  where
    c : Change s.lock (s.pc i) l p
    c = Move-Change mv (own i lt inv)

total-idle : (w : Pc → ℕ) → w idle ≡ 0 → (n : ℕ) → total w n (λ _. idle) ≡ 0
unfolding total
total-idle w h zero = refl
total-idle w h (suc n) = omega (arith, h, total-idle w h n)

pub Inv-init : (n : ℕ) → Inv n init.lock init.pc
Inv-init n = record {
  counted_readers = total-idle reads refl n;
  counted_writers = total-idle writes refl n;
  counted_sleepers = total-idle sleeps refl n;
  one_writer_at_most = omega (arith, total-idle writes refl n);
}

-- In every reachable state the lock's fields count the threads that read, write and wait to write.
pub Reach-Inv : {n : ℕ} {s : System} → Reach n s → Inv n s.lock s.pc
Reach-Inv {n} start = Inv-init n
Reach-Inv (later r st) = Step-Inv st (Reach-Inv r)
