-- ===== src/Thread/System.antt =====
-- Threads that share one read-write lock, interleaved in any order. POSIX lets a sleeper wake with
-- no signal, so a sleeper may try again at any time.
use nastd.Prelude.{ℕ, ◌<◌, ◌≡◌, none, some}
use nastd.Prelude.Total.{update}
use nastd.Thread.{
  RwMutex, rw_mutex_new, rw_mutex_read_lock, rw_mutex_write_lock, before_wait, after_wait, Wakeup,
  rw_mutex_unlock,
}

-- Where a thread stands. `upgrading` has a read lock and sleeps in `rw_mutex_write_lock`.
pub data Pc : Type 0 where
  idle : Pc
  read_sleep : Pc
  reading : Pc
  write_sleep : Pc
  writing : Pc
  upgrading : Pc
  upgraded : Pc

pub data Move (l : RwMutex) : Pc → RwMutex → Pc → Type 0 where
  read : {l' : RwMutex} → rw_mutex_read_lock l ≡ some l' → Move l idle l' reading
  read_wait : rw_mutex_read_lock l ≡ none → Move l idle l read_sleep
  read_wake : {l' : RwMutex} → rw_mutex_read_lock l ≡ some l' → Move l read_sleep l' reading
  write : {l' : RwMutex} → rw_mutex_write_lock l ≡ some l' → Move l idle l' writing
  write_wait : rw_mutex_write_lock l ≡ none → Move l idle (before_wait l) write_sleep
  write_wake :
      {l' : RwMutex} → rw_mutex_write_lock (after_wait l) ≡ some l' → Move l write_sleep l' writing
  upgrade : {l' : RwMutex} → rw_mutex_write_lock l ≡ some l' → Move l reading l' upgraded
  upgrade_wait : rw_mutex_write_lock l ≡ none → Move l reading (before_wait l) upgrading
  upgrade_wake :
      {l' : RwMutex} → rw_mutex_write_lock (after_wait l) ≡ some l' → Move l upgrading l' upgraded
  unlock_read :
      {w : Wakeup} {l' : RwMutex} → rw_mutex_unlock l ≡ some (w, l') → Move l reading l' idle
  unlock_write :
      {w : Wakeup} {l' : RwMutex} → rw_mutex_unlock l ≡ some (w, l') → Move l writing l' idle

pub record System : Type 0 where
  pub lock : RwMutex
  pub pc : ℕ → Pc

pub data Step (n : ℕ) (s : System) : System → Type 0 where
  pick :
      (i : ℕ) {l : RwMutex} {p : Pc}
      → i < n
      → Move s.lock (s.pc i) l p
      → Step n s (record { lock = l; pc = update s.pc i p })

abbrev pub init : System
init = record { lock = rw_mutex_new; pc = λ _. idle }

pub data Reach (n : ℕ) : System → Type 0 where
  start : Reach n init
  later : {s t : System} → Reach n s → Step n s t → Reach n t
