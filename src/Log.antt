-- ===== src/Log.antt =====
-- server/log.c: the messages to the system's log. `decimal` is the conversion `%llu` of `snprintf`, and
-- `pthread_self` the number of the thread that calls. The parts under `#if 0` are not compiled.
use nastd.Prelude.{ℕ, List, ◌++◌, take}
use nastd.Prelude.Bytes.{Bytes}
use nastd.Cdb.Load.{codes}

-- LOG_ERR, LOG_WARNING and LOG_INFO
pub data Priority : Type 0 where
  err : Priority
  warning : Priority
  info : Priority

-- what `vsyslog` is called with
pub record Entry : Type 0 where
  pub priority : Priority
  pub format : Bytes
  pub args : List Bytes

-- `openlog` with LOG_PID|LOG_PERROR and LOG_DAEMON
pub record Opened : Type 0 where
  pub ident : Bytes

module _ (decimal : ℕ → Bytes) (pthread_self : ℕ) where
  -- `snprintf` leaves room for its NUL.
  unfoldable pub log_priority : Priority → Bytes → List Bytes → Entry
  log_priority priority fmt args = record {
    priority = priority;
    format = take 1023 (codes "[tid: " ++ (decimal pthread_self ++ (codes "] " ++ fmt)));
    args = args;
  }

  unfoldable pub log_err : Bytes → List Bytes → Entry
  unfolding log_priority
  log_err fmt args = log_priority err fmt args

  unfoldable pub log_warn : Bytes → List Bytes → Entry
  unfolding log_priority
  log_warn fmt args = log_priority warning fmt args

  unfoldable pub log_info : Bytes → List Bytes → Entry
  unfolding log_priority
  log_info fmt args = log_priority info fmt args

unfoldable pub log_open : Bytes → Opened
log_open progname = record { ident = progname }
