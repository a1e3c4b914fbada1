-- ===== src/Server/Command.antt =====
-- server/nastdio.c: `process_cmd`, `io_looper` and `io_new`.
pub mod Frames
pub mod One
use nastd.Prelude.{
  ℕ, zero, suc, ◌+◌, ◌-◌, ◌*◌, ◌%◌, ◌^◌, ◌==◌, ltb, leb, if◌then◌else◌, Bool, true, false, not,
  ◌&&◌, ◌||◌, List, [], ◌∷◌, ◌++◌, Option, none, some, length, take, drop, get_elem?,
}
use nastd.Prelude.Bytes.{Bytes}
use nastd.Prelude.Alloc as Heaped
use nastd.Prelude.Alloc.{Alloc, malloc}
use nastd.Prelude.Outcome.{Outcome, returns, blocked, fault}
use nastd.Thread.{rw_mutex_new}
use nastd.Ipc.{
  nastcmd, nastadd, nastdel, nastupd, nastget, nastdie, nastoptget, nastoptset, naststats,
}
use nastd.Server.{ClientOpts, Server, Rc, ok, err, bye, Act, ◌>>=◌, ◌>>◌, pure, crash}
use nastd.Server.Options.{set_default_opts, do_opt_set, do_opt_set_far, do_opt_get}
use nastd.Server.Lookup.{do_get}
use nastd.Server.Update.{do_update}
use nastd.Server.Stats.{Report, do_stats}

-- The first bytes at `p`. `outside` is a read behind the array.
pub data Header : Type 0 where
  outside : Header
  not_command : Header
  header : (len reqid cmd : ℕ) (rest : Bytes) → Header

unfoldable pub read_header : Bytes → Header
read_header (a ∷ b ∷ c ∷ d ∷ e ∷ []) = if e == nastcmd then outside else not_command
read_header (a ∷ b ∷ c ∷ d ∷ e ∷ cmd ∷ rest) =
    if e == nastcmd then header (a * 256 + b) (c * 256 + d) cmd rest else not_command
read_header _ = outside

-- `p += len`, where `len` is a `short`; `none` is before the array
unfoldable pub advance : ℕ → ℕ → Option ℕ
advance pos len =
    if ltb len (2 ^ 15)
    then some (pos + len)
    else if ltb (pos + len) (2 ^ 16)
    then none
    else some (pos + len - 2 ^ 16)

-- `p+l` and `len-l`: `crash` where the length is below 6 and the difference wraps, and where the
-- bytes are not all in the array
unfoldable pub with_payload : ℕ → Bytes → (Bytes → Act Rc) → Act Rc
with_payload len rest f =
    if ltb len 6 || leb (2 ^ 15) len || ltb (length rest) (len - 6)
    then crash
    else f (take (len - 6) rest)

-- the byte behind the payload, which an odd `do_opt_set` reads
unfoldable pub opt_set_at : ℕ → ℕ → Bytes → Bytes → Act Rc
opt_set_at reqid len rest payload = elim (get_elem? rest (len - 6)) [
  | some beyond ↦ do_opt_set reqid beyond payload
  | none ↦ if len % 2 == 0 then do_opt_set reqid 0 payload else do_opt_set_far reqid rest
]

-- a length below 6 wraps, and the loop goes through the bytes behind the request
unfoldable pub opt_set_payload : ℕ → ℕ → Bytes → Act Rc
opt_set_payload len reqid rest =
    if ltb len 6 || leb (2 ^ 15) len || ltb (length rest) (len - 6)
    then do_opt_set_far reqid rest
    else opt_set_at reqid len rest (take (len - 6) rest)

-- the loop goes on where a handler returns 0, and ends where it does not
abbrev pub on_ok : Act (Option Rc) → Rc → Act (Option Rc)
on_ok next ok = next
on_ok next err = pure (some err)
on_ok next bye = pure (some bye)

module _ (md5_calc : Bytes → Bytes) (now timeout uptime : ℕ) (report : Report) where
  -- the `switch`
  unfoldable pub run_command : ℕ → ℕ → ℕ → Bytes → Act Rc
  run_command len reqid cmd rest =
      if cmd == nastdie
      then pure bye
      else if cmd == nastoptset
      then opt_set_payload len reqid rest
      else if cmd == nastoptget
      then do_opt_get reqid
      else if cmd == nastget
      then with_payload len rest (do_get md5_calc now timeout reqid)
      else if cmd == nastadd
      then pure ok
      else if cmd == nastdel
      then pure ok
      else if cmd == nastupd
      then with_payload len rest (do_update md5_calc now timeout reqid)
      else if cmd == naststats
      then do_stats report uptime reqid
      else pure err

  -- The loop. `buffer` is the whole array, of which `bufflen` bytes have been received. The result
  -- is `none` where the fuel is used up.
  unfoldable pub process_loop : ℕ → Bytes → ℕ → ℕ → Act (Option Rc)
  process_loop zero buffer bufflen pos = pure none
  process_loop (suc fuel) buffer bufflen pos =
      if not (ltb pos bufflen) then pure (some ok) else elim (read_header (drop pos buffer)) [
        | outside ↦ crash
        | not_command ↦ pure (some err)
        | header len reqid cmd rest ↦
            run_command len reqid cmd rest
            >>= on_ok (elim (advance pos len) [
              | none ↦ crash
              | some next ↦ process_loop fuel buffer bufflen next
            ])
      ]

  unfoldable pub process_cmd : ℕ → Bytes → ℕ → Act (Option Rc)
  process_cmd fuel buffer bufflen =
      if ltb bufflen 6 then pure (some err) else process_loop fuel buffer bufflen 0

  -- What `recv` gives: an error, the end of the connection, or bytes, with what stands behind them
  -- and the NUL in the array.
  pub data Recv : Type 0 where
    broken : Recv
    closed : Recv
    got : (bytes stale : Bytes) → Recv

  -- `io_looper` over what it receives. The flag is true where it has ended the connection, and false
  -- where a command has not ended or where it goes on to receive. With 1024 bytes received the NUL
  -- is written behind the array.
  unfoldable pub io_looper : ℕ → List Recv → Act Bool
  io_looper fuel [] = pure false
  io_looper fuel (broken ∷ more) = pure true
  io_looper fuel (closed ∷ more) = pure true
  io_looper fuel (got bytes stale ∷ more) =
      if leb 1024 (length bytes)
      then crash
      else process_cmd fuel (bytes ++ 0 ∷ stale) (length bytes) >>= λ rc. elim rc [
        | none ↦ pure false
        | some bye ↦ pure true
        | some ok ↦ io_looper fuel more
        | some err ↦ io_looper fuel more
      ]

-- Four blocks: the client, its options, their lock, and the thread.
unfoldable pub io_new : ℕ → Alloc ClientOpts
unfolding set_default_opts
io_new s = Heaped.◌>>◌ malloc (
    Heaped.◌>>◌ malloc (
      Heaped.◌>>◌ malloc (
        Heaped.◌>>◌ malloc
          (Heaped.pure (record { sock = s; opts = set_default_opts; opt_lk = rw_mutex_new })))))
