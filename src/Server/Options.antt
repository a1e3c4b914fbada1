-- ===== src/Server/Options.antt =====
-- server/nastdio.c: the client's options, `set_default_opts`, `do_opt_set` and `do_opt_get`.
pub mod Kept
pub mod Keeping
use nastd.Prelude.{
  ℕ, ◌+◌, ◌==◌, if◌then◌else◌, Bool, true, false, not, List, [], ◌∷◌, ◌++◌, Option, none, some,
}
use nastd.Prelude.Bytes.{Bytes}
use nastd.Prelude.Outcome.{Outcome, returns, blocked, fault}
use nastd.Thread.{RwMutex, rw_mutex_read_lock, rw_mutex_write_lock, rw_mutex_unlock}
use nastd.Cdb.Load.{codes}
use nastd.Ipc.{NastOptions, nastok, nasterr}
use nastd.Server.{ClientOpts, Server, Rc, ok, err, Act, ◌>>=◌, ◌>>◌, pure}
use nastd.Server.Respond.{send_response}

unfoldable pub set_default_opts : NastOptions
set_default_opts = record {
  use_qcache = true;
  use_localdb = true;
  fallthrough_async = false;
  always_fallthrough = false;
  fail_once = false;
  no_fallthrough = false;
}

-- the `switch` of `do_opt_set` for one option and its value; `none` is the default case
unfoldable pub set_option : ℕ → ℕ → NastOptions → Option NastOptions
set_option opt value o =
    let flag = not (value == 0) in
    if opt == 1
    then some (record o { use_qcache = flag })
    else if opt == 2
    then some (record o { use_localdb = flag })
    else if opt == 3
    then some (record o { fallthrough_async = flag })
    else if opt == 4
    then some (record o { always_fallthrough = flag })
    else if opt == 5
    then some (record o { fail_once = flag })
    else if opt == 7
    then some (record o { no_fallthrough = flag })
    else none

-- The loop, two bytes at a time. The options that were set before an unknown one stay set; the flag
-- is false then. After an odd number of bytes the last value is read from the byte behind, `beyond`.
unfoldable pub set_options : ℕ → Bytes → NastOptions → Bool × NastOptions
set_options beyond [] o = (true, o)
set_options beyond (opt ∷ []) o = elim (set_option opt beyond o) [
  | none ↦ (false, o)
  | some o' ↦ (true, o')
]
set_options beyond (opt ∷ value ∷ buffer) o = elim (set_option opt value o) [
  | none ↦ (false, o)
  | some o' ↦ set_options beyond buffer o'
]

-- `opt_lk`
unfoldable pub with_lock : (RwMutex → Option RwMutex) → Act (Unit {0})
with_lock take s = elim (take s.cops.opt_lk) [
  | none ↦ blocked
  | some lk ↦ returns (tt, record s { cops = record (s.cops) { opt_lk = lk } })
]

unfoldable pub release_lock : Act (Unit {0})
release_lock s = elim (rw_mutex_unlock s.cops.opt_lk) [
  | none ↦ returns (tt, s)
  | some (w, lk) ↦ returns (tt, record s { cops = record (s.cops) { opt_lk = lk } })
]

unfoldable pub store_options : ℕ → Bytes → Act Bool
store_options beyond buffer s =
    let (known, o) = set_options beyond buffer s.cops.opts in
    returns (known, record s { cops = record (s.cops) { opts = o } })

unfoldable pub do_opt_set : ℕ → ℕ → Bytes → Act Rc
do_opt_set reqid beyond buffer = do
  with_lock rw_mutex_write_lock
  known ← store_options beyond buffer
  release_lock
  (if known
      then send_response reqid nastok []
      else send_response reqid nasterr (codes "Sent unknown option" ∷ []) >> pure err)

-- The loop where the length is one that the bytes do not have: it reads on up to an option that it
-- does not know, or is `none` where it leaves the array.
unfoldable pub set_far : Bytes → NastOptions → Option NastOptions
set_far [] o = none
set_far (opt ∷ []) o = elim (set_option opt 0 o) [ none ↦ some o | some _ ↦ none ]
set_far (opt ∷ value ∷ buffer) o = elim (set_option opt value o) [
  | none ↦ some o
  | some o' ↦ set_far buffer o'
]

unfoldable pub store_far : Bytes → Act (Unit {0})
store_far buffer s = elim (set_far buffer s.cops.opts) [
  | none ↦ fault
  | some o ↦ returns (tt, record s { cops = record (s.cops) { opts = o } })
]

unfoldable pub do_opt_set_far : ℕ → Bytes → Act Rc
do_opt_set_far reqid buffer = do
  with_lock rw_mutex_write_lock
  store_far buffer
  release_lock
  send_response reqid nasterr (codes "Sent unknown option" ∷ [])
  pure err

abbrev pub flag_byte : Bool → ℕ
flag_byte b = if b then 1 else 0

-- the buffer that `do_opt_get` fills
unfoldable pub opt_bytes : NastOptions → Bytes
opt_bytes o =
    1
    ∷ flag_byte o.use_qcache
    ∷ 2
    ∷ flag_byte o.use_localdb
    ∷ 3
    ∷ flag_byte o.fallthrough_async
    ∷ 4
    ∷ flag_byte o.always_fallthrough
    ∷ 5
    ∷ flag_byte o.fail_once
    ∷ 7
    ∷ flag_byte o.no_fallthrough
    ∷ []

unfoldable pub do_opt_get : ℕ → Act Rc
do_opt_get reqid = with_lock rw_mutex_read_lock >>= λ _.
    (λ s. returns (opt_bytes s.cops.opts, s)) >>= λ buffer.
    release_lock >>= λ _. send_response reqid nastok (buffer ∷ [])
