-- ===== src/Client/Commands.antt =====
-- client/nastapi.c: the commands, `nast_get_result` and the errors. A query is the bytes of a C string
-- before its NUL. The tests of the handle for NULL are left out: there is one.
use nastd.Prelude.{
  ℕ, ◌+◌, ◌-◌, ◌%◌, ◌^◌, ◌==◌, ltb, leb, ◌&&◌, if◌then◌else◌, Bool, [], ◌∷◌, ◌++◌, Option, none,
  some, length, take,
}
use nastd.Prelude.Bytes.{Bytes}
use nastd.Prelude.Alloc.{malloc}
use nastd.Prelude.Outcome.{Outcome, returns, blocked, fault}
use nastd.Prelude.Run.{◌>>=◌, ◌>>◌, pure, crash}
use nastd.Ipc.{
  htons, nastcmd, nastadd, nastdel, nastupd, nastget, nastdie, nastoptget, nastoptset, naststats,
  nastsep, NastOptions,
}
use nastd.Server.Options.{set_options, flag_byte}
use nastd.Client.{
  Errcode, nast_ok, nast_nomem, nast_unknown_response, nast_unknown_opt, nast_server_err, NastArray,
  Buffer, null, stale, freed, held, Responses, getmyresponse, nast_set_error, build_result,
}
use nastd.Client.Session.{Call, Status, ok, err, exited, unfinished, change, fails, sendcmd}
use nastd.Client.Receive.{getresponse}

-- `sizeof(buffer)` in the commands
abbrev pub buffer_size : ℕ
buffer_size = 512

-- What `snprintf` leaves of a text in the room behind the length and the number: where the text just
-- fills it, a NUL in the place of its last byte. With a longer text `bufflen` is behind the buffer,
-- and `send_text` does not use the bytes.
unfoldable pub clip : Bytes → Bytes
clip text = if 4 + length text == buffer_size then take (buffer_size - 5) text ++ 0 ∷ [] else text

-- `bufflen`, a `short`: `none` is below 0
unfoldable pub short : ℕ → Option ℕ
short n = if ltb (n % 2 ^ 16) (2 ^ 15) then some (n % 2 ^ 16) else none

-- From the length on: what is written is the buffer up to `bufflen`. A length below 0 writes
-- nothing, and one behind the buffer reads there.
unfoldable pub send_text : ℕ → Bytes → Call Status
send_text tid text = elim (short (4 + length text)) [
  | none ↦ sendcmd tid []
  | some bufflen ↦
      if ltb buffer_size bufflen
      then crash
      else sendcmd tid (take bufflen (htons bufflen ++ (htons tid ++ text)))
]

-- the commands with one text: the result of `sendcmd` is not read
unfoldable pub ask : ℕ → Bytes → Call Status
ask tid text =
    send_text tid text >>= λ status. elim status [ exited ↦ pure exited | _ ↦ getresponse tid ]

unfoldable pub nast_add : ℕ → Bytes → Call Status
nast_add tid query = ask tid (clip (nastcmd ∷ nastadd ∷ query))

unfoldable pub nast_del : ℕ → Bytes → Call Status
nast_del tid query = ask tid (clip (nastcmd ∷ nastdel ∷ query))

unfoldable pub nast_get : ℕ → Bytes → Call Status
nast_get tid query = ask tid (clip (nastcmd ∷ nastget ∷ query))

unfoldable pub nast_stats : ℕ → Call Status
nast_stats tid = ask tid (nastcmd ∷ naststats ∷ [])

-- with no response
unfoldable pub nast_die : ℕ → Call Status
nast_die tid = send_text tid (nastcmd ∷ nastdie ∷ [])

-- The loop of `nast_upd` over the values, with `bufflen` bytes in the buffer: what it adds. It is
-- `none` for the return of -1, and a separator behind the end of the buffer is `fault`.
unfoldable pub add_values : ℕ → NastArray → Outcome (Option Bytes)
add_values bufflen [] = returns (some [])
add_values bufflen (s ∷ []) =
    if ltb buffer_size (bufflen + length s) then returns none else returns (some s)
add_values bufflen (s ∷ t ∷ items) =
    let rest = add_values (bufflen + length s + 1) (t ∷ items) in
    if ltb buffer_size (bufflen + length s)
    then returns none
    else if bufflen + length s == buffer_size
    then fault
    else elim rest [
      | returns (some b) ↦ returns (some (s ++ nastsep ∷ b))
      | returns none ↦ returns none
      | blocked ↦ blocked
      | fault ↦ fault
    ]

-- Where the key brings `bufflen` below 0, the first test of the loop fails, or the value is copied to
-- a place before the buffer.
unfoldable pub values_after : ℕ → NastArray → Outcome (Option Bytes)
values_after start [] = returns (some [])
values_after start (s ∷ items) = elim (short start) [
  | none ↦
      let below = 2 ^ 16 - start % 2 ^ 16 in
      if leb below (length s) && leb (length s) (below + buffer_size) then fault else returns none
  | some bufflen ↦ add_values bufflen (s ∷ items)
]

unfoldable pub nast_upd : ℕ → Bytes → NastArray → Call Status
nast_upd tid key valarray =
    let text = clip (nastcmd ∷ nastupd ∷ key ++ nastsep ∷ []) in
    elim (values_after (7 + length key) valarray) [
      | returns (some values) ↦ ask tid (text ++ values)
      | returns none ↦ fails tid nast_nomem
      | blocked ↦ λ s. blocked
      | fault ↦ crash
    ]

unfoldable pub options_text : NastOptions → Bytes
options_text o =
    nastcmd
    ∷ nastoptset
    ∷ 1
    ∷ flag_byte o.use_qcache
    ∷ 2
    ∷ flag_byte o.use_localdb
    ∷ 3
    ∷ flag_byte o.fallthrough_async
    ∷ 4
    ∷ flag_byte o.always_fallthrough
    ∷ 5
    ∷ flag_byte o.fail_once
    ∷ 7
    ∷ flag_byte o.no_fallthrough
    ∷ []

unfoldable pub nast_options_set : ℕ → NastOptions → Call Status
nast_options_set tid opts = ask tid (options_text opts)

-- the bytes of a response; `none` are bytes behind a NULL pointer
unfoldable pub result_bytes : Buffer → Option Bytes
result_bytes null = some []
result_bytes stale = none
result_bytes freed = some []
result_bytes (held body) = some body

-- `build_result`, and the error where it has no memory
unfoldable pub parse_result : ℕ → Bytes → Call (Option NastArray)
parse_result tid body s =
    let (built, h) = build_result body s.heap in
    elim built [
      | some aa ↦ returns (some aa, record s { heap = h })
      | none ↦ (change (λ t. nast_set_error t tid nast_nomem) >> pure none) (record s { heap = h })
    ]

unfoldable pub nast_get_result : ℕ → Call (Option NastArray)
nast_get_result tid s = elim (getmyresponse s.responses tid) [
  | returns none ↦ returns (none, s)
  | returns (some ar) ↦ elim (result_bytes ar.buffer) [
    | none ↦ fault
    | some body ↦ parse_result tid body s
  ]
  | blocked ↦ blocked
  | fault ↦ fault
]

-- the loop of `nast_options_get`, whose `switch` is that of `do_opt_set`
abbrev pub parse_options : ℕ → Bytes → NastOptions → Bool × NastOptions
parse_options = set_options

-- from the result on; `beyond` is what stands behind the bytes in the buffer
unfoldable pub read_options : ℕ → ℕ → NastOptions → Option NastArray → Call (Status × NastOptions)
read_options tid beyond opts none = crash
read_options tid beyond opts (some (item ∷ [])) =
    let (known, o) = parse_options beyond (take buffer_size item) opts in
    if known then pure (ok, o) else (fails tid nast_unknown_opt >>= λ status. pure (status, o))
read_options tid beyond opts (some _) =
    fails tid nast_unknown_response >>= λ status. pure (status, opts)

unfoldable pub nast_options_get : ℕ → ℕ → NastOptions → Call (Status × NastOptions)
nast_options_get tid beyond opts = ask tid (nastcmd ∷ nastoptget ∷ []) >>= λ status. elim status [
  | ok ↦ nast_get_result tid >>= read_options tid beyond opts
  | err ↦ pure (err, opts)
  | exited ↦ pure (exited, opts)
  | unfinished ↦ pure (unfinished, opts)
]

unfoldable pub nast_geterr : Responses → ℕ → Outcome Errcode
nast_geterr t tid = elim (getmyresponse t tid) [
  | returns none ↦ returns nast_ok
  | returns (some ar) ↦ returns (ar.errcode)
  | blocked ↦ blocked
  | fault ↦ fault
]

-- What `nast_errmsg` returns: an entry of `nast_errmsgs`, or the server's own message.
pub data Message : Type 0 where
  standard : Errcode → Message
  own : Bytes → Message

-- from the result on; the message is copied to a block of its own
unfoldable pub copy_message : Option NastArray → Call Message
copy_message (some (item ∷ aa)) s =
    let (room, h) = malloc s.heap in
    elim room [
      | none ↦ returns (standard nast_unknown_response, record s { heap = h })
      | some _ ↦ returns (own item, record s { heap = h })
    ]
copy_message _ s = returns (standard nast_unknown_response, s)

unfoldable pub nast_errmsg : ℕ → Call Message
nast_errmsg tid s = elim (nast_geterr s.responses tid) [
  | returns nast_server_err ↦ (nast_get_result tid >>= copy_message) s
  | returns code ↦ returns (standard code, s)
  | blocked ↦ blocked
  | fault ↦ fault
]
