-- ===== src/Client/Session.antt =====
-- client/nastapi.c: the connection, with its lock, and `sendcmd`. One thread uses it, whose number
-- `thread_id` gives; the `_nast_mutex_` functions of client/thread.c are the flag `locked`.
use nastd.Prelude.{ℕ, if◌then◌else◌, Bool, true, false, List, ◌++◌}
use nastd.Prelude.Bytes.{Bytes}
use nastd.Prelude.Alloc.{Heap}
use nastd.Prelude.Outcome.{Outcome, returns, blocked, fault}
use nastd.Prelude.Run.{Run, ◌>>=◌, ◌>>◌, pure}
use nastd.Socket.{Wrote, write_loop}
use nastd.Client.{Errcode, nast_server_gone, Responses, nast_set_error, grow_responses, delresponse}

-- What `select` and then `recv` give: an error of one of them, nothing in time, the end of the
-- connection, or bytes, with what stands behind them in the array. Past the end of a list of these
-- every `select` runs out of time.
pub data Arrival : Type 0 where
  select_failed : Arrival
  timed_out : Arrival
  recv_failed : Arrival
  closed : Arrival
  got : (bytes behind : Bytes) → Arrival

-- `struct _nast_sphincter`, with what its socket has taken and will give
pub record Sphincter : Type 0 where
  pub responses : Responses
  pub locked : Bool
  pub heap : Heap
  pub net : List Wrote
  pub sent : Bytes
  pub wire : List Arrival

abbrev pub Call {ℓ} : Type ℓ → Type ℓ
Call = Run Sphincter

-- 0 and -1; the process has ended; or the fuel of a loop is used up
pub data Status : Type 0 where
  ok : Status
  err : Status
  exited : Status
  unfinished : Status

unfoldable pub lock : Call (Unit {0})
lock s = if s.locked then blocked else returns (tt, record s { locked = true })

unfoldable pub unlock : Call (Unit {0})
unlock s = returns (tt, record s { locked = false })

-- a call that changes the table
unfoldable pub change : (Responses → Outcome Responses) → Call (Unit {0})
change f s = elim (f s.responses) [
  | returns t ↦ returns (tt, record s { responses = t })
  | blocked ↦ blocked
  | fault ↦ fault
]

-- the return of -1 with an error set
unfoldable pub fails : ℕ → Errcode → Call Status
fails tid code = change (λ t. nast_set_error t tid code) >> pure err

-- `grow_responses`, and `exit` where it fails
unfoldable pub make_room : ℕ → Call Bool
make_room tid s =
    let ((done, t), h) = grow_responses s.responses tid s.heap in
    returns (done, record s { responses = t; heap = h })

unfoldable pub write_cmd : Bytes → Call Bool
write_cmd buff s =
    let (done, net, out) = write_loop s.net buff in
    returns (done, record s { net = net; sent = s.sent ++ out })

unfoldable pub sendcmd : ℕ → Bytes → Call Status
sendcmd tid buff = make_room tid >>= λ room.
    if room
    then (change (λ t. delresponse t tid) >> write_cmd buff >>= λ done.
        if done then pure ok else fails tid nast_server_gone)
    else pure exited
