-- ===== src/Client/Receive.antt =====
-- client/nastapi.c: `getresponse`, which reads responses, for other threads too, until its own has
-- come or it gives up.
use nastd.Prelude.{
  ℕ, zero, suc, ◌+◌, ◌-◌, ◌*◌, ◌^◌, ◌==◌, ltb, leb, ◌||◌, if◌then◌else◌, Bool, false, [], ◌∷◌, ◌++◌,
  Option, none, some, length, take, drop,
}
use nastd.Prelude.Bytes.{Bytes}
use nastd.Prelude.Outcome.{returns, blocked, fault}
use nastd.Prelude.Run.{◌>>=◌, ◌>>◌, pure, crash}
use nastd.Client.{
  Errcode, nast_ok, nast_server_gone, nast_unknown_response, nast_timedout, getmyresponse,
  addresponse, checkresponse,
}
use nastd.Client.Session.{
  Arrival, select_failed, timed_out, recv_failed, closed, got, Call, Status, ok, err, unfinished,
  lock, unlock, fails,
}

-- The first bytes at `p`: the length, the number, and from the code on. `none` is a read behind the
-- array.
unfoldable pub read_frame : Bytes → Option (ℕ × ℕ × Bytes)
read_frame (a ∷ b ∷ c ∷ d ∷ rest) = some (a * 256 + b, c * 256 + d, rest)
read_frame _ = none

-- `bufflen <= 0 || bufflen > nbytes`, where `bufflen` is a `short`
unfoldable pub is_munged : ℕ → ℕ → Bool
is_munged bufflen nbytes = bufflen == 0 || leb (2 ^ 15) bufflen || ltb nbytes bufflen

-- The call of `addresponse`. A length below 5 asks `malloc` for a negative size, which is refused.
unfoldable pub save_response : ℕ → ℕ → Bytes → Call (Unit {0})
save_response reqid bufflen [] s = fault
save_response reqid bufflen (code ∷ rest) s =
    if ltb bufflen 5
    then (elim (addresponse s.responses reqid code [] (false ∷ [])) [
      | returns ((done, t), h) ↦ returns (tt, record s { responses = t })
      | blocked ↦ blocked
      | fault ↦ fault
    ])
    else if ltb (length rest) (bufflen - 5)
    then fault
    else elim (addresponse s.responses reqid code (take (bufflen - 5) rest) s.heap) [
      | returns ((done, t), h) ↦ returns (tt, record s { responses = t; heap = h })
      | blocked ↦ blocked
      | fault ↦ fault
    ]

-- what the loop over the responses of one read ends with
pub data Parsed : Type 0 where
  complete : Parsed
  munged : Parsed
  endless : Parsed

-- The loop, from `pos` on. A round passes a byte at least.
unfoldable pub parse_loop : ℕ → Bytes → ℕ → ℕ → Call Parsed
parse_loop zero buffer nbytes pos = pure endless
parse_loop (suc fuel) buffer nbytes pos =
    if leb nbytes pos then pure complete else elim (read_frame (drop pos buffer)) [
      | none ↦ crash
      | some (bufflen, reqid, rest) ↦
          if is_munged bufflen nbytes
          then pure munged
          else save_response reqid bufflen rest >> parse_loop fuel buffer nbytes (pos + bufflen)
    ]

-- What one pass of the code from `reread` on comes to: the response is there, a return of -1, a
-- `select` out of time, or a read that brought something.
pub data Pass : Type 0 where
  answered : Pass
  failed : Pass
  waited : Pass
  took : Pass
  stuck : Pass

abbrev pub give_up : ℕ → Errcode → Call Pass
give_up tid code = unlock >> fails tid code >> pure failed

unfoldable pub after_parse : ℕ → Parsed → Call Pass
after_parse tid complete = unlock >> pure took
after_parse tid munged = give_up tid nast_unknown_response
after_parse tid endless = pure stuck

unfoldable pub take_arrival : ℕ → Arrival → Call Pass
take_arrival tid select_failed = give_up tid nast_server_gone
take_arrival tid timed_out = unlock >> pure waited
take_arrival tid recv_failed = give_up tid nast_server_gone
take_arrival tid closed = give_up tid nast_server_gone
take_arrival tid (got [] behind) = give_up tid nast_server_gone
take_arrival tid (got (b ∷ bytes) behind) =
    if ltb (length (b ∷ bytes)) 5
    then give_up tid nast_unknown_response
    else parse_loop (length (b ∷ bytes) + 1) ((b ∷ bytes) ++ behind) (length (b ∷ bytes)) 0
      >>= after_parse tid

unfoldable pub next_arrival : Call Arrival
next_arrival s = elim s.wire [
  | [] ↦ returns (timed_out, s)
  | a ∷ wire ↦ returns (a, record s { wire = wire })
]

unfoldable pub check : ℕ → Call Bool
check tid s = elim (checkresponse s.responses tid) [
  | returns there ↦ returns (there, s)
  | blocked ↦ blocked
  | fault ↦ fault
]

unfoldable pub reread : ℕ → Call Pass
reread tid = lock >> check tid >>= λ there.
    if there then unlock >> pure answered else (next_arrival >>= take_arrival tid)

-- `ar->errcode == NAST_OK`, with `ar` not tested for NULL
unfoldable pub outcome_of : ℕ → Call Status
outcome_of tid s = elim (getmyresponse s.responses tid) [
  | returns none ↦ fault
  | returns (some ar) ↦ returns ((elim ar.errcode [ nast_ok ↦ ok | _ ↦ err ]), s)
  | blocked ↦ blocked
  | fault ↦ fault
]

-- `ntries` counts the reads that ran out of time.
unfoldable pub getresponse_loop : ℕ → ℕ → ℕ → Call Status
getresponse_loop zero tid ntries = pure unfinished
getresponse_loop (suc fuel) tid ntries = reread tid >>= λ pass. elim pass [
  | answered ↦ outcome_of tid
  | failed ↦ pure err
  | waited ↦
      if ltb ntries 50 then getresponse_loop fuel tid (ntries + 1) else fails tid nast_timedout
  | took ↦ getresponse_loop fuel tid ntries
  | stuck ↦ pure unfinished
]

-- A pass takes one arrival, or one of 51 tries, and the last finds the response.
unfoldable pub getresponse : ℕ → Call Status
getresponse tid s = getresponse_loop (length s.wire + 52) tid 0 s
