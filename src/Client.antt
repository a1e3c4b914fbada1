-- ===== src/Client.antt =====
-- client/nastapi.c: the client library. The responses that have arrived are kept by the number of
-- the thread that waits for them. This file has the table of responses and the parsing of a result.
-- The children have the connection and the commands on it (Connect, Session, Receive, Commands),
-- what these do (Results, Table, Answers, Delivered, Parsed, Ends, Asked), and a command's way to
-- the server and back (Exchange, Update).
pub mod Results
pub mod Table
pub mod Connect
pub mod Session
pub mod Receive
pub mod Answers
pub mod Commands
pub mod Delivered
pub mod Asked
pub mod Exchange
pub mod Update
pub mod Options
pub mod Number
pub mod Reported
pub mod Replies
pub mod Shared
pub mod Parsed
pub mod Finishes
pub mod Ends
pub mod Whole
pub mod Returns
pub mod Unheard
use nastd.Prelude.{
  ℕ, zero, suc, ◌+◌, ◌-◌, ◌%◌, ◌==◌, ltb, leb, if◌then◌else◌, Bool, true, false, not, List, [], ◌∷◌,
  ◌++◌, Option, none, some, length, get_elem?, set,
}
use nastd.Prelude.Bytes.{Bytes}
use nastd.Prelude.Alloc.{Heap, Alloc, ◌>>=◌, ◌>>◌, pure, malloc}
use nastd.Prelude.Outcome.{Outcome, returns, blocked, fault}
use nastd.Ipc.{nastok, nasterr, nastsep}

-- `errcodes`
pub data Errcode : Type 0 where
  nast_ok : Errcode
  nast_server_gone : Errcode
  nast_nomem : Errcode
  nast_unknown_response : Errcode
  nast_timedout : Errcode
  nast_unknown_opt : Errcode
  nast_server_err : Errcode

-- `nast_array`: a string is the list of its bytes
abbrev pub NastArray : Type 0
NastArray = List Bytes

-- two blocks, the second with a NUL behind the bytes
unfoldable pub nast_string_new : Bytes → Alloc Bytes
nast_string_new data_bytes = do malloc; malloc; pure data_bytes

unfoldable pub nast_array_new : Alloc NastArray
nast_array_new = do malloc; pure []

-- `realloc` when the room for ten more items is used up. On -1 (`none`) the caller drops the array.
unfoldable pub nast_array_add : NastArray → Bytes → Alloc NastArray
unfolding nast_string_new
nast_array_add array data_bytes = do
  (if length array % 10 == 0 then malloc else pure tt)
  item ← nast_string_new data_bytes
  pure (array ++ item ∷ [])

-- The loop of `build_result`: `start` is the bytes from `s_p` to `e_p`, the last argument what is
-- left of the buffer.
unfoldable pub result_items : NastArray → Bytes → Bytes → Alloc NastArray
result_items aa start [] = nast_array_add aa start
result_items aa start (c ∷ left) =
    let longer = result_items aa (start ++ c ∷ []) left in
    if c == nastsep then (nast_array_add aa start >>= λ aa'. result_items aa' [] left) else longer

-- The setting of the error for want of memory is left to the caller.
unfoldable pub build_result : Bytes → Alloc NastArray
build_result buff = nast_array_new >>= λ aa. result_items aa [] buff

-- `buffer` with `bufflen`: NULL with a length of 0, NULL with the length of a buffer before it, a
-- block that has been released with a length of 0, or bytes
pub data Buffer : Type 0 where
  null : Buffer
  stale : Buffer
  freed : Buffer
  held : Bytes → Buffer

-- `nast_response`: `arrived` is that `reqid`, as a `short`, is not -1, which 65535 is.
pub record NastResponse : Type 0 where
  pub buffer : Buffer
  pub errcode : Errcode
  pub arrived : Bool

unfoldable pub response_new : Alloc NastResponse
response_new = do malloc; pure (record { buffer = null; errcode = nast_ok; arrived = false })

-- `responses`, of which there are `nthreads`
abbrev pub Responses : Type 0
Responses = List NastResponse

-- The numbers begin at 1; for 0 the place before the table is read, which is `fault`. `none` is NULL.
unfoldable pub getmyresponse : Responses → ℕ → Outcome (Option NastResponse)
getmyresponse s zero = fault
getmyresponse s (suc i) = returns (get_elem? s i)

-- a write through the pointer that `getmyresponse` gave
unfoldable pub put_response : Responses → ℕ → NastResponse → Responses
put_response s zero ar = s
put_response s (suc i) ar = set s i ar

unfoldable pub nast_set_error : Responses → ℕ → Errcode → Outcome Responses
nast_set_error s reqid code = elim (getmyresponse s reqid) [
  | returns none ↦ returns s
  | returns (some ar) ↦ returns (put_response s reqid (record ar { errcode = code }))
  | blocked ↦ blocked
  | fault ↦ fault
]

-- the responses that `grow_responses` makes
new_responses : ℕ → Alloc Responses
new_responses zero = pure []
new_responses (suc n) = do ar ← response_new; rest ← new_responses n; pure (ar ∷ rest)

-- Where memory runs out the new places are forgotten, since `nthreads` is not set.
unfoldable pub grow_responses : Responses → ℕ → Heap → (Bool × Responses) × Heap
unfolding new_responses response_new
grow_responses s maxitems h =
    if leb maxitems (length s)
    then ((true, s), h)
    else (let (o, h') = (malloc >> new_responses (maxitems - length s)) h in
        elim o [ none ↦ ((false, s), h') | some more ↦ ((true, s ++ more), h') ])

-- where there is no memory for a new buffer: `bufflen` stays
abbrev pub without_buffer : Buffer → Buffer
without_buffer stale = stale
without_buffer (held (b ∷ body)) = stale
without_buffer _ = null

abbrev pub error_of : ℕ → Errcode
error_of code =
    if code == nastok
    then nast_ok
    else if code == nasterr
    then nast_server_err
    else nast_unknown_response

-- With the code at the head of the buffer. The flag is `rc == 0`.
unfoldable pub addresponse : Responses → ℕ → ℕ → Bytes → Heap → Outcome ((Bool × Responses) × Heap)
addresponse s reqid code body h = elim (nast_set_error s reqid (error_of code)) [
  | blocked ↦ blocked
  | fault ↦ fault
  | returns s' ↦ elim (getmyresponse s' reqid) [
    | blocked ↦ blocked
    | fault ↦ fault
    | returns none ↦ returns ((false, s'), h)
    | returns (some ar) ↦
        let (o, h') = malloc h in
        elim o [
          | none ↦ returns (
            (
              false,
              put_response s' reqid (record {
                buffer = without_buffer ar.buffer;
                errcode = nast_nomem;
                arrived = not (reqid == 65535);
              }),
            ),
            h',
          )
          | some _ ↦ returns (
            (
              true,
              put_response s' reqid
                  (record ar { buffer = held body; arrived = not (reqid == 65535) }),
            ),
            h',
          )
        ]
  ]
]

-- The pointer to the released block is kept; to release it again is `fault`.
unfoldable pub delresponse : Responses → ℕ → Outcome Responses
delresponse s reqid = elim (getmyresponse s reqid) [
  | returns none ↦ returns s
  | returns (some ar) ↦ elim ar.buffer [
    | null ↦ returns (put_response s reqid (record ar { arrived = false }))
    | stale ↦ returns (put_response s reqid (record ar { buffer = null; arrived = false }))
    | freed ↦ fault
    | held b ↦ returns (put_response s reqid (record ar { buffer = freed; arrived = false }))
  ]
  | blocked ↦ blocked
  | fault ↦ fault
]

-- The flag is `rc == 0`.
unfoldable pub checkresponse : Responses → ℕ → Outcome Bool
checkresponse s reqid =
    if ltb (length s) reqid then returns false else elim (getmyresponse s reqid) [
      | returns none ↦ returns false
      | returns (some ar) ↦ returns (ar.arrived)
      | blocked ↦ blocked
      | fault ↦ fault
    ]
