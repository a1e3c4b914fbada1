-- ===== src/Server/Respond.antt =====
-- server/nastdio.c: `arr_send_response` and `send_response`.
pub mod Sent
use nastd.Prelude.{
  ℕ, ◌+◌, ltb, ◌==◌, if◌then◌else◌, Bool, true, false, List, [], ◌∷◌, ◌++◌, Option, none, some,
  length, take, drop,
}
use nastd.Prelude.Bytes.{Bytes}
use nastd.Prelude.Outcome.{Outcome, returns, blocked, fault}
use nastd.Array.{Array, array_new, va_array_add}
use nastd.Socket.{write_loop}
use nastd.Ipc.{nastsep, htons}
use nastd.Server.{Server, Rc, ok, err, Act, ◌>>=◌, pure, alloc}

-- `sizeof(buffer)`
abbrev pub buffer_size : ℕ
buffer_size = 1024

-- The loop over the items, from `l` on: what it adds to the buffer. It is `none` for the return of
-- -1, and a separator behind the end of the buffer is `fault`.
unfoldable pub fill_items : ℕ → List Bytes → Outcome (Option Bytes)
fill_items l [] = returns (some [])
fill_items l (s ∷ []) = if ltb buffer_size (l + length s) then returns none else returns (some s)
fill_items l (s ∷ t ∷ items) =
    let rest = fill_items (l + length s + 1) (t ∷ items) in
    if ltb buffer_size (l + length s)
    then returns none
    else if l + length s == buffer_size
    then fault
    else elim rest [
      | returns (some b) ↦ returns (some (s ++ nastsep ∷ b))
      | returns none ↦ returns none
      | blocked ↦ blocked
      | fault ↦ fault
    ]

-- The whole response: the length, the request's number, the code, and the items.
abbrev pub frame : ℕ → ℕ → Bytes → Bytes
frame reqid r_code items = htons (5 + length items) ++ (htons reqid ++ r_code ∷ items)

unfoldable pub write_all : Bytes → Act Rc
write_all buffer s =
    let (done, net, out) = write_loop s.net buffer in
    returns ((if done then ok else err), record s { net = net; sent = s.sent ++ out })

unfoldable pub arr_send_response : ℕ → ℕ → Array → Act Rc
unfolding fill_items
arr_send_response reqid r_code aa s = elim (fill_items 5 aa) [
  | returns (some items) ↦ write_all (frame reqid r_code items) s
  | returns none ↦ returns (err, s)
  | blocked ↦ blocked
  | fault ↦ fault
]

-- The test for NULL of `array_new` is missing, and `va_array_add` writes through it.
unfoldable pub send_response : ℕ → ℕ → List Bytes → Act Rc
send_response reqid r_code args = alloc array_new >>= λ block. elim block [
  | none ↦ (λ s. fault)
  | some empty ↦ alloc (va_array_add empty args) >>= λ built. elim built [
    | none ↦ pure err
    | some aa ↦ arr_send_response reqid r_code aa
  ]
]
