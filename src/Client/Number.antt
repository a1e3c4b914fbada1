-- ===== src/Client/Number.antt =====
-- client/thread.c: the number that `thread_id` gives a thread, and what becomes of the responses.
-- `pthread_self` and `getpid` are the numbers `self` and `pid`.
use nastd.Prelude.{
  ℕ, ◌+◌, ◌*◌, ◌%◌, ◌^◌, ◌≡◌, ◌≢◌, refl, ◌∙◌, ap, sym, arith, true, leb, some, length,
}
use mathlib.Core.Logic.{◌↔◌}
use nastd.Prelude.Bytes.{Bytes}
use nastd.Prelude.Alloc.{Heap}
use nastd.Prelude.Outcome.{returns, fault}
use nastd.Ipc.{htons}
use nastd.Client.{Responses, grow_responses, getmyresponse, addresponse, checkresponse, delresponse}
use nastd.Client.Table.{arrival, getmyresponse-addresponse}
use nastd.Client.Session.{Sphincter, make_room, change, sendcmd}

-- With THREADSAFECLIENT, as the `unsigned short` that its callers make of it: the two operands of `|`
-- have no bit in common, so that it is their sum.
unfoldable pub thread_id : ℕ → ℕ → ℕ
thread_id self pid = (self % 256 + pid * 256) % 2 ^ 16

-- without THREADSAFECLIENT
unfoldable pub process_id : ℕ → ℕ
process_id pid = pid % 2 ^ 16

-- the number on the wire
unfoldable pub add_reqid : ℕ → Bytes
add_reqid tid = htons tid

-- two threads of a process have one number exactly where the last eight bits of their handles agree
thread_id-eq :
    (self self' pid : ℕ) → (thread_id self pid ≡ thread_id self' pid) ↔ (self % 256 ≡ self' % 256)
unfolding thread_id
thread_id-eq self self' pid = (λ e. omega arith, λ e. omega arith)

-- Where the handles of two threads of a process agree in their last eight bits, an answer to the one,
-- once it is in the table, is there for the other as its own. Their number is not 65535.
pub thread_id-shares :
    (self self' pid : ℕ) (s : Responses) (code : ℕ) (body : Bytes) (h : Heap) {s' : Responses}
    {h' : Heap}
    → self % 256 ≡ self' % 256
    → thread_id self pid ≢ 65535
    → addresponse s (thread_id self pid) code body h ≡ returns ((true, s'), h')
    → (getmyresponse s' (thread_id self' pid)
        ≡ returns (some (arrival (thread_id self pid) code body)))
      × (checkresponse s' (thread_id self' pid) ≡ returns true)
thread_id-shares self self' pid s code body h same ne e =
    let one : thread_id self pid ≡ thread_id self' pid = (thread_id-eq self self' pid).1 same in
    let kept = getmyresponse-addresponse s (thread_id self pid) code body h 0 ne e in
    (ap (getmyresponse _) (sym one) ∙ kept.0, ap (checkresponse _) (sym one) ∙ kept.1)

sendcmd-zero : (buff : Bytes) (s : Sphincter) → sendcmd 0 buff s ≡ fault
unfolding sendcmd make_room change grow_responses delresponse getmyresponse
sendcmd-zero buff s =
    let room : leb 0 (length s.responses) ≡ true = ground arith in rw (room, sendcmd) refl

-- A thread whose handle and whose process have numbers that end in eight zero bits has the number 0,
-- and every command that it sends reads in front of the table of responses.
pub thread_id-faults :
    (self pid : ℕ) (buff : Bytes) (s : Sphincter)
    → self % 256 ≡ 0
    → pid % 256 ≡ 0
    → sendcmd (thread_id self pid) buff s ≡ fault
unfolding thread_id
thread_id-faults self pid buff s a b =
    let none_ : (self % 256 + pid * 256) % 2 ^ 16 ≡ 0 = omega arith in
    ap (λ n. sendcmd n buff s) none_ ∙ sendcmd-zero buff s
