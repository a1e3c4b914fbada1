-- ===== src/Client/Delivered.antt =====
-- A response on the wire reaches the caller of `getresponse`, and `nast_get_result` takes it apart.
use nastd.Prelude.{
  ℕ, suc, ◌+◌, ◌≡◌, ◌≢◌, refl, sym, ap, arith, ◌==◌, ltb, if◌then◌else◌, Bool, true, false, List,
  [], ◌∷◌, ◌++◌, length,
}
use mathlib.Core.List.{append-nil}
use nastd.Prelude.Bytes.{Bytes}
use nastd.Prelude.Alloc.{Heap}
use nastd.Prelude.Outcome.{returns}
use nastd.Prelude.Run.{◌>>=◌}
use nastd.Ipc.{nastok}
use nastd.Server.Respond.{frame}
use nastd.Client.{Responses, addresponse, checkresponse}
use nastd.Client.Table.{getmyresponse-addresponse}
use nastd.Client.Session.{Sphincter, Arrival, got, ok, err, lock, unlock}
use nastd.Client.Receive.{
  after_parse, take_arrival, next_arrival, check, reread, answered, took, outcome_of,
  getresponse_loop, getresponse,
}
use nastd.Client.Answers.{Answer, encode, encode_all, Fits, deliver, deliver_all, parse_loop_lem}

-- a read that brings one response
take_arrival_lem :
    (tid : ℕ) (a : Answer) (behind : Bytes) (s : Sphincter) {t : Responses} {done : Bool} {h : Heap}
    → Fits a
    → addresponse s.responses a.reqid a.code a.items s.heap ≡ returns ((done, t), h)
    → take_arrival tid (got (encode a) behind) s
      ≡ returns (took, record s { responses = t; heap = h; locked = false })
unfolding take_arrival after_parse unlock deliver deliver_all
take_arrival_lem tid a behind s f e =
    let long : ltb (length (encode a)) 5 ≡ false = ground arith in
    let same : encode a ++ behind ≡ encode_all (a ∷ []) ++ behind =
      ap (λ t. t ++ behind) (sym (append-nil (encode a))) in
    let size : length (encode a) ≡ length (encode_all (a ∷ [])) =
      ap length (sym (append-nil (encode a))) in
    let parsed =
      parse_loop_lem (a ∷ []) (length (encode a) + 1) (encode a ++ behind) (length (encode a)) 0
        behind s (f, tt) (omega (arith, size)) same (omega (arith, size)) in
    rw (long, take_arrival) (rw (parsed, ◌>>=◌) (rw (e, ◌>>=◌) refl))

reread-took :
    (tid : ℕ) (a : Answer) (behind : Bytes) (w : List Arrival) (s : Sphincter) {t : Responses}
    {done : Bool} {h : Heap}
    → Fits a
    → s.locked ≡ false
    → s.wire ≡ got (encode a) behind ∷ w
    → checkresponse s.responses tid ≡ returns false
    → addresponse s.responses a.reqid a.code a.items s.heap ≡ returns ((done, t), h)
    → reread tid s ≡ returns (took, record s { responses = t; heap = h; locked = false; wire = w })
unfolding reread lock check next_arrival
reread-took tid a behind w s f free arrived none_yet e =
    rw (free, reread)
      (rw (none_yet, ◌>>=◌, check)
        (rw (arrived, ◌>>=◌, next_arrival)
          (take_arrival_lem tid a behind (record s { locked = true; wire = w }) f e)))

pub reread-answered :
    (tid : ℕ) (s : Sphincter)
    → s.locked ≡ false
    → checkresponse s.responses tid ≡ returns true
    → reread tid s ≡ returns (answered, s)
unfolding reread lock unlock check
reread-answered tid s free there = rw (free, reread) (rw (there, ◌>>=◌, check) refl)

-- A response whose code is OK makes `getresponse` return 0, any other -1: where the connection
-- brings the response as one read, nothing has come for the thread before, and there is memory,
-- `getresponse` keeps the response and returns.
pub getresponse_delivered :
    (tid : ℕ) (code : ℕ) (items behind : Bytes) (w : List Arrival) (s : Sphincter) {t : Responses}
    {h : Heap}
    → Fits (record { reqid = tid; code = code; items = items })
    → tid ≢ 65535
    → s.locked ≡ false
    → s.wire ≡ got (frame tid code items) behind ∷ w
    → checkresponse s.responses tid ≡ returns false
    → addresponse s.responses tid code items s.heap ≡ returns ((true, t), h)
    → getresponse tid s
      ≡ returns (
        (if code == nastok then ok else err),
        record s { responses = t; heap = h; locked = false; wire = w },
      )
unfolding getresponse getresponse_loop outcome_of
getresponse_delivered tid code items behind w s {t} {h} f ne free arrived none_yet e =
    let kept = getmyresponse-addresponse s.responses tid code items s.heap 0 ne e in
    let after : Sphincter = record s { responses = t; heap = h; locked = false; wire = w } in
    let fuel : length s.wire + 52 ≡ suc (suc (length w + 51)) = rw arrived (omega arith) in
    rw (fuel, getresponse)
      (rw
        (
          reread-took tid (record { reqid = tid; code = code; items = items }) behind w s f free
              arrived none_yet e,
          ◌>>=◌,
        )
        (rw (reread-answered tid after refl kept.1, ◌>>=◌)
          (rw (kept.0, outcome_of) (ground arith))))
