-- ===== src/Client/Ends.antt =====
-- client/nastapi.c: the calls of `select` that run out of time in `getresponse`.
use nastd.Prelude.{
  ℕ, zero, suc, ◌+◌, ◌<◌, ◌≡◌, refl, ◌∙◌, arith, ltb, true, false, List, ◌∷◌, length,
}
use nastd.Prelude.Outcome.{returns}
use nastd.Prelude.Run.{◌>>=◌}
use nastd.Client.{nast_timedout, Responses, nast_set_error, checkresponse}
use nastd.Client.Session.{Arrival, timed_out, Sphincter, err, lock, unlock, change, fails}
use nastd.Client.Receive.{
  waited, take_arrival, next_arrival, check, reread, getresponse_loop, getresponse,
}

-- a `select` runs out of time so often, and then `w` comes
abbrev pub timeouts : ℕ → List Arrival → List Arrival
timeouts zero w = w
timeouts (suc n) w = timed_out ∷ timeouts n w

-- the lock is free, and the response is not there
abbrev pub IsWaiting : ℕ → Sphincter → Type 0
IsWaiting tid s = (s.locked ≡ false) × (checkresponse s.responses tid ≡ returns false)

-- the client with the lock free and `w` still to come
abbrev pub quiet : List Arrival → Sphincter → Sphincter
quiet w s = record s { locked = false; wire = w }

reread-timed_out :
    (tid : ℕ) (w : List Arrival) (s : Sphincter)
    → IsWaiting tid s
    → s.wire ≡ timed_out ∷ w
    → reread tid s ≡ returns (waited, quiet w s)
unfolding reread lock unlock check next_arrival take_arrival
reread-timed_out tid w s (free, missing) comes =
    rw (free, reread) (rw (missing, ◌>>=◌) (rw (comes, ◌>>=◌) refl))

pub timeouts_loop :
    (fuel tid n ntries : ℕ) (w : List Arrival) (s : Sphincter)
    → IsWaiting tid s
    → s.wire ≡ timeouts (suc n) w
    → ntries + n ≡ 50
    → n < fuel
    → getresponse_loop fuel tid ntries s ≡ fails tid nast_timedout (quiet w s)
unfolding getresponse_loop
timeouts_loop zero tid n ntries w s q comes tries enough = absurd (omega arith)
timeouts_loop (suc fuel) tid zero ntries w s q comes tries enough =
    let over : ltb ntries 50 ≡ false = ground (arith, tries) in
    rw (reread-timed_out tid w s q comes, ◌>>=◌) (rw over refl)
timeouts_loop (suc fuel) tid (suc n) ntries w s q comes tries enough =
    let more : ltb ntries 50 ≡ true = ground (arith, tries) in
    rw (reread-timed_out tid (timeouts (suc n) w) s q comes, ◌>>=◌)
      (rw more (
        timeouts_loop fuel tid n (ntries + 1) w (quiet (timeouts (suc n) w) s) (refl, q.1) refl
          (omega (arith, tries)) (omega arith)))

-- Where 51 calls of `select` run out of time and the response is not there, `getresponse` returns -1
-- behind the last of them, and behind no other: what comes after these is still to come. The thread's
-- error is then NAST_TIMEDOUT, and the lock is free. It was free before, and the thread has a place
-- in the table.
pub getresponse_times_out :
    (tid : ℕ) (w : List Arrival) (s : Sphincter) {t : Responses}
    → IsWaiting tid s
    → s.wire ≡ timeouts 51 w
    → nast_set_error s.responses tid nast_timedout ≡ returns t
    → getresponse tid s ≡ returns (err, record (quiet w s) { responses = t })
unfolding getresponse fails change
getresponse_times_out tid w s q comes sets =
    timeouts_loop (length s.wire + 52) tid 50 0 w s q comes refl (omega arith)
    ∙ rw (sets, ◌>>=◌) refl
