-- ===== src/Client/Shared.antt =====
-- client/nastapi.c: the threads of a client share one connection, and one of them reads the answers of
-- all.
use nastd.Prelude.{
  ℕ, zero, suc, ◌+◌, ◌<◌, ◌≡◌, refl, sym, ◌∙◌, ap, arith, ◌==◌, ltb, if◌then◌else◌, true, false,
  List, [], ◌∷◌, ◌++◌, some, length, get_elem?,
}
use nastd.Prelude.Bytes.{Bytes}
use nastd.Prelude.Outcome.{returns}
use nastd.Prelude.Run.{◌>>=◌}
use nastd.Ipc.{nastok}
use nastd.Client.{Responses, getmyresponse, checkresponse}
use nastd.Client.Table.{arrival, checkresponse-IsReady, get_elem?-lt-length}
use nastd.Client.Session.{Sphincter, Arrival, got, ok, err, Status, lock, unlock}
use nastd.Client.Receive.{
  after_parse, take_arrival, next_arrival, check, reread, took, outcome_of, getresponse_loop,
  getresponse,
}
use nastd.Client.Answers.{encode_all, AllFit, parse_loop_lem}
use nastd.Client.Delivered.{reread-answered}
use nastd.Client.Replies.{
  Reply, answers, Stored, AllStored, AllWait, AreDistinct, AreIn, place_all, deliver_all-AreIn,
}

waits_at :
    (t : Responses) (rs : List Reply) (k : ℕ) {r : Reply}
    → AllWait t rs
    → get_elem? rs k ≡ some r
    → checkresponse t (suc r.place) ≡ returns false
waits_at t [] k w e = absurd (cc e)
waits_at t (x ∷ rs) zero {r} ((ar, ready), small, w) e =
    let same : x ≡ r = cc in
    ap (λ y. checkresponse t (suc y.place)) (sym same) ∙ checkresponse-IsReady t x.place ar ready
waits_at t (x ∷ rs) (suc k) (q, small, w) e = waits_at t rs k w e

Stored-at :
    (t : Responses) (rs : List Reply) (k : ℕ) {r : Reply}
    → AllStored t rs
    → get_elem? rs k ≡ some r
    → Stored t r
Stored-at t [] k w e = absurd (cc e)
Stored-at t (x ∷ rs) zero {r} (q, w) e =
    let same : x ≡ r = cc in
    ap (λ y. getmyresponse t (suc y.place)) (sym same)
    ∙ q
    ∙ ap (λ y. returns (some (arrival (suc y.place) y.code y.items))) same
Stored-at t (x ∷ rs) (suc k) (q, w) e = Stored-at t rs k w e

-- a read that brings answers, one at least
take_answers :
    (tid : ℕ) (r : Reply) (rs : List Reply) (behind : Bytes) (s : Sphincter) {t : Responses}
    → AllFit (answers (r ∷ rs))
    → AreIn (r ∷ rs) s t
    → take_arrival tid (got (encode_all (answers (r ∷ rs))) behind) s
      ≡ returns (took, record s { responses = t; heap = []; locked = false })
unfolding take_arrival after_parse unlock
take_answers tid r rs behind s f a =
    let bytes = encode_all (answers (r ∷ rs)) in
    let long : ltb (length bytes) 5 ≡ false = ground arith in
    let parsed =
      parse_loop_lem (answers (r ∷ rs)) (length bytes + 1) (bytes ++ behind) (length bytes) 0 behind
        s f (omega arith) refl (omega arith) in
    rw (long, take_arrival) (rw (parsed, ◌>>=◌) (rw (a.delivered, ◌>>=◌) refl))

Stored-check :
    (t : Responses) (r : Reply)
    → suc r.place < 65535
    → Stored t r
    → checkresponse t (suc r.place) ≡ returns true
unfolding checkresponse getmyresponse
Stored-check t r small q =
    let there : get_elem? t r.place ≡ some (arrival (suc r.place) r.code r.items) = cc in
    ground (arith, there, small, get_elem?-lt-length t r.place there)

-- what `getresponse` returns for an answer
abbrev pub result_of : Reply → Status
result_of r = if r.code == nastok then ok else err

-- where the answer is in the table it is found at once
heard :
    (r : Reply) (s : Sphincter)
    → s.locked ≡ false
    → suc r.place < 65535
    → Stored s.responses r
    → (n : ℕ) → getresponse_loop (suc n) (suc r.place) 0 s ≡ returns (result_of r, s)
unfolding getresponse_loop outcome_of
heard r s free small q n =
    rw (reread-answered (suc r.place) s free (Stored-check s.responses r small q), ◌>>=◌)
      (rw (q, outcome_of) (ground arith))

small_at :
    (t : Responses) (rs : List Reply) (k : ℕ) {r : Reply}
    → AllWait t rs
    → get_elem? rs k ≡ some r
    → suc r.place < 65535
small_at t [] k w e = absurd (cc e)
small_at t (x ∷ rs) zero {r} (q, small, w) e =
    let same : x ≡ r = cc in omega (arith, ap (λ (y : Reply). y.place) same, small)
small_at t (x ∷ rs) (suc k) (q, small, w) e = small_at t rs k w e

-- the client once a read with these answers has been taken apart, with `w` still to come
abbrev pub settled : List Reply → List Arrival → Sphincter → Sphincter
settled rs w s = record s {
  responses = place_all s.responses rs;
  heap = [];
  locked = false;
  wire = w;
}

module _ (first : Reply) (rest : List Reply) (behind : Bytes) (w : List Arrival) (s : Sphincter)
    (memory : s.heap ≡ []) (free : s.locked ≡ false) (fits : AllFit (answers (first ∷ rest)))
    (distinct : AreDistinct (first ∷ rest)) (waiting : AllWait s.responses (first ∷ rest))
    (arrives : s.wire ≡ got (encode_all (answers (first ∷ rest))) behind ∷ w) where
  -- Several threads of a client wait, and one read of the connection brings the answers to all of
  -- them, in any order, no two for one thread: whichever of the threads reads, its `getresponse`
  -- returns what its own answer says and leaves one and the same state, in which the `getresponse`
  -- of each thread returns what its answer says and changes nothing, and the answer stands in the
  -- thread's place. The threads have numbers below 65535, the lock is free, and there is memory.
  pub getresponse_shared :
      (k : ℕ) {r : Reply}
      → get_elem? (first ∷ rest) k ≡ some r
      → (getresponse (suc r.place) s ≡ returns (result_of r, settled (first ∷ rest) w s))
        × (getresponse (suc r.place) (settled (first ∷ rest) w s)
            ≡ returns (result_of r, settled (first ∷ rest) w s))
        × (getmyresponse (settled (first ∷ rest) w s).responses (suc r.place)
            ≡ returns (some (arrival (suc r.place) r.code r.items)))
  unfolding getresponse getresponse_loop reread lock check next_arrival
  getresponse_shared k {r} e =
      let held : Sphincter = record s { locked = true; wire = w } in
      let after = settled (first ∷ rest) w s in
      let are_in = deliver_all-AreIn (first ∷ rest) held memory distinct waiting in
      let here = Stored-at after.responses (first ∷ rest) k are_in.stored e in
      let small = small_at s.responses (first ∷ rest) k waiting e in
      let again = heard r after refl small here in
      let fuel : length s.wire + 52 ≡ suc (suc (length w + 51)) = rw arrives (omega arith) in
      let more : length w + 52 ≡ suc (length w + 51) = omega arith in
      let one_read : reread (suc r.place) s ≡ returns (took, after) =
        rw (free, reread)
          (rw (waits_at s.responses (first ∷ rest) k waiting e, ◌>>=◌, check)
            (rw (arrives, ◌>>=◌, next_arrival)
              (take_answers (suc r.place) first rest behind held fits are_in))) in
      (
        rw (fuel, getresponse) (rw (one_read, ◌>>=◌) (again (length w + 51))),
        rw more (again (length w + 51)),
        here,
      )
