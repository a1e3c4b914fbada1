-- ===== src/Client/Returns.antt =====
-- client/nastapi.c: `getresponse` returns 0 or -1 where the server sends whole answers.
use nastd.Prelude.{
  ℕ, zero, suc, ◌+◌, ◌≤◌, ◌<◌, ◌≡◌, ◌≢◌, ap, refl, ◌∙◌, arith, ltb, if◌then◌else◌, Bool, true,
  false, List, [], ◌∷◌, none, length, Bool-cases, Option-cases, ◌⊎◌, inl, inr, get_elem?,
}
use nastd.Prelude.Outcome.{returns}
use nastd.Prelude.Run.{◌>>=◌, pure, Yields}
use nastd.Client.{Errcode, nast_ok, nast_timedout, Responses, getmyresponse, checkresponse}
use nastd.Client.Session.{
  Arrival, Sphincter, Call, Status, ok, err, unfinished, lock, unlock, change, fails,
}
use nastd.Client.Receive.{
  Pass, answered, failed, waited, took, stuck, take_arrival, next_arrival, check, reread,
  outcome_of, getresponse_loop, getresponse,
}
use nastd.Client.Whole.{AllWhole, set_error_returns, take_arrival_passes}

-- How a pass of the loop comes out: one that took bytes leaves fewer arrivals to come.
abbrev Reread : Sphincter → Pass → Sphincter → Type 0
Reread s p t =
    (p ≢ stuck)
    × (t.locked ≡ false)
    × (length t.responses ≡ length s.responses)
    × AllWhole t.wire
    × (length t.wire ≤ length s.wire)
    × (p ≡ took → length t.wire < length s.wire)

next_passes :
    (tid : ℕ) (s : Sphincter) (w : List Arrival)
    → s.wire ≡ w
    → 0 < tid
    → AllWhole w
    → Yields (λ p t. Reread s p t) ((next_arrival >>= take_arrival tid) s)
unfolding next_arrival take_arrival unlock
next_passes tid s [] e some_ whole = (
  waited,
  record s { locked = false },
  rw (e, ◌>>=◌, next_arrival) (ap (λ w. returns (waited, record s { locked = false; wire = w })) e),
  ((λ q. cc), refl, refl, rw e tt, omega arith, λ q. cc),
)
next_passes tid s (a ∷ w) e some_ (first, rest) =
    let (p, t, f, (free, open_, long, same)) =
      take_arrival_passes tid a (record s { wire = w }) some_ first in
    (
      p,
      t,
      rw (e, ◌>>=◌, next_arrival) f,
      (
        free,
        open_,
        long,
        rw same rest,
        omega (arith, ap length same, ap length e),
        λ q. omega (arith, ap length same, ap length e),
      ),
    )

check_returns : (tid : ℕ) (s : Sphincter) → 0 < tid → (b : Bool) × (check tid s ≡ returns (b, s))
unfolding check checkresponse getmyresponse
check_returns zero s some_ = absurd (omega arith)
check_returns (suc i) s some_ = elim (Bool-cases (ltb (length s.responses) (suc i))) [
  | inl over ↦ (false, rw (over, check, checkresponse) refl)
  | inr within ↦ elim (Option-cases (get_elem? s.responses i)) [
    | inl n ↦ (false, rw (within, check, checkresponse) (rw (n, check, checkresponse) refl))
    | inr (ar, n) ↦
        (ar.arrived, rw (within, check, checkresponse) (rw (n, check, checkresponse) refl))
  ]
]

reread_passes :
    (tid : ℕ) (s : Sphincter)
    → s.locked ≡ false
    → 0 < tid
    → AllWhole s.wire
    → Yields (λ p t. Reread s p t) (reread tid s)
unfolding reread lock unlock
reread_passes tid s free some_ whole =
    let held_ : Sphincter = record s { locked = true } in
    let (b, found) = check_returns tid held_ some_ in
    elim (Bool-cases b) [
      | inl there ↦
          let e : check tid held_ ≡ returns (true, held_) =
            found ∙ ap (λ x. returns (x, held_)) there in
          (
            answered,
            record s { locked = false },
            rw (free, reread) (rw (e, ◌>>=◌) refl),
            ((λ q. cc), refl, refl, whole, omega arith, λ q. cc),
          )
      | inr missing ↦
          let e : check tid held_ ≡ returns (false, held_) =
            found ∙ ap (λ x. returns (x, held_)) missing in
          let (p, t, f, r) = next_passes tid held_ s.wire refl some_ whole in
          (p, t, rw (free, reread) (rw (e, ◌>>=◌) f), r)
    ]

-- what `getresponse` returns where it returns in order
abbrev pub IsResult : Status → Sphincter → Type 0
IsResult r t = ((r ≡ ok) ⊎ (r ≡ err)) × (t.locked ≡ false)

get_elem?-there : (t : Responses) (i : ℕ) → i < length t → get_elem? t i ≢ none
get_elem?-there [] i h e = omega arith
get_elem?-there (x ∷ t) zero h e = cc e
get_elem?-there (x ∷ t) (suc i) h e = get_elem?-there t i (omega arith) e

status_result :
    (code : Errcode)
    → (let r : Status = elim code [ nast_ok ↦ ok | _ ↦ err ] in (r ≡ ok) ⊎ (r ≡ err))
status_result nast_ok = inl refl
status_result _ = inr refl

outcome_of_returns :
    (tid : ℕ) (s : Sphincter)
    → s.locked ≡ false
    → 0 < tid
    → tid ≤ length s.responses
    → Yields IsResult (outcome_of tid s)
unfolding outcome_of getmyresponse
outcome_of_returns zero s free some_ room = absurd (omega arith)
outcome_of_returns (suc i) s free some_ room = elim (Option-cases (get_elem? s.responses i)) [
  | inl n ↦ absurd (get_elem?-there s.responses i (omega arith) n)
  | inr (ar, n) ↦ (
    elim ar.errcode [ nast_ok ↦ ok | _ ↦ err ],
    s,
    rw (n, outcome_of) refl,
    (status_result ar.errcode, free),
  )
]

fails_returns :
    (tid : ℕ) (code : Errcode) (s : Sphincter)
    → s.locked ≡ false
    → 0 < tid
    → Yields IsResult (fails tid code s)
unfolding fails change
fails_returns tid code s free some_ =
    let (t', e, long) = set_error_returns s.responses tid code some_ in
    (err, record s { responses = t' }, rw (e, ◌>>=◌) refl, (inr refl, free))

loop_returns :
    (fuel tid ntries : ℕ) (s : Sphincter)
    → s.locked ≡ false
    → 0 < tid
    → tid ≤ length s.responses
    → AllWhole s.wire
    → ntries ≤ 50
    → length s.wire + 51 ≤ fuel + ntries
    → Yields IsResult (getresponse_loop fuel tid ntries s)
unfolding getresponse_loop
loop_returns zero tid ntries s free some_ room whole tries enough = absurd (omega arith)
loop_returns (suc fuel) tid ntries s free some_ room whole tries enough =
    let (p, t, e, r) = reread_passes tid s free some_ whole in
    rw (e, ◌>>=◌)
      ((elim p
          as (λ p.
            Reread s p t
            → Yields IsResult (
                (elim p as (λ _. Call Status) [
                  | answered ↦ outcome_of tid
                  | failed ↦ pure err
                  | waited ↦
                      if ltb ntries 50
                      then getresponse_loop fuel tid (ntries + 1)
                      else fails tid nast_timedout
                  | took ↦ getresponse_loop fuel tid ntries
                  | stuck ↦ pure unfinished
                ])
                  t)) [
                    | answered ↦ λ q. outcome_of_returns tid t q.1 some_ (omega (arith, q.2))
                    | failed ↦ λ q. (err, t, refl, (inr refl, q.1))
                    | waited ↦ λ q. elim (Bool-cases (ltb ntries 50)) [
                      | inl more ↦ rw more (
                          loop_returns fuel tid (ntries + 1) t q.1 some_ (omega (arith, q.2)) q.3
                            (ground arith) (omega (arith, q.4)))
                      | inr over ↦ rw over (fails_returns tid nast_timedout t q.1 some_)
                    ]
                    | took ↦ λ q.
                        loop_returns fuel tid ntries t q.1 some_ (omega (arith, q.2)) q.3 tries
                          (omega (arith, q.5 refl))
                    | stuck ↦ λ q. absurd (q.0 refl)
                  ])
        r)

-- Where the connection brings whole answers to threads with numbers of 1 and more, between errors
-- and calls of `select` that run out of time, and nothing behind a last arrival, `getresponse`
-- returns, 0 or -1, with the lock free again, whatever the answers are and whether there is memory or not. The
-- thread has a number of 1 or more and a place in the table, and the lock is free.
pub getresponse_ends :
    (tid : ℕ) (s : Sphincter)
    → 0 < tid
    → tid ≤ length s.responses
    → s.locked ≡ false
    → AllWhole s.wire
    → Yields IsResult (getresponse tid s)
unfolding getresponse
getresponse_ends tid s some_ room free whole =
    loop_returns (length s.wire + 52) tid 0 s free some_ room whole (omega arith) (omega arith)
