-- ===== src/Client/Finishes.antt =====
-- client/nastapi.c: neither the loop of `getresponse` nor the loop over one read uses up its fuel.
use nastd.Prelude.{
  ℕ, zero, suc, ◌+◌, ◌≤◌, ◌<◌, ◌≡◌, ◌≢◌, ap, refl, sym, arith, ltb, if◌then◌else◌, Bool, true,
  false, List, [], ◌∷◌, ◌++◌, Option, none, some, length, Bool-cases, inl, inr,
}
use nastd.Prelude.Outcome.{Outcome, returns, blocked, fault}
use nastd.Prelude.Run.{◌>>=◌, ◌>>◌, pure, Allows, >>=-Allows}
use nastd.Client.{
  Errcode, nast_ok, nast_server_gone, nast_unknown_response, nast_timedout, NastResponse,
  nast_set_error, getmyresponse, checkresponse,
}
use nastd.Client.Session.{
  Arrival, select_failed, timed_out, recv_failed, closed, got, Sphincter, Call, Status, ok, err,
  unfinished, lock, unlock, change, fails,
}
use nastd.Client.Receive.{
  Parsed, complete, munged, endless, parse_loop, Pass, answered, failed, waited, took, stuck,
  give_up, after_parse, take_arrival, next_arrival, check, reread, outcome_of, getresponse_loop,
  getresponse,
}
use nastd.Client.Parsed.{Keeps, change-Keeps, fails-Keeps, elim-Keeps, Parses, parse_loop_enough}

-- a pass that does not stick, and takes an arrival where bytes came
Passes : ℕ → Pass → Sphincter → Type 0
Passes n p t = (p ≢ stuck) × (length t.wire ≤ n) × (p ≡ took → length t.wire < n)

give_up-Passes :
    (n tid : ℕ) (code : Errcode) (s : Sphincter)
    → length s.wire ≤ n
    → Allows (Passes n) (give_up tid code s)
unfolding Passes unlock
give_up-Passes n tid code s h =
    >>=-Allows (λ a t. length t.wire ≡ length s.wire) (Passes n) (unlock >> fails tid code)
      (λ _. pure failed) s (fails-Keeps tid code (record s { locked = false }))
      (λ a t w. (λ q. cc, omega (arith, w), λ q. cc))

after_parse-Passes :
    (n tid : ℕ) (p : Parsed) (s : Sphincter)
    → p ≢ endless
    → length s.wire < n
    → Allows (Passes n) (after_parse tid p s)
unfolding after_parse unlock Passes
after_parse-Passes n tid complete s ne h = (λ q. cc, omega arith, λ q. h)
after_parse-Passes n tid munged s ne h = give_up-Passes n tid nast_unknown_response s (omega arith)
after_parse-Passes n tid endless s ne h = absurd (ne refl)

take_arrival-Passes :
    (n tid : ℕ) (a : Arrival) (s : Sphincter)
    → length s.wire < n
    → Allows (Passes n) (take_arrival tid a s)
unfolding take_arrival unlock Passes
take_arrival-Passes n tid select_failed s h = give_up-Passes n tid nast_server_gone s (omega arith)
take_arrival-Passes n tid timed_out s h = (λ q. cc, omega arith, λ q. cc)
take_arrival-Passes n tid recv_failed s h = give_up-Passes n tid nast_server_gone s (omega arith)
take_arrival-Passes n tid closed s h = give_up-Passes n tid nast_server_gone s (omega arith)
take_arrival-Passes n tid (got [] behind) s h =
    give_up-Passes n tid nast_server_gone s (omega arith)
take_arrival-Passes n tid (got (b ∷ bytes) behind) s h =
    elim (Bool-cases (ltb (length (b ∷ bytes)) 5)) [
      | inl e ↦ rw (e, take_arrival) (give_up-Passes n tid nast_unknown_response s (omega arith))
      | inr e ↦
          rw (e, take_arrival)
            (>>=-Allows (Parses (length s.wire)) (Passes n)
              (parse_loop (length (b ∷ bytes) + 1) ((b ∷ bytes) ++ behind) (length (b ∷ bytes)) 0)
              (after_parse tid) s
              (parse_loop_enough (length (b ∷ bytes) + 1) ((b ∷ bytes) ++ behind)
                (length (b ∷ bytes)) 0 s (omega arith) (omega arith))
              (λ p t q. after_parse-Passes n tid p t q.0 (omega (arith, h, q.1))))
    ]

-- What `check` says changes nothing.
check-Keeps : (tid : ℕ) (s : Sphincter) → Keeps (length s.wire) (check tid) s
unfolding check
check-Keeps tid s =
    elim-Keeps (length s.wire) (checkresponse s.responses tid) (λ b. b) (λ _. s) (λ _. refl)

next-Passes :
    (tid : ℕ) (s : Sphincter)
    → Allows (Passes (length s.wire)) ((next_arrival >>= take_arrival tid) s)
unfolding next_arrival take_arrival unlock Passes
next-Passes tid s = split s.wire refl
  where
    split :
        (w : List Arrival)
        → s.wire ≡ w
        → Allows (Passes (length s.wire)) ((next_arrival >>= take_arrival tid) s)
    split [] e =
        let none_left : length s.wire ≡ 0 = ap length e in
        rw (e, ◌>>=◌, next_arrival) (λ q. cc, omega (arith, none_left), λ q. cc)
    split (a ∷ w) e =
        rw (e, ◌>>=◌, next_arrival)
          (take_arrival-Passes (suc (length w)) tid a (record s { wire = w }) (omega arith))

-- from the test of `checkresponse` on
checked-Passes :
    (n tid : ℕ) (there : Bool) (s : Sphincter)
    → length s.wire ≡ n
    → Allows
        (Passes n)
        ((if there then unlock >> pure answered else (next_arrival >>= take_arrival tid)) s)
unfolding unlock Passes
checked-Passes n tid true s e = (λ q. cc, omega arith, λ q. cc)
checked-Passes n tid false s e = rw (sym e) (next-Passes tid s)

reread-Passes : (tid : ℕ) (s : Sphincter) → Allows (Passes (length s.wire)) (reread tid s)
unfolding reread lock
reread-Passes tid s = elim (Bool-cases s.locked) [
  | inl l ↦ rw (l, reread) tt
  | inr l ↦
      rw (l, reread)
        (>>=-Allows (λ a t. length t.wire ≡ length s.wire) (Passes (length s.wire)) (check tid)
          (λ there. if there then unlock >> pure answered else (next_arrival >>= take_arrival tid))
          (record s { locked = true }) (check-Keeps tid (record s { locked = true }))
          (checked-Passes (length s.wire) tid))
]

status_ends :
    (code : Errcode) → (let r : Status = elim code [ nast_ok ↦ ok | _ ↦ err ] in r) ≢ unfinished
status_ends code = ground arith

outcome_of_ends : (tid : ℕ) (s : Sphincter) → Allows (λ r t. r ≢ unfinished) (outcome_of tid s)
unfolding outcome_of
outcome_of_ends tid s = split (getmyresponse s.responses tid) refl
  where
    split :
        (o : Outcome (Option NastResponse))
        → getmyresponse s.responses tid ≡ o
        → Allows (λ r t. r ≢ unfinished) (outcome_of tid s)
    split (returns none) e = rw (e, outcome_of) tt
    split (returns (some ar)) e = rw (e, outcome_of) (status_ends ar.errcode)
    split blocked e = rw (e, outcome_of) tt
    split fault e = rw (e, outcome_of) tt

fails_ends :
    (tid : ℕ) (code : Errcode) (s : Sphincter) → Allows (λ r t. r ≢ unfinished) (fails tid code s)
unfolding fails
fails_ends tid code s =
    >>=-Allows (λ a t. length t.wire ≡ length s.wire) (λ r t. r ≢ unfinished)
      (change (λ t. nast_set_error t tid code)) (λ _. pure err) s (change-Keeps _ s) (λ a t e q. cc)

getresponse_loop_ends :
    (fuel tid ntries : ℕ) (s : Sphincter)
    → ntries ≤ 51
    → length s.wire + 52 ≤ fuel + ntries
    → Allows (λ r t. r ≢ unfinished) (getresponse_loop fuel tid ntries s)
unfolding getresponse_loop Passes
getresponse_loop_ends zero tid ntries s tries enough = absurd (omega arith)
getresponse_loop_ends (suc fuel) tid ntries s tries enough =
    >>=-Allows (Passes (length s.wire)) (λ r t. r ≢ unfinished) (reread tid) _ s
      (reread-Passes tid s)
      (λ p t q.
        (elim p
            as (λ p.
              Passes (length s.wire) p t
              → Allows (λ r t. r ≢ unfinished)
                  ((elim p as (λ _. Call Status) [
                    | answered ↦ outcome_of tid
                    | failed ↦ pure err
                    | waited ↦
                        if ltb ntries 50
                        then getresponse_loop fuel tid (ntries + 1)
                        else fails tid nast_timedout
                    | took ↦ getresponse_loop fuel tid ntries
                    | stuck ↦ pure unfinished
                  ])
                    t)) [
                      | answered ↦ λ q. outcome_of_ends tid t
                      | failed ↦ λ q r. cc
                      | waited ↦ λ q. elim (Bool-cases (ltb ntries 50)) [
                        | inl e ↦ rw e (
                            getresponse_loop_ends fuel tid (ntries + 1) t (ground arith)
                              (omega (arith, q.1)))
                        | inr e ↦ rw e (fails_ends tid nast_timedout t)
                      ]
                      | took ↦ λ q.
                          getresponse_loop_ends fuel tid ntries t tries (omega (arith, q.2 refl))
                      | stuck ↦ λ q. absurd (q.0 refl)
                    ])
          q)

-- `getresponse` does not run out of its fuel: whatever arrives, and whatever the state is, what it
-- returns, if it returns, is not `unfinished`.
getresponse_finishes :
    (tid : ℕ) (s : Sphincter) → Allows (λ r t. r ≢ unfinished) (getresponse tid s)
unfolding getresponse
getresponse_finishes tid s =
    getresponse_loop_ends (length s.wire + 52) tid 0 s (omega arith) (omega arith)
