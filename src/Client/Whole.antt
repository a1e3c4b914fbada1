-- ===== src/Client/Whole.antt =====
-- client/nastapi.c: one read that brings whole answers.
use nastd.Prelude.{
  ℕ, zero, suc, ◌+◌, ◌<◌, ◌≡◌, ◌≢◌, ap, refl, ◌∙◌, arith, ltb, Bool, true, false, List, [], ◌∷◌,
  ◌++◌, length, Bool-cases, Option-cases, inl, inr, get_elem?, set, not, ◌==◌,
}
use nastd.Prelude.Bytes.{Bytes}
use nastd.Prelude.Alloc.{Heap, malloc}
use nastd.Prelude.Outcome.{returns}
use nastd.Prelude.Run.{◌>>=◌, Yields}
use nastd.Client.{
  Errcode, nast_server_gone, nast_unknown_response, NastResponse, Responses, nast_set_error,
  getmyresponse, put_response, addresponse, error_of, without_buffer, held, nast_nomem,
}
use nastd.Client.Session.{
  Arrival, select_failed, timed_out, recv_failed, closed, got, Sphincter, unlock, change, fails,
}
use nastd.Client.Receive.{Pass, failed, waited, took, stuck, give_up, after_parse, take_arrival}
use nastd.Client.Answers.{Answer, encode_all, AllFit, deliver, deliver_all, parse_loop_lem}

-- answers to threads, whose numbers begin at 1
abbrev pub AllNumbered : List Answer → Type 0
AllNumbered [] = Unit
AllNumbered (a ∷ rs) = (0 < a.reqid) × AllNumbered rs

-- what is read are whole answers
abbrev pub IsWhole : Arrival → Type 0
IsWhole (got bytes behind) =
    (rs : List Answer) × (bytes ≡ encode_all rs) × AllFit rs × AllNumbered rs
IsWhole _ = Unit

abbrev pub AllWhole : List Arrival → Type 0
AllWhole [] = Unit
AllWhole (a ∷ w) = IsWhole a × AllWhole w

pub length-set : (t : Responses) (i : ℕ) (v : NastResponse) → length (set t i v) ≡ length t
length-set [] i v = refl
length-set (x ∷ t) zero v = refl
length-set (x ∷ t) (suc i) v = ap suc (length-set t i v)

pub set_error_returns :
    (t : Responses) (reqid : ℕ) (code : Errcode)
    → 0 < reqid
    → (t' : Responses) × (nast_set_error t reqid code ≡ returns t') × (length t' ≡ length t)
unfolding nast_set_error getmyresponse put_response
set_error_returns t zero code pos_ = absurd (omega arith)
set_error_returns t (suc i) code pos_ = elim (Option-cases (get_elem? t i)) [
  | inl n ↦ (t, rw (n, nast_set_error) refl, refl)
  | inr (ar, n) ↦ (
    set t i (record ar { errcode = code }),
    rw (n, nast_set_error) refl,
    length-set t i (record ar { errcode = code }),
  )
]

addresponse_returns :
    (t : Responses) (reqid code : ℕ) (body : Bytes) (h : Heap)
    → 0 < reqid
    → (done : Bool) × (t' : Responses) × (h' : Heap) × (addresponse t reqid code body h
        ≡ returns ((done, t'), h'))
      × (length t' ≡ length t)
unfolding addresponse getmyresponse put_response
addresponse_returns t zero code body h pos_ = absurd (omega arith)
addresponse_returns t (suc i) code body h pos_ =
    let (s', e, long) = set_error_returns t (suc i) (error_of code) pos_ in
    elim (Option-cases (get_elem? s' i)) [
      | inl n ↦ (false, s', h, rw (e, addresponse) (rw (n, addresponse) refl), long)
      | inr (ar, n) ↦
          let kept : NastResponse = record {
            buffer = without_buffer ar.buffer;
            errcode = nast_nomem;
            arrived = not (suc i == 65535);
          } in
          let full : NastResponse = record ar {
            buffer = held body;
            arrived = not (suc i == 65535);
          } in
          elim (Option-cases (malloc h).0) [
            | inl m ↦ (
              false,
              set s' i kept,
              (malloc h).1,
              rw (e, addresponse) (rw (n, addresponse) (rw (m, addresponse) refl)),
              length-set s' i kept ∙ long,
            )
            | inr (b, m) ↦ (
              true,
              set s' i full,
              (malloc h).1,
              rw (e, addresponse) (rw (n, addresponse) (rw (m, addresponse) refl)),
              length-set s' i full ∙ long,
            )
          ]
    ]

-- the table keeps its length, and the connection what it brings
abbrev Leaves : Sphincter → Sphincter → Type 0
Leaves s t = (length t.responses ≡ length s.responses) × (t.wire ≡ s.wire)

deliver_all_returns :
    (rs : List Answer) (s : Sphincter)
    → AllNumbered rs
    → Yields (λ a t. Leaves s t) (deliver_all rs s)
unfolding deliver_all deliver
deliver_all_returns [] s n = (tt, s, refl, (refl, refl))
deliver_all_returns (a ∷ rs) s (some_, n) =
    let (done, t', h', e, long) =
      addresponse_returns s.responses a.reqid a.code a.items s.heap some_ in
    let (x, t, f, (kept, same)) =
      deliver_all_returns rs (record s { responses = t'; heap = h' }) n in
    (x, t, rw (e, ◌>>=◌) f, (kept ∙ long, same))

-- How a pass comes out: not stuck, with the lock free, the table as long as it was, and the wire `w`.
abbrev pub Passed : Sphincter → List Arrival → Pass → Sphincter → Type 0
Passed s w p t =
    (p ≢ stuck) × (t.locked ≡ false) × (length t.responses ≡ length s.responses) × (t.wire ≡ w)

give_up_passes :
    (tid : ℕ) (code : Errcode) (s : Sphincter)
    → 0 < tid
    → Yields (λ p t. Passed s s.wire p t) (give_up tid code s)
unfolding unlock fails change
give_up_passes tid code s some_ =
    let (t', e, long) = set_error_returns s.responses tid code some_ in
    (
      failed,
      record s { locked = false; responses = t' },
      rw (e, ◌>>=◌) refl,
      ((λ q. cc), refl, long, refl),
    )

pub take_arrival_passes :
    (tid : ℕ) (a : Arrival) (s : Sphincter)
    → 0 < tid
    → IsWhole a
    → Yields (λ p t. Passed s s.wire p t) (take_arrival tid a s)
unfolding take_arrival unlock after_parse
take_arrival_passes tid select_failed s some_ whole = give_up_passes tid nast_server_gone s some_
take_arrival_passes tid timed_out s some_ whole =
    (waited, record s { locked = false }, refl, ((λ q. cc), refl, refl, refl))
take_arrival_passes tid recv_failed s some_ whole = give_up_passes tid nast_server_gone s some_
take_arrival_passes tid closed s some_ whole = give_up_passes tid nast_server_gone s some_
take_arrival_passes tid (got [] behind) s some_ whole = give_up_passes tid nast_server_gone s some_
take_arrival_passes tid (got (b ∷ bytes) behind) s some_ (rs, e, f, n) =
    elim (Bool-cases (ltb (length (b ∷ bytes)) 5)) [
      | inl short ↦ rw (short, take_arrival) (give_up_passes tid nast_unknown_response s some_)
      | inr long ↦
          let parsed =
            parse_loop_lem rs (length (b ∷ bytes) + 1) ((b ∷ bytes) ++ behind) (length (b ∷ bytes))
              0 behind s f (omega (arith, ap length e)) (ap (λ x. x ++ behind) e)
              (omega (arith, ap length e)) in
          let (x, t, d, (kept, same)) = deliver_all_returns rs s n in
          (
            took,
            record t { locked = false },
            rw (long, take_arrival) (rw (parsed, ◌>>=◌) (rw (d, ◌>>=◌) refl)),
            ((λ q. cc), refl, kept, same),
          )
    ]
