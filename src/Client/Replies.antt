-- ===== src/Client/Replies.antt =====
-- client/nastapi.c: the answers to several threads of a client, and the table of its threads once
-- they are in it.
use nastd.Prelude.{ℕ, suc, ◌<◌, ◌≡◌, ◌≢◌, refl, sym, ◌∙◌, ap, arith, true, List, [], ◌∷◌, some}
use mathlib.Core.Path.{subst}
use nastd.Prelude.Bytes.{Bytes}
use nastd.Prelude.Outcome.{returns, blocked, fault}
use nastd.Prelude.Run.{◌>>=◌}
use nastd.Client.{NastResponse, Responses, getmyresponse, addresponse}
use nastd.Client.Table.{arrival, IsReady, addresponse-IsReady, getmyresponse-addresponse}
use nastd.Client.Session.{Sphincter}
use nastd.Client.Answers.{Answer, deliver, deliver_all}

-- an answer by the place of its thread in the table
pub record Reply : Type 0 where
  pub place : ℕ
  pub code : ℕ
  pub items : Bytes

abbrev pub answers : List Reply → List Answer
answers [] = []
answers (r ∷ rs) = record { reqid = suc r.place; code = r.code; items = r.items } ∷ answers rs

abbrev pub Stored : Responses → Reply → Type 0
Stored t r = getmyresponse t (suc r.place) ≡ returns (some (arrival (suc r.place) r.code r.items))

abbrev pub AllStored : Responses → List Reply → Type 0
AllStored t [] = Unit
AllStored t (r ∷ rs) = Stored t r × AllStored t rs

-- every thread waits, and has a number below 65535
abbrev pub AllWait : Responses → List Reply → Type 0
AllWait t [] = Unit
AllWait t (r ∷ rs) =
    ((ar : NastResponse) × IsReady t r.place ar) × (suc r.place < 65535) × AllWait t rs

abbrev pub AllOther : ℕ → List Reply → Type 0
AllOther p [] = Unit
AllOther p (r ∷ rs) = (r.place ≢ p) × AllOther p rs

-- no two answers are for one thread
abbrev pub AreDistinct : List Reply → Type 0
AreDistinct [] = Unit
AreDistinct (r ∷ rs) = AllOther r.place rs × AreDistinct rs

-- an answer that comes leaves the threads of the others waiting
keeps_waiting :
    (t : Responses) (p code : ℕ) (body : Bytes) {t' : Responses} (rs : List Reply)
    → suc p ≢ 65535
    → addresponse t (suc p) code body [] ≡ returns ((true, t'), [])
    → AllOther p rs
    → AllWait t rs
    → AllWait t' rs
unfolding getmyresponse
keeps_waiting t p code body [] ne e o w = tt
keeps_waiting t p code body {t'} (r ∷ rs) ne e (other, o) ((ar, ready), small, w) =
    let left =
      (getmyresponse-addresponse t (suc p) code body [] (suc r.place) ne e).2
        (λ q. other (omega arith)) in
    (
      (ar, record { there = cc (left, ready.there); absent = ready.absent }),
      small,
      keeps_waiting t p code body rs ne e o w,
    )

-- the table once all the answers are in it
pub record AreIn (rs : List Reply) (s : Sphincter) (t : Responses) : Type 0 where
  pub delivered : deliver_all (answers rs) s ≡ returns (tt, record s { responses = t; heap = [] })
  pub stored : AllStored t rs
  pub others : (p : ℕ) → AllOther p rs → getmyresponse t (suc p) ≡ getmyresponse s.responses (suc p)

-- the table once one answer has come, and once all have
unfoldable pub place_one : Responses → Reply → Responses
place_one t r = elim (addresponse t (suc r.place) r.code r.items []) [
  | returns ((done, t'), h) ↦ t'
  | blocked ↦ t
  | fault ↦ t
]

unfoldable pub place_all : Responses → List Reply → Responses
place_all t [] = t
place_all t (r ∷ rs) = place_all (place_one t r) rs

pub deliver_all-AreIn :
    (rs : List Reply) (s : Sphincter)
    → s.heap ≡ []
    → AreDistinct rs
    → AllWait s.responses rs
    → AreIn rs s (place_all s.responses rs)
unfolding deliver_all deliver place_all place_one
deliver_all-AreIn [] s memory d w = record {
  delivered = ap (λ h. returns (tt, record s { heap = h })) memory;
  stored = tt;
  others = λ p o. refl;
}
deliver_all-AreIn (r ∷ rs) s memory (o, d) ((ar, ready), small, w) =
    let added = addresponse-IsReady s.responses r.place r.code r.items ar ready in
    let ne : suc r.place ≢ 65535 = omega (arith, small) in
    let kept = getmyresponse-addresponse s.responses (suc r.place) r.code r.items [] 0 ne added in
    let s₁ : Sphincter = record s { responses = _; heap = [] } in
    let rest =
      deliver_all-AreIn rs s₁ refl d
        (keeps_waiting s.responses r.place r.code r.items rs ne added o w) in
    let placed : place_one s.responses r ≡ s₁.responses = rw (added, place_one) refl in
    subst (λ t. AreIn (r ∷ rs) s (place_all t rs)) (sym placed)
      (record {
        delivered = rw memory (rw (added, ◌>>=◌) rest.delivered);
        stored = (rest.others r.place o ∙ kept.0, rest.stored);
        others = λ p q.
            rest.others p q.1
            ∙ (getmyresponse-addresponse s.responses (suc r.place) r.code r.items [] (suc p) ne
                  added).2
                (λ e. q.0 (omega arith));
      })
