-- ===== src/Client/Answers.antt =====
-- The responses that a read brings are all kept, each under its number.
use nastd.Prelude.{
  ℕ, zero, suc, ◌+◌, ◌-◌, ◌^◌, ◌<◌, ◌≡◌, refl, ◌∙◌, ap, arith, leb, true, false, List, [], ◌∷◌,
  ◌++◌, some, length, length-append, drop, take-append_self, drop-append_self, drop-add,
}
use mathlib.Core.List.{append_assoc}
use nastd.Prelude.Bytes.{Bytes}
use nastd.Prelude.Outcome.{Outcome, returns, blocked, fault}
use nastd.Prelude.Run.{◌>>=◌, ◌>>◌, pure}
use nastd.Server.Respond.{frame}
use nastd.Client.{addresponse}
use nastd.Client.Session.{Sphincter, Call}
use nastd.Client.Receive.{read_frame, is_munged, save_response, Parsed, complete, parse_loop}

-- a response, as `arr_send_response` sends it
pub record Answer : Type 0 where
  pub reqid : ℕ
  pub code : ℕ
  pub items : Bytes

abbrev pub encode : Answer → Bytes
encode a = frame a.reqid a.code a.items

abbrev pub encode_all : List Answer → Bytes
encode_all [] = []
encode_all (a ∷ rs) = encode a ++ encode_all rs

-- the length and the number fit the wire
pub record Fits (a : Answer) : Type 0 where
  pub by_length : 5 + length a.items < 2 ^ 15
  pub by_number : a.reqid < 2 ^ 16

abbrev pub AllFit : List Answer → Type 0
AllFit [] = Unit
AllFit (a ∷ rs) = Fits a × AllFit rs

-- what a client does with one response
unfoldable pub deliver : Answer → Call (Unit {0})
deliver a s = elim (addresponse s.responses a.reqid a.code a.items s.heap) [
  | returns ((done, t), h) ↦ returns (tt, record s { responses = t; heap = h })
  | blocked ↦ blocked
  | fault ↦ fault
]

unfoldable pub deliver_all : List Answer → Call (Unit {0})
deliver_all [] = pure tt
deliver_all (a ∷ rs) = deliver a >> deliver_all rs

read_frame-encode :
    (a : Answer) (rest : Bytes)
    → Fits a
    → read_frame (encode a ++ rest) ≡ some (5 + length a.items, a.reqid, a.code ∷ a.items ++ rest)
unfolding read_frame
read_frame-encode a rest f = ground (arith, f.by_length, f.by_number)

save_response-deliver :
    (a : Answer) (rest : Bytes) (s : Sphincter)
    → save_response a.reqid (5 + length a.items) (a.code ∷ a.items ++ rest) s ≡ deliver a s
unfolding save_response deliver
save_response-deliver a rest s = ground (
  arith,
  length-append a.items rest,
  take-append_self a.items rest (5 + length a.items - 5) (omega arith),
)

length-encode : (a : Answer) → length (encode a) ≡ 5 + length a.items
length-encode a = omega arith

-- two continuations that agree
>>-ext :
    (m : Call (Unit {0})) (f : Call Parsed) (g : Call (Unit {0})) (s : Sphincter)
    → ((t : Sphincter) → f t ≡ (g >> pure complete) t)
    → (m >> f) s ≡ ((m >> g) >> pure complete) s
>>-ext m f g s h = split (m s)
  where
    split :
        (r : Outcome (Unit {0} × Sphincter))
        → (let x : Outcome (Parsed × Sphincter) = elim r [
          | returns (a, t) ↦ f t
          | blocked ↦ blocked
          | fault ↦ fault
        ] in
            x)
          ≡ (let y : Outcome (Unit {0} × Sphincter) = elim r [
            | returns (a, t) ↦ g t
            | blocked ↦ blocked
            | fault ↦ fault
          ] in
              elim y [ returns (a, t) ↦ returns (complete, t) | blocked ↦ blocked | fault ↦ fault ])
    split (returns (a, t)) = h t
    split blocked = refl
    split fault = refl

pub parse_loop_lem :
    (rs : List Answer) (fuel : ℕ) (buffer : Bytes) (nbytes pos : ℕ) (behind : Bytes) (s : Sphincter)
    → AllFit rs
    → length (encode_all rs) < fuel
    → drop pos buffer ≡ encode_all rs ++ behind
    → nbytes ≡ pos + length (encode_all rs)
    → parse_loop fuel buffer nbytes pos s ≡ (deliver_all rs >> pure complete) s
unfolding parse_loop deliver_all is_munged
parse_loop_lem rs zero buffer nbytes pos behind s f enough e n = absurd (omega (arith, enough))
parse_loop_lem [] (suc fuel) buffer nbytes pos behind s f enough e n =
    let over : leb nbytes pos ≡ true = ground (arith, n) in rw (over, parse_loop)
parse_loop_lem (a ∷ rs) (suc fuel) buffer nbytes pos behind s f enough e n =
    rw (more, parse_loop)
      (rw (e, parse_loop)
        (rw (append_assoc (encode a) (encode_all rs) behind, parse_loop)
          (rw (read_frame-encode a (encode_all rs ++ behind) f.0, parse_loop)
            (rw (sane, parse_loop)
              (rw (save_response-deliver a (encode_all rs ++ behind) s, ◌>>◌, ◌>>=◌)
                (>>-ext (deliver a) _ (deliver_all rs) s (λ t.
                  parse_loop_lem rs fuel buffer nbytes (pos + (5 + length a.items)) behind t f.1
                    (omega (arith, enough, length-append (encode a) (encode_all rs))) next
                    (omega (arith, n, length-append (encode a) (encode_all rs))))))))))
  where
    more : leb nbytes pos ≡ false
    more = ground (arith, n, length-append (encode a) (encode_all rs))

    sane : is_munged (5 + length a.items) nbytes ≡ false
    sane = ground (arith, n, f.0.by_length, length-append (encode a) (encode_all rs))

    next : drop (pos + (5 + length a.items)) buffer ≡ encode_all rs ++ behind
    next =
        drop-add pos (5 + length a.items) buffer
        ∙ ap (drop (5 + length a.items)) (e ∙ append_assoc (encode a) (encode_all rs) behind)
        ∙ drop-append_self (encode a) (encode_all rs ++ behind) (5 + length a.items) (omega arith)
