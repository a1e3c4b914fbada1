-- ===== src/Client/Parsed.antt =====
-- client/nastapi.c: the loop of `getresponse` over one read ends, and leaves what is to come.
use nastd.Prelude.{
  ℕ, zero, suc, ◌+◌, ◌-◌, ◌≤◌, ◌<◌, ◌≡◌, ◌≢◌, refl, sym, arith, ltb, leb, true, false, [], ◌∷◌,
  Option, none, some, length, take, drop, Bool-cases, inl, inr,
}
use nastd.Prelude.Bytes.{Bytes}
use nastd.Prelude.Outcome.{Outcome, returns, blocked, fault}
use nastd.Prelude.Run.{◌>>=◌, pure, Allows, >>=-Allows}
use nastd.Client.{Errcode, Responses, nast_set_error, addresponse}
use nastd.Client.Session.{Sphincter, Call, err, change, fails}
use nastd.Client.Receive.{read_frame, is_munged, save_response, Parsed, endless, parse_loop}

-- The call, if it returns, leaves the arrivals that were to come.
abbrev pub Keeps : {A : Type 0} → ℕ → Call A → Sphincter → Type 0
Keeps n m s = Allows (λ a t. length t.wire ≡ n) (m s)

pub Keeps-then :
    {A B : Type 0} (n : ℕ) (m : Call A) (f : A → Call B) (s : Sphincter)
    → Keeps n m s
    → ((a : A) (t : Sphincter) → length t.wire ≡ n → Keeps n (f a) t)
    → Keeps n (m >>= f) s
Keeps-then n m f s p k = >>=-Allows (λ a t. length t.wire ≡ n) (λ b t. length t.wire ≡ n) m f s p k

pub change-Keeps :
    (f : Responses → Outcome Responses) (s : Sphincter) → Keeps (length s.wire) (change f) s
unfolding change
change-Keeps f s = split (f s.responses) refl
  where
    split : (o : Outcome Responses) → f s.responses ≡ o → Keeps (length s.wire) (change f) s
    split (returns t) e = rw (e, change) refl
    split blocked e = rw (e, change) tt
    split fault e = rw (e, change) tt

pub fails-Keeps :
    (tid : ℕ) (code : Errcode) (s : Sphincter) → Keeps (length s.wire) (fails tid code) s
unfolding fails
fails-Keeps tid code s =
    Keeps-then (length s.wire) (change (λ t. nast_set_error t tid code)) (λ _. pure err) s
      (change-Keeps _ s) (λ a t e. e)

-- what is made of the outcome of a function
pub elim-Keeps :
    {A B : Type 0} (n : ℕ) (o : Outcome A) (b : A → B) (g : A → Sphincter)
    → ((a : A) → length (g a).wire ≡ n)
    → Allows
        (λ b t. length t.wire ≡ n)
        (elim o [ returns a ↦ returns (b a, g a) | blocked ↦ blocked | fault ↦ fault ])
elim-Keeps n (returns a) b g k = k a
elim-Keeps n blocked b g k = tt
elim-Keeps n fault b g k = tt

pub save_response-Keeps :
    (reqid bufflen : ℕ) (rest : Bytes) (s : Sphincter)
    → Keeps (length s.wire) (save_response reqid bufflen rest) s
unfolding save_response
save_response-Keeps reqid bufflen [] s = tt
save_response-Keeps reqid bufflen (code ∷ rest) s = elim (Bool-cases (ltb bufflen 5)) [
  | inl e ↦
      rw (e, save_response)
        (elim-Keeps (length s.wire) (addresponse s.responses reqid code [] (false ∷ [])) (λ _. tt)
          (λ x. record s { responses = x.0.1 }) (λ _. refl))
  | inr e ↦ elim (Bool-cases (ltb (length rest) (bufflen - 5))) [
    | inl f ↦ rw (e, save_response) (rw (f, save_response) tt)
    | inr f ↦
        rw (e, save_response)
          (rw (f, save_response)
            (elim-Keeps (length s.wire)
              (addresponse s.responses reqid code (take (bufflen - 5) rest) s.heap) (λ _. tt)
              (λ x. record s { responses = x.0.1; heap = x.1 }) (λ _. refl)))
  ]
]

is_munged_zero : (bufflen nbytes : ℕ) → is_munged bufflen nbytes ≡ false → bufflen ≢ 0
unfolding is_munged
is_munged_zero bufflen nbytes e = ground arith

-- the loop over one read ends within its fuel, and leaves what is to come
abbrev pub Parses : ℕ → Parsed → Sphincter → Type 0
Parses n p t = (p ≢ endless) × (length t.wire ≡ n)

-- one round, before the rest of the loop
parse_round :
    (fuel : ℕ) (buffer : Bytes) (nbytes pos : ℕ) (s : Sphincter) (o : Option (ℕ × ℕ × Bytes))
    → leb nbytes pos ≡ false
    → read_frame (drop pos buffer) ≡ o
    → ((bufflen : ℕ) (t : Sphincter)
        → bufflen ≢ 0
        → length t.wire ≡ length s.wire
        → Allows (Parses (length s.wire)) (parse_loop fuel buffer nbytes (pos + bufflen) t))
    → Allows (Parses (length s.wire)) (parse_loop (suc fuel) buffer nbytes pos s)
unfolding parse_loop
parse_round fuel buffer nbytes pos s none e f next = rw (e, parse_loop) (rw (f, parse_loop) tt)
parse_round fuel buffer nbytes pos s (some (bufflen, reqid, rest)) e f next =
    elim (Bool-cases (is_munged bufflen nbytes)) [
      | inl m ↦ rw (e, parse_loop) (rw (f, parse_loop) (rw (m, parse_loop) ((λ q. cc), refl)))
      | inr m ↦
          rw (e, parse_loop)
            (rw (f, parse_loop)
              (rw (m, parse_loop)
                (>>=-Allows (λ a t. length t.wire ≡ length s.wire) (Parses (length s.wire))
                  (save_response reqid bufflen rest)
                  (λ _. parse_loop fuel buffer nbytes (pos + bufflen)) s
                  (save_response-Keeps reqid bufflen rest s)
                  (λ a t w. next bufflen t (is_munged_zero bufflen nbytes m) w))))
    ]

parse_done :
    (fuel : ℕ) (buffer : Bytes) (nbytes pos : ℕ) (s : Sphincter)
    → leb nbytes pos ≡ true
    → Allows (Parses (length s.wire)) (parse_loop (suc fuel) buffer nbytes pos s)
unfolding parse_loop
parse_done fuel buffer nbytes pos s e = rw (e, parse_loop) (λ q. cc, refl)

parse_loop_ends :
    (fuel : ℕ) (buffer : Bytes) (nbytes pos : ℕ) (s : Sphincter)
    → nbytes < pos + suc fuel
    → Allows (Parses (length s.wire)) (parse_loop (suc fuel) buffer nbytes pos s)
parse_loop_ends zero buffer nbytes pos s h = parse_done zero buffer nbytes pos s (ground arith)
parse_loop_ends (suc fuel) buffer nbytes pos s h = elim (Bool-cases (leb nbytes pos)) [
  | inl e ↦ parse_done (suc fuel) buffer nbytes pos s e
  | inr e ↦
      let before_end : pos < nbytes = ground arith in
      parse_round (suc fuel) buffer nbytes pos s (read_frame (drop pos buffer)) e refl
        (λ bufflen t some_ w. rw (sym w) (
          parse_loop_ends fuel buffer nbytes (pos + bufflen) t
            (omega (arith, h, before_end, some_))))
]

pub parse_loop_enough :
    (fuel : ℕ) (buffer : Bytes) (nbytes pos : ℕ) (s : Sphincter)
    → 1 ≤ fuel
    → nbytes < pos + fuel
    → Allows (Parses (length s.wire)) (parse_loop fuel buffer nbytes pos s)
parse_loop_enough zero buffer nbytes pos s some_ h = absurd (omega arith)
parse_loop_enough (suc fuel) buffer nbytes pos s some_ h =
    parse_loop_ends fuel buffer nbytes pos s h
