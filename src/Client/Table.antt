-- ===== src/Client/Table.antt =====
-- The table of responses: what arrives for one thread is that thread's.
use nastd.Prelude.{
  ℕ, zero, suc, ◌<◌, ◌≡◌, ◌≢◌, refl, ◌∙◌, ap, arith, ◌==◌, not, length, get_elem?, set, [], ◌∷◌,
  some, Option-cases, inl, inr, true, false,
}
use nastd.Prelude.Bytes.{Bytes}
use nastd.Prelude.Alloc.{Heap}
use nastd.Prelude.Outcome.{returns, fault}
use nastd.Client.{
  NastResponse, Responses, Buffer, null, stale, freed, held, getmyresponse, put_response,
  nast_set_error, error_of, addresponse, delresponse, checkresponse,
}

pub get_elem?-set :
    (s : Responses) (i : ℕ) (v : NastResponse) {a : NastResponse}
    → get_elem? s i ≡ some a
    → get_elem? (set s i v) i ≡ some v
get_elem?-set [] i v e = absurd (cc e)
get_elem?-set (x ∷ s) zero v e = refl
get_elem?-set (x ∷ s) (suc i) v e = get_elem?-set s i v e

pub get_elem?-set_ne :
    (s : Responses) (i j : ℕ) (v : NastResponse) → j ≢ i → get_elem? (set s i v) j ≡ get_elem? s j
get_elem?-set_ne [] i j v ne = refl
get_elem?-set_ne (x ∷ s) zero zero v ne = absurd (ne refl)
get_elem?-set_ne (x ∷ s) zero (suc j) v ne = refl
get_elem?-set_ne (x ∷ s) (suc i) zero v ne = refl
get_elem?-set_ne (x ∷ s) (suc i) (suc j) v ne = get_elem?-set_ne s i j v (λ e. ne (ap suc e))

pub get_elem?-lt-length :
    (s : Responses) (i : ℕ) {a : NastResponse} → get_elem? s i ≡ some a → i < length s
get_elem?-lt-length [] i e = absurd (cc e)
get_elem?-lt-length (x ∷ s) zero e = omega arith
get_elem?-lt-length (x ∷ s) (suc i) e = omega (arith, get_elem?-lt-length s i e)

-- the response that an arrival leaves
abbrev pub arrival : ℕ → ℕ → Bytes → NastResponse
arrival reqid code body = record {
  buffer = held body;
  errcode = error_of code;
  arrived = not (reqid == 65535);
}

-- `addresponse` by the thread's place in the table
addresponse_lem :
    (s : Responses) (i code : ℕ) (body : Bytes) (h : Heap) {s' : Responses} {h' : Heap}
    → addresponse s (suc i) code body h ≡ returns ((true, s'), h')
    → (ar : NastResponse) × (get_elem? s i ≡ some ar)
      × (s' ≡ set (set s i (record ar { errcode = error_of code })) i (arrival (suc i) code body))
unfolding addresponse nast_set_error getmyresponse put_response
addresponse_lem s i code body h e = elim (Option-cases (get_elem? s i)) [
  | inl n ↦ absurd (ground (arith, n))
  | inr (ar, n) ↦
      (ar, n, ground (arith, n, get_elem?-set s i (record ar { errcode = error_of code }) n))
]

others_left :
    (s : Responses) (i j : ℕ) (v w : NastResponse)
    → j ≢ suc i
    → getmyresponse (set (set s i v) i w) j ≡ getmyresponse s j
unfolding getmyresponse
others_left s i zero v w other = refl
others_left s i (suc j) v w other =
    let ne : j ≢ i = λ e. other (ap suc e) in
    ap returns (get_elem?-set_ne (set s i v) i j w ne ∙ get_elem?-set_ne s i j v ne)

-- An `addresponse` that returns 0 for a number other than 65535 leaves, under that number, the
-- response's bytes and the error that its code stands for, so that `checkresponse` finds it; what
-- stands under every other number is left.
pub getmyresponse-addresponse :
    (s : Responses) (reqid code : ℕ) (body : Bytes) (h : Heap) (j : ℕ) {s' : Responses} {h' : Heap}
    → reqid ≢ 65535
    → addresponse s reqid code body h ≡ returns ((true, s'), h')
    → (getmyresponse s' reqid ≡ returns (some (arrival reqid code body)))
      × (checkresponse s' reqid ≡ returns true)
      × (j ≢ reqid → getmyresponse s' j ≡ getmyresponse s j)
unfolding getmyresponse checkresponse addresponse nast_set_error
getmyresponse-addresponse s zero code body h j ne e = absurd (cc e)
getmyresponse-addresponse s (suc i) code body h j {s'} ne e =
    let (ar, there, same) = addresponse_lem s i code body h e in
    let s₁ = set s i (record ar { errcode = error_of code }) in
    let here : get_elem? s' i ≡ some (arrival (suc i) code body) = rw same (
      get_elem?-set s₁ i (arrival (suc i) code body)
        (get_elem?-set s i (record ar { errcode = error_of code }) there)) in
    (
      rw here refl,
      ground (arith, here, ne, get_elem?-lt-length s' i here),
      λ other. rw same (
          others_left s i j (record ar { errcode = error_of code }) (arrival (suc i) code body)
            other),
    )

-- A response that holds bytes and is deleted twice, with none arriving in between, is released twice.
pub delresponse_twice :
    (s : Responses) (reqid : ℕ) (ar : NastResponse) (body : Bytes) {s' : Responses}
    → getmyresponse s reqid ≡ returns (some ar)
    → ar.buffer ≡ held body
    → delresponse s reqid ≡ returns s'
    → delresponse s' reqid ≡ fault
unfolding delresponse getmyresponse put_response
delresponse_twice s zero ar body there b e = absurd (cc there)
delresponse_twice s (suc i) ar body {s'} there b e =
    let found : get_elem? s i ≡ some ar = ground (arith, there) in
    let after : NastResponse = record ar { buffer = freed; arrived = false } in
    let left : s' ≡ set s i after = ground (arith, found, b) in
    ground (arith, left, get_elem?-set s i after found)

pub length-set : (s : Responses) (i : ℕ) (v : NastResponse) → length (set s i v) ≡ length s
length-set [] i v = refl
length-set (x ∷ s) zero v = refl
length-set (x ∷ s) (suc i) v = ap suc (length-set s i v)

-- a place in the table that is ready for a response
pub record IsReady (t : Responses) (i : ℕ) (ar : NastResponse) : Type 0 where
  pub there : get_elem? t i ≡ some ar
  pub absent : ar.arrived ≡ false

-- what a command's `delresponse` leaves: nothing for its thread
pub cleared : NastResponse → NastResponse
cleared ar = record ar { buffer = elim ar.buffer [ held b ↦ freed | _ ↦ null ]; arrived = false }

pub delresponse-IsReady :
    (t : Responses) (i : ℕ) (ar : NastResponse)
    → get_elem? t i ≡ some ar
    → ar.buffer ≢ freed
    → (delresponse t (suc i) ≡ returns (set t i (cleared ar)))
      × IsReady (set t i (cleared ar)) i (cleared ar)
unfolding delresponse getmyresponse put_response cleared
delresponse-IsReady t i ar e ne =
    (split ar.buffer refl, record { there = get_elem?-set t i (cleared ar) e; absent = refl })
  where
    split : (b : Buffer) → ar.buffer ≡ b → delresponse t (suc i) ≡ returns (set t i (cleared ar))
    split null q = ground (arith, e, q)
    split stale q = ground (arith, e, q)
    split freed q = absurd (ne q)
    split (held b) q = ground (arith, e, q)

-- a response that comes where one is awaited, with memory at hand
pub addresponse-IsReady :
    (t : Responses) (i code : ℕ) (body : Bytes) (ar : NastResponse)
    → IsReady t i ar
    → addresponse t (suc i) code body []
      ≡ returns (
        (true, set (set t i (record ar { errcode = error_of code })) i (arrival (suc i) code body)),
        [],
      )
unfolding addresponse nast_set_error getmyresponse put_response
addresponse-IsReady t i code body ar r =
    ground (arith, r.there, get_elem?-set t i (record ar { errcode = error_of code }) r.there)

pub checkresponse-IsReady :
    (t : Responses) (i : ℕ) (ar : NastResponse)
    → IsReady t i ar
    → checkresponse t (suc i) ≡ returns false
unfolding checkresponse getmyresponse
checkresponse-IsReady t i ar r = ground (arith, r.there, r.absent)
