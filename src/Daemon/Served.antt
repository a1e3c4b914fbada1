-- ===== src/Daemon/Served.antt =====
-- server/nastd.c: whom the control loop of `main` serves.
use mathlib.Core.List.{append_assoc, append-nil}
use nastd.Prelude.{
  ℕ, ◌<◌, ◌≤◌, ◌≡◌, ◌≢◌, refl, ◌∙◌, ap, sym, arith, inl, inr, Bool, true, false, List, [], ◌∷◌,
  ◌++◌, if◌then◌else◌, Bool-cases,
}
use nastd.Prelude.Bytes.{Bytes}
use nastd.Prelude.Outcome.{returns, blocked}
use nastd.Prelude.Run.{◌>>=◌, ◌>>◌, pure, >>=-returns}
use nastd.Fqm.Start.{thread_new}
use nastd.Daemon.{
  Accepted, refused, accepts, waits, Event, log_opened, logged, sigpipe_blocked, new_session,
  closed, unlinked, bound, listens, serves, slept, Host, Daemon, Main, note, complain,
  rw_mutex_make, open_client, do_client_connect,
}
use nastd.Daemon.Loop.{
  FdSet, fd_isset, select_failed, selected, Round, connect_if, connect_both, control_round,
  control_loop,
}

-- the connections for which a thread has been started
pub served : List Event → List ℕ
served [] = []
served (serves s ∷ trace) = s ∷ served trace
served (_ ∷ trace) = served trace

served-append : (xs ys : List Event) → served (xs ++ ys) ≡ served xs ++ served ys
unfolding served
served-append [] ys = refl
served-append (serves s ∷ xs) ys = ap (◌∷◌ s) (served-append xs ys)
served-append (log_opened x ∷ xs) ys = served-append xs ys
served-append (logged x ∷ xs) ys = served-append xs ys
served-append (sigpipe_blocked ∷ xs) ys = served-append xs ys
served-append (new_session ∷ xs) ys = served-append xs ys
served-append (closed x ∷ xs) ys = served-append xs ys
served-append (unlinked x ∷ xs) ys = served-append xs ys
served-append (bound x y ∷ xs) ys = served-append xs ys
served-append (listens x y ∷ xs) ys = served-append xs ys
served-append (slept x ∷ xs) ys = served-append xs ys

-- A daemon with memory and threads at hand, and what it has done.
abbrev pub calm : Daemon → List Event → Daemon
calm s trace = record s {
  boot = record { heap = []; makes = []; turns = s.boot.turns };
  trace = trace;
}

-- whom an `accept` brings
abbrev pub comer : Accepted → List ℕ
comer (accepts s) = s ∷ []
comer _ = []

abbrev pub comers : FdSet → (ℕ → Accepted) → ℕ → List ℕ
comers set accept sock = if fd_isset sock set then comer (accept sock) else []

-- `select` brings a set, and `accept` does not wait on a socket of the set.
pub record IsPolled (u i : ℕ) (round : Round) (set : FdSet) : Type 0 where
  pub polled : round.select 10 (u ∷ i ∷ []) ≡ selected set
  pub inet_comes : fd_isset i set ≡ true → round.accept i ≢ waits
  pub unix_comes : fd_isset u set ≡ true → round.accept u ≢ waits

-- rounds with the sets that `select` brings
abbrev pub ArePolled : ℕ → ℕ → List (Round × FdSet) → Type 0
ArePolled u i [] = Unit
ArePolled u i ((round, set) ∷ rounds) = IsPolled u i round set × ArePolled u i rounds

abbrev pub rounds_of : List (Round × FdSet) → List Round
rounds_of [] = []
rounds_of ((round, set) ∷ rounds) = round ∷ rounds_of rounds

-- those who come to the sockets, in the order of the rounds, to the inet socket first
abbrev pub all_comers : ℕ → ℕ → List (Round × FdSet) → List ℕ
all_comers u i [] = []
all_comers u i ((round, set) ∷ rounds) =
    (comers set round.accept i ++ comers set round.accept u) ++ all_comers u i rounds

module _ (host : Host) (s : Daemon) where
  do_client_connect-comer :
      (a : Accepted) (tr : List Event)
      → a ≢ waits
      → (rc : Bool) × (tr' : List Event) × (do_client_connect host a (calm s tr)
          ≡ returns (rc, calm s tr'))
        × (served tr' ≡ served tr ++ comer a)
  unfolding do_client_connect complain note open_client rw_mutex_make thread_new served
  do_client_connect-comer (refused e) tr ne = (false, _, refl, served-append tr _)
  do_client_connect-comer (accepts n) tr ne = (
    true,
    _,
    refl,
    served-append (tr ++ _ ∷ []) (serves n ∷ [])
        ∙ ap (λ l. l ++ n ∷ []) (served-append tr _ ∙ append-nil (served tr)),
  )
  do_client_connect-comer waits tr ne = absurd (ne refl)

  -- A part of the loop returns, in a daemon that is as calm, and has served `more` further.
  abbrev Serves : Main (Unit {0}) → List Event → List ℕ → Type 0
  Serves m tr more =
      (tr' : List Event) × (m (calm s tr) ≡ returns (tt, calm s tr'))
      × (served tr' ≡ served tr ++ more)

  connect_if-Serves :
      (round : Round) (set : FdSet) (sock : ℕ) (tr : List Event)
      → (fd_isset sock set ≡ true → round.accept sock ≢ waits)
      → Serves (connect_if host round set sock) tr (comers set round.accept sock)
  unfolding connect_if
  connect_if-Serves round set sock tr ne = elim (Bool-cases (fd_isset sock set)) [
    | inl there ↦
        let (rc, tr', e, l) = do_client_connect-comer (round.accept sock) tr (ne there) in
        (
          tr',
          rw (there, connect_if)
              (>>=-returns (do_client_connect host (round.accept sock)) (λ rc. pure tt) (calm s tr)
                e),
          rw there l,
        )
    | inr gone ↦ (tr, rw (gone, connect_if) refl, rw gone (sym (append-nil (served tr))))
  ]

  then-Serves :
      (m n : Main (Unit {0})) (tr : List Event) (xs ys : List ℕ)
      → Serves m tr xs
      → ((tr' : List Event) → Serves n tr' ys)
      → Serves (m >> n) tr (xs ++ ys)
  then-Serves m n tr xs ys (tr', e, l) k =
      let (tr'', e', l') = k tr' in
      (
        tr'',
        >>=-returns m (λ u. n) (calm s tr) e ∙ e',
        l' ∙ ap (λ z. z ++ ys) l ∙ append_assoc (served tr) xs ys,
      )

  round-Serves :
      (u i : ℕ) (round : Round) (set : FdSet) (tr : List Event)
      → IsPolled u i round set
      → Serves
          (control_round host u i round)
          tr
          (comers set round.accept i ++ comers set round.accept u)
  unfolding control_round connect_both
  round-Serves u i round set tr p =
      rw (p.polled, control_round)
        (then-Serves (connect_if host round set i) (connect_if host round set u) tr _ _
          (connect_if-Serves round set i tr p.inet_comes)
          (λ tr'. connect_if-Serves round set u tr' p.unix_comes))

  -- With memory and threads at hand, and a `select` that brings sets of sockets on which `accept` does
  -- not wait, the loop goes through its rounds, past the connections that `accept` refuses, and starts
  -- a thread for each connection that it accepts, once, in the order of the rounds and in a round the
  -- inet socket first.
  pub control_loop-Serves :
      (u i : ℕ) (rounds : List (Round × FdSet)) (tr : List Event)
      → ArePolled u i rounds
      → Serves (control_loop host u i (rounds_of rounds)) tr (all_comers u i rounds)
  unfolding control_loop
  control_loop-Serves u i [] tr p = (tr, refl, sym (append-nil (served tr)))
  control_loop-Serves u i ((round, set) ∷ rounds) tr (p, ps) =
      then-Serves (control_round host u i round) (control_loop host u i (rounds_of rounds)) tr _ _
        (round-Serves u i round set tr p) (λ tr'. control_loop-Serves u i rounds tr' ps)

both_set : (u i : ℕ) → fd_isset i (u ∷ i ∷ []) ≡ true
both_set u i = ground arith

connect_if-waits :
    (host : Host) (round : Round) (set : FdSet) (sock : ℕ) (s : Daemon)
    → fd_isset sock set ≡ true
    → round.accept sock ≡ waits
    → connect_if host round set sock s ≡ blocked
unfolding connect_if do_client_connect
connect_if-waits host round set sock s there w =
    rw (there, connect_if) (rw (w, do_client_connect) refl)

-- Where `select` fails and leaves the set as it was, and nobody has come to the inet socket, the round
-- waits in `accept`, whoever has come to the unix socket.
pub select_failed_waits :
    (host : Host) (u i : ℕ) (round : Round) (e : Bytes) (s : Daemon)
    → round.select 10 (u ∷ i ∷ []) ≡ select_failed e (u ∷ i ∷ [])
    → round.accept i ≡ waits
    → control_round host u i round s ≡ blocked
unfolding control_round connect_both complain note
select_failed_waits host u i round e s f w =
    rw (f, control_round)
      (rw (connect_if-waits host round (u ∷ i ∷ []) i _ (both_set u i) w, ◌>>=◌) refl)

-- Where `select` brings only sockets below its first argument, one with the number 10 or more is
-- passed over, whoever has come to it.
pub high_socket_passed :
    (host : Host) (u i : ℕ) (round : Round) (set : FdSet) (s : Daemon)
    → round.select 10 (u ∷ i ∷ []) ≡ selected set
    → ((fd : ℕ) → fd_isset fd set ≡ true → fd < 10)
    → 10 ≤ i
    → control_round host u i round s ≡ connect_if host round set u s
unfolding control_round connect_both connect_if
high_socket_passed host u i round set s f below high = elim (Bool-cases (fd_isset i set)) [
  | inl there ↦ absurd (omega (arith, below i there))
  | inr gone ↦ rw (f, control_round) (rw gone refl)
]
