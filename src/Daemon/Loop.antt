-- ===== src/Daemon/Loop.antt =====
-- server/nastd.c: the control loop of `main`. `select` and `accept` are parameters.
use nastd.Prelude.{ℕ, ◌==◌, if◌then◌else◌, Bool, false, ◌||◌, List, [], ◌∷◌}
use nastd.Prelude.Bytes.{Bytes}
use nastd.Prelude.Run.{◌>>=◌, ◌>>◌, pure}
use nastd.Cdb.Load.{codes}
use nastd.Daemon.{Accepted, Host, Main, slept, note, complain, do_client_connect}

-- a `fd_set` by its members
abbrev pub FdSet : Type 0
FdSet = List ℕ

abbrev pub fd_isset : ℕ → FdSet → Bool
fd_isset fd [] = false
fd_isset fd (x ∷ set) = (x == fd) || fd_isset fd set

-- what `select` leaves: an error and the set that it leaves then, or the set of those that are ready
pub data Selected : Type 0 where
  select_failed : Bytes → FdSet → Selected
  selected : FdSet → Selected

-- The calls of one round of the loop: `select` by its `nfds` and its set, and `accept` by its socket.
pub record Round : Type 0 where
  pub select : ℕ → FdSet → Selected
  pub accept : ℕ → Accepted

module _ (host : Host) where
  -- a socket that is in the set; what `do_client_connect` returns is not read
  unfoldable pub connect_if : Round → FdSet → ℕ → Main (Unit {0})
  connect_if round set sock =
      if fd_isset sock set
      then (do_client_connect host (round.accept sock) >>= λ rc. pure tt)
      else pure tt

  unfoldable pub connect_both : Round → ℕ → ℕ → FdSet → Main (Unit {0})
  unfolding connect_if
  connect_both round u_csock i_csock set =
      connect_if round set i_csock >> connect_if round set u_csock

  -- The set is tested after an error as well.
  unfoldable pub control_round : ℕ → ℕ → Round → Main (Unit {0})
  unfolding note complain connect_both
  control_round u_csock i_csock round = elim (round.select 10 (u_csock ∷ i_csock ∷ [])) [
    | select_failed e set ↦
        complain host (codes "Couldn't select on sockets: %s.") (e ∷ [])
        >> note (slept 30)
        >> connect_both round u_csock i_csock set
    | selected set ↦ connect_both round u_csock i_csock set
  ]

  -- the rounds of the loop, which does not end
  unfoldable pub control_loop : ℕ → ℕ → List Round → Main (Unit {0})
  unfolding control_round
  control_loop u_csock i_csock [] = pure tt
  control_loop u_csock i_csock (round ∷ rounds) =
      let rest = control_loop u_csock i_csock rounds in control_round u_csock i_csock round >> rest
