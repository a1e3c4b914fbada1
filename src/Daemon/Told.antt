-- ===== src/Daemon/Told.antt =====
-- server/nastd.c: what `make_u_csock` and `make_i_csock` tell the system.
use mathlib.Core.List.{append_assoc}
use nastd.Prelude.{
  ℕ, ◌≡◌, ◌∙◌, ap, arith, Bool, true, false, ltb, length, List, [], ◌∷◌, ◌++◌, Option, none, some,
  if◌then◌else◌,
}
use nastd.Prelude.Bytes.{Bytes}
use nastd.Prelude.Run.{◌>>◌, crash, Allows, Allows-weaken}
use nastd.Ipc.{htons}
use nastd.Daemon.{
  Answer, failed, gives, unix, inet, Event, unlinked, bound, listens, Host, Daemon, note, complain,
  listening, bind_unix, name_unix, bind_inet, name_inet,
}

-- a socket that is there, and what it has been told
abbrev pub Told : List Event → (ℕ → List Event) → Daemon → Option ℕ → Daemon → Type 0
Told before_ told s none t = Unit
Told before_ told s (some sock) t = t ≡ record s { trace = before_ ++ told sock }

module _ (host : Host) where
  bind_unix-Told :
      (sock : ℕ) (nast_sock : Bytes) (a : Answer (Unit {0})) (s : Daemon)
      → Allows
          (Told s.trace (λ u. bound u (unix nast_sock) ∷ listens u 10 ∷ []) s)
          (bind_unix host sock nast_sock a s)
  unfolding bind_unix listening note complain
  bind_unix-Told sock nast_sock (failed e) s = tt
  bind_unix-Told sock nast_sock (gives _) s =
      ground (arith, append_assoc s.trace (bound sock (unix nast_sock) ∷ []) (listens sock 10 ∷ []))

  pub name_unix-Told :
      (nast_sock : Bytes) (a : Answer ℕ) (s : Daemon)
      → Allows
          (Told s.trace (λ u. unlinked nast_sock ∷ bound u (unix nast_sock) ∷ listens u 10 ∷ []) s)
          (name_unix host nast_sock a s)
  unfolding name_unix listening note complain
  name_unix-Told nast_sock (failed e) s = tt
  name_unix-Told nast_sock (gives sock) s = fits (ltb (length nast_sock) host.sun_path_size)
    where
      named : Daemon
      named = record s { trace = s.trace ++ unlinked nast_sock ∷ [] }

      further :
          (o : Option ℕ) (t : Daemon)
          → Told named.trace (λ u. bound u (unix nast_sock) ∷ listens u 10 ∷ []) named o t
          → Told s.trace
              (λ u. unlinked nast_sock ∷ bound u (unix nast_sock) ∷ listens u 10 ∷ [])
              s
              o
              t
      further none t q = tt
      further (some u) t q =
          q
          ∙ ap (λ tr. record s { trace = tr })
              (append_assoc s.trace (unlinked nast_sock ∷ [])
                (bound u (unix nast_sock) ∷ listens u 10 ∷ []))

      fits :
          (b : Bool)
          → Allows
              (Told s.trace
                (λ u. unlinked nast_sock ∷ bound u (unix nast_sock) ∷ listens u 10 ∷ [])
                s)
              ((if b
                  then note (unlinked nast_sock) >> bind_unix host sock nast_sock host.unix_bind
                  else crash)
                s)
      fits true =
          Allows-weaken (Told named.trace (λ u. bound u (unix nast_sock) ∷ listens u 10 ∷ []) named)
            (Told s.trace (λ u. unlinked nast_sock ∷ bound u (unix nast_sock) ∷ listens u 10 ∷ [])
              s)
            (bind_unix host sock nast_sock host.unix_bind named)
            (bind_unix-Told sock nast_sock host.unix_bind named) further
      fits false = tt

  pub name_inet-Told :
      (tcp_port : ℕ) (a : Answer ℕ) (s : Daemon)
      → Allows
          (Told s.trace (λ i. bound i (inet (htons tcp_port)) ∷ listens i 10 ∷ []) s)
          (name_inet host tcp_port a s)
  unfolding name_inet bind_inet listening note complain
  name_inet-Told tcp_port (failed e) s = tt
  name_inet-Told tcp_port (gives sock) s = binds host.inet_bind
    where
      binds :
          (a : Answer (Unit {0}))
          → Allows
              (Told s.trace (λ i. bound i (inet (htons tcp_port)) ∷ listens i 10 ∷ []) s)
              (bind_inet host sock tcp_port a s)
      binds (failed e) = tt
      binds (gives _) =
          ap (λ tr. record s { trace = tr })
            (append_assoc s.trace (bound sock (inet (htons tcp_port)) ∷ []) (listens sock 10 ∷ []))
