-- ===== src/Server/Command/Frames.antt =====
-- Whole requests that arrive in one read are served one after the other.
use nastd.Prelude.{
  drop-add, Option-cases, inl, inr, get_elem?, ℕ, zero, suc, ◌+◌, ◌-◌, ◌^◌, ◌≤◌, ◌<◌, ◌≡◌, refl,
  ◌∙◌, ap, arith, ltb, true, false, not, List, [], ◌∷◌, ◌++◌, Option, none, some, length,
  length-append, drop, take-append_self, drop-append_self,
}
use mathlib.Core.List.{append_assoc}
use nastd.Prelude.Bytes.{Bytes}
use nastd.Prelude.Outcome.{Outcome, returns, blocked, fault}
use nastd.Ipc.{
  htons, nastcmd, nastadd, nastdel, nastupd, nastget, nastdie, nastoptget, nastoptset, naststats,
}
use nastd.Server.{Server, Rc, ok, err, bye, Act, ◌>>=◌, pure}
use nastd.Server.Options.{do_opt_get}
use nastd.Server.Options.{do_opt_set}
use nastd.Server.Options.Kept.{flat, do_opt_set-flat, length-flat}
use nastd.Server.Lookup.{do_get}
use nastd.Server.Update.{do_update}
use nastd.Server.Stats.{Report, do_stats}
use nastd.Server.Command.{
  header, read_header, advance, with_payload, opt_set_at, opt_set_payload, run_command,
  process_loop, process_cmd, on_ok,
}

-- the requests of the protocol
pub data Command : Type 0 where
  die : Command
  opt_set : List (ℕ × ℕ) → Command
  opt_get : Command
  get : Bytes → Command
  add : Bytes → Command
  del : Bytes → Command
  upd : Bytes → Command
  stats : Command

abbrev pub code_of : Command → ℕ
code_of die = nastdie
code_of (opt_set pairs) = nastoptset
code_of opt_get = nastoptget
code_of (get key) = nastget
code_of (add key) = nastadd
code_of (del key) = nastdel
code_of (upd payload) = nastupd
code_of stats = naststats

abbrev pub payload_of : Command → Bytes
payload_of (opt_set pairs) = flat pairs
payload_of (get key) = key
payload_of (add key) = key
payload_of (del key) = key
payload_of (upd payload) = payload
payload_of _ = []

-- a request with its number
pub record Call : Type 0 where
  pub reqid : ℕ
  pub command : Command

-- its bytes
abbrev pub encode : Call → Bytes
encode c =
    htons (6 + length (payload_of c.command))
    ++ (htons c.reqid ++ nastcmd ∷ code_of c.command ∷ payload_of c.command)

abbrev pub encode_all : List Call → Bytes
encode_all [] = []
encode_all (c ∷ cs) = encode c ++ encode_all cs

-- the lengths and numbers fit the wire
pub record Fits (c : Call) : Type 0 where
  pub by_length : 6 + length (payload_of c.command) < 2 ^ 15
  pub by_number : c.reqid < 2 ^ 16

abbrev pub AllFit : List Call → Type 0
AllFit [] = Unit
AllFit (c ∷ cs) = Fits c × AllFit cs

read_header-encode :
    (c : Call) (rest : Bytes)
    → Fits c
    → read_header (encode c ++ rest)
      ≡ header
          (6 + length (payload_of c.command))
          c.reqid
          (code_of c.command)
          (payload_of c.command ++ rest)
unfolding read_header
read_header-encode c rest f = ground (arith, f.by_length, f.by_number)

advance_lem : (pos len : ℕ) → len < 2 ^ 15 → advance pos len ≡ some (pos + len)
unfolding advance
advance_lem pos len h = ground arith

with_payload_lem :
    (payload rest : Bytes) (f : Bytes → Act Rc)
    → 6 + length payload < 2 ^ 15
    → with_payload (6 + length payload) (payload ++ rest) f ≡ f payload
unfolding with_payload
with_payload_lem payload rest f h = ground (
  arith,
  length-append payload rest,
  take-append_self payload rest (6 + length payload - 6) (omega arith),
)

length-encode : (c : Call) → length (encode c) ≡ 6 + length (payload_of c.command)
length-encode c = omega arith

bind_ext :
    (m : Act Rc) (f g : Act (Option Rc)) (s : Server)
    → ((t : Server) → f t ≡ g t)
    → (m >>= on_ok f) s ≡ (m >>= on_ok g) s
bind_ext m f g s h = split (m s)
  where
    split :
        (r : Outcome (Rc × Server))
        → (let x : Outcome (Option Rc × Server) = elim r [
          | returns (a, t) ↦ on_ok f a t
          | blocked ↦ blocked
          | fault ↦ fault
        ] in
            x)
          ≡ elim r [ returns (a, t) ↦ on_ok g a t | blocked ↦ blocked | fault ↦ fault ]
    split (returns (ok, t)) = h t
    split (returns (err, t)) = refl
    split (returns (bye, t)) = refl
    split blocked = refl
    split fault = refl

opt_set_at_lem :
    (reqid : ℕ) (pairs : List (ℕ × ℕ)) (rest : Bytes)
    → opt_set_at reqid (6 + length (flat pairs)) rest (flat pairs) ≡ do_opt_set reqid 0 (flat pairs)
unfolding opt_set_at
opt_set_at_lem reqid pairs rest =
    elim (Option-cases (get_elem? rest (6 + length (flat pairs) - 6))) [
      | inl nothing ↦ ground (arith, nothing, length-flat pairs)
      | inr (beyond, there) ↦ rw (there, opt_set_at) (do_opt_set-flat reqid beyond pairs)
    ]

opt_set_payload_lem :
    (reqid : ℕ) (pairs : List (ℕ × ℕ)) (rest : Bytes)
    → 6 + length (flat pairs) < 2 ^ 15
    → opt_set_payload (6 + length (flat pairs)) reqid (flat pairs ++ rest)
      ≡ opt_set_at reqid (6 + length (flat pairs)) (flat pairs ++ rest) (flat pairs)
unfolding opt_set_payload
opt_set_payload_lem reqid pairs rest h = ground (
  arith,
  length-append (flat pairs) rest,
  take-append_self (flat pairs) rest (6 + length (flat pairs) - 6) (omega arith),
)

module _ (md5_calc : Bytes → Bytes) (now timeout uptime : ℕ) (report : Report) where
  -- what a request asks for
  unfoldable pub serve : Call → Act Rc
  serve c = elim c.command [
    | die ↦ pure bye
    | opt_set pairs ↦ do_opt_set c.reqid 0 (flat pairs)
    | opt_get ↦ do_opt_get c.reqid
    | get key ↦ do_get md5_calc now timeout c.reqid key
    | add key ↦ pure ok
    | del key ↦ pure ok
    | upd payload ↦ do_update md5_calc now timeout c.reqid payload
    | stats ↦ do_stats report uptime c.reqid
  ]

  -- one after the other, up to the first that does not return 0
  unfoldable pub serve_all : List Call → Act (Option Rc)
  serve_all [] = pure (some ok)
  serve_all (c ∷ cs) = serve c >>= on_ok (serve_all cs)

  run_command_lem :
      (reqid : ℕ) (cmd : Command) (rest : Bytes)
      → 6 + length (payload_of cmd) < 2 ^ 15
      → run_command md5_calc now timeout uptime report
          (6 + length (payload_of cmd))
          reqid
          (code_of cmd)
          (payload_of cmd ++ rest)
        ≡ serve (record { reqid = reqid; command = cmd })
  unfolding run_command serve
  run_command_lem reqid die rest h = refl
  run_command_lem reqid (opt_set pairs) rest h =
      opt_set_payload_lem reqid pairs rest h ∙ opt_set_at_lem reqid pairs (flat pairs ++ rest)
  run_command_lem reqid opt_get rest h = refl
  run_command_lem reqid (get key) rest h =
      with_payload_lem key rest (do_get md5_calc now timeout reqid) h
  run_command_lem reqid (add key) rest h = refl
  run_command_lem reqid (del key) rest h = refl
  run_command_lem reqid (upd payload) rest h =
      with_payload_lem payload rest (do_update md5_calc now timeout reqid) h
  run_command_lem reqid stats rest h = refl

  process_loop_lem :
      (cs : List Call) (fuel : ℕ) (buffer : Bytes) (bufflen pos : ℕ) (stale : Bytes) (s : Server)
      → AllFit cs
      → length cs < fuel
      → drop pos buffer ≡ encode_all cs ++ stale
      → bufflen ≡ pos + length (encode_all cs)
      → process_loop md5_calc now timeout uptime report fuel buffer bufflen pos s ≡ serve_all cs s
  unfolding process_loop serve_all
  process_loop_lem cs zero buffer bufflen pos stale s f enough e n = absurd (omega (arith, enough))
  process_loop_lem [] (suc fuel) buffer bufflen pos stale s f enough e n =
      let over : not (ltb pos bufflen) ≡ true = ground (arith, n) in rw (over, process_loop)
  process_loop_lem (c ∷ cs) (suc fuel) buffer bufflen pos stale s f enough e n =
      rw (more, process_loop)
        (rw (e, process_loop)
          (rw (append_assoc (encode c) (encode_all cs) stale, process_loop)
            (rw (read_header-encode c (encode_all cs ++ stale) f.0, process_loop)
              (rw
                (
                  run_command_lem c.reqid c.command (encode_all cs ++ stale) f.0.by_length,
                  process_loop,
                )
                (bind_ext (serve c) _ (serve_all cs) s (λ t.
                  rw (advance_lem pos (6 + length (payload_of c.command)) f.0.by_length) (
                    process_loop_lem cs fuel buffer bufflen
                      (pos + (6 + length (payload_of c.command))) stale t f.1
                      (omega (arith, enough)) next
                      (omega (arith, n, length-append (encode c) (encode_all cs))))))))))
    where
      more : not (ltb pos bufflen) ≡ false
      more = ground (arith, n, length-append (encode c) (encode_all cs))

      next : drop (pos + (6 + length (payload_of c.command))) buffer ≡ encode_all cs ++ stale
      next =
          drop-add pos (6 + length (payload_of c.command)) buffer
          ∙ ap (drop (6 + length (payload_of c.command)))
              (e ∙ append_assoc (encode c) (encode_all cs) stale)
          ∙ drop-append_self (encode c) (encode_all cs ++ stale) (6 + length (payload_of c.command))
              (omega arith)

  -- A read that brings whole requests, at least one, whose lengths and numbers fit the wire, makes
  -- `process_cmd` serve them in order, each by its handler with its own number and payload, up to
  -- the first that does not return 0; as much fuel as there are requests, and one, is enough.
  -- What stands behind the read in the array makes no difference.
  pub process_cmd-serve_all :
      (c : Call) (cs : List Call) (stale : Bytes) (s : Server)
      → AllFit (c ∷ cs)
      → process_cmd md5_calc now timeout uptime report
          (2 + length cs)
          (encode_all (c ∷ cs) ++ stale)
          (length (encode_all (c ∷ cs)))
          s
        ≡ serve_all (c ∷ cs) s
  unfolding process_cmd
  process_cmd-serve_all c cs stale s f =
      let long : ltb (length (encode_all (c ∷ cs))) 6 ≡ false =
        ground (arith, length-append (encode c) (encode_all cs)) in
      rw (long, process_cmd)
        (process_loop_lem (c ∷ cs) (2 + length cs) (encode_all (c ∷ cs) ++ stale)
          (length (encode_all (c ∷ cs))) 0 stale s f (omega arith) refl (omega arith))

  -- At least six bytes that start with a DEL request of length 0, which the server only logs, keep
  -- `process_cmd` busy for ever: whatever fuel is given the loop has not ended, and nothing has
  -- changed.
  pub zero_length_spins :
      (fuel bufflen a b : ℕ) (rest : Bytes) (s : Server)
      → 6 ≤ bufflen
      → process_cmd md5_calc now timeout uptime report fuel
          (0 ∷ 0 ∷ a ∷ b ∷ nastcmd ∷ nastdel ∷ rest)
          bufflen
          s
        ≡ returns (none, s)
  unfolding process_cmd process_loop read_header run_command advance
  zero_length_spins fuel bufflen a b rest s h =
      let long : ltb bufflen 6 ≡ false = ground arith in
      let more : not (ltb 0 bufflen) ≡ false = ground arith in
      rw (long, process_cmd) (spins fuel more)
    where
      spins :
          (fuel : ℕ)
          → not (ltb 0 bufflen) ≡ false
          → process_loop md5_calc now timeout uptime report fuel
              (0 ∷ 0 ∷ a ∷ b ∷ nastcmd ∷ nastdel ∷ rest)
              bufflen
              0
              s
            ≡ returns (none, s)
      spins zero more = refl
      spins (suc fuel) more = rw (more, process_loop) (spins fuel more)
