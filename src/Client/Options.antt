-- ===== src/Client/Options.antt =====
-- The options' way: the bytes of `nast_options_set`, what the server keeps, and what
-- `nast_options_get` reads from the server's answer.
use nastd.Prelude.{
  ℕ, suc, ◌<◌, ◌^◌, ◌≡◌, ◌≢◌, refl, ◌∙◌, arith, true, false, List, [], ◌∷◌, ◌++◌, some, length, set,
  Bool,
}
use nastd.Prelude.Bytes.{Bytes}
use nastd.Prelude.Fields.{join, IsPlain}
use nastd.Prelude.Outcome.{returns}
use nastd.Prelude.Run.{>>=-returns}
use nastd.Thread.{rw_mutex_new}
use nastd.Ipc.{NastOptions, nastcmd, nastoptset, nastoptget, nastok, nastsep}
use nastd.Server.{Server, ClientOpts, ◌>>=◌}
use nastd.Server as Srv
use nastd.Server.Respond.Sent.{response}
use nastd.Server.Options.{flag_byte, opt_bytes}
use nastd.Server.Options.Kept.{flat, set_options-opt_bytes}
use nastd.Server.Options.Keeping.{keeping, do_opt_set-keeping, do_opt_get-keeping}
use nastd.Server.Stats.{Report}
use nastd.Server.Command.{process_cmd}
use nastd.Server.Command.Frames.{Call, encode, opt_set, opt_get, serve}
use nastd.Server.Command.One.{process_cmd-serve}
use nastd.Client.{NastResponse, error_of, getmyresponse}
use nastd.Client.Table.{arrival, cleared, length-set}
use nastd.Client.Session.{Sphincter, Arrival, got, ok}
use nastd.Client.Commands.{
  ask, nast_options_set, nast_options_get, nast_get_result, options_text, read_options,
}
use nastd.Client.Asked.{IsIdle, told, told_response, ask_lem, get_result_lem}

-- the options with their values, as they stand on the wire
abbrev pub pairs_of : NastOptions → List (ℕ × ℕ)
pairs_of o =
    (1, flag_byte o.use_qcache)
    ∷ (2, flag_byte o.use_localdb)
    ∷ (3, flag_byte o.fallthrough_async)
    ∷ (4, flag_byte o.always_fallthrough)
    ∷ (5, flag_byte o.fail_once)
    ∷ (7, flag_byte o.no_fallthrough)
    ∷ []

flat-pairs_of : (o : NastOptions) → flat (pairs_of o) ≡ opt_bytes o
unfolding opt_bytes
flat-pairs_of o = refl

flag_byte-ne-sep : (b : Bool) → flag_byte b ≢ nastsep
flag_byte-ne-sep true e = omega arith
flag_byte-ne-sep false e = omega arith

IsPlain-opt_bytes : (o : NastOptions) → IsPlain nastsep (opt_bytes o)
unfolding opt_bytes
IsPlain-opt_bytes o = (
  λ e. omega arith,
  (
    flag_byte-ne-sep o.use_qcache,
    (
      λ e. omega arith,
      (
        flag_byte-ne-sep o.use_localdb,
        (
          λ e. omega arith,
          (
            flag_byte-ne-sep o.fallthrough_async,
            (
              λ e. omega arith,
              (
                flag_byte-ne-sep o.always_fallthrough,
                (
                  λ e. omega arith,
                  (
                    flag_byte-ne-sep o.fail_once,
                    (λ e. omega arith, (flag_byte-ne-sep o.no_fallthrough, tt)),
                  ),
                ),
              ),
            ),
          ),
        ),
      ),
    ),
  ),
)

-- the bytes of the two requests
abbrev pub set_bytes : ℕ → NastOptions → Bytes
set_bytes i o = encode (record { reqid = suc i; command = opt_set (pairs_of o) })

abbrev pub get_bytes : ℕ → Bytes
get_bytes i = encode (record { reqid = suc i; command = opt_get })

module _ (i : ℕ) (ar : NastResponse) (c : Sphincter) (q : IsIdle i ar c) where
  -- A client that has been answered is idle again.
  told-IsIdle :
      (code : ℕ) (items bytes : Bytes) (w : List Arrival)
      → suc i ≢ 65535
      → IsIdle i (arrival (suc i) code items) (told i ar c q code items bytes w)
  unfolding getmyresponse
  told-IsIdle code items bytes w ne =
      let t₁ = set c.responses i (cleared ar) in
      let t₂ = set t₁ i (record (cleared ar) { errcode = error_of code }) in
      record {
        there = cc (told_response i ar c q code items bytes w ne);
        placed = omega (
          arith,
          length-set c.responses i (cleared ar),
          length-set t₁ i (record (cleared ar) { errcode = error_of code }),
          length-set t₂ i (arrival (suc i) code items),
          q.placed,
        );
        kept = λ e. cc;
        unlocked = refl;
        whole = refl;
        memory = refl;
      }

  -- the client after its options have been set
  abbrev pub after_set : NastOptions → List Arrival → Sphincter
  after_set o w = told i ar c q nastok [] (set_bytes i o) w

  nast_options_set_lem :
      (o : NastOptions) (behind : Bytes) (w : List Arrival)
      → suc i < 65535
      → c.wire ≡ got (response (suc i) nastok []) behind ∷ w
      → nast_options_set (suc i) o c ≡ returns (ok, after_set o w)
  unfolding nast_options_set options_text join
  nast_options_set_lem o behind w small arrives =
      ask_lem i ar c q (nastcmd ∷ nastoptset ∷ flat (pairs_of o)) nastok [] behind w (omega arith)
        (record { by_length = omega arith; by_number = omega (arith, small) })
        (omega (arith, small)) arrives

  nast_options_get_lem :
      (beyond : ℕ) (o opts : NastOptions) (behind : Bytes) (w : List Arrival)
      → suc i < 65535
      → c.wire ≡ got (response (suc i) nastok (opt_bytes o ∷ [])) behind ∷ w
      → nast_options_get (suc i) beyond opts c
        ≡ returns ((ok, o), told i ar c q nastok (opt_bytes o) (get_bytes i) w)
  unfolding nast_options_get read_options opt_bytes join
  nast_options_get_lem beyond o opts behind w small arrives =
      let c₂ = told i ar c q nastok (opt_bytes o) (get_bytes i) w in
      let asked =
        ask_lem i ar c q (nastcmd ∷ nastoptget ∷ []) nastok (opt_bytes o) behind w (omega arith)
          (record { by_length = omega arith; by_number = omega (arith, small) })
          (omega (arith, small)) arrives in
      (>>=-returns (ask (suc i) (nastcmd ∷ nastoptget ∷ [])) _ c asked
        ∙ >>=-returns (nast_get_result (suc i)) (read_options (suc i) beyond opts) c₂ (
            get_result_lem i ar c q (opt_bytes o) [] nastok (get_bytes i) w
              (IsPlain-opt_bytes o, tt) (omega (arith, small)))
        ∙ rw (set_options-opt_bytes beyond o opts) refl)

module _ (md5_calc : Bytes → Bytes) (now timeout uptime : ℕ) (report : Report) where
  module _ (i : ℕ) (s : Server) (free : s.cops.opt_lk ≡ rw_mutex_new) (memory : s.heap ≡ [])
      (whole : s.net ≡ []) where
    serves_set :
        (o : NastOptions) (stale : Bytes)
        → suc i < 2 ^ 16
        → let call : Call = record { reqid = suc i; command = opt_set (pairs_of o) } in
          process_cmd md5_calc now timeout uptime report 2
            (encode call ++ stale)
            (length (encode call))
            s
          ≡ returns (some Srv.ok, keeping o (response (suc i) nastok []) s)
    unfolding serve opt_bytes
    serves_set o stale small =
        process_cmd-serve md5_calc now timeout uptime report
          (record { reqid = suc i; command = opt_set (pairs_of o) }) stale s _
          (record { by_length = omega arith; by_number = small })
          (do_opt_set-keeping (suc i) o s free memory whole)

    serves_opt_get :
        (stale : Bytes)
        → suc i < 2 ^ 16
        → let call : Call = record { reqid = suc i; command = opt_get } in
          process_cmd md5_calc now timeout uptime report 2
            (encode call ++ stale)
            (length (encode call))
            s
          ≡ returns (
            some Srv.ok,
            keeping s.cops.opts (response (suc i) nastok (opt_bytes s.cops.opts ∷ [])) s,
          )
    unfolding serve opt_bytes
    serves_opt_get stale small =
        process_cmd-serve md5_calc now timeout uptime report
          (record { reqid = suc i; command = opt_get }) stale s _
          (record { by_length = omega arith; by_number = small })
          (do_opt_get-keeping (suc i) s free memory whole)

module _ (md5_calc : Bytes → Bytes) (now timeout uptime : ℕ) (report : Report) (i : ℕ) (s : Server)
    (free : s.cops.opt_lk ≡ rw_mutex_new) (memory : s.heap ≡ []) (whole : s.net ≡ []) where
  -- A client sets its options and reads them back: the bytes that `nast_options_set` sends make
  -- `process_cmd` keep the options and answer with code NASTOK and no values; the bytes that
  -- `nast_options_get` sends then make it answer with the options; and where each answer reaches
  -- the client in one read, the two calls return 0, and the second gives the options that the first
  -- was given, whatever it is called with. The client is idle and has a number below 65535, its
  -- thread has a place in the table, the lock of the options is free, and on both sides there is
  -- memory and the socket takes what it is given.
  pub nast_options_end_to_end :
      (ar : NastResponse) (c : Sphincter) (q : IsIdle i ar c) (o opts : NastOptions) (beyond : ℕ)
      (stale stale' behind behind' : Bytes) (w : List Arrival)
      → suc i < 65535
      → c.wire
        ≡ got (response (suc i) nastok []) behind
          ∷ got (response (suc i) nastok (opt_bytes o ∷ [])) behind'
          ∷ w
      → let kept = keeping o (response (suc i) nastok []) s in
        let answer = response (suc i) nastok (opt_bytes o ∷ []) in
        (t : Sphincter) × (u : Sphincter) × (process_cmd md5_calc now timeout uptime report 2
            (set_bytes i o ++ stale)
            (length (set_bytes i o))
            s
          ≡ returns (some Srv.ok, kept))
        × (process_cmd md5_calc now timeout uptime report 2
              (get_bytes i ++ stale')
              (length (get_bytes i))
              kept
            ≡ returns (some Srv.ok, record kept { sent = kept.sent ++ answer }))
        × (nast_options_set (suc i) o c ≡ returns (ok, t))
        × (t.sent ≡ c.sent ++ set_bytes i o)
        × (nast_options_get (suc i) beyond opts t ≡ returns ((ok, o), u))
        × (u.sent ≡ t.sent ++ get_bytes i)
  nast_options_end_to_end ar c q o opts beyond stale stale' behind behind' w below arrives =
      let rest = got (response (suc i) nastok (opt_bytes o ∷ [])) behind' ∷ w in
      let t = after_set i ar c q o rest in
      let idle = told-IsIdle i ar c q nastok [] (set_bytes i o) rest (omega (arith, below)) in
      (
        t,
        told i (arrival (suc i) nastok []) t idle nastok (opt_bytes o) (get_bytes i) w,
        serves_set md5_calc now timeout uptime report i s free memory whole o stale
            (omega (arith, below)),
        serves_opt_get md5_calc now timeout uptime report i
            (keeping o (response (suc i) nastok []) s) refl refl refl stale' (omega (arith, below)),
        nast_options_set_lem i ar c q o behind rest below arrives,
        refl,
        nast_options_get_lem i (arrival (suc i) nastok []) t idle beyond o opts behind' w below
            refl,
        refl,
      )
