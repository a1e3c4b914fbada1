-- ===== src/Client/Exchange.antt =====
-- A command's way: the client's bytes, the server's answer to them, and the values that the client
-- reads from the answer.
use nastd.Prelude.{
  ℕ, suc, ◌+◌, ◌^◌, ◌≤◌, ◌<◌, ◌≡◌, ◌≢◌, refl, arith, ◌==◌, if◌then◌else◌, true, false, List, [],
  ◌∷◌, ◌++◌, some, length,
}
use nastd.Prelude.Bytes.{Bytes}
use nastd.Prelude.Fields.{join, ArePlain}
use nastd.Prelude.Outcome.{returns}
use nastd.Array.{Array}
use nastd.Memdb.{Memdb}
use nastd.Memdb.Get.{memdb_get}
use nastd.Ipc.{nastcmd, nastget, nastok, nastsep}
use nastd.Server.{Server}
use nastd.Server as Srv
use nastd.Server.Respond.Sent.{response}
use nastd.Server.Lookup.{env_of}
use nastd.Server.Lookup.Routes.{do_get_cached}
use nastd.Server.Stats.{Report}
use nastd.Server.Command.{process_cmd}
use nastd.Server.Command.Frames.{encode, get, serve}
use nastd.Server.Respond.{frame}
use nastd.Server.Command.One.{process_cmd-serve}
use nastd.Client.Answers.{Fits}
use nastd.Client.{NastResponse}
use nastd.Client.Session.{Sphincter, Arrival, got, ok, err}
use nastd.Client.Commands.{nast_get, nast_get_result}
use nastd.Client.Asked.{IsIdle, told, ask_lem, get_result_lem, clip_lem}

module _ (i : ℕ) (ar : NastResponse) (c : Sphincter) (q : IsIdle i ar c) where
  -- the bytes of a lookup, as the server reads them
  abbrev pub lookup_bytes : Bytes → Bytes
  lookup_bytes key = encode (record { reqid = suc i; command = get key })

  -- the client after a lookup that these values answer
  abbrev pub after_get : Bytes → List Bytes → List Arrival → Sphincter
  after_get key xs w = told i ar c q nastok (join nastsep xs) (lookup_bytes key) w

  nast_get_lem :
      (key : Bytes) (code : ℕ) (items behind : Bytes) (w : List Arrival)
      → 6 + length key < 512
      → Fits (record { reqid = suc i; code = code; items = items })
      → suc i ≢ 65535
      → c.wire ≡ got (frame (suc i) code items) behind ∷ w
      → nast_get (suc i) key c
        ≡ returns
            ((if code == nastok then ok else err), told i ar c q code items (lookup_bytes key) w)
  unfolding nast_get
  nast_get_lem key code items behind w fits f ne arrives =
      let same : 4 + length (nastcmd ∷ nastget ∷ key) ≡ 6 + length key = omega arith in
      rw (clip_lem (nastcmd ∷ nastget ∷ key) (omega (arith, fits))) (
        rw same at (
          ask_lem i ar c q (nastcmd ∷ nastget ∷ key) code items behind w (omega (arith, fits)) f ne
            arrives))

  module _ (md5_calc : Bytes → Bytes) (now timeout uptime : ℕ) (report : Report) (s : Server) where
    serves_get :
        (key : Bytes) (aa : Array) (stale : Bytes) {db : Memdb}
        → 6 + length key < 512
        → suc i < 2 ^ 16
        → s.heap ≡ []
        → s.net ≡ []
        → s.cops.opts.use_qcache ≡ true
        → s.cops.opts.always_fallthrough ≡ false
        → length (response (suc i) nastok aa) ≤ 1024
        → memdb_get md5_calc (env_of now timeout s) key s.memdb []
          ≡ returns ((true, some aa), db, [])
        → process_cmd md5_calc now timeout uptime report 2
            (lookup_bytes key ++ stale)
            (length (lookup_bytes key))
            s
          ≡ returns (
            some Srv.ok,
            record s {
              memdb = db;
              heap = [];
              net = [];
              sent = s.sent ++ response (suc i) nastok aa;
            },
          )
    unfolding serve
    serves_get key aa stale fits small memory whole used asked room e =
        process_cmd-serve md5_calc now timeout uptime report
          (record { reqid = suc i; command = get key }) stale s _
          (record { by_length = omega (arith, fits); by_number = small })
          (do_get_cached md5_calc now timeout (suc i) key aa s memory whole used asked room e)

    -- A key of at most 505 bytes that the server's cache answers with values, one at least and none
    -- with the separator, whose response has at most 1024 bytes: the bytes that `nast_get` sends make
    -- `process_cmd` answer with that response; where the response reaches the client in one read,
    -- `nast_get` returns 0, and `nast_get_result` returns those values in order. The client is idle
    -- and has a number below 65535, its thread has a place in the table, the server uses its cache,
    -- and on both sides there is memory and the socket takes what it is given.
    pub nast_get_end_to_end :
        (key x : Bytes) (xs : List Bytes) (stale behind : Bytes) (w : List Arrival) {db : Memdb}
        → 6 + length key < 512
        → suc i < 65535
        → ArePlain nastsep (x ∷ xs)
        → s.heap ≡ []
        → s.net ≡ []
        → s.cops.opts.use_qcache ≡ true
        → s.cops.opts.always_fallthrough ≡ false
        → length (response (suc i) nastok (x ∷ xs)) ≤ 1024
        → memdb_get md5_calc (env_of now timeout s) key s.memdb []
          ≡ returns ((true, some (x ∷ xs)), db, [])
        → c.wire ≡ got (response (suc i) nastok (x ∷ xs)) behind ∷ w
        → (process_cmd md5_calc now timeout uptime report 2
              (lookup_bytes key ++ stale)
              (length (lookup_bytes key))
              s
            ≡ returns (
              some Srv.ok,
              record s {
                memdb = db;
                heap = [];
                net = [];
                sent = s.sent ++ response (suc i) nastok (x ∷ xs);
              },
            ))
          × (nast_get (suc i) key c ≡ returns (ok, after_get key (x ∷ xs) w))
          × ((after_get key (x ∷ xs) w).sent ≡ c.sent ++ lookup_bytes key)
          × (nast_get_result (suc i) (after_get key (x ∷ xs) w)
              ≡ returns (some (x ∷ xs), after_get key (x ∷ xs) w))
    nast_get_end_to_end key x xs stale behind w fits small plain memory whole used asked room e
          arrives =
        (
          serves_get key (x ∷ xs) stale fits (omega (arith, small)) memory whole used asked room e,
          nast_get_lem key nastok (join nastsep (x ∷ xs)) behind w fits
              (record { by_length = omega (arith, room); by_number = omega (arith, small) })
              (omega (arith, small)) arrives,
          refl,
          get_result_lem i ar c q x xs nastok (lookup_bytes key) w plain (omega (arith, small)),
        )
