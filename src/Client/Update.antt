-- ===== src/Client/Update.antt =====
-- An update's way: the bytes of `nast_upd` and what the server stores and answers.
use nastd.Prelude.{
  ℕ, suc, ◌+◌, ◌≤◌, ◌<◌, ◌^◌, ◌≡◌, refl, arith, true, List, [], ◌∷◌, ◌++◌, some, length,
  length-append,
}
use mathlib.Core.List.{append_assoc}
use nastd.Prelude.Bytes.{Bytes}
use nastd.Prelude.Fields.{join, IsPlain, ArePlain}
use nastd.Prelude.Outcome.{returns}
use nastd.Memdb.{Memdb, Env}
use nastd.Memdb.Get.{memdb_get}
use nastd.Memdb.Upd.{memdb_upd}
use nastd.Memdb.States.{counted}
use nastd.Memdb.Invariant.{IsValid}
use nastd.Memdb.Cache.{get-upd_self}
use nastd.Ipc.{nastcmd, nastupd, nastok, nastsep}
use nastd.Server.{Server, ◌>>=◌}
use nastd.Server as Srv
use nastd.Server.Respond.Sent.{response}
use nastd.Server.Lookup.{env_of}
use nastd.Server.Stats.{Report}
use nastd.Server.Update.Items.{AreFilled}
use nastd.Server.Update.Stored.{do_update_stored}
use nastd.Server.Command.{process_cmd}
use nastd.Server.Command.Frames.{encode, upd, serve}
use nastd.Server.Command.One.{process_cmd-serve}
use nastd.Client.{NastResponse}
use nastd.Client.Session.{Sphincter, Arrival, got, ok}
use nastd.Client.Commands.{buffer_size, add_values, values_after, nast_upd}
use nastd.Client.Asked.{IsIdle, told, ask_lem, clip_lem, short_lem}

add_values_fits :
    (l : ℕ) (items : List Bytes)
    → l + length (join nastsep items) ≤ buffer_size
    → add_values l items ≡ returns (some (join nastsep items))
unfolding add_values join
add_values_fits l [] h = refl
add_values_fits l (s ∷ []) h = ground arith
add_values_fits l (s ∷ t ∷ items) h =
    let size : length (s ++ nastsep ∷ join nastsep (t ∷ items))
        ≡ length s + suc (length (join nastsep (t ∷ items))) =
      length-append s (nastsep ∷ join nastsep (t ∷ items)) in
    ground (arith, size, add_values_fits (l + length s + 1) (t ∷ items))

values_after_fits :
    (l : ℕ) (items : List Bytes)
    → l + length (join nastsep items) ≤ buffer_size
    → values_after l items ≡ returns (some (join nastsep items))
unfolding values_after join
values_after_fits l [] h = refl
values_after_fits l (s ∷ items) h =
    rw (short_lem l (omega (arith, h)), values_after) (add_values_fits l (s ∷ items) h)

-- the payload of an update
abbrev pub payload : Bytes → List Bytes → Bytes
payload key vals = key ++ nastsep ∷ join nastsep vals

module _ (i : ℕ) (ar : NastResponse) (c : Sphincter) (q : IsIdle i ar c) where
  -- the bytes of an update, as the server reads them
  abbrev pub update_bytes : Bytes → List Bytes → Bytes
  update_bytes key vals = encode (record { reqid = suc i; command = upd (payload key vals) })

  -- the client after its update has been stored
  abbrev pub after_upd : Bytes → List Bytes → List Arrival → Sphincter
  after_upd key vals w = told i ar c q nastok [] (update_bytes key vals) w

  text_lem :
      (key values : Bytes)
      → (nastcmd ∷ nastupd ∷ key ++ nastsep ∷ []) ++ values
        ≡ nastcmd ∷ nastupd ∷ key ++ nastsep ∷ values
  text_lem key values = append_assoc (nastcmd ∷ nastupd ∷ key) (nastsep ∷ []) values

  nast_upd_lem :
      (key : Bytes) (vals : List Bytes) (behind : Bytes) (w : List Arrival)
      → 7 + length key + length (join nastsep vals) ≤ 512
      → 7 + length key < 512
      → suc i < 65535
      → c.wire ≡ got (response (suc i) nastok []) behind ∷ w
      → nast_upd (suc i) key vals c ≡ returns (ok, after_upd key vals w)
  unfolding nast_upd join
  nast_upd_lem key vals behind w fits room small arrives =
      let text = (nastcmd ∷ nastupd ∷ key) ++ nastsep ∷ [] in
      let sent = nastcmd ∷ nastupd ∷ payload key vals in
      let size : length text ≡ 3 + length key =
        omega (arith, length-append (nastcmd ∷ nastupd ∷ key) (nastsep ∷ [])) in
      let long : length (payload key vals) ≡ length key + 1 + length (join nastsep vals) =
        omega (arith, length-append key (nastsep ∷ join nastsep vals)) in
      let same : 4 + length sent ≡ 6 + length (payload key vals) = omega arith in
      rw (values_after_fits (7 + length key) vals fits, nast_upd)
        (rw (clip_lem text (omega (arith, size, room))) (
          rw (text_lem key (join nastsep vals)) (
            rw same at (
              ask_lem i ar c q sent nastok [] behind w (omega (arith, long, fits))
                (record { by_length = omega arith; by_number = omega (arith, small) })
                (omega (arith, small)) arrives))))

  module _ (md5_calc : Bytes → Bytes) (now timeout uptime : ℕ) (report : Report) (s : Server) where
    serves_upd :
        (key x : Bytes) (xs : List Bytes) (stale : Bytes) {db : Memdb}
        → 7 + length key + length (join nastsep (x ∷ xs)) ≤ 512
        → suc i < 2 ^ 16
        → s.heap ≡ []
        → s.net ≡ []
        → length key + 1 < s.usable (length key + 1)
        → IsPlain nastsep key
        → ArePlain nastsep (x ∷ xs)
        → AreFilled (x ∷ xs)
        → memdb_upd md5_calc (env_of now timeout s) key (x ∷ xs) s.memdb [] ≡ returns (true, db, [])
        → process_cmd md5_calc now timeout uptime report 2
            (update_bytes key (x ∷ xs) ++ stale)
            (length (update_bytes key (x ∷ xs)))
            s
          ≡ returns (
            some Srv.ok,
            record s {
              memdb = db;
              heap = [];
              net = [];
              sent = s.sent ++ response (suc i) nastok [];
            },
          )
    unfolding serve
    serves_upd key x xs stale fits small memory whole roomy kp p f e =
        let long : length (payload key (x ∷ xs)) ≡ length key + 1 + length (join nastsep (x ∷ xs)) =
          omega (arith, length-append key (nastsep ∷ join nastsep (x ∷ xs))) in
        process_cmd-serve md5_calc now timeout uptime report
          (record { reqid = suc i; command = upd (payload key (x ∷ xs)) }) stale s _
          (record { by_length = omega (arith, long, fits); by_number = small })
          (do_update_stored md5_calc now timeout (suc i) key x xs s memory whole roomy kp p f e)

    -- An update of a key by values, one at least, none empty and none with the separator, whose
    -- request has at most 512 bytes, that the server's cache takes: the bytes that `nast_upd` sends make
    -- `process_cmd` store the values and answer with code NASTOK and no values; where that answer reaches the
    -- client in one read, `nast_upd` returns 0; and a lookup of the key in the server's cache then
    -- finds those values in order, as long as the database file is no newer than the update. The
    -- client is idle and has a number below 65535, its thread has a place in the table, the cache is
    -- valid, the key has no separator, and on both sides there is memory and the socket takes what it
    -- is given. The block that the server's `malloc` gives for the key and one byte has a byte more,
    -- which `do_update` writes.
    pub nast_upd_end_to_end :
        (env' : Env) (key x : Bytes) (xs : List Bytes) (stale behind : Bytes) (w : List Arrival)
        {db : Memdb}
        → 7 + length key + length (join nastsep (x ∷ xs)) ≤ 512
        → 7 + length key < 512
        → suc i < 65535
        → IsPlain nastsep key
        → ArePlain nastsep (x ∷ xs)
        → AreFilled (x ∷ xs)
        → IsValid s.memdb
        → s.heap ≡ []
        → s.net ≡ []
        → length key + 1 < s.usable (length key + 1)
        → memdb_upd md5_calc (env_of now timeout s) key (x ∷ xs) s.memdb [] ≡ returns (true, db, [])
        → env'.cdb_mtime ≤ now
        → c.wire ≡ got (response (suc i) nastok []) behind ∷ w
        → (process_cmd md5_calc now timeout uptime report 2
              (update_bytes key (x ∷ xs) ++ stale)
              (length (update_bytes key (x ∷ xs)))
              s
            ≡ returns (
              some Srv.ok,
              record s {
                memdb = db;
                heap = [];
                net = [];
                sent = s.sent ++ response (suc i) nastok [];
              },
            ))
          × (nast_upd (suc i) key (x ∷ xs) c ≡ returns (ok, after_upd key (x ∷ xs) w))
          × ((after_upd key (x ∷ xs) w).sent ≡ c.sent ++ update_bytes key (x ∷ xs))
          × (memdb_get md5_calc env' key db []
              ≡ returns ((true, some (x ∷ xs)), counted md5_calc db, []))
    nast_upd_end_to_end env' key x xs stale behind w fits room small kp p f valid memory whole roomy
          e fresh arrives =
        (
          serves_upd key x xs stale fits (omega (arith, small)) memory whole roomy kp p f e,
          nast_upd_lem key (x ∷ xs) behind w fits room small arrives,
          refl,
          get-upd_self md5_calc (env_of now timeout s) env' key (x ∷ xs) s.memdb [] valid (λ n. cc)
              fresh e,
        )
