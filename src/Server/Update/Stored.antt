-- ===== src/Server/Update/Stored.antt =====
-- server/nastdio.c: an update whose values are taken apart, stored and answered.
use nastd.Prelude.{
  length, ltb, false, ltb-true, ltb-false, ◌+◌, ◌<◌, ℕ, ◌≡◌, refl, ap, ◌∙◌, arith, ◌==◌, Bool-cases,
  inl, inr, true, List, [], ◌∷◌, ◌++◌, some,
}
use nastd.Prelude.Bytes.{Bytes}
use nastd.Prelude.Fields.{join, IsPlain, ArePlain}
use nastd.Prelude.Outcome.{returns, fault}
use nastd.Prelude.Alloc.{>>=-eq}
use nastd.Array.{Array, array_new, array_add, va_array_add}
use nastd.Array.Laws.{array_add_nil}
use nastd.Memdb.{Memdb}
use nastd.Memdb.Upd.{memdb_upd}
use nastd.Ipc.{nastsep, nastok}
use nastd.Server.{Server, ok, ◌>>=◌}
use nastd.Server.Lookup.{env_of}
use nastd.Server.Respond.{send_response}
use nastd.Server.Respond.Sent.{response, arr_send_response_fits}
use nastd.Server.Update.{build_items, build_array, store_update, end_key, do_update}
use nastd.Server.Update.Items.{AreFilled, build_array-join, split_key-join}

-- with memory at hand the loop of `build_array` ends with an array
build_items_nil :
    (aa : Array) (item left : Bytes) → (a : Array) × (build_items aa item left [] ≡ (some a, []))
unfolding build_items
build_items_nil aa [] [] = (aa, refl)
build_items_nil aa (b ∷ item) [] = (aa ++ (b ∷ item) ∷ [], array_add_nil aa (b ∷ item))
build_items_nil aa [] (c ∷ left) = build_items_nil aa (c ∷ []) left
build_items_nil aa (b ∷ item) (c ∷ left) = elim (Bool-cases (c == nastsep)) [
  | inl e ↦
      let (a, f) = build_items_nil (aa ++ (b ∷ item) ∷ []) [] left in
      (
        a,
        rw (e, build_items)
            (>>=-eq (array_add aa (b ∷ item)) (λ aa'. build_items aa' [] left) []
                (array_add_nil aa (b ∷ item))
              ∙ f),
      )
  | inr e ↦
      let (a, f) = build_items_nil aa ((b ∷ item) ++ c ∷ []) left in (a, rw (e, build_items) f)
]

build_array_nil :
    (x : Bytes) (xs : List Bytes)
    → ArePlain nastsep (x ∷ xs)
    → AreFilled (x ∷ xs)
    → build_array (join nastsep (x ∷ xs)) [] ≡ (some (x ∷ xs), [])
unfolding build_array array_new
build_array_nil x xs p f =
    let (a, e) = build_items_nil [] [] (join nastsep (x ∷ xs)) in
    let same : a ≡ x ∷ xs = build_array-join x xs [] p f (ap (λ r. r.0) e) in
    e ∙ ap (λ a. (some a, [])) same

module _ (md5_calc : Bytes → Bytes) (now timeout : ℕ) where
  pub do_update_stored :
      (reqid : ℕ) (key x : Bytes) (xs : List Bytes) (s : Server) {db : Memdb}
      → s.heap ≡ []
      → s.net ≡ []
      → length key + 1 < s.usable (length key + 1)
      → IsPlain nastsep key
      → ArePlain nastsep (x ∷ xs)
      → AreFilled (x ∷ xs)
      → memdb_upd md5_calc (env_of now timeout s) key (x ∷ xs) s.memdb [] ≡ returns (true, db, [])
      → do_update md5_calc now timeout reqid (key ++ nastsep ∷ join nastsep (x ∷ xs)) s
        ≡ returns (
          ok,
          record s { memdb = db; heap = []; net = []; sent = s.sent ++ response reqid nastok [] },
        )
  unfolding do_update end_key store_update send_response array_new va_array_add join
  do_update_stored reqid key x xs s {db} memory whole roomy kp p f e =
      rw (split_key-join key (join nastsep (x ∷ xs)) kp, do_update)
        (rw (memory, do_update)
          (rw (ltb-true roomy, ◌>>=◌)
            (rw (build_array_nil x xs p f, ◌>>=◌)
              (rw (e, store_update)
                (arr_send_response_fits reqid nastok [] (record s { memdb = db; heap = [] })
                  (omega arith) whole)))))

  -- Where `malloc` gives no more than it is asked for, an update with values writes behind the
  -- block of its key.
  do_update_overruns :
      (reqid : ℕ) (key values : Bytes) (s : Server)
      → s.heap ≡ []
      → s.usable (length key + 1) ≡ length key + 1
      → IsPlain nastsep key
      → do_update md5_calc now timeout reqid (key ++ nastsep ∷ values) s ≡ fault
  unfolding do_update end_key
  do_update_overruns reqid key values s memory exact plain =
      let out : ltb (length key + 1) (s.usable (length key + 1)) ≡ false =
        ltb-false (omega (arith, exact)) in
      rw (split_key-join key values plain, do_update)
        (rw (memory, do_update) (rw (out, ◌>>=◌) refl))
