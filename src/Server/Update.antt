-- ===== src/Server/Update.antt =====
-- server/nastdio.c: `build_array` and `do_update`.
pub mod Items
pub mod Stored
use nastd.Prelude.{
  ℕ, zero, suc, ◌+◌, ◌==◌, ltb, if◌then◌else◌, Bool, true, false, List, [], ◌∷◌, ◌++◌, Option, none,
  some, length,
}
use nastd.Prelude.Bytes.{Bytes}
use nastd.Prelude.Alloc.{Alloc, malloc}
use nastd.Prelude.Outcome.{Outcome, returns, blocked, fault}
use nastd.Array.{Array, array_new, array_add}
use nastd.Memdb.Upd.{memdb_upd}
use nastd.Cdb.Load.{codes}
use nastd.Ipc.{nastok, nasterr, nastsep}
use nastd.Server.{Server, Rc, ok, err, Act, ◌>>=◌, ◌>>◌, pure, alloc}
use nastd.Server.Respond.{send_response}
use nastd.Server.Lookup.{env_of, failed}
use nastd.Prelude.Alloc as Heaped

-- The loop of `build_array`: `item` is what stands from `sp` to `ep`, and the last argument what is
-- left. A separator with no byte before it leaves `sp` where it is, so that it begins the next item.
unfoldable pub build_items : Array → Bytes → Bytes → Alloc Array
build_items aa [] [] = Heaped.pure aa
build_items aa (b ∷ item) [] = array_add aa (b ∷ item)
build_items aa [] (c ∷ left) = build_items aa (c ∷ []) left
build_items aa (b ∷ item) (c ∷ left) =
    let longer = build_items aa ((b ∷ item) ++ c ∷ []) left in
    if c == nastsep
    then Heaped.◌>>=◌ (array_add aa (b ∷ item)) (λ aa'. build_items aa' [] left)
    else longer

unfoldable pub build_array : Bytes → Alloc Array
build_array buff = Heaped.◌>>=◌ array_new (λ aa. build_items aa [] buff)

-- the bytes before the first separator, and those behind it
unfoldable pub split_key : Bytes → Option (Bytes × Bytes)
split_key [] = none
split_key (c ∷ buffer) =
    let rest = split_key buffer in
    if c == nastsep
    then some ([], buffer)
    else elim rest [ none ↦ none | some (key, values) ↦ some (c ∷ key, values) ]

module _ (md5_calc : Bytes → Bytes) (now timeout : ℕ) where
  unfoldable pub store_update : ℕ → Bytes → Array → Act Rc
  store_update reqid key aa s =
      elim (memdb_upd md5_calc (env_of now timeout s) key aa s.memdb s.heap) [
        | returns (done, db, h) ↦
            let s' : Server = record s { memdb = db; heap = h } in
            if done
            then send_response reqid nastok [] s'
            else send_response reqid nasterr (codes "Couldn't update cache" ∷ []) s'
        | blocked ↦ blocked
        | fault ↦ fault
      ]

  -- `key[keylen + 1]`, one place behind the `keylen + 1` bytes that were asked for
  unfoldable pub end_key : Bytes → Act (Unit {0})
  end_key key s =
      if ltb (length key + 1) (s.usable (length key + 1)) then returns (tt, s) else fault

  unfoldable pub do_update : ℕ → Bytes → Act Rc
  do_update reqid buffer = elim (split_key buffer) [
    | none ↦ send_response reqid nasterr (codes "Need values for update" ∷ [])
    | some (key, values) ↦ alloc malloc >>= λ block. elim block [
      | none ↦ failed reqid (codes "Couldn't allocate key")
      | some _ ↦ end_key key >> alloc (build_array values) >>= λ built. elim built [
        | none ↦ failed reqid (codes "Couldn't build your input array")
        | some aa ↦ store_update reqid key aa
      ]
    ]
  ]
