-- ===== src/Memdb/Lookup.antt =====
-- The table as a map from keys to entries: what each state change does to `lookup`.
use nastd.Prelude.{◌≡◌, ap, arith, if◌then◌else◌, true, none, some}
use nastd.Prelude.Bytes.{Bytes, same_bytes, same_bytes_iff}
use nastd.Memdb.{Memdb, hashkey, lookup}
use nastd.Memdb.Entries.{Entry}
use nastd.Memdb.Chains.{
  kept, rewritten, AreDistinct, find-add_chain, find-put_entry, find-drop_entry,
}
use nastd.Memdb.States.{inserted, overwritten, dropped}

module _ (md5_calc : Bytes → Bytes) (db : Memdb) (key k : Bytes) where
  same_hash : same_bytes key k ≡ true → hashkey md5_calc key ≡ hashkey md5_calc k
  same_hash e = ap (hashkey md5_calc) ((same_bytes_iff key k).0 e)

  pub lookup-inserted :
      (ent : Entry)
      → ent.key ≡ key
      → lookup md5_calc (inserted md5_calc db key ent) k ≡ (
          if same_bytes key k
          then some (kept ent (lookup md5_calc db key))
          else lookup md5_calc db k)
  unfolding lookup
  lookup-inserted ent e =
      ground (arith, same_hash, find-add_chain key k ent (db.table (hashkey md5_calc key)) e)

  pub lookup-overwritten :
      (ent : Entry)
      → ent.key ≡ key
      → lookup md5_calc (overwritten md5_calc db key ent) k ≡ (
          if same_bytes key k then rewritten ent (lookup md5_calc db key) else lookup md5_calc db k)
  unfolding lookup
  lookup-overwritten ent e =
      ground (arith, same_hash, find-put_entry key k ent (db.table (hashkey md5_calc key)) e)

  pub lookup-dropped :
      AreDistinct (db.table (hashkey md5_calc key))
      → lookup md5_calc (dropped md5_calc db key) k
        ≡ (if same_bytes key k then none else lookup md5_calc db k)
  unfolding lookup
  lookup-dropped d =
      ground (arith, same_hash, find-drop_entry key k (db.table (hashkey md5_calc key)) d)
