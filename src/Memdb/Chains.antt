-- ===== src/Memdb/Chains.antt =====
-- One chain of the cache: what a walk finds after an insertion, a deletion or a write.
use nastd.Prelude.{◌+◌, ◌≤◌, ◌≡◌, refl, arith, if◌then◌else◌, [], ◌∷◌, Option, none, some, length}
use nastd.Prelude.Bytes.{Bytes, same_bytes, same_bytes_iff}
use nastd.Memdb.Entries.{Entry, Chain, replaceable, find_entry, drop_entry, put_entry, add_chain}

-- the entry that stands under a key after an insertion, from what stood there before
abbrev pub kept : Entry → Option Entry → Entry
kept ent none = ent
kept ent (some p) = if replaceable p.type then ent else p

-- the same after a write
abbrev pub rewritten : Entry → Option Entry → Option Entry
rewritten ent none = none
rewritten ent (some p) = some ent

-- no two entries of a chain have one key
abbrev pub AreDistinct : Chain → Type 0
AreDistinct [] = Unit
AreDistinct (p ∷ next) = (find_entry p.key next ≡ none) × AreDistinct next

-- what a walk finds is stored under the key
pub find_entry_key : (k : Bytes) (c : Chain) (p : Entry) → find_entry k c ≡ some p → p.key ≡ k
unfolding find_entry
find_entry_key k [] p h = cc
find_entry_key k (q ∷ next) p h = ground (arith, same_bytes_iff q.key k, find_entry_key k next p)

module _ (key k : Bytes) where
  pub find-add_chain :
      (ent : Entry) (c : Chain)
      → ent.key ≡ key
      → find_entry k (add_chain key ent c).chain
        ≡ (if same_bytes key k then some (kept ent (find_entry key c)) else find_entry k c)
  unfolding find_entry add_chain
  find-add_chain ent [] e = ground arith
  find-add_chain ent (p ∷ next) e = ground (
    arith,
    find-add_chain ent next e,
    same_bytes_iff p.key key,
    same_bytes_iff p.key k,
    same_bytes_iff key k,
  )

  pub find-put_entry :
      (ent : Entry) (c : Chain)
      → ent.key ≡ key
      → find_entry k (put_entry key ent c)
        ≡ (if same_bytes key k then rewritten ent (find_entry key c) else find_entry k c)
  unfolding find_entry put_entry
  find-put_entry ent [] e = ground arith
  find-put_entry ent (q ∷ next) e = ground (
    arith,
    find-put_entry ent next e,
    same_bytes_iff q.key key,
    same_bytes_iff q.key k,
    same_bytes_iff key k,
  )

  pub find-drop_entry :
      (c : Chain)
      → AreDistinct c
      → find_entry k (drop_entry key c) ≡ (if same_bytes key k then none else find_entry k c)
  unfolding find_entry drop_entry
  find-drop_entry [] d = ground arith
  find-drop_entry (q ∷ next) d = ground (
    arith,
    find-drop_entry next d.1,
    same_bytes_iff q.key key,
    same_bytes_iff q.key k,
    same_bytes_iff key k,
  )

pub length-add_chain :
    (key : Bytes) (ent : Entry) (c : Chain)
    → length (add_chain key ent c).chain ≡ length c + (add_chain key ent c).grown
unfolding add_chain
length-add_chain key ent [] = omega arith
length-add_chain key ent (p ∷ next) = ground (arith, length-add_chain key ent next)

-- Where the key is there the count does not grow.
pub add_chain-grown :
    (key : Bytes) (ent : Entry) (c : Chain) (p : Entry)
    → find_entry key c ≡ some p
    → (add_chain key ent c).grown ≡ 0
unfolding add_chain find_entry
add_chain-grown key ent [] p h = cc
add_chain-grown key ent (q ∷ next) p h = ground (arith, add_chain-grown key ent next p)

pub length-put_entry :
    (key : Bytes) (ent : Entry) (c : Chain) → length (put_entry key ent c) ≡ length c
unfolding put_entry
length-put_entry key ent [] = refl
length-put_entry key ent (p ∷ next) = ground (arith, length-put_entry key ent next)

pub length-drop_entry : (key : Bytes) (c : Chain) → length (drop_entry key c) ≤ length c
unfolding drop_entry
length-drop_entry key [] = omega arith
length-drop_entry key (p ∷ next) = ground (arith, length-drop_entry key next)

pub length-drop_found :
    (key : Bytes) (c : Chain) (p : Entry)
    → find_entry key c ≡ some p
    → length (drop_entry key c) + 1 ≡ length c
unfolding drop_entry find_entry
length-drop_found key [] p h = cc
length-drop_found key (q ∷ next) p h = ground (arith, length-drop_found key next p)

pub add_chain-AreDistinct :
    (key : Bytes) (ent : Entry) (c : Chain)
    → ent.key ≡ key
    → AreDistinct c
    → AreDistinct (add_chain key ent c).chain
unfolding add_chain find_entry
add_chain-AreDistinct key ent [] e d = (refl, tt)
add_chain-AreDistinct key ent (p ∷ next) e d = ground (
  arith,
  add_chain-AreDistinct key ent next e d.1,
  find-add_chain key p.key ent next e,
  same_bytes_iff p.key key,
  same_bytes_iff key p.key,
)

pub put_entry-AreDistinct :
    (key : Bytes) (ent : Entry) (c : Chain)
    → ent.key ≡ key
    → AreDistinct c
    → AreDistinct (put_entry key ent c)
unfolding put_entry find_entry
put_entry-AreDistinct key ent [] e d = tt
put_entry-AreDistinct key ent (p ∷ next) e d = ground (
  arith,
  put_entry-AreDistinct key ent next e d.1,
  find-put_entry key p.key ent next e,
  same_bytes_iff p.key key,
  same_bytes_iff key p.key,
)

pub drop_entry-AreDistinct :
    (key : Bytes) (c : Chain) → AreDistinct c → AreDistinct (drop_entry key c)
unfolding drop_entry find_entry
drop_entry-AreDistinct key [] d = tt
drop_entry-AreDistinct key (p ∷ next) d =
    ground (arith, drop_entry-AreDistinct key next d.1, find-drop_entry key p.key next d.1)
