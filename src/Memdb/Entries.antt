-- ===== src/Memdb/Entries.antt =====
-- server/memdb.c: the entries of the cache, and one chain of its table. A pointer into the chain is
-- the first entry under a key; `p->next` and the deletions are the list's.
use nastd.Prelude.{ℕ, if◌then◌else◌, Bool, true, false, List, [], ◌∷◌, Option, none, some}
use nastd.Prelude.Bytes.{Bytes, same_bytes}
use nastd.Array.{Array}

pub data CacheType : Type 0 where
  c_del : CacheType
  c_upd : CacheType
  c_tryval : CacheType
  c_expire : CacheType

-- A pointer to an array: NULL, one that may be used, or one that may not be read or released: the
-- array has been released, or it has items by its count and no block for them.
pub data Vals : Type 0 where
  null : Vals
  invalid : Vals
  held : Array → Vals

-- `array_delete` under the test for NULL, and what the pointer is afterwards
unfoldable pub release : Vals → Option Vals
release null = some null
release invalid = none
release (held a) = some invalid

abbrev pub is_invalid : Vals → Bool
is_invalid invalid = true
is_invalid _ = false

-- a destination of `array_dup`
abbrev pub from_copy : Option Array → Vals
from_copy none = invalid
from_copy (some a) = held a

-- `struct _mement_t`: `keylen` is the length of `key`. `typeval` is `none` for NULL, and the time of the last update is always there.
pub record Entry : Type 0 where
  pub key : Bytes
  pub vals : Vals
  pub upd_time : ℕ
  pub type : CacheType
  pub typeval : Option ℕ

abbrev pub Chain : Type 0
Chain = List Entry

-- `keylen == p->ent.keylen && memcmp(p->ent.key, key, keylen) == 0`
abbrev pub is_for : Bytes → Entry → Bool
is_for key p = same_bytes p.key key

-- the walk down a chain to the entry under `key`, or to its end
unfoldable pub find_entry : Bytes → Chain → Option Entry
find_entry key [] = none
find_entry key (p ∷ next) = if is_for key p then some p else find_entry key next

-- `q->next = p->next`, or the same at the head
unfoldable pub drop_entry : Bytes → Chain → Chain
drop_entry key [] = []
drop_entry key (p ∷ next) = if is_for key p then next else p ∷ drop_entry key next

-- a write to the fields of `p->ent`
unfoldable pub put_entry : Bytes → Entry → Chain → Chain
put_entry key ent [] = []
put_entry key ent (p ∷ next) = if is_for key p then ent ∷ next else p ∷ put_entry key ent next

-- the cases of the `switch` in `memdb_add` that replace the entry
abbrev pub replaceable : CacheType → Bool
replaceable c_expire = true
replaceable c_del = true
replaceable _ = false

-- `grown` is what is added to `memdbsize`; `spoilt` says that the entry to be deleted has an array
-- that must not be released.
pub record Counted : Type 0 where
  pub chain : Chain
  pub grown : ℕ
  pub spoilt : Bool

-- The insertion of `memdb_add`: at the end of the chain, over a deletable entry under the key, or
-- nowhere.
unfoldable pub add_chain : Bytes → Entry → Chain → Counted
add_chain key ent [] = record { chain = ent ∷ []; grown = 1; spoilt = false }
add_chain key ent (p ∷ next) =
    let rest = add_chain key ent next in
    if is_for key p
    then (if replaceable p.type
        then record { chain = ent ∷ next; grown = 0; spoilt = is_invalid p.vals }
        else record { chain = p ∷ next; grown = 0; spoilt = false })
    else record { chain = p ∷ rest.chain; grown = rest.grown; spoilt = rest.spoilt }
