-- ===== src/Server/Update/Items.antt =====
-- What `build_array` and `do_update` make of a request.
use nastd.Prelude.{ℕ, ◌≡◌, refl, sym, ◌∙◌, ap, arith, ◌==◌, false, List, [], ◌∷◌, ◌++◌, some}
use mathlib.Core.List.{append_assoc, append-nil}
use nastd.Prelude.Bytes.{Bytes}
use nastd.Prelude.Fields.{join, IsPlain, ArePlain}
use nastd.Prelude.Alloc.{Heap, >>=-eq-some}
use nastd.Array.{Array, array_new, array_add}
use nastd.Array.Laws.{array_new_lem, array_add_lem}
use nastd.Ipc.{nastsep}
use nastd.Server.Update.{build_items, build_array, split_key}

-- every item has a byte
abbrev pub AreFilled : List Bytes → Type 0
AreFilled [] = Unit
AreFilled ([] ∷ xs) = ⊥
AreFilled ((b ∷ x) ∷ xs) = AreFilled xs

-- an item that is under way, and what follows it
build_items_last :
    (aa : Array) (b : ℕ) (item x : Bytes) (h : Heap) {a : Array}
    → IsPlain nastsep x
    → (build_items aa (b ∷ item) x h).0 ≡ some a
    → a ≡ aa ++ ((b ∷ item) ++ x) ∷ []
unfolding build_items
build_items_last aa b item [] h p e = rw append-nil (array_add_lem aa (b ∷ item) h e)
build_items_last aa b item (c ∷ x) h p e =
    let ne : (c == nastsep) ≡ false = ground (arith, p.0) in
    build_items_last aa b (item ++ c ∷ []) x h p.1 (rw (ne, build_items) at e)
    ∙ ap (λ t. aa ++ (b ∷ t) ∷ []) (append_assoc item (c ∷ []) x)

build_items_next :
    (aa : Array) (b : ℕ) (item x rest : Bytes) (h : Heap) {a : Array}
    → IsPlain nastsep x
    → (build_items aa (b ∷ item) (x ++ nastsep ∷ rest) h).0 ≡ some a
    → (h' : Heap) × ((build_items (aa ++ ((b ∷ item) ++ x) ∷ []) [] rest h').0 ≡ some a)
unfolding build_items
build_items_next aa b item [] rest h {a} p e =
    let (aa', q, r) = >>=-eq-some (array_add aa (b ∷ item)) (λ aa'. build_items aa' [] rest) h e in
    (
      (array_add aa (b ∷ item) h).1,
      rw (append-nil (b ∷ item)) (rw (sym (array_add_lem aa (b ∷ item) h q)) r),
    )
build_items_next aa b item (c ∷ x) rest h {a} p e =
    let ne : (c == nastsep) ≡ false = ground (arith, p.0) in
    let (h', q) = build_items_next aa b (item ++ c ∷ []) x rest h p.1 (rw (ne, build_items) at e) in
    (h', rw (sym (append_assoc item (c ∷ []) x)) q)

build_items_lem :
    (aa : Array) (x : Bytes) (xs : List Bytes) (h : Heap) {a : Array}
    → ArePlain nastsep (x ∷ xs)
    → AreFilled (x ∷ xs)
    → (build_items aa [] (join nastsep (x ∷ xs)) h).0 ≡ some a
    → a ≡ aa ++ x ∷ xs
unfolding build_items join
build_items_lem aa [] xs h p f e = absurd f
build_items_lem aa (b ∷ x) [] h p f e = build_items_last aa b [] x h p.0.1 e
build_items_lem aa (b ∷ x) (y ∷ ys) h {a} p f e =
    let (h', q) = build_items_next aa b [] x (join nastsep (y ∷ ys)) h p.0.1 e in
    build_items_lem (aa ++ (b ∷ x) ∷ []) y ys h' p.1 f q ∙ append_assoc aa ((b ∷ x) ∷ []) (y ∷ ys)

-- Values, one at least, that are not empty and hold no separator, joined by the separator, are
-- taken apart by `build_array` into themselves, where there is memory for them.
pub build_array-join :
    (x : Bytes) (xs : List Bytes) (h : Heap) {a : Array}
    → ArePlain nastsep (x ∷ xs)
    → AreFilled (x ∷ xs)
    → (build_array (join nastsep (x ∷ xs)) h).0 ≡ some a
    → a ≡ x ∷ xs
unfolding build_array
build_array-join x xs h p f e =
    let (aa, q, r) = >>=-eq-some array_new (λ aa. build_items aa [] (join nastsep (x ∷ xs))) h e in
    let empty : aa ≡ [] = array_new_lem h q in
    build_items_lem [] x xs (array_new h).1 p f (rw empty at r)

-- A separator in front of a value that is not empty and holds none is not dropped: where there is
-- memory `build_array` makes one value of it with the separator as its first byte.
pub build_array_merges :
    (b : ℕ) (x : Bytes) (h : Heap) {a : Array}
    → IsPlain nastsep (b ∷ x)
    → (build_array (nastsep ∷ b ∷ x) h).0 ≡ some a
    → a ≡ (nastsep ∷ b ∷ x) ∷ []
unfolding build_array build_items
build_array_merges b x h p e =
    let (aa, q, r) = >>=-eq-some array_new (λ aa. build_items aa [] (nastsep ∷ b ∷ x)) h e in
    let empty : aa ≡ [] = array_new_lem h q in
    build_items_last [] nastsep [] (b ∷ x) (array_new h).1 p (rw empty at r)

-- A key that holds no separator, with a separator and values behind it, is split there into the key
-- and the values.
pub split_key-join :
    (key values : Bytes)
    → IsPlain nastsep key
    → split_key (key ++ nastsep ∷ values) ≡ some (key, values)
unfolding split_key
split_key-join [] values p = refl
split_key-join (c ∷ key) values p = ground (arith, p.0, split_key-join key values p.1)
