-- ===== src/Array.antt =====
-- server/array.c and server/array.h: counted strings and growing arrays of them.
-- `string_t` is the list of its bytes, and `array_t` the list of its strings: `strlen` and `nitems`
-- are the lengths. `string_delete` and `array_delete` only release memory, which lists do not hold.
pub mod Laws
use nastd.Prelude.{
  ℕ, zero, suc, ◌+◌, ◌%◌, ◌==◌, if◌then◌else◌, Bool, true, false, List, [], ◌∷◌, ◌++◌, Option, none,
  some, length,
}
use nastd.Prelude.Bytes.{Bytes}
use nastd.Prelude.Alloc.{Heap, Alloc, ◌>>=◌, ◌>>◌, pure, malloc}

-- one block for the structure and one for the bytes
unfoldable pub string_new : Bytes → Alloc Bytes
string_new strdata = do malloc; malloc; pure strdata

abbrev pub Array : Type 0
Array = List Bytes

unfoldable pub array_new : Alloc Array
array_new = do malloc; pure []

abbrev pub granularity : ℕ
granularity = 10

-- `realloc` when the room for ten more items is used up
grow_items : ℕ → Alloc (Unit {0})
grow_items nitems = if nitems % granularity == 0 then malloc else pure tt

-- The variable arguments up to `ARRTERM` are a list. On -1 (`none`) the callers drop the array.
unfoldable pub va_array_add : Array → List Bytes → Alloc Array
unfolding grow_items string_new
va_array_add aa [] = pure aa
va_array_add aa (s ∷ ap) = do
  grow_items (length aa)
  item ← string_new s
  va_array_add (aa ++ item ∷ []) ap

-- The callers pass one string.
unfoldable pub array_add : Array → Bytes → Alloc Array
unfolding va_array_add
array_add aa s = va_array_add aa (s ∷ [])

-- the copying loop: the flag is false where a string could not be allocated, and then the strings
-- copied so far are kept
pub dup_items : List Bytes → Heap → (Bool × Array) × Heap
unfolding string_new
dup_items [] h = ((true, []), h)
dup_items (s ∷ src) h =
    let (o, h') = string_new s h in
    let rest = dup_items src h' in
    elim o [ none ↦ ((false, []), h') | some item ↦ ((rest.0.0, item ∷ rest.0.1), rest.1) ]

-- The flag is `rc == 0`. The destination's old items are not read. Where the list of items cannot
-- be allocated the destination has `nitems` set and no items: `none`, unless there are none.
unfoldable pub array_dup : Array → Heap → (Bool × Option Array) × Heap
unfolding dup_items
array_dup src h =
    let (o, h') = malloc h in
    let copied = dup_items src h' in
    elim o [
      | none ↦ ((false, (if length src == 0 then some [] else none)), h')
      | some _ ↦ ((copied.0.0, some copied.0.1), copied.1)
    ]
