-- ===== src/Array/Laws.antt =====
-- What a call of array.c that succeeds has built.
use nastd.Prelude.{
  ◌%◌, ◌==◌, Bool-cases, inl, inr, ◌≡◌, refl, sym, ap, ◌∙◌, arith, true, List, [], ◌∷◌, ◌++◌, some,
  length,
}
use mathlib.Core.List.{append_assoc, append-nil}
use nastd.Prelude.Bytes.{Bytes}
use nastd.Prelude.Alloc.{Heap, ◌>>=◌, pure, malloc, >>=-assoc, >>=-eq}
use nastd.Array.{
  granularity, Array, string_new, array_new, grow_items, va_array_add, array_add, dup_items,
  array_dup,
}

pub string_new_lem : (s : Bytes) (h : Heap) {t : Bytes} → (string_new s h).0 ≡ some t → t ≡ s
unfolding string_new
string_new_lem s h p = ground arith

pub array_new_lem : (h : Heap) {a : Array} → (array_new h).0 ≡ some a → a ≡ []
unfolding array_new
array_new_lem h p = ground arith

-- Whatever the allocator does, adding either fails or appends exactly the given strings in order.
pub va_array_add_lem :
    (aa : Array) (args : List Bytes) (h : Heap) {a : Array}
    → (va_array_add aa args h).0 ≡ some a
    → a ≡ aa ++ args
unfolding va_array_add
va_array_add_lem aa [] h {a} p = rw append-nil (cc)
va_array_add_lem aa (s ∷ args) h {a} p =
    let h₁ = (grow_items (length aa) h).1 in
    ground (
      arith,
      append_assoc aa (s ∷ []) args,
      va_array_add_lem (aa ++ s ∷ []) args (string_new s h₁).1 {a = a},
    )

-- If the copy succeeds it equals its source, and what a failed copy leaves is a prefix of it.
pub dup_items_lem :
    (src : List Bytes) (h : Heap) → (dup_items src h).0.0 ≡ true → (dup_items src h).0.1 ≡ src
unfolding dup_items
dup_items_lem [] h p = refl
dup_items_lem (s ∷ src) h p =
    ground (arith, dup_items_lem src (string_new s h).1, string_new_lem s h)

pub array_dup_lem :
    (src : Array) (h : Heap) → (array_dup src h).0.0 ≡ true → (array_dup src h).0.1 ≡ some src
unfolding array_dup
array_dup_lem src h p = ground (arith, dup_items_lem src (malloc h).1)

-- With no failure ahead every call succeeds.
pub dup_items_nil : (src : List Bytes) → dup_items src [] ≡ ((true, src), [])
unfolding dup_items
dup_items_nil [] = refl
dup_items_nil (s ∷ src) = rw (dup_items_nil src)

pub array_dup_nil : (src : Array) → array_dup src [] ≡ ((true, some src), [])
unfolding array_dup
array_dup_nil src = rw (dup_items_nil src)

-- One string is appended, or the call fails.
pub array_add_lem :
    (aa : Array) (s : Bytes) (h : Heap) {a : Array}
    → (array_add aa s h).0 ≡ some a
    → a ≡ aa ++ s ∷ []
unfolding array_add
array_add_lem aa s h e = va_array_add_lem aa (s ∷ []) h e

pub array_add_nil : (aa : Array) (s : Bytes) → array_add aa s [] ≡ (some (aa ++ s ∷ []), [])
unfolding array_add va_array_add grow_items string_new
array_add_nil aa s = elim (Bool-cases (length aa % granularity == 0)) [
  | inl e ↦ rw (e, array_add) refl
  | inr e ↦ rw (e, array_add) refl
]

-- Strings can be added one by one: the outcome is the same, also where memory runs out.
pub va_array_add-cons :
    (aa : Array) (s : Bytes) (args : List Bytes) (h : Heap)
    → va_array_add aa (s ∷ args) h ≡ (array_add aa s >>= λ aa'. va_array_add aa' args) h
unfolding array_add va_array_add grow_items string_new
va_array_add-cons aa s args h =
    let add = λ (item : Bytes). pure (aa ++ item ∷ []) in
    let next = λ (aa' : Array). va_array_add aa' args in
    sym (
      >>=-assoc (grow_items (length aa)) (λ u. string_new s >>= add) next h ∙ λ i.
      (grow_items (length aa) >>= λ u h'. >>=-assoc (string_new s) add next h' i) h)

pub va_array_add_nil :
    (args : List Bytes) (aa : Array) → va_array_add aa args [] ≡ (some (aa ++ args), [])
unfolding va_array_add
va_array_add_nil [] aa = rw append-nil refl
va_array_add_nil (s ∷ args) aa =
    va_array_add-cons aa s args []
    ∙ >>=-eq (array_add aa s) (λ aa'. va_array_add aa' args) [] (array_add_nil aa s)
    ∙ va_array_add_nil args (aa ++ s ∷ [])
    ∙ ap (λ a. (some a, [])) (append_assoc aa (s ∷ []) args)
