-- ===== src/Client/Results.antt =====
-- What the server sends is what the client takes apart.
use nastd.Prelude.{
  ap, length, ◌%◌, refl, ◌≡◌, ◌∙◌, arith, ◌==◌, List, [], ◌∷◌, ◌++◌, some, Bool-cases, inl, inr,
}
use mathlib.Core.List.{append_assoc}
use nastd.Prelude.Bytes.{Bytes}
use nastd.Prelude.Fields.{join, split, split_from, split-join, ArePlain}
use nastd.Prelude.Alloc.{◌>>=◌, Heap, >>=-eq-some}
use nastd.Ipc.{nastsep}
use nastd.Client.{
  NastArray, nast_array_new, nast_array_add, nast_string_new, result_items, build_result,
}

nast_array_add_lem :
    (aa : NastArray) (s : Bytes) (h : Heap) {a : NastArray}
    → (nast_array_add aa s h).0 ≡ some a
    → a ≡ aa ++ s ∷ []
unfolding nast_array_add nast_string_new
nast_array_add_lem aa s h e = ground arith

result_items_lem :
    (aa : NastArray) (start left : Bytes) (h : Heap) {a : NastArray}
    → (result_items aa start left h).0 ≡ some a
    → a ≡ aa ++ split_from nastsep start left
unfolding result_items split_from
result_items_lem aa start [] h e = nast_array_add_lem aa start h e
result_items_lem aa start (c ∷ left) h {a} e = elim (Bool-cases (c == nastsep)) [
  | inl same ↦
      let (aa', p, q) =
        >>=-eq-some (nast_array_add aa start) (λ aa'. result_items aa' [] left) h
          (rw (same, result_items) at e) in
      let first : aa' ≡ aa ++ start ∷ [] = nast_array_add_lem aa start h p in
      rw (same, split_from)
        (result_items_lem aa' [] left _ q
          ∙ rw first (append_assoc aa (start ∷ []) (split_from nastsep [] left)))
  | inr differs ↦
      rw (differs, split_from)
        (result_items_lem aa (start ++ c ∷ []) left h (rw (differs, result_items) at e))
]

nast_array_new_lem : (h : Heap) {a : NastArray} → (nast_array_new h).0 ≡ some a → a ≡ []
unfolding nast_array_new
nast_array_new_lem h e = ground arith

-- The client's `build_result`, where there is memory, takes the items of a server's response apart
-- into the items that the server joined, if there is one at least and none holds the separator.
pub build_result-join :
    (x : Bytes) (xs : List Bytes) (h : Heap) {a : NastArray}
    → ArePlain nastsep (x ∷ xs)
    → (build_result (join nastsep (x ∷ xs)) h).0 ≡ some a
    → a ≡ x ∷ xs
unfolding build_result split
build_result-join x xs h p e =
    let (aa, q, r) =
      >>=-eq-some nast_array_new (λ aa. result_items aa [] (join nastsep (x ∷ xs))) h e in
    let empty : aa ≡ [] = nast_array_new_lem h q in
    result_items_lem [] [] (join nastsep (x ∷ xs)) (nast_array_new h).1 (rw empty at r)
    ∙ split-join nastsep x xs p

-- with no failure ahead every call succeeds
nast_array_add_nil :
    (aa : NastArray) (s : Bytes) → nast_array_add aa s [] ≡ (some (aa ++ s ∷ []), [])
unfolding nast_array_add nast_string_new
nast_array_add_nil aa s = elim (Bool-cases (length aa % 10 == 0)) [
  | inl full ↦ rw (full, nast_array_add) refl
  | inr room ↦ rw (room, nast_array_add) refl
]

result_items_nil :
    (aa : NastArray) (start left : Bytes)
    → result_items aa start left [] ≡ (some (aa ++ split_from nastsep start left), [])
unfolding result_items split_from
result_items_nil aa start [] = nast_array_add_nil aa start
result_items_nil aa start (c ∷ left) = elim (Bool-cases (c == nastsep)) [
  | inl same ↦
      let heap : (nast_array_add aa start []).1 ≡ [] =
        ap (λ r. r.1) (nast_array_add_nil aa start) in
      rw (same, split_from)
        (rw (nast_array_add_nil aa start, ◌>>=◌)
          (rw heap (
            result_items_nil (aa ++ start ∷ []) [] left
            ∙ ap (λ l. (some l, [])) (append_assoc aa (start ∷ []) (split_from nastsep [] left)))))
  | inr differs ↦ rw (differs, split_from) (result_items_nil aa (start ++ c ∷ []) left)
]

pub build_result_nil :
    (x : Bytes) (xs : List Bytes)
    → ArePlain nastsep (x ∷ xs)
    → build_result (join nastsep (x ∷ xs)) [] ≡ (some (x ∷ xs), [])
unfolding build_result split nast_array_new
build_result_nil x xs p =
    result_items_nil [] [] (join nastsep (x ∷ xs))
    ∙ ap (λ l. (some l, [])) (split-join nastsep x xs p)
