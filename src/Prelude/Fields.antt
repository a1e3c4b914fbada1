-- ===== src/Prelude/Fields.antt =====
-- Lists of strings joined by a separator byte, and the scan that takes them apart again.
use Prim.Native.Nat.{ℕ}
use mathlib.Core.Path.{◌≡◌, refl, ap, ◌∙◌}
use mathlib.Core.Logic.{◌≢◌}
use mathlib.Core.List.{List, [], ◌∷◌, ◌++◌, append_assoc, append-nil}
use native.Mathlib.Omega.{arith}
use nastd.Prelude.Tests.{◌==◌, if◌then◌else◌}
use nastd.Prelude.Bytes.{Bytes}

module _ (sep : ℕ) where
  -- the fields of a string, `start` being the part of the first field that has been passed
  unfoldable pub split_from : Bytes → Bytes → List Bytes
  split_from start [] = start ∷ []
  split_from start (c ∷ s) =
      let rest = split_from [] s in
      let longer = split_from (start ++ c ∷ []) s in if c == sep then start ∷ rest else longer

  unfoldable pub split : Bytes → List Bytes
  split = split_from []

  unfoldable pub join : List Bytes → Bytes
  join [] = []
  join (x ∷ []) = x
  join (x ∷ y ∷ rest) = x ++ sep ∷ join (y ∷ rest)

  -- no byte of the string is the separator
  abbrev pub IsPlain : Bytes → Type 0
  IsPlain [] = Unit
  IsPlain (c ∷ s) = (c ≢ sep) × IsPlain s

  abbrev pub ArePlain : List Bytes → Type 0
  ArePlain [] = Unit
  ArePlain (x ∷ xs) = IsPlain x × ArePlain xs

  split_from-plain : (start x : Bytes) → IsPlain x → split_from start x ≡ (start ++ x) ∷ []
  unfolding split_from
  split_from-plain start [] p = rw append-nil
  split_from-plain start (c ∷ x) p =
      ground (arith, split_from-plain (start ++ c ∷ []) x p.1, append_assoc start (c ∷ []) x)

  split_from-field :
      (start x rest : Bytes)
      → IsPlain x
      → split_from start (x ++ sep ∷ rest) ≡ (start ++ x) ∷ split_from [] rest
  unfolding split_from
  split_from-field start [] rest p = ground (arith, append-nil start)
  split_from-field start (c ∷ x) rest p =
      ground (arith, split_from-field (start ++ c ∷ []) x rest p.1, append_assoc start (c ∷ []) x)

  pub split-join :
      (x : Bytes) (xs : List Bytes) → ArePlain (x ∷ xs) → split (join (x ∷ xs)) ≡ x ∷ xs
  unfolding split join
  split-join x [] p = split_from-plain [] x p.0
  split-join x (y ∷ ys) p =
      split_from-field [] x (join (y ∷ ys)) p.0 ∙ ap (◌∷◌ x) (split-join y ys p.1)

  pub join-cons : (x y : Bytes) (ys : List Bytes) → join (x ∷ y ∷ ys) ≡ x ++ sep ∷ join (y ∷ ys)
  unfolding join
  join-cons x y ys = refl
