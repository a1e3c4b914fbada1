-- ===== src/Server/Options/Kept.antt =====
-- What `do_opt_get` sends sets the same options again.
use nastd.Prelude.{refl, [], ◌∷◌, length, ◌%◌, List, Option-cases, inl, inr, ℕ, ◌≡◌, arith, true}
use nastd.Ipc.{NastOptions}
use nastd.Prelude.Bytes.{Bytes}
use nastd.Prelude.Outcome.{returns}
use nastd.Server.Options.{do_opt_set, store_options, set_option, set_options, opt_bytes}

-- The bytes that `do_opt_get` builds from a client's options give, through the loop of
-- `do_opt_set`, those options to any client.
pub set_options-opt_bytes :
    (beyond : ℕ) (o o' : NastOptions) → set_options beyond (opt_bytes o) o' ≡ (true, o)
unfolding set_options set_option opt_bytes
set_options-opt_bytes beyond o o' = ground arith

-- options with their values
abbrev pub flat : List (ℕ × ℕ) → Bytes
flat [] = []
flat ((opt, value) ∷ pairs) = opt ∷ value ∷ flat pairs

set_options-flat :
    (beyond : ℕ) (pairs : List (ℕ × ℕ)) (o : NastOptions)
    → set_options beyond (flat pairs) o ≡ set_options 0 (flat pairs) o
unfolding set_options
set_options-flat beyond [] o = refl
set_options-flat beyond ((opt, value) ∷ pairs) o = elim (Option-cases (set_option opt value o)) [
  | inl unknown ↦ rw (unknown, set_options)
  | inr (o', known) ↦ rw (known, set_options) (set_options-flat beyond pairs o')
]

-- With every option's value there, what stands behind the payload is not read.
pub do_opt_set-flat :
    (reqid beyond : ℕ) (pairs : List (ℕ × ℕ))
    → do_opt_set reqid beyond (flat pairs) ≡ do_opt_set reqid 0 (flat pairs)
unfolding do_opt_set store_options
do_opt_set-flat reqid beyond pairs = rw stored
  where
    stored : store_options beyond (flat pairs) ≡ store_options 0 (flat pairs)
    stored = λ i s. returns (
      (set_options-flat beyond pairs s.cops.opts i).0,
      record s {
        cops = record (s.cops) { opts = (set_options-flat beyond pairs s.cops.opts i).1 };
      },
    )

pub length-flat : (pairs : List (ℕ × ℕ)) → length (flat pairs) % 2 ≡ 0
length-flat [] = refl
length-flat ((opt, value) ∷ pairs) = omega (arith, length-flat pairs)
