-- ===== src/Cdb/Match.antt =====
-- `match` of cdb_find.c: it ends, a match is a true one, and long keys can miss theirs.
use Prim.Native.Nat.{min}
use nastd.Prelude.{
  take-append-drop, ℕ, zero, suc, ◌+◌, ◌-◌, ◌*◌, ◌%◌, ◌^◌, ◌≤◌, ◌<◌, ◌≡◌, ◌≢◌, refl, ap, ◌⊎◌, inl,
  inr, length-append, sym, ◌∙◌, arith, [], ◌∷◌, ◌++◌, some, length, take, drop, length-take,
  length-drop, take-append_self, drop-append_self, ◌/◌,
}
use mathlib.Core.List.{append_assoc, append-nil}
use native.Mathlib.Decide.{dec_le, ℕ_discrete}
use nastd.Prelude.Bytes.{Bytes}
use nastd.Cdb.Find.{
  cdb_bread, Round, go_on, ends, round, u32, Matched, equal, unfinished, agree, compare_bytes,
  match_loop, match,
}

-- the bytes that agree are the key's first
compare_bytes_lem :
    (buf key : Bytes) {rest : Bytes} → compare_bytes buf key ≡ agree rest → key ≡ buf ++ rest
unfolding compare_bytes
compare_bytes_lem [] key e = ground arith
compare_bytes_lem (b ∷ buf) [] e = cc
compare_bytes_lem (b ∷ buf) (c ∷ key) {rest} e =
    ground (arith, compare_bytes_lem buf key {rest = rest})

-- a read within the file cuts off as many bytes as were asked for
cdb_bread_lem :
    (ptr : Bytes) (n : ℕ) {buf ptr' : Bytes}
    → cdb_bread ptr n ≡ some (buf, ptr')
    → (buf ≡ take n ptr) × (ptr' ≡ drop n ptr) × (n ≤ length ptr)
unfolding cdb_bread
cdb_bread_lem ptr n e = ground arith

-- a round that goes on has passed the same `n` bytes in the file and in the key
round_lem :
    (ptr key : Bytes) (n : ℕ) {ptr' key' : Bytes}
    → round ptr key n ≡ go_on ptr' key'
    → (key ≡ take n ptr ++ key') × (ptr' ≡ drop n ptr) × (n ≤ length ptr)
unfolding round cdb_bread
round_lem ptr key n {key' = key'} e =
    ground (arith, compare_bytes_lem (take n ptr) key {rest = key'})

round-ne-unfinished : (ptr key : Bytes) (n : ℕ) → round ptr key n ≢ ends unfinished
unfolding round
round-ne-unfinished ptr key n e = ground arith

round-ne-equal : (ptr key : Bytes) (n : ℕ) (ret : Bytes) → round ptr key n ≢ ends (equal ret)
unfolding round
round-ne-equal ptr key n ret e = ground arith

Round-cases : (r : Round) → ((p k : Bytes) × (r ≡ go_on p k)) ⊎ ((m : Matched) × (r ≡ ends m))
Round-cases (go_on p k) = inl (p, k, refl)
Round-cases (ends m) = inr (m, refl)

-- With the fuel that `match` gives it the loop ends by itself.
match_loop-ne-unfinished :
    (fuel : ℕ) (ptr key : Bytes) (len n : ℕ)
    → 0 < n
    → length ptr < fuel
    → match_loop fuel ptr key len n ≢ unfinished
unfolding match_loop
match_loop-ne-unfinished zero ptr key len n pos h = absurd (omega arith)
match_loop-ne-unfinished (suc fuel) ptr key len n pos h = elim (Round-cases (round ptr key n)) [
  | inl (p, k, r) ↦
      let (_, q, fits) = round_lem ptr key n r in
      ground (
        arith,
        ap length q,
        length-drop n ptr,
        match_loop-ne-unfinished fuel p k (u32 (len + 2 ^ 32 - n)) n,
      )
  | inr (m, r) ↦ ground (arith, round-ne-unfinished ptr key n)
]

-- A match shows the whole key at the pointer, when the length is a multiple of the step.
match_loop_sound :
    (k fuel : ℕ) (ptr key : Bytes) (len n : ℕ) {ret : Bytes}
    → 0 < n
    → len < 2 ^ 32
    → len ≡ k * n
    → length key ≡ len
    → match_loop fuel ptr key len n ≡ equal ret
    → ptr ≡ key ++ ret
unfolding match_loop
match_loop_sound k zero ptr key len n pos a m b e = cc
match_loop_sound zero (suc fuel) ptr [] len n pos a m b e = ground arith
match_loop_sound zero (suc fuel) ptr (c ∷ key) len n pos a m b e = absurd (omega arith)
match_loop_sound (suc k) (suc fuel) ptr key len n {ret} pos a m b e =
    elim (Round-cases (round ptr key n)) [
      | inl (p, x, r) ↦
          let (same, after, fits) = round_lem ptr key n r in
          let nz : len ≢ 0 = omega arith in
          let left : u32 (len + 2 ^ 32 - n) ≡ k * n = omega arith in
          let size : length x ≡ k * n =
            omega (arith, ap length same, length-append (take n ptr) x, length-take n ptr) in
          let e' : match_loop fuel p x (u32 (len + 2 ^ 32 - n)) n ≡ equal ret = ground arith in
          let ih : p ≡ x ++ ret =
            match_loop_sound k fuel p x _ n pos (omega arith) left (omega arith) e' in
          sym (take-append-drop n ptr)
          ∙ ap (λ t. take n ptr ++ t) (sym after ∙ ih)
          ∙ sym (append_assoc (take n ptr) x ret)
          ∙ ap (λ t. t ++ ret) (sym same)
      | inr (m', r) ↦ let nz : len ≢ 0 = omega arith in ground (arith, round-ne-equal ptr key n ret)
    ]

-- A length over 32 that is no multiple of 32 never becomes 0.
match_loop_wraps :
    (fuel : ℕ) (ptr key : Bytes) (len : ℕ) {ret : Bytes}
    → len % 32 ≢ 0
    → match_loop fuel ptr key len 32 ≢ equal ret
unfolding match_loop
match_loop_wraps zero ptr key len h e = cc
match_loop_wraps (suc fuel) ptr key len {ret} h e = elim (Round-cases (round ptr key 32)) [
  | inl (p, x, r) ↦ ground (arith, match_loop_wraps fuel p x (u32 (len + 2 ^ 32 - 32)) {ret = ret})
  | inr (m, r) ↦ ground (arith, round-ne-equal ptr key 32 ret)
]

-- The loop of `match` ends by itself within the fuel given.
match_ends : (ptr key : Bytes) → match ptr key (length key) ≢ unfinished
unfolding match match_loop
match_ends ptr [] e = ground arith
match_ends ptr (c ∷ key) e =
    match_loop-ne-unfinished (length ptr + 1) ptr (c ∷ key) (length (c ∷ key))
      (min 32 (length (c ∷ key))) (omega arith) (omega arith) e

-- A key of more than 32 bytes whose length is no multiple of 32 matches nowhere, not even where the
-- file holds it.
pub match_misses_long :
    (ptr key : Bytes) {ret : Bytes}
    → 32 < length key
    → length key % 32 ≢ 0
    → match ptr key (length key) ≢ equal ret
unfolding match
match_misses_long ptr key {ret} long odd e =
    let step : min 32 (length key) ≡ 32 = omega arith in
    match_loop_wraps (length ptr + 1) ptr key (length key) {ret = ret} odd (rw step at e)

by_step :
    (ptr key : Bytes) (n k : ℕ) {ret : Bytes}
    → length key < 2 ^ 32
    → min 32 (length key) ≡ n
    → 0 < n
    → length key ≡ k * n
    → match ptr key (length key) ≡ equal ret
    → ptr ≡ key ++ ret
unfolding match
by_step ptr key n k a step pos m e =
    match_loop_sound k (length ptr + 1) ptr key (length key) n pos a m refl (rw step at e)

-- A match is a true one, for every key shorter than 2 ^ 32 bytes: the whole key stands at the
-- pointer, and the pointer is left behind it.
pub match_sound :
    (ptr key : Bytes) {ret : Bytes}
    → length key < 2 ^ 32
    → match ptr key (length key) ≡ equal ret
    → ptr ≡ key ++ ret
unfolding match match_loop
match_sound ptr [] a e = ground arith
match_sound ptr (c ∷ key) {ret} a e = elim (dec_le (length (c ∷ key)) 32) [
  | yes short ↦
      by_step ptr (c ∷ key) (length (c ∷ key)) 1 a (omega arith) (omega arith) (omega arith) e
  | no long ↦ elim (ℕ_discrete (length (c ∷ key) % 32) 0) [
    | yes even ↦
        by_step ptr (c ∷ key) 32 (length (c ∷ key) / 32) a (omega arith) (omega arith) (omega arith)
          e
    | no odd ↦ absurd (match_misses_long ptr (c ∷ key) {ret = ret} (omega arith) odd e)
  ]
]

compare_self : (buf rest : Bytes) → compare_bytes buf (buf ++ rest) ≡ agree rest
unfolding compare_bytes
compare_self [] rest = refl
compare_self (b ∷ buf) rest = ground (arith, compare_self buf rest)

-- the one round of a short key
short_round : (key ret : Bytes) → round (key ++ ret) key (length key) ≡ go_on ret []
unfolding round cdb_bread
short_round key ret = ground (
  arith,
  length-append key ret,
  take-append_self key ret (length key) refl,
  drop-append_self key ret (length key) refl,
  compare_self key [],
  append-nil key,
)

short_match :
    (fuel : ℕ) (key ret : Bytes)
    → 0 < length key
    → length key < 2 ^ 32
    → match_loop (suc (suc fuel)) (key ++ ret) key (length key) (length key) ≡ equal ret
unfolding match_loop
short_match fuel key ret pos small =
    let back : u32 (length key + 2 ^ 32 - length key) ≡ 0 = omega arith in
    ground (arith, short_round key ret)

-- A key of at most 32 bytes matches wherever the file holds it.
pub match_complete :
    (key ret : Bytes) → length key ≤ 32 → match (key ++ ret) key (length key) ≡ equal ret
unfolding match match_loop
match_complete [] ret short = ground arith
match_complete (c ∷ key) ret short =
    let step : min 32 (length (c ∷ key)) ≡ length (c ∷ key) = omega arith in
    let fuel : length ((c ∷ key) ++ ret) + 1 ≡ suc (suc (length (key ++ ret))) = omega arith in
    rw step (rw fuel (short_match (length (key ++ ret)) (c ∷ key) ret (omega arith) (omega arith)))
