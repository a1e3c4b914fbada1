-- ===== src/Cdb/Find.antt =====
-- server/cdb_hash.c, server/cdb_unpack.c and server/cdb_find.c. The mapped file is the list of its
-- bytes, and a pointer into it the rest of the list from there. `uint32_t` arithmetic is modulo
-- 2 ^ 32, written out where it may wrap.
use Prim.Native.Nat.{bit_xor, min}
use nastd.Prelude.{
  ℕ, zero, suc, ◌+◌, ◌-◌, ◌*◌, ◌/◌, ◌%◌, ◌^◌, ltb, ◌==◌, if◌then◌else◌, [], ◌∷◌, Option, none, some,
  length, take, drop,
}
use nastd.Prelude.Bytes.{Bytes}

abbrev pub u32 : ℕ → ℕ
u32 n = n % 2 ^ 32

-- `h += (h << 5); h ^= *buf++` over the key
cdb_hash_from : ℕ → Bytes → ℕ
cdb_hash_from h [] = h
cdb_hash_from h (c ∷ buf) = cdb_hash_from (bit_xor (u32 (h + u32 (h * 32))) c) buf

unfoldable pub cdb_hash : Bytes → ℕ
unfolding cdb_hash_from
cdb_hash = cdb_hash_from 5381

-- the first four bytes, the lowest first
abbrev pub cdb_unpack : Bytes → ℕ
cdb_unpack (b₀ ∷ b₁ ∷ b₂ ∷ b₃ ∷ rest) = u32 (u32 (u32 (b₃ * 256 + b₂) * 256 + b₁) * 256 + b₀)
cdb_unpack _ = 0

-- The bytes read and the pointer after them; `none` is -1 with EIO.
unfoldable pub cdb_bread : Bytes → ℕ → Option (Bytes × Bytes)
cdb_bread ptr len = if ltb (length ptr) len then none else some (take len ptr, drop len ptr)

-- What `match` returns. `overread` is a read of the key beyond its last byte, and `unfinished` a
-- loop that has used up its fuel.
pub data Matched : Type 0 where
  equal : (ptr : Bytes) → Matched
  differs : Matched
  io_error : Matched
  overread : Matched
  unfinished : Matched

-- the `for` of `match`: what is left of the key after as many bytes as were read
pub data Compared : Type 0 where
  agree : (key : Bytes) → Compared
  disagree : Compared
  past_end : Compared

unfoldable pub compare_bytes : Bytes → Bytes → Compared
compare_bytes [] key = agree key
compare_bytes (b ∷ buf) [] = past_end
compare_bytes (b ∷ buf) (c ∷ key) =
    let rest = compare_bytes buf key in if b == c then rest else disagree

-- the first half of a round of the `while`: read `n` bytes and compare them
pub data Round : Type 0 where
  go_on : (ptr key : Bytes) → Round
  ends : Matched → Round

unfoldable pub round : Bytes → Bytes → ℕ → Round
round ptr key n = elim (cdb_bread ptr n) [
  | none ↦ ends io_error
  | some (buf, ptr') ↦ elim (compare_bytes buf key) [
    | disagree ↦ ends differs
    | past_end ↦ ends overread
    | agree key' ↦ go_on ptr' key'
  ]
]

-- the `while` of `match`, with `n` fixed before the loop and `len` unsigned
unfoldable pub match_loop : ℕ → Bytes → Bytes → ℕ → ℕ → Matched
match_loop zero ptr key len n = unfinished
match_loop (suc fuel) ptr key len n = if len == 0 then equal ptr else elim (round ptr key n) [
  | ends r ↦ r
  | go_on ptr' key' ↦ match_loop fuel ptr' key' (u32 (len + 2 ^ 32 - n)) n
]

-- Each round but the last consumes a byte of the file at least.
unfoldable pub match : Bytes → Bytes → ℕ → Matched
match ptr key len = match_loop (length ptr + 1) ptr key len (min 32 len)

-- `found` has `*ret` and `*retlen`, and is 1; `missing` is 0.
pub data Found : Type 0 where
  found : (ret : Bytes) (retlen : ℕ) → Found
  missing : Found
  failed : Found
  faulted : Found

-- `cur = buff + pos` under its test, and the eight bytes there
unfoldable pub read_pair : Bytes → ℕ → Option (Bytes × Bytes)
read_pair buff pos = if ltb (length buff) pos then none else cdb_bread (drop pos buff) 8

-- What one slot yields: an end of the search, or `keep_on`.
pub data Probe : Type 0 where
  stop : Found → Probe
  keep_on : Probe

-- the record at `poskd`, whose slot has the key's hash
unfoldable pub try_record : Bytes → Bytes → ℕ → Probe
try_record buff key poskd = elim (read_pair buff poskd) [
  | none ↦ stop failed
  | some (packbuf, cur) ↦
      if cdb_unpack packbuf == length key
      then (elim (match cur key (length key)) [
        | io_error ↦ stop failed
        | equal ret ↦ stop (found ret (cdb_unpack (drop 4 packbuf)))
        | differs ↦ keep_on
        | overread ↦ stop faulted
        | unfinished ↦ stop faulted
      ])
      else keep_on
]

-- one round of the `for` over the slots
unfoldable pub try_slot : Bytes → Bytes → ℕ → ℕ → Probe
try_slot buff key h at = elim (read_pair buff at) [
  | none ↦ stop failed
  | some (packbuf, _) ↦
      let poskd = cdb_unpack (drop 4 packbuf) in
      if poskd == 0
      then stop missing
      else if cdb_unpack packbuf == h
      then try_record buff key poskd
      else keep_on
]

-- `rounds` is `lenhash - loop`
unfoldable pub probe_loop : ℕ → Bytes → Bytes → ℕ → ℕ → ℕ → ℕ → Found
probe_loop zero buff key h pos lenhash h2 = missing
probe_loop (suc rounds) buff key h pos lenhash h2 =
    elim (try_slot buff key h (u32 (pos + u32 (8 * h2)))) [
      | stop r ↦ r
      | keep_on ↦ probe_loop rounds buff key h pos lenhash (if h2 + 1 == lenhash then 0 else h2 + 1)
    ]

unfoldable pub cdb_find : Bytes → Bytes → Found
cdb_find buff key =
    let h = cdb_hash key in
    elim (read_pair buff (8 * (h % 256))) [
      | none ↦ failed
      | some (packbuf, _) ↦
          let pos = cdb_unpack packbuf in
          let lenhash = cdb_unpack (drop 4 packbuf) in
          if lenhash == 0
          then missing
          else probe_loop lenhash buff key h pos lenhash (h / 256 % lenhash)
    ]
