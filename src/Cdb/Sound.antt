-- ===== src/Cdb/Sound.antt =====
-- `cdb_find`: what it finds is in the file under the key, and what it cannot find.
use nastd.Prelude.{
  take-append-drop, ℕ, zero, suc, ◌+◌, ◌*◌, ◌/◌, ◌%◌, ◌^◌, ◌≤◌, ◌<◌, ◌≡◌, ◌≢◌, refl, ap, sym, ◌∙◌,
  arith, ◌==◌, if◌then◌else◌, ◌++◌, none, some, length, drop, length-take, length-append,
  take-append_self, drop-append_self, Option-cases, inl, inr, ◌⊎◌,
}
use nastd.Prelude.Bytes.{Bytes}
use nastd.Cdb.Find.{
  cdb_unpack, cdb_hash, cdb_bread, read_pair, equal, match, Found, found, Probe, stop, keep_on,
  try_record, try_slot, probe_loop, cdb_find, u32,
}
use nastd.Cdb.Match.{match_sound, match_misses_long, match_complete}

-- A record of the file at `at`: a pair of lengths, the key, and then the data.
pub record IsRecord (buff key ret : Bytes) (retlen : ℕ) (at : ℕ) : Type 0 where
  pub lengths : Bytes
  pub stands : drop at buff ≡ lengths ++ (key ++ ret)
  pub pair : length lengths ≡ 8
  pub keylen : cdb_unpack lengths ≡ length key
  pub datalen : cdb_unpack (drop 4 lengths) ≡ retlen

read_pair_lem :
    (buff : Bytes) (pos : ℕ) {lengths cur : Bytes}
    → read_pair buff pos ≡ some (lengths, cur)
    → (drop pos buff ≡ lengths ++ cur) × (length lengths ≡ 8)
unfolding read_pair cdb_bread
read_pair_lem buff pos e =
    ground (arith, take-append-drop 8 (drop pos buff), length-take 8 (drop pos buff))

-- what a match that stops the search must be
record Hit (buff key ret : Bytes) (retlen poskd : ℕ) (lengths cur : Bytes) : Type 0 where
  read : read_pair buff poskd ≡ some (lengths, cur)
  len : cdb_unpack lengths ≡ length key
  same : match cur key (length key) ≡ equal ret
  dlen : cdb_unpack (drop 4 lengths) ≡ retlen

try_record-Hit :
    (buff key : Bytes) (poskd : ℕ) {ret : Bytes} {retlen : ℕ}
    → try_record buff key poskd ≡ stop (found ret retlen)
    → (lengths cur : Bytes) × Hit buff key ret retlen poskd lengths cur
unfolding try_record
try_record-Hit buff key poskd {ret} {retlen} e = elim (Option-cases (read_pair buff poskd)) [
  | inl n ↦ absurd (ground arith)
  | inr ((l, c), n) ↦
      (l, c, record { read = n; len = ground arith; same = ground arith; dlen = ground arith })
]

try_record_sound :
    (buff key : Bytes) (poskd : ℕ) {ret : Bytes} {retlen : ℕ}
    → length key < 2 ^ 32
    → try_record buff key poskd ≡ stop (found ret retlen)
    → IsRecord buff key ret retlen poskd
try_record_sound buff key poskd {ret} small e =
    let (lengths, cur, hit) = try_record-Hit buff key poskd e in
    let (cut, eight) = read_pair_lem buff poskd hit.read in
    record {
      lengths = lengths;
      stands = cut ∙ ap (λ c. lengths ++ c) (match_sound cur key small hit.same);
      pair = eight;
      keylen = hit.len;
      datalen = hit.dlen;
    }

-- the record position in the slot at `at`
slot_record : Bytes → ℕ → ℕ
slot_record buff at = elim (read_pair buff at) [
  | none ↦ 0
  | some (pair, _) ↦ cdb_unpack (drop 4 pair)
]

try_slot_found :
    (buff key : Bytes) (h at : ℕ) {ret : Bytes} {retlen : ℕ}
    → try_slot buff key h at ≡ stop (found ret retlen)
    → try_record buff key (slot_record buff at) ≡ stop (found ret retlen)
unfolding try_slot slot_record
try_slot_found buff key h at e = ground arith

Probe-cases : (p : Probe) → ((r : Found) × (p ≡ stop r)) ⊎ (p ≡ keep_on)
Probe-cases (stop r) = inl (r, refl)
Probe-cases keep_on = inr refl

probe_loop_misses :
    (rounds : ℕ) (buff key : Bytes) (h pos lenhash h2 : ℕ) {ret : Bytes} {retlen : ℕ}
    → 32 < length key
    → length key % 32 ≢ 0
    → probe_loop rounds buff key h pos lenhash h2 ≢ found ret retlen
unfolding probe_loop
probe_loop_misses zero buff key h pos lenhash h2 long odd e = cc
probe_loop_misses (suc rounds) buff key h pos lenhash h2 {ret} {retlen} long odd e =
    let at = u32 (pos + u32 (8 * h2)) in
    elim (Probe-cases (try_slot buff key h at)) [
      | inl (r, q) ↦
          let here : try_slot buff key h at ≡ stop (found ret retlen) = ground arith in
          let (_, cur, hit) = try_record-Hit buff key _ (try_slot_found buff key h at here) in
          match_misses_long cur key {ret = ret} long odd hit.same
      | inr q ↦
          probe_loop_misses rounds buff key h pos lenhash (if h2 + 1 == lenhash then 0 else h2 + 1)
            long odd (rw (q, probe_loop) at e)
    ]

probe_loop_sound :
    (rounds : ℕ) (buff key : Bytes) (h pos lenhash h2 : ℕ) {ret : Bytes} {retlen : ℕ}
    → length key < 2 ^ 32
    → probe_loop rounds buff key h pos lenhash h2 ≡ found ret retlen
    → (at : ℕ) × IsRecord buff key ret retlen at
unfolding probe_loop
probe_loop_sound zero buff key h pos lenhash h2 small e = cc
probe_loop_sound (suc rounds) buff key h pos lenhash h2 {ret} {retlen} small e =
    let at = u32 (pos + u32 (8 * h2)) in
    elim (Probe-cases (try_slot buff key h at)) [
      | inl (r, q) ↦
          let here : try_slot buff key h at ≡ stop (found ret retlen) = ground arith in
          (
            slot_record buff at,
            try_record_sound buff key _ small (try_slot_found buff key h at here),
          )
      | inr q ↦
          probe_loop_sound rounds buff key h pos lenhash (if h2 + 1 == lenhash then 0 else h2 + 1)
            small (rw (q, probe_loop) at e)
    ]

probe_first :
    (rounds : ℕ) (buff key : Bytes) (h pos lenhash h2 : ℕ) (r : Found)
    → rounds ≢ 0
    → try_slot buff key h (u32 (pos + u32 (8 * h2))) ≡ stop r
    → probe_loop rounds buff key h pos lenhash h2 ≡ r
unfolding probe_loop
probe_first zero buff key h pos lenhash h2 r ne q = absurd (ne refl)
probe_first (suc rounds) buff key h pos lenhash h2 r ne q = rw (q, probe_loop)

find_probes : (buff key : Bytes) → ℕ → ℕ → Found
find_probes buff key pos lenhash =
    probe_loop lenhash buff key (cdb_hash key) pos lenhash (cdb_hash key / 256 % lenhash)

-- The search starts at the slot that the table at the head of the file and the hash give.
find_found :
    (buff key : Bytes) {ret : Bytes} {retlen : ℕ}
    → cdb_find buff key ≡ found ret retlen
    → (pos lenhash : ℕ) × (find_probes buff key pos lenhash ≡ found ret retlen)
unfolding cdb_find find_probes
find_found buff key e = elim (Option-cases (read_pair buff (8 * (cdb_hash key % 256)))) [
  | inl n ↦ absurd (ground arith)
  | inr ((p, c), n) ↦ (cdb_unpack p, cdb_unpack (drop 4 p), ground arith)
]

-- What `cdb_find` returns as found, for a key shorter than 2 ^ 32 bytes, is a record of the file:
-- the two lengths, then the whole key, then `*ret`; the first length is the key's and the second
-- is `*retlen`.
pub cdb_find_sound :
    (buff key : Bytes) {ret : Bytes} {retlen : ℕ}
    → length key < 2 ^ 32
    → cdb_find buff key ≡ found ret retlen
    → (at : ℕ) × IsRecord buff key ret retlen at
unfolding find_probes
cdb_find_sound buff key small e =
    let (pos, lenhash, q) = find_found buff key e in
    probe_loop_sound lenhash buff key _ pos lenhash _ small q

-- A record whose key has more than 32 bytes, and not a multiple of 32, is never found, whatever
-- the file holds.
pub cdb_find_misses_long :
    (buff key : Bytes) {ret : Bytes} {retlen : ℕ}
    → 32 < length key
    → length key % 32 ≢ 0
    → cdb_find buff key ≢ found ret retlen
unfolding find_probes
cdb_find_misses_long buff key long odd e =
    let (pos, lenhash, q) = find_found buff key e in
    probe_loop_misses lenhash buff key _ pos lenhash _ long odd q

read_record :
    (buff key ret : Bytes) (retlen at : ℕ) (r : IsRecord buff key ret retlen at)
    → at ≤ length buff
    → read_pair buff at ≡ some (r.lengths, key ++ ret)
unfolding read_pair cdb_bread
read_record buff key ret retlen at r inside = ground (
  arith,
  r.stands,
  take-append_self r.lengths (key ++ ret) 8 (sym r.pair),
  drop-append_self r.lengths (key ++ ret) 8 (sym r.pair),
  length-append r.lengths (key ++ ret),
)

try_record_complete :
    (buff key ret : Bytes) (retlen at : ℕ)
    → length key ≤ 32
    → IsRecord buff key ret retlen at
    → at ≤ length buff
    → try_record buff key at ≡ stop (found ret retlen)
unfolding try_record
try_record_complete buff key ret retlen at short r inside = ground (
  arith,
  read_record buff key ret retlen at r inside,
  match_complete key ret short,
  r.keylen,
  r.datalen,
)

try_slot_record :
    (buff key : Bytes) (pos : ℕ) (slot after : Bytes) (at : ℕ)
    → read_pair buff pos ≡ some (slot, after)
    → cdb_unpack slot ≡ cdb_hash key
    → cdb_unpack (drop 4 slot) ≡ at
    → at ≢ 0
    → try_slot buff key (cdb_hash key) pos ≡ try_record buff key at
unfolding try_slot
try_slot_record buff key pos slot after at e eh ea na = ground arith

first_round :
    (buff key head after : Bytes) (r : Found)
    → read_pair buff (8 * (cdb_hash key % 256)) ≡ some (head, after)
    → cdb_unpack (drop 4 head) ≢ 0
    → try_slot buff key
        (cdb_hash key)
        (u32 (cdb_unpack head + u32 (8 * (cdb_hash key / 256 % cdb_unpack (drop 4 head)))))
      ≡ stop r
    → cdb_find buff key ≡ r
unfolding cdb_find
first_round buff key head after r e ne q =
    rw (e, cdb_find)
      (ground (
        arith,
        probe_first (cdb_unpack (drop 4 head)) buff key (cdb_hash key) (cdb_unpack head)
            (cdb_unpack (drop 4 head)) (cdb_hash key / 256 % cdb_unpack (drop 4 head)) r ne q,
      ))

-- A key of at most 32 bytes is found, with its record's data: where the pair for its hash at the head
-- of the file is there and its table is not empty, the slot that the search visits first is there
-- and holds the key's hash and a position that is not 0 and lies in the file, and a record of the
-- key stands at that position.
pub cdb_find_complete :
    (buff key ret : Bytes) (retlen at : ℕ) (head slot after₁ after₂ : Bytes)
    → length key ≤ 32
    → read_pair buff (8 * (cdb_hash key % 256)) ≡ some (head, after₁)
    → cdb_unpack (drop 4 head) ≢ 0
    → read_pair buff
        (u32 (cdb_unpack head + u32 (8 * (cdb_hash key / 256 % cdb_unpack (drop 4 head)))))
      ≡ some (slot, after₂)
    → cdb_unpack slot ≡ cdb_hash key
    → cdb_unpack (drop 4 slot) ≡ at
    → at ≢ 0
    → IsRecord buff key ret retlen at
    → at ≤ length buff
    → cdb_find buff key ≡ found ret retlen
cdb_find_complete buff key ret retlen at head slot after₁ after₂ short e₁ ne e₂ eh ea na r inside =
    let hit : try_record buff key at ≡ stop (found ret retlen) =
      try_record_complete buff key ret retlen at short r inside in
    let here = try_slot_record buff key _ slot after₂ at e₂ eh ea na in
    first_round buff key head after₁ (found ret retlen) e₁ ne (here ∙ hit)
