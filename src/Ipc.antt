-- ===== src/Ipc.antt =====
-- include/nastipc.h and the options of include/nastd.h: the protocol on the wire. A `char` is the
-- number of its byte, so '\xff' is 255.
use nastd.Prelude.{
  ℕ, ◌+◌, ◌*◌, ◌/◌, ◌%◌, ◌^◌, Bool, [], ◌∷◌, ◌++◌, Option, none, some, ◌≡◌, ◌<◌, arith,
}
use nastd.Prelude.Bytes.{Bytes}

abbrev pub nastcmd : ℕ
nastcmd = 255

abbrev pub nastadd : ℕ
nastadd = 1

abbrev pub nastdel : ℕ
nastdel = 2

abbrev pub nastupd : ℕ
nastupd = 3

abbrev pub nastget : ℕ
nastget = 4

abbrev pub nastdie : ℕ
nastdie = 15

abbrev pub nastoptget : ℕ
nastoptget = 16

abbrev pub nastoptset : ℕ
nastoptset = 17

abbrev pub naststats : ℕ
naststats = 32

abbrev pub nastok : ℕ
nastok = 241

abbrev pub nasterr : ℕ
nasterr = 242

abbrev pub nastsep : ℕ
nastsep = 252

-- `nast_options`
pub record NastOptions : Type 0 where
  pub use_qcache : Bool
  pub use_localdb : Bool
  pub fallthrough_async : Bool
  pub always_fallthrough : Bool
  pub fail_once : Bool
  pub no_fallthrough : Bool

-- `htons` and `memcpy`: a `short` as it stands on the wire
abbrev pub htons : ℕ → Bytes
htons n = n / 256 % 256 ∷ n % 256 ∷ []

-- `memcpy` and `ntohs`; `none` where there are not two bytes to read
abbrev pub ntohs : Bytes → Option ℕ
ntohs (a ∷ b ∷ rest) = some (a * 256 + b)
ntohs _ = none

-- A `short` below zero after `ntohs` is one with its highest bit set.
pub ntohs-htons : (n : ℕ) (rest : Bytes) → n < 2 ^ 16 → ntohs (htons n ++ rest) ≡ some n
ntohs-htons n rest h = ground arith
