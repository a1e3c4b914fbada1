-- ===== src/Client/Connect.antt =====
-- client/nastapi.c: `nast_sphincter_new` and `nast_sphincter_close`.
use nastd.Prelude.{ℕ, zero, suc, if◌then◌else◌, Bool, true, false, [], ◌∷◌, Option, none, some}
use nastd.Prelude.Alloc.{Heap, malloc}
use nastd.Prelude.Outcome.{Outcome, returns, blocked, fault}
use nastd.Client.{null, held, Responses}

-- the field `socket`: not written yet, -1, or a descriptor
pub data Descriptor : Type 0 where
  unset : Descriptor
  minus_one : Descriptor
  opened : Descriptor

-- `nasth` as these functions use it; `lock` says that there is one
pub record Handle : Type 0 where
  pub nthreads : ℕ
  pub responses : Option Responses
  pub lock : Bool
  pub socket : Descriptor

-- The loop over the responses: the first `n` are released, and the others are left.
unfoldable pub free_responses : ℕ → Responses → Outcome Responses
free_responses zero rs = returns rs
free_responses (suc n) [] = fault
free_responses (suc n) (ar ∷ rs) = elim ar.buffer [
  | null ↦ free_responses n rs
  | held b ↦ free_responses n rs
  | _ ↦ fault
]

-- The responses that are never released. `nthreads` is 0 when the loop starts. To close a descriptor
-- that has not been written is `fault`.
unfoldable pub nast_sphincter_close : Handle → Outcome Responses
nast_sphincter_close s =
    let cleared : Handle = record s { nthreads = 0 } in
    elim cleared.socket [
      | unset ↦ fault
      | _ ↦ elim cleared.responses [
        | none ↦ returns []
        | some rs ↦ free_responses cleared.nthreads rs
      ]
    ]

-- What the calls of `nast_sphincter_new` give: the allocator, and whether `_nast_mutex_new`,
-- `socket` and `connect` succeed.
pub record Calls : Type 0 where
  pub heap : Heap
  pub mutex_made : Bool
  pub socket_made : Bool
  pub connects : Bool

-- NULL, once what there is has been closed
unfoldable pub close_and_fail : Handle → Outcome (Option Handle)
close_and_fail h = elim (nast_sphincter_close h) [
  | returns _ ↦ returns none
  | blocked ↦ blocked
  | fault ↦ fault
]

unfoldable pub nast_sphincter_new : Calls → Outcome (Option Handle)
nast_sphincter_new c =
    let (block, h₁) = malloc c.heap in
    let (lock, h₂) = malloc h₁ in
    let new : Handle = record { nthreads = 0; responses = none; lock = false; socket = unset } in
    let locked : Handle = record new { lock = true } in
    elim block [
      | none ↦ returns none
      | some _ ↦ elim lock [
        | none ↦ close_and_fail new
        | some _ ↦
            if c.mutex_made
            then (if c.socket_made
                then (if c.connects
                    then returns (some (record locked { socket = opened }))
                    else close_and_fail (record locked { socket = opened }))
                else close_and_fail (record locked { socket = minus_one }))
            else close_and_fail locked
      ]
    ]
