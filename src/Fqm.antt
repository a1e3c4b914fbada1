-- ===== src/Fqm.antt =====
-- server/fqm.c and server/fqm.h: the fallthrough queue manager, a bounded queue of requests with a
-- pool of worker threads. The list from `sreq` to `ereq` is a list. `req_handler` is `do_fallthrough`
-- in every request that the program makes.
pub mod System
pub mod Order
pub mod Pool
pub mod Delete
pub mod Wait
pub mod Shutdown
pub mod Start
pub mod Deletes
pub mod Started
pub mod Returns
use nastd.Prelude.{
  ℕ, zero, suc, ◌+◌, ◌-◌, ◌==◌, if◌then◌else◌, Bool, true, false, List, [], ◌∷◌, ◌++◌, Option, none,
  some,
}
use nastd.Prelude.Bytes.{Bytes}
use nastd.Prelude.Alloc.{Alloc, ◌>>=◌, ◌>>◌, pure, malloc}

-- `struct _request_t`: `req` without its NUL
pub record Request : Type 0 where
  pub req : Bytes
  pub sock : ℕ
  pub reqid : ℕ

unfoldable pub req_new : ℕ → ℕ → Bytes → Alloc Request
req_new sock reqid reqstr = do
  malloc
  malloc
  pure (record { req = reqstr; sock = sock; reqid = reqid })

-- `struct _fqm_t` less the threads and the condition variables
pub record Fqm : Type 0 where
  pub queue : List Request
  pub maxitems : ℕ
  pub nitems : ℕ

-- the test of `fqm_push`, which is made without the lock
unfoldable pub is_full : Fqm → Bool
is_full fqm = fqm.nitems == fqm.maxitems

-- under the lock
unfoldable pub enqueue : Request → Fqm → Fqm
enqueue req fqm = record fqm { queue = fqm.queue ++ req ∷ []; nitems = fqm.nitems + 1 }

-- The flag is `rc == 0`.
unfoldable pub fqm_push : Request → Fqm → Bool × Fqm
fqm_push req fqm = if is_full fqm then (false, fqm) else (true, enqueue req fqm)

-- `fqm_pop` from the reading of `sreq` on; `none` is NULL
unfoldable pub dequeue : Fqm → Option (Request × Fqm)
dequeue fqm = elim fqm.queue [
  | [] ↦ none
  | p ∷ rest ↦ some (p, record fqm { queue = rest; nitems = fqm.nitems - 1 })
]

-- the function as it stands: the pool's size cannot be changed
unfoldable pub fqm_changemaxitems : Fqm → ℕ → Bool × Fqm
fqm_changemaxitems fqm maxitems = (true, fqm)
