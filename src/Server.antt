-- ===== src/Server.antt =====
-- server/nastdio.c: the connection of one client, the requests on it, and what is sent back. The
-- children build and write the answers (Respond), keep the client's options (Options), look up keys
-- (Lookup), take updates (Update), report (Stats), and read commands (Command).
pub mod Respond
pub mod Options
pub mod Lookup
pub mod Update
pub mod Stats
pub mod Fallthrough
pub mod Command
use nastd.Prelude.{
  ℕ, ◌+◌, ltb, if◌then◌else◌, Bool, true, false, List, [], ◌∷◌, ◌++◌, Option, none, some, length,
  take, drop,
}
use nastd.Prelude.Bytes.{Bytes}
use nastd.Prelude.Alloc.{Heap, Alloc}
use nastd.Prelude.Outcome.{Outcome, returns, blocked, fault}
use nastd.Prelude.Run.{Run}
pub use nastd.Prelude.Run.{◌>>=◌, ◌>>◌, pure, crash}
use nastd.Thread.{RwMutex}
use nastd.Memdb.{Memdb}
use nastd.Cdb.{Cdb}
use nastd.Fqm.{Fqm}
use nastd.Socket.{Wrote}
use nastd.Ipc.{NastOptions}

-- `struct _client_opts` less the thread
pub record ClientOpts : Type 0 where
  pub sock : ℕ
  pub opts : NastOptions
  pub opt_lk : RwMutex

-- All that a handler reads and changes. `sent` is what the client's socket has taken, in order, and
-- `usable n` the number of bytes that may be written to a block that `malloc(n)` gives.
pub record Server : Type 0 where
  pub memdb : Memdb
  pub cdb : Cdb
  pub fqm : Fqm
  pub cops : ClientOpts
  pub heap : Heap
  pub usable : ℕ → ℕ
  pub net : List Wrote
  pub sent : Bytes

-- what the handlers return: 0, -1, or the 1 of `process_cmd` that closes the connection
pub data Rc : Type 0 where
  ok : Rc
  err : Rc
  bye : Rc

abbrev pub Act {ℓ} : Type ℓ → Type ℓ
Act = Run Server

-- a call of the allocator
abbrev pub alloc {ℓ} : {A : Type ℓ} → Alloc A → Act (Option A)
alloc m s = let (o, h) = m s.heap in returns (o, record s { heap = h })
