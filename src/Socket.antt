-- ===== src/Socket.antt =====
-- The loop around `write` that stands in `arr_send_response` of server/nastdio.c and in `sendcmd` of
-- client/nastapi.c.
pub mod Laws
use nastd.Prelude.{ℕ, Bool, true, false, List, [], ◌∷◌, ◌++◌, take, drop}
use nastd.Prelude.Bytes.{Bytes}

-- What `write` does: it writes so many bytes, fails with EINTR or EAGAIN, or fails otherwise. Past
-- the end of a list of these every call writes all that it is given.
pub data Wrote : Type 0 where
  wrote : ℕ → Wrote
  again : Wrote
  broken : Wrote

-- The flag is false where the loop gives up; the bytes are those written.
unfoldable pub write_loop : List Wrote → Bytes → Bool × List Wrote × Bytes
write_loop net [] = (true, net, [])
write_loop [] buffer = (true, [], buffer)
write_loop (wrote n ∷ net) buffer =
    let rest = write_loop net (drop n buffer) in (rest.0, rest.1, take n buffer ++ rest.2)
write_loop (again ∷ net) buffer = write_loop net buffer
write_loop (broken ∷ net) buffer = (false, net, [])
