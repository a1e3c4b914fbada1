-- ===== src/Client/Unheard.antt =====
-- client/nastapi.c: answers to other threads, which `getresponse` reads without counting a try.
use nastd.Prelude.{ℕ, zero, suc, ◌<◌, ◌≢◌, List, [], ◌∷◌}
use nastd.Prelude.Bytes.{Bytes}
use nastd.Client.Session.{Arrival, got}
use nastd.Client.Answers.{Answer}

-- answers to other threads than `tid`
abbrev pub AllForOthers : ℕ → List Answer → Type 0
AllForOthers tid [] = Unit
AllForOthers tid (a ∷ rs) = ((0 < a.reqid) × (a.reqid ≢ tid)) × AllForOthers tid rs

-- so many reads, each of which brings these bytes, and then `w`
abbrev pub reads : ℕ → Bytes → Bytes → List Arrival → List Arrival
reads zero bytes behind w = w
reads (suc n) bytes behind w = got bytes behind ∷ reads n bytes behind w
