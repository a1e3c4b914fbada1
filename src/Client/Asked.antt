-- ===== src/Client/Asked.antt =====
-- client/nastapi.c: a command of an idle client, its answer, and the values of the answer.
use nastd.Prelude.{
  ℕ, suc, ◌+◌, ◌≤◌, ◌<◌, ◌≡◌, ◌≢◌, refl, sym, ◌∙◌, ap, arith, ◌==◌, ltb, leb, if◌then◌else◌, true,
  false, List, [], ◌∷◌, ◌++◌, some, length, take, take-append_self, get_elem?, set,
}
use mathlib.Core.List.{append-nil}
use nastd.Prelude.Bytes.{Bytes}
use nastd.Prelude.Fields.{join, ArePlain}
use nastd.Prelude.Outcome.{returns}
use nastd.Prelude.Run.{◌>>=◌}
use nastd.Socket.Laws.{write_loop_nil}
use nastd.Ipc.{htons, nastok, nastsep}
use nastd.Client.Table.{getmyresponse-addresponse}
use nastd.Server.Respond.{frame}
use nastd.Client.Answers.{Fits}
use nastd.Client.{error_of, NastResponse, freed, grow_responses, getmyresponse, build_result}
use nastd.Client.Table.{
  arrival, cleared, delresponse-IsReady, addresponse-IsReady, checkresponse-IsReady,
}
use nastd.Client.Session.{Sphincter, Arrival, got, ok, err, make_room, change, write_cmd, sendcmd}
use nastd.Client.Delivered.{getresponse_delivered}
use nastd.Client.Results.{build_result_nil}
use nastd.Client.Commands.{clip, short, send_text, ask, nast_get_result, parse_result, result_bytes}

-- A client at rest whose thread has a place in the table; the connection is whole, and there is
-- memory.
pub record IsIdle (i : ℕ) (ar : NastResponse) (c : Sphincter) : Type 0 where
  pub there : get_elem? c.responses i ≡ some ar
  pub placed : i < length c.responses
  pub kept : ar.buffer ≢ freed
  pub unlocked : c.locked ≡ false
  pub whole : c.net ≡ []
  pub memory : c.heap ≡ []

-- the client after a command of its thread has been sent
abbrev pub asking : ℕ → NastResponse → Bytes → Sphincter → Sphincter
asking i ar bytes c = record c {
  responses = set c.responses i (cleared ar);
  net = [];
  sent = c.sent ++ bytes;
  heap = [];
}

sendcmd_lem :
    (i : ℕ) (ar : NastResponse) (bytes : Bytes) (c : Sphincter)
    → IsIdle i ar c
    → sendcmd (suc i) bytes c ≡ returns (ok, asking i ar bytes c)
unfolding sendcmd make_room grow_responses change write_cmd
sendcmd_lem i ar bytes c q =
    let fits : leb (suc i) (length c.responses) ≡ true = ground (arith, q.placed) in
    rw (fits, sendcmd)
      (rw (q.memory, sendcmd)
        (rw (q.whole, sendcmd)
          (rw ((delresponse-IsReady c.responses i ar q.there q.kept).0, ◌>>=◌)
            (rw (write_loop_nil bytes, ◌>>=◌) refl))))

pub short_lem : (n : ℕ) → n ≤ 512 → short n ≡ some n
unfolding short
short_lem n h = ground arith

take_whole : (n : ℕ) (xs : Bytes) → n ≡ length xs → take n xs ≡ xs
take_whole n xs h = ap (take n) (sym (append-nil xs)) ∙ take-append_self xs [] n h

-- a text that fits is sent with its length and the number
send_text_lem :
    (i : ℕ) (ar : NastResponse) (text : Bytes) (c : Sphincter)
    → IsIdle i ar c
    → 4 + length text ≤ 512
    → send_text (suc i) text c
      ≡ returns (ok, asking i ar (htons (4 + length text) ++ (htons (suc i) ++ text)) c)
unfolding send_text
send_text_lem i ar text c q fits =
    let whole =
      take_whole (4 + length text) (htons (4 + length text) ++ (htons (suc i) ++ text))
        (omega arith) in
    let inside : ltb 512 (4 + length text) ≡ false = ground arith in
    rw (short_lem (4 + length text) fits, send_text)
      (rw (inside, send_text)
        (rw (whole, send_text)
          (sendcmd_lem i ar (htons (4 + length text) ++ (htons (suc i) ++ text)) c q)))

parse_result_lem :
    (tid : ℕ) (x : Bytes) (xs : List Bytes) (c : Sphincter)
    → ArePlain nastsep (x ∷ xs)
    → c.heap ≡ []
    → parse_result tid (join nastsep (x ∷ xs)) c ≡ returns (some (x ∷ xs), record c { heap = [] })
unfolding parse_result
parse_result_lem tid x xs c plain memory =
    let built : build_result (join nastsep (x ∷ xs)) c.heap ≡ (some (x ∷ xs), []) =
      ap (build_result (join nastsep (x ∷ xs))) memory ∙ build_result_nil x xs plain in
    let first : (build_result (join nastsep (x ∷ xs)) c.heap).0 ≡ some (x ∷ xs) =
      ap (λ r. r.0) built in
    rw (first, parse_result) (ap (λ r. returns (some (x ∷ xs), record c { heap = r.1 })) built)

module _ (i : ℕ) (ar : NastResponse) (c : Sphincter) (q : IsIdle i ar c) where
  -- the client after the response has come
  abbrev pub told : ℕ → Bytes → Bytes → List Arrival → Sphincter
  told code items bytes w = record (asking i ar bytes c) {
    responses =
        set
          (set (set c.responses i (cleared ar)) i (record (cleared ar) { errcode = error_of code }))
          i (arrival (suc i) code items);
    locked = false;
    wire = w;
  }

  -- A command whose bytes fit the buffer, answered by one response in one read.
  pub ask_lem :
      (text : Bytes) (code : ℕ) (items behind : Bytes) (w : List Arrival)
      → 4 + length text ≤ 512
      → Fits (record { reqid = suc i; code = code; items = items })
      → suc i ≢ 65535
      → c.wire ≡ got (frame (suc i) code items) behind ∷ w
      → ask (suc i) text c
        ≡ returns (
          (if code == nastok then ok else err),
          told code items (htons (4 + length text) ++ (htons (suc i) ++ text)) w,
        )
  unfolding ask
  ask_lem text code items behind w fits f ne arrives =
      let bytes = htons (4 + length text) ++ (htons (suc i) ++ text) in
      let ready = (delresponse-IsReady c.responses i ar q.there q.kept).1 in
      let t = set c.responses i (cleared ar) in
      rw (send_text_lem i ar text c q fits, ◌>>=◌)
        (getresponse_delivered (suc i) code items behind w (asking i ar bytes c) f ne q.unlocked
          arrives (checkresponse-IsReady t i (cleared ar) ready)
          (addresponse-IsReady t i code items (cleared ar) ready))

  pub told_response :
      (code : ℕ) (items bytes : Bytes) (w : List Arrival)
      → suc i ≢ 65535
      → getmyresponse (told code items bytes w).responses (suc i)
        ≡ returns (some (arrival (suc i) code items))
  told_response code items bytes w ne =
      let t = set c.responses i (cleared ar) in
      let ready = (delresponse-IsReady c.responses i ar q.there q.kept).1 in
      (getmyresponse-addresponse t (suc i) code items [] 0 ne
        (addresponse-IsReady t i code items (cleared ar) ready)).0

  -- the values of the response
  pub get_result_lem :
      (x : Bytes) (xs : List Bytes) (code : ℕ) (bytes : Bytes) (w : List Arrival)
      → ArePlain nastsep (x ∷ xs)
      → suc i ≢ 65535
      → nast_get_result (suc i) (told code (join nastsep (x ∷ xs)) bytes w)
        ≡ returns (some (x ∷ xs), told code (join nastsep (x ∷ xs)) bytes w)
  unfolding nast_get_result result_bytes
  get_result_lem x xs code bytes w plain ne =
      rw (told_response code (join nastsep (x ∷ xs)) bytes w ne, nast_get_result)
        (parse_result_lem (suc i) x xs (told code (join nastsep (x ∷ xs)) bytes w) plain refl)

pub clip_lem : (text : Bytes) → 4 + length text < 512 → clip text ≡ text
unfolding clip
clip_lem text h = ground arith
