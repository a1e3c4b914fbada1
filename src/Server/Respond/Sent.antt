-- ===== src/Server/Respond/Sent.antt =====
-- What `arr_send_response` puts on the wire.
use nastd.Prelude.{
  ℕ, suc, ◌+◌, ◌≤◌, ◌<◌, ◌≡◌, refl, sym, ◌∙◌, ap, arith, List, [], ◌∷◌, ◌++◌, Option, none, some,
  length, length-append, Bool-cases, ◌⊎◌, inl, inr,
}
use nastd.Prelude.Bytes.{Bytes}
use nastd.Prelude.Fields.{join}
use nastd.Prelude.Outcome.{Outcome, returns, blocked, fault}
use nastd.Array.{Array}
use nastd.Ipc.{nastsep}
use nastd.Server.{Server, ok}
use nastd.Socket.{write_loop}
use nastd.Socket.Laws.{write_loop_lem, write_loop_nil}
use nastd.Server.Respond.{buffer_size, fill_items, frame, write_all, arr_send_response}

-- Items that fit are put into the buffer joined by the separator.
fill_items_fits :
    (l : ℕ) (items : List Bytes)
    → l + length (join nastsep items) ≤ buffer_size
    → fill_items l items ≡ returns (some (join nastsep items))
unfolding fill_items join
fill_items_fits l [] h = refl
fill_items_fits l (s ∷ []) h = ground arith
fill_items_fits l (s ∷ t ∷ items) h =
    let size : length (s ++ nastsep ∷ join nastsep (t ∷ items))
        ≡ length s + suc (length (join nastsep (t ∷ items))) =
      length-append s (nastsep ∷ join nastsep (t ∷ items)) in
    ground (arith, size, fill_items_fits (l + length s + 1) (t ∷ items))

fill_items-cases :
    (l : ℕ) (items : List Bytes)
    → ((b : Bytes) × (fill_items l items ≡ returns (some b)))
      ⊎ ((fill_items l items ≡ returns none)
          ⊎ (fill_items l items ≡ blocked)
          ⊎ (fill_items l items ≡ fault))
fill_items-cases l items = split (fill_items l items) refl
  where
    split :
        (r : Outcome (Option Bytes))
        → fill_items l items ≡ r
        → ((b : Bytes) × (fill_items l items ≡ returns (some b)))
          ⊎ ((fill_items l items ≡ returns none)
              ⊎ (fill_items l items ≡ blocked)
              ⊎ (fill_items l items ≡ fault))
    split (returns (some c)) q = inl (c, q)
    split (returns none) q = inr (inl q)
    split blocked q = inr (inr (inl q))
    split fault q = inr (inr (inr q))

-- what is put into the buffer is the join, and it fits
fill_items-some :
    (l : ℕ) (items : List Bytes) {b : Bytes}
    → l ≤ buffer_size
    → fill_items l items ≡ returns (some b)
    → (b ≡ join nastsep items) × (l + length b ≤ buffer_size)
unfolding fill_items join
fill_items-some l [] h e = ground arith
fill_items-some l (s ∷ []) h e = ground arith
fill_items-some l (s ∷ t ∷ items) {b} h e = elim (fill_items-cases (l + length s + 1) (t ∷ items)) [
  | inl (c, q) ↦
      let here : (b ≡ s ++ nastsep ∷ c) × (l + length s < buffer_size) = ground arith in
      let (same, fits) =
        fill_items-some (l + length s + 1) (t ∷ items) {b = c} (omega (arith, here.1)) q in
      (
        here.0 ∙ ap (λ t. s ++ nastsep ∷ t) same,
        rw here.0 (omega (arith, length-append s (nastsep ∷ c), fits)),
      )
  | inr q ↦ absurd (ground arith)
]

-- the bytes of a whole response to the items
abbrev pub response : ℕ → ℕ → Array → Bytes
response reqid r_code aa = frame reqid r_code (join nastsep aa)

write_all_lem :
    (buffer : Bytes) (s s' : Server)
    → write_all buffer s ≡ returns (ok, s')
    → s'.sent ≡ s.sent ++ buffer
unfolding write_all
write_all_lem buffer s s' e = elim (Bool-cases (write_loop s.net buffer).0) [
  | inl done ↦ ground (arith, write_loop_lem s.net buffer done)
  | inr not_done ↦ absurd (ground arith)
]

-- An `arr_send_response` that returns 0 has sent one whole response and nothing else, however the
-- socket cut the writes: the length, the number, the code, and the items joined by the separator.
-- The response has at most 1024 bytes.
pub arr_send_response_sent :
    (reqid r_code : ℕ) (aa : Array) (s s' : Server)
    → arr_send_response reqid r_code aa s ≡ returns (ok, s')
    → (s'.sent ≡ s.sent ++ response reqid r_code aa) × (length (response reqid r_code aa) ≤ 1024)
unfolding arr_send_response
arr_send_response_sent reqid r_code aa s s' e = elim (fill_items-cases 5 aa) [
  | inl (b, q) ↦
      let (same, fits) = fill_items-some 5 aa {b = b} (omega arith) q in
      let sent : s'.sent ≡ s.sent ++ frame reqid r_code b =
        write_all_lem (frame reqid r_code b) s s' (rw (q, arr_send_response) at e) in
      (sent ∙ rw same, rw (sym same) (omega (arith, fits)))
  | inr (inl q) ↦ absurd (cc (rw (q, arr_send_response) at e))
  | inr (inr (inl q)) ↦ absurd (cc (rw (q, arr_send_response) at e))
  | inr (inr (inr q)) ↦ absurd (cc (rw (q, arr_send_response) at e))
]

-- Items whose response has at most 1024 bytes are sent, and the call returns 0, on a socket that
-- takes all it is given.
pub arr_send_response_fits :
    (reqid r_code : ℕ) (aa : Array) (s : Server)
    → length (response reqid r_code aa) ≤ 1024
    → s.net ≡ []
    → arr_send_response reqid r_code aa s
      ≡ returns (ok, record s { net = []; sent = s.sent ++ response reqid r_code aa })
unfolding arr_send_response write_all
arr_send_response_fits reqid r_code aa s fits free =
    rw (fill_items_fits 5 aa (omega (arith, fits)), arr_send_response)
      (rw free (rw (write_loop_nil (response reqid r_code aa))))
