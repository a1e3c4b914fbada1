-- ===== src/Socket/Laws.antt =====
-- What the loop around `write` has written.
use nastd.Prelude.{◌≡◌, refl, ◌∙◌, ap, true, List, [], ◌∷◌, ◌++◌, take, drop, take-append-drop}
use nastd.Prelude.Bytes.{Bytes}
use nastd.Socket.{Wrote, wrote, again, broken, write_loop}

-- what the loop of `write` has written when it has finished
pub write_loop_lem :
    (net : List Wrote) (buffer : Bytes)
    → (write_loop net buffer).0 ≡ true
    → (write_loop net buffer).2 ≡ buffer
unfolding write_loop
write_loop_lem net [] e = refl
write_loop_lem [] (b ∷ buffer) e = refl
write_loop_lem (wrote n ∷ net) (b ∷ buffer) e =
    ap (λ t. take n (b ∷ buffer) ++ t) (write_loop_lem net (drop n (b ∷ buffer)) e)
    ∙ take-append-drop n (b ∷ buffer)
write_loop_lem (again ∷ net) (b ∷ buffer) e = write_loop_lem net (b ∷ buffer) e
write_loop_lem (broken ∷ net) (b ∷ buffer) e = cc

pub write_loop_nil : (buffer : Bytes) → write_loop [] buffer ≡ (true, [], buffer)
unfolding write_loop
write_loop_nil [] = refl
write_loop_nil (b ∷ buffer) = refl
