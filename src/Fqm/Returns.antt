-- ===== src/Fqm/Returns.antt =====
-- server/fqm.c: `fqm_new` returns where its threads die.
use nastd.Prelude.{
  ℕ, zero, suc, ◌≤◌, ap, ◌≡◌, refl, arith, List, [], ◌∷◌, ◌++◌, Option, some, length,
}
use nastd.Prelude.Outcome.{Outcome, returns, blocked, fault}
use nastd.Prelude.Run.{Yields}
use nastd.Fqm.System.{idle, busy, noalloc}
use nastd.Fqm.Pool.{Tids}
use nastd.Fqm.Delete.{Turn, fqm_delete}
use nastd.Fqm.Wait.{IsLast}
use nastd.Fqm.Shutdown.{fqm_delete-Ends}
use nastd.Fqm.Start.{Boot, fqm_new}
use nastd.Fqm.Started.{AllIdle-AllThere, IsPool, Settles, fqm_new-Settles}

IsLast-le : (m n : ℕ) (turn : Turn) → m ≤ n → IsLast n turn → IsLast m turn
IsLast-le zero n turn h l = tt
IsLast-le (suc m) zero turn h l = absurd (omega arith)
IsLast-le (suc m) (suc n) [] h l = absurd l
IsLast-le (suc m) (suc n) (noalloc ∷ turn) h l = IsLast-le m n turn (omega arith) l
IsLast-le (suc m) (suc n) (idle ∷ turn) h l = absurd l
IsLast-le (suc m) (suc n) (busy ∷ turn) h l = absurd l

-- Where the threads that have been started before a failure all die at some time, it returns.
pub fqm_new-Returns :
    (maxitems : ℕ) (before : List Turn) (last : Turn) (after : List Turn)
    → IsLast maxitems last
    → (s : Boot) → s.turns ≡ before ++ last ∷ after
    → Yields (λ tids t. IsPool maxitems tids) (fqm_new maxitems s)
fqm_new-Returns maxitems before last after dies s w =
    split (fqm_new maxitems s) refl (fqm_new-Settles maxitems s)
  where
    split :
        (o : Outcome (Option Tids × Boot))
        → fqm_new maxitems s ≡ o
        → Settles s.turns maxitems o
        → Yields (λ tids t. IsPool maxitems tids) (fqm_new maxitems s)
    split (returns (tids, t)) e p = (tids, t, e, p)
    split blocked e (tids, a, some_, few, stuck) =
        let (t, ends, gone) =
          fqm_delete-Ends before after last tids (AllIdle-AllThere tids a)
            (IsLast-le (length tids) maxitems last (omega (arith, few)) dies) in
        absurd (cc (stuck, ap (λ u. fqm_delete u (some tids)) w, ends))
    split fault e p = absurd p
