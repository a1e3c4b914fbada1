-- ===== src/Periodic/Looks.antt =====
-- server/periodic.c looks at the database file in every thirtieth second, and in no other.
use nastd.Prelude.{
  ap, ℕ, zero, suc, ◌+◌, ◌≡◌, refl, ◌∙◌, arith, ◌==◌, Bool, true, false, List, [], ◌∷◌, ◌++◌,
  length,
}
use nastd.Prelude.Bytes.{Bytes}
use nastd.Prelude.Outcome.{Outcome, returns, blocked, fault}
use nastd.Cdb.{Cdb}
use nastd.Prelude.Alloc.{Heap}
use nastd.Cdb.Query.{cdb_periodic}
use nastd.Rate.{Float, cdb_collate}
use nastd.Periodic.{periodicity, Look, Clock, collate_all, look_at, round, periodic_looper}

module _ (float : Float) (dbname dbtbl : Bytes) where
  -- rounds without a look
  unfoldable pub ticked : ℕ → Clock float dbname dbtbl → Clock float dbname dbtbl
  ticked zero c = c
  ticked (suc n) c = ticked n (collate_all float dbname dbtbl (record c { count = c.count + 1 }))

  early_rounds :
      (early : List Look) (look : Look) (c : Clock float dbname dbtbl)
      → c.count + length early + 1 ≡ periodicity
      → periodic_looper float dbname dbtbl (early ++ look ∷ []) c
        ≡ periodic_looper float dbname dbtbl (look ∷ []) (ticked (length early) c)
  unfolding periodic_looper round collate_all ticked
  early_rounds [] look c h = refl
  early_rounds (e ∷ early) look c h =
      let not_yet : (c.count + 1 == periodicity) ≡ false = ground arith in
      rw (not_yet, periodic_looper)
        (early_rounds early look (collate_all float dbname dbtbl (record c { count = c.count + 1 }))
          (omega arith))

  ticked_lem :
      (n : ℕ) (c : Clock float dbname dbtbl)
      → ((ticked (suc n) c).cdb.0 ≡ record (c.cdb.0) { sec_c = 0 })
        × ((ticked (suc n) c).heap ≡ c.heap)
        × ((ticked (suc n) c).count ≡ c.count + suc n)
  unfolding collate_all cdb_collate ticked
  ticked_lem zero c = (refl, refl, omega arith)
  ticked_lem (suc n) c =
      let (a, b, d) =
        ticked_lem n (collate_all float dbname dbtbl (record c { count = c.count + 1 })) in
      (a, b, omega arith)

  -- after the thirtieth second
  unfoldable pub thirtieth : Look → Clock float dbname dbtbl → Outcome (Clock float dbname dbtbl)
  thirtieth look c = elim (cdb_periodic dbname dbtbl look.0 look.1 c.cdb.0 c.heap) [
    | returns (done, db, h) ↦
        returns
          (collate_all float dbname dbtbl (record c { count = 0; cdb = (db, c.cdb.1); heap = h }))
    | blocked ↦ blocked
    | fault ↦ fault
  ]

  last_round :
      (look : Look) (c : Clock float dbname dbtbl)
      → c.count + 1 ≡ periodicity
      → periodic_looper float dbname dbtbl (look ∷ []) c ≡ thirtieth look c
  unfolding periodic_looper round look_at thirtieth
  last_round look c h =
      let last : (c.count + 1 == periodicity) ≡ true = ground arith in
      split last (cdb_periodic dbname dbtbl look.0 look.1 c.cdb.0 c.heap) refl
    where
      split :
          (c.count + 1 == periodicity) ≡ true
          → (o : Outcome (Bool × Cdb × Heap))
          → cdb_periodic dbname dbtbl look.0 look.1 c.cdb.0 c.heap ≡ o
          → periodic_looper float dbname dbtbl (look ∷ []) c ≡ thirtieth look c
      split last (returns (rc, db, h)) e = rw (last, periodic_looper) (rw (e, thirtieth) refl)
      split last blocked e = rw (last, periodic_looper) (rw (e, thirtieth) refl)
      split last fault e = rw (last, periodic_looper) (rw (e, thirtieth) refl)

  -- Thirty rounds from a count of 0 call `cdb_periodic` once, with what the last of them finds and
  -- the database file that was served at their start, and end with a count of 0; what the 29 rounds
  -- before would find does not matter.
  pub periodic_looper_looks :
      (first : Look) (early : List Look) (look : Look) (c : Clock float dbname dbtbl)
      → c.count ≡ 0
      → length early ≡ 28
      → (periodic_looper float dbname dbtbl (first ∷ early ++ look ∷ []) c
          ≡ thirtieth look (ticked 29 c))
        × ((ticked 29 c).cdb.0 ≡ record (c.cdb.0) { sec_c = 0 })
        × ((ticked 29 c).heap ≡ c.heap)
  periodic_looper_looks first early look c start many =
      let (same, heap, count) = ticked_lem 28 c in
      (
        early_rounds (first ∷ early) look c (omega arith)
            ∙ ap (λ n. periodic_looper float dbname dbtbl (look ∷ []) (ticked (suc n) c)) many
            ∙ last_round look (ticked 29 c) (omega (arith, count)),
        same,
        heap,
      )
