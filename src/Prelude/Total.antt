-- ===== src/Prelude/Total.antt =====
-- A state for each of the threads 0, 1, ...: the change of one of them, and what the first ones
-- weigh together.
use Prim.Native.Nat.{ℕ, zero, suc, ◌+◌, ◌≤◌, ◌<◌}
use mathlib.Core.Path.{◌≡◌}
use native.Mathlib.Omega.{arith}
use nastd.Prelude.Tests.{◌==◌, ltb, if◌then◌else◌}

abbrev pub update {ℓ} : {A : Type ℓ} → (ℕ → A) → ℕ → A → ℕ → A
update old k new j = if k == j then new else old j

module _ {ℓ} {A : Type ℓ} (weigh : A → ℕ) where
  unfoldable pub total : ℕ → (ℕ → A) → ℕ
  total zero states = 0
  total (suc k) states = weigh (states k) + total k states

  -- the weight of a state at `k`, if `k` is among the first `n`
  counted_at : ℕ → ℕ → A → ℕ
  counted_at n k s = if ltb k n then weigh s else 0

  exchange :
      (k : ℕ) (new : A) (states : ℕ → A) (n : ℕ)
      → counted_at n k (states k) + total n (update states k new)
        ≡ counted_at n k new + total n states
  unfolding total counted_at
  exchange k new states zero = ground arith
  exchange k new states (suc n) = ground (arith, exchange k new states n)

  pub total-update :
      (n : ℕ) (states : ℕ → A) (k : ℕ) (new : A)
      → k < n
      → total n (update states k new) + weigh (states k) ≡ total n states + weigh new
  unfolding counted_at
  total-update n states k new among = ground (arith, exchange k new states n)

  pub le-total : (n : ℕ) (states : ℕ → A) (k : ℕ) → k < n → weigh (states k) ≤ total n states
  unfolding total
  le-total zero states k among = absurd (omega arith)
  le-total (suc n) states k among = ground (arith, le-total n states k)
