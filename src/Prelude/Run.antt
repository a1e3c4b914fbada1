-- ===== src/Prelude/Run.antt =====
-- Calls that change a state: what they return and the state that they leave, if they return.
use mathlib.Core.Path.{◌≡◌, refl, ◌∙◌}
use nastd.Prelude.Outcome.{Outcome, returns, blocked, fault}

abbrev pub Run {ℓ κ} : Type ℓ → Type κ → Type (ℓ ⊔ κ)
Run S A = S → Outcome (A × S)

infixl 5 ◌>>=◌ ◌>>◌
abbrev pub ◌>>=◌ {ℓ κ μ} :
    {S : Type ℓ} {A : Type κ} {B : Type μ} → Run S A → (A → Run S B) → Run S B
◌>>=◌ m f s = elim (m s) [ returns (a, s') ↦ f a s' | blocked ↦ blocked | fault ↦ fault ]

abbrev pub ◌>>◌ {ℓ κ μ} : {S : Type ℓ} {A : Type κ} {B : Type μ} → Run S A → Run S B → Run S B
m >> k = m >>= λ _. k

abbrev pub pure {ℓ κ} : {S : Type ℓ} {A : Type κ} → A → Run S A
pure a s = returns (a, s)

abbrev pub crash {ℓ κ} : {S : Type ℓ} {A : Type κ} → Run S A
crash s = fault

-- what follows a call that returns
pub >>=-returns {ℓ κ μ} :
    {S : Type ℓ} {A : Type κ} {B : Type μ} (m : Run S A) (f : A → Run S B) (s : S) {a : A} {t : S}
    → m s ≡ returns (a, t)
    → (m >>= f) s ≡ f a t
>>=-returns m f s e = rw (e, ◌>>=◌) refl

-- The call returns, and what it returns has the property.
abbrev pub Yields {ℓ κ μ} :
    {S : Type ℓ} {A : Type κ} → (A → S → Type μ) → Outcome (A × S) → Type (ℓ ⊔ κ ⊔ μ)
Yields {S = S} {A = A} P o = (a : A) × (t : S) × (o ≡ returns (a, t)) × P a t

pub >>=-Yields {ℓ κ μ ν ξ} :
    {S : Type ℓ} {A : Type κ} {B : Type μ} (P : A → S → Type ν) (Q : B → S → Type ξ) (m : Run S A)
    (f : A → Run S B) (s : S)
    → Yields P (m s)
    → ((a : A) (t : S) → P a t → Yields Q (f a t))
    → Yields Q ((m >>= f) s)
>>=-Yields P Q m f s (a, t, e, p) k =
    let (b, u, e', q) = k a t p in (b, u, >>=-returns m f s e ∙ e', q)

-- What the call returns, if it returns, has the property.
abbrev pub Allows {ℓ κ μ} : {S : Type ℓ} {A : Type κ} → (A → S → Type μ) → Outcome (A × S) → Type μ
Allows P (returns (a, t)) = P a t
Allows P blocked = Unit
Allows P fault = Unit

pub >>=-Allows {ℓ κ μ ν ξ} :
    {S : Type ℓ} {A : Type κ} {B : Type μ} (P : A → S → Type ν) (Q : B → S → Type ξ) (m : Run S A)
    (f : A → Run S B) (s : S)
    → Allows P (m s)
    → ((a : A) (t : S) → P a t → Allows Q (f a t))
    → Allows Q ((m >>= f) s)
>>=-Allows {S} {A} P Q m f s p k = split (m s) refl p
  where
    split : (o : Outcome (A × S)) → m s ≡ o → Allows P o → Allows Q ((m >>= f) s)
    split (returns (a, t)) e q = rw (e, ◌>>=◌) (k a t q)
    split blocked e q = rw (e, ◌>>=◌) tt
    split fault e q = rw (e, ◌>>=◌) tt

pub Allows-weaken {ℓ κ μ ν} :
    {S : Type ℓ} {A : Type κ} (P : A → S → Type μ) (Q : A → S → Type ν) (o : Outcome (A × S))
    → Allows P o
    → ((a : A) (t : S) → P a t → Q a t)
    → Allows Q o
Allows-weaken P Q (returns (a, t)) p k = k a t p
Allows-weaken P Q blocked p k = tt
Allows-weaken P Q fault p k = tt
