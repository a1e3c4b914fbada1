-- ===== src/Prelude/Outcome.antt =====
-- How a call of the program ends: it returns, it waits for a lock that it holds itself, or it
-- touches memory that it may not (a NULL or dangling pointer, a place outside a buffer).
pub data Outcome {ℓ} (A : Type ℓ) : Type ℓ where
  returns : A → Outcome A
  blocked : Outcome A
  fault : Outcome A
