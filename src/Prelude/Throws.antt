-- ===== src/Prelude/Throws.antt =====
-- A call that returns or throws.
pub data Outcome {ℓ κ} (E : Type ℓ) (A : Type κ) : Type (ℓ ⊔ κ) where
  returned : A → Outcome E A
  thrown : E → Outcome E A
