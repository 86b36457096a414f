-- ===== src/HookRegistry/Batches.antt =====
-- src/gateway/src/hooks/registry.ts: the hooks of an event that is not awaited.
use flopsy.Prelude.{ℕ, zero, suc, ◌≤◌, ◌≡◌, refl, List, [], ◌∷◌, ◌++◌, arith, length, drop, Text}
use flopsy.Prelude.{take-drop, length-drop}
use flopsy.HookRegistry.{RegisteredHook, matching, batches, emit}

abbrev pub joined {ℓ} : {A : Type ℓ} → List (List A) → List A
joined [] = []
joined (b ∷ bs) = b ++ joined bs

module _ {S : Type 0} where
  joined-batches :
      (fuel : ℕ) (hooks : List (RegisteredHook S))
      → length hooks ≤ fuel
      → joined (batches fuel hooks) ≡ hooks
  unfolding batches
  joined-batches zero [] le = refl
  joined-batches zero (h ∷ hs) le = ground (arith, le)
  joined-batches (suc fuel) [] le = refl
  joined-batches (suc fuel) (h ∷ hs) le =
      let hooks : List (RegisteredHook S) = h ∷ hs in
      let rest : joined (batches fuel (drop 8 hooks)) ≡ drop 8 hooks =
        joined-batches fuel (drop 8 hooks) (omega (arith, le, length-drop 8 hooks)) in
      rw rest (take-drop 8 hooks)

  -- The batches are the hooks that match, each once and in order.
  pub joined-emit :
      (event : Text) (hooks : List (RegisteredHook S))
      → joined (emit event hooks) ≡ matching event hooks
  unfolding emit
  joined-emit event hooks =
      joined-batches (length (matching event hooks)) (matching event hooks) (omega arith)
